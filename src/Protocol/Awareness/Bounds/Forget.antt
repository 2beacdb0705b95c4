-- ===== src/Protocol/Awareness/Bounds/Forget.antt =====
-- Counting the entries that are present, and what forgetOldest leaves of a map.
use crdt_server.Base.{
  ℕ, zero, suc, ◌+◌, ◌≤◌, ◌≡◌, refl, ap, ◌∙◌, [], ◌∷◌, Bool, false, Option, none, some, ltb, length,
  if◌then◌else◌, All, arith, ◌⊎◌, inl, inr, Bool-cases, if-cases, Option-cases,
}
use native.Mathlib.Nat.{le_refl}
use crdt_server.Base.GoMap.{
  GoMap, lookup, get, insert, delete, IsDistinct, lookup-delete, delete-IsDistinct, All-delete,
  length-delete,
}
use crdt_server.Protocol.Awareness.{
  Entry, zero_entry, count_present, older, find_oldest, reaches, forget_loop, forget_oldest,
}

abbrev pub one : Bool → ℕ
one b = if b then 1 else 0

-- Whether the entry that a client has is present.
abbrev pub is_present : ℕ → GoMap Entry → Bool
is_present k m = (get zero_entry k m).present

pub count_present-insert :
    (k : ℕ) (e : Entry) (m : GoMap Entry)
    → count_present (insert k e m) + one (is_present k m) ≡ count_present m + one e.present
unfolding count_present insert get lookup
count_present-insert k e [] = ground arith
count_present-insert k e ((j, w) ∷ m) = ground (arith, count_present-insert k e m)

pub count_present-delete :
    (k : ℕ) (m : GoMap Entry) → count_present (delete k m) + one (is_present k m) ≡ count_present m
unfolding count_present delete get lookup
count_present-delete k [] = ground arith
count_present-delete k ((j, w) ∷ m) = ground (arith, count_present-delete k m)

pub count_present-length : (m : GoMap Entry) → count_present m ≤ length m
unfolding count_present
count_present-length [] = omega arith
count_present-length ((j, w) ∷ m) = ground (arith, count_present-length m)

older-some : (k : ℕ) (e : Entry) (found : Option (ℕ × ℕ)) → (y : ℕ × ℕ) × (older k e found ≡ some y)
unfolding older
older-some k e none = ((k, e.last_updated), refl)
older-some k e (some (i, at)) = elim (Bool-cases (ltb e.last_updated at)) [
  | inl q ↦ ((k, e.last_updated), rw q refl)
  | inr q ↦ ((i, at), rw q refl)
]

find_oldest-some : (m : GoMap Entry) (x : ℕ × ℕ) → (y : ℕ × ℕ) × (find_oldest (some x) m ≡ some y)
unfolding find_oldest
find_oldest-some [] x = (x, refl)
find_oldest-some ((k, e) ∷ m) x = elim (Bool-cases e.present) [
  | inl p ↦ rw p (find_oldest-some m x)
  | inr p ↦ let (z, o) = older-some k e (some x) in rw (p, o) (find_oldest-some m z)
]

find_oldest-none : (m : GoMap Entry) → find_oldest none m ≡ none → count_present m ≡ length m
unfolding find_oldest count_present
find_oldest-none [] h = refl
find_oldest-none ((k, e) ∷ m) h = elim (Bool-cases e.present) [
  | inl p ↦ rw p (ap suc (find_oldest-none m (rw p at h)))
  | inr p ↦
      let (z, o) = older-some k e none in
      let (y, f) = find_oldest-some m z in
      let g : find_oldest (older k e none) m ≡ none = rw p at h in
      let g' : find_oldest (some z) m ≡ none = rw o at g in cc (f, g')
]

lookup-behind :
    (j k : ℕ) (e x : Entry) (m : GoMap Entry)
    → lookup j m ≡ none
    → lookup k m ≡ some x
    → lookup k ((j, e) ∷ m) ≡ some x
unfolding lookup
lookup-behind j k e x m h l = ground arith

lookup-here : (k : ℕ) (e : Entry) (m : GoMap Entry) → lookup k ((k, e) ∷ m) ≡ some e
unfolding lookup
lookup-here k e m = ground arith

older-cases :
    (k : ℕ) (e : Entry) (found : Option (ℕ × ℕ)) (oldest : ℕ × ℕ)
    → older k e found ≡ some oldest
    → (found ≡ some oldest) ⊎ (k ≡ oldest.0)
unfolding older
older-cases k e none oldest h =
    let same : (k, e.last_updated) ≡ oldest = cc in inr (ap (λ x. x.0) same)
older-cases k e (some (i, at)) oldest h = elim (if-cases (ltb e.last_updated at) h) [
  | inl (_, f) ↦ let same : (k, e.last_updated) ≡ oldest = cc in inr (ap (λ x. x.0) same)
  | inr (_, f) ↦ inl f
]

-- What the search finds is the entry that it was given, or a removed one of the map.
find_oldest-removed :
    (m : GoMap Entry) (found : Option (ℕ × ℕ)) (oldest : ℕ × ℕ)
    → IsDistinct m
    → find_oldest found m ≡ some oldest
    → (found ≡ some oldest) ⊎ ((e : Entry) × (lookup oldest.0 m ≡ some e) × (e.present ≡ false))
unfolding find_oldest IsDistinct
find_oldest-removed [] found oldest d h = inl h
find_oldest-removed ((j, e) ∷ m) found oldest (d, ds) h = elim (Bool-cases e.present) [
  | inl p ↦ elim (find_oldest-removed m found oldest ds (rw p at h)) [
    | inl f ↦ inl f
    | inr (x, l, r) ↦ inr (x, lookup-behind j oldest.0 e x m d l, r)
  ]
  | inr p ↦ elim (find_oldest-removed m (older j e found) oldest ds (rw p at h)) [
    | inl f ↦ elim (older-cases j e found oldest f) [
      | inl f ↦ inl f
      | inr same ↦ inr (e, rw (← same) (lookup-here j e m), p)
    ]
    | inr (x, l, r) ↦ inr (x, lookup-behind j oldest.0 e x m d l, r)
  ]
]

-- What forgetOldest leaves.
pub record Forgets (limit : ℕ) (m r : GoMap Entry) : Type 1 where
  pub counted : count_present r ≡ count_present m
  pub distinct : IsDistinct r
  pub absent : (k : ℕ) → lookup k m ≡ none → lookup k r ≡ none
  pub all : (P : ℕ × Entry → Type 0) → All P m → All P r
  pub bounded : (reaches (length r) limit ≡ false) ⊎ (count_present r ≡ length r)

pub Forgets-same :
    (limit : ℕ) (m : GoMap Entry)
    → IsDistinct m
    → (reaches (length m) limit ≡ false) ⊎ (count_present m ≡ length m)
    → Forgets limit m m
Forgets-same limit m d b = record {
  counted = refl;
  distinct = d;
  absent = λ k e. e;
  all = λ P a. a;
  bounded = b;
}

Forgets-delete :
    (limit : ℕ) (m r : GoMap Entry) (k : ℕ) (e : Entry)
    → lookup k m ≡ some e
    → e.present ≡ false
    → Forgets limit (delete k m) r
    → Forgets limit m r
unfolding get
Forgets-delete limit m r k e l p f =
    let gone : is_present k m ≡ false = rw (l, is_present, get) p in
    record {
      counted = f.counted ∙ (let c = rw gone at (count_present-delete k m) in omega (arith, c));
      distinct = f.distinct;
      absent = λ j h. f.absent j (lookup-delete k m j h);
      all = λ P a. f.all P (All-delete P k m a);
      bounded = f.bounded;
    }

forget_loop-Forgets :
    (rounds limit : ℕ) (m : GoMap Entry)
    → length m ≤ rounds
    → IsDistinct m
    → Forgets limit m (forget_loop rounds limit m)
unfolding forget_loop
forget_loop-Forgets zero limit [] h d = Forgets-same limit [] d (inr (unfold count_present in refl))
forget_loop-Forgets zero limit (x ∷ m) h d = absurd (omega (arith, h))
forget_loop-Forgets (suc rounds) limit m h d = elim (Option-cases (find_oldest none m)) [
  | inl n ↦ rw (n, forget_loop) (Forgets-same limit m d (inr (find_oldest-none m n)))
  | inr ((k, t), n) ↦ elim (find_oldest-removed m none (k, t) d n) [
    | inl f ↦ cc
    | inr (e, l, p) ↦ elim (Bool-cases (reaches (length m) limit)) [
      | inr b ↦ rw (n, b, forget_loop) (Forgets-same limit m d (inl b))
      | inl b ↦
          let shorter : length (delete k m) ≤ rounds =
            omega (arith, h, rw l at (length-delete k m)) in
          rw (n, b, forget_loop)
            (Forgets-delete limit m (forget_loop rounds limit (delete k m)) k e l p
              (forget_loop-Forgets rounds limit (delete k m) shorter (delete-IsDistinct k m d)))
    ]
  ]
]

pub forget_oldest-Forgets :
    (limit : ℕ) (m : GoMap Entry) → IsDistinct m → Forgets limit m (forget_oldest limit m)
unfolding forget_oldest
forget_oldest-Forgets limit m d = forget_loop-Forgets (length m) limit m (le_refl (length m)) d
