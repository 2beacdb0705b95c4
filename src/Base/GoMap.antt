-- ===== src/Base/GoMap.antt =====
-- Go's maps with numbers for keys, as association lists. Where the source ranges over a map the
-- order is Go's choice; what it does is stated so that the order does not matter.
use Prim.Native.Nat.{ℕ, suc}
use mathlib.Core.Path.{◌≡◌, refl, ap, ◌∙◌}
use mathlib.Core.Bool.{Bool, false, ◌||◌}
use mathlib.Core.Logic.{inl, inr}
use mathlib.Core.Option.{Option, none, some}
use mathlib.Core.List.{List, [], ◌∷◌}
use native.Mathlib.Omega.{arith}
use crdt_server.Base.Tests.{◌==◌, ltb, if◌then◌else◌, Bool-cases}
use crdt_server.Base.Lists.{All, length}

-- Membership and sorting of keys.
unfoldable pub member : ℕ → List ℕ → Bool
member k [] = false
member k (x ∷ xs) = x == k || member k xs

insert_descending : ℕ → List ℕ → List ℕ
insert_descending k [] = k ∷ []
insert_descending k (x ∷ xs) =
    let rest = insert_descending k xs in if ltb k x then x ∷ rest else k ∷ x ∷ xs

-- `sort.Slice(clients, func(i, j int) bool { return clients[i] > clients[j] })`
unfoldable pub sort_descending : List ℕ → List ℕ
unfolding insert_descending
sort_descending [] = []
sort_descending (x ∷ xs) = insert_descending x (sort_descending xs)

member-insert_descending :
    (j k : ℕ) (xs : List ℕ) → member j (insert_descending k xs) ≡ (k == j || member j xs)
unfolding member insert_descending
member-insert_descending j k [] = refl
member-insert_descending j k (x ∷ xs) = ground (arith, member-insert_descending j k xs)

pub member-sort_descending : (j : ℕ) (xs : List ℕ) → member j (sort_descending xs) ≡ member j xs
unfolding member sort_descending
member-sort_descending j [] = refl
member-sort_descending j (x ∷ xs) =
    ground (arith, member-insert_descending j x (sort_descending xs), member-sort_descending j xs)

length-insert_descending : (k : ℕ) (xs : List ℕ) → length (insert_descending k xs) ≡ suc (length xs)
unfolding insert_descending
length-insert_descending k [] = refl
length-insert_descending k (x ∷ xs) = ground (arith, length-insert_descending k xs)

pub length-sort_descending : (xs : List ℕ) → length (sort_descending xs) ≡ length xs
unfolding sort_descending
length-sort_descending [] = refl
length-sort_descending (x ∷ xs) =
    omega (arith, length-insert_descending x (sort_descending xs), length-sort_descending xs)

module _ {κ} (P : ℕ → Type κ) where
  All-insert_descending : (k : ℕ) (xs : List ℕ) → P k → All P xs → All P (insert_descending k xs)
  unfolding insert_descending
  All-insert_descending k [] h hs = (h, hs)
  All-insert_descending k (x ∷ xs) h (hx, hs) = elim (Bool-cases (ltb k x)) [
    | inl e ↦ rw e (hx, All-insert_descending k xs h hs)
    | inr e ↦ rw e (h, (hx, hs))
  ]

  pub All-sort_descending : (xs : List ℕ) → All P xs → All P (sort_descending xs)
  unfolding sort_descending
  All-sort_descending [] h = h
  All-sort_descending (x ∷ xs) (h, hs) =
      All-insert_descending x (sort_descending xs) h (All-sort_descending xs hs)

abbrev pub GoMap {ℓ} : Type ℓ → Type ℓ
GoMap V = List (ℕ × V)

module _ {ℓ} {V : Type ℓ} where
  -- `v, ok := m[key]`
  unfoldable pub lookup : ℕ → GoMap V → Option V
  lookup key [] = none
  lookup key ((first, v) ∷ rest) = if first == key then some v else lookup key rest

  -- `m[key]`, where `zero_value` is the zero value of the element type.
  unfoldable pub get : V → ℕ → GoMap V → V
  get zero_value key m = elim (lookup key m) [ none ↦ zero_value | some v ↦ v ]

  -- `m[key] = v`
  unfoldable pub insert : ℕ → V → GoMap V → GoMap V
  insert key v [] = (key, v) ∷ []
  insert key v ((first, old) ∷ rest) =
      let later = insert key v rest in
      if first == key then (key, v) ∷ rest else (first, old) ∷ later

  -- `delete(m, key)`; a map has at most one entry for a key.
  unfoldable pub delete : ℕ → GoMap V → GoMap V
  delete key [] = []
  delete key ((first, old) ∷ rest) =
      let later = delete key rest in if first == key then rest else (first, old) ∷ later

  unfoldable pub keys : GoMap V → List ℕ
  keys [] = []
  keys ((j, v) ∷ m) = j ∷ keys m

  pub length-keys : (m : GoMap V) → length (keys m) ≡ length m
  unfolding keys
  length-keys [] = refl
  length-keys ((j, v) ∷ m) = ap suc (length-keys m)

  pub lookup-insert :
      (key other : ℕ) (v : V) (m : GoMap V)
      → lookup other (insert key v m) ≡ (if key == other then some v else lookup other m)
  unfolding lookup insert
  lookup-insert key other v [] = refl
  lookup-insert key other v ((first, _) ∷ rest) = ground (arith, lookup-insert key other v rest)

  pub length-insert :
      (k : ℕ) (v : V) (m : GoMap V)
      → length (insert k v m) ≡ elim (lookup k m) [ none ↦ suc (length m) | some _ ↦ length m ]
  unfolding lookup insert
  length-insert k v [] = refl
  length-insert k v ((j, w) ∷ m) = ground (arith, length-insert k v m)

  pub length-delete :
      (k : ℕ) (m : GoMap V)
      → length m
        ≡ elim (lookup k m) [ none ↦ length (delete k m) | some _ ↦ suc (length (delete k m)) ]
  unfolding lookup delete
  length-delete k [] = refl
  length-delete k ((j, w) ∷ m) = ground (arith, length-delete k m)

  -- What a key that `keys` lists is mapped to.
  pub lookup-keys :
      (zero_value : V) (k : ℕ) (m : GoMap V)
      → lookup k m ≡ (if member k (keys m) then some (get zero_value k m) else none)
  unfolding lookup keys member get
  lookup-keys zero_value k [] = refl
  lookup-keys zero_value k ((j, v) ∷ m) = ground (arith, lookup-keys zero_value k m)

insert_ascending : ℕ → List ℕ → List ℕ
insert_ascending k [] = k ∷ []
insert_ascending k (x ∷ xs) =
    let rest = insert_ascending k xs in if ltb x k then x ∷ rest else k ∷ x ∷ xs

-- `slices.Sort`
unfoldable pub sort_ascending : List ℕ → List ℕ
unfolding insert_ascending
sort_ascending [] = []
sort_ascending (x ∷ xs) = insert_ascending x (sort_ascending xs)

module _ {κ} (P : ℕ → Type κ) where
  All-insert_ascending : (k : ℕ) (xs : List ℕ) → P k → All P xs → All P (insert_ascending k xs)
  unfolding insert_ascending
  All-insert_ascending k [] h hs = (h, hs)
  All-insert_ascending k (x ∷ xs) h (hx, hs) = elim (Bool-cases (ltb x k)) [
    | inl e ↦ rw e (hx, All-insert_ascending k xs h hs)
    | inr e ↦ rw e (h, (hx, hs))
  ]

  pub All-sort_ascending : (xs : List ℕ) → All P xs → All P (sort_ascending xs)
  unfolding sort_ascending
  All-sort_ascending [] h = h
  All-sort_ascending (x ∷ xs) (h, hs) =
      All-insert_ascending x (sort_ascending xs) h (All-sort_ascending xs hs)

module _ {ℓ} {V : Type ℓ} where
  -- No key twice: what a Go map is by itself, and what these operations keep.
  unfoldable pub IsDistinct : GoMap V → Type ℓ
  IsDistinct [] = Unit {ℓ}
  IsDistinct ((k, v) ∷ m) = (lookup k m ≡ none) × IsDistinct m

  pub insert-IsDistinct : (k : ℕ) (v : V) (m : GoMap V) → IsDistinct m → IsDistinct (insert k v m)
  unfolding IsDistinct insert lookup
  insert-IsDistinct k v [] h = (refl, tt)
  insert-IsDistinct k v ((j, w) ∷ m) (h, hs) = elim (Bool-cases (j == k)) [
    | inl e ↦ let same : j ≡ k = ground arith in rw e ((rw same at h), hs)
    | inr e ↦
        let apart : (k == j) ≡ false = ground arith in
        rw e (lookup-insert k j v m ∙ rw apart h, insert-IsDistinct k v m hs)
  ]

  pub lookup-delete :
      (k : ℕ) (m : GoMap V) (j : ℕ) → lookup j m ≡ none → lookup j (delete k m) ≡ none
  unfolding lookup delete
  lookup-delete k [] j h = refl
  lookup-delete k ((i, w) ∷ m) j h = ground (arith, lookup-delete k m j)

  pub delete-IsDistinct : (k : ℕ) (m : GoMap V) → IsDistinct m → IsDistinct (delete k m)
  unfolding IsDistinct delete
  delete-IsDistinct k [] h = tt
  delete-IsDistinct k ((j, w) ∷ m) (h, hs) = elim (Bool-cases (j == k)) [
    | inl e ↦ rw e hs
    | inr e ↦ rw e (lookup-delete k m j h, delete-IsDistinct k m hs)
  ]

  module _ {κ} (P : ℕ × V → Type κ) where
    pub All-insert : (k : ℕ) (v : V) (m : GoMap V) → P (k, v) → All P m → All P (insert k v m)
    unfolding insert
    All-insert k v [] p h = (p, tt)
    All-insert k v ((j, w) ∷ m) p (h, hs) = elim (Bool-cases (j == k)) [
      | inl e ↦ rw e (p, hs)
      | inr e ↦ rw e (h, All-insert k v m p hs)
    ]

    pub All-delete : (k : ℕ) (m : GoMap V) → All P m → All P (delete k m)
    unfolding delete
    All-delete k [] h = tt
    All-delete k ((j, w) ∷ m) (h, hs) = elim (Bool-cases (j == k)) [
      | inl e ↦ rw e hs
      | inr e ↦ rw e (h, All-delete k m hs)
    ]
