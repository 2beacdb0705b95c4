-- ===== src/Room/Writer/Trace.antt =====
-- What the writer is asked for and what its calls amount to, as lists that can be compared.
use crdt_server.Base.{
  ℕ, suc, ◌+◌, ◌≡◌, refl, sym, ap, ◌∙◌, List, [], ◌∷◌, ◌++◌, append_assoc, append-nil, Bool, true,
  false, ◌⊎◌, inl, inr, if◌then◌else◌, ok, arith,
}
use crdt_server.Room.Writer.{
  Version, Call, appended, compacted, saved, pruned, write, snapshot, save, Input, job, is_folded,
}

-- An update or a whole document, to be written.
pub data Item : Type 0 where
  one whole : List ℕ → Item

unfoldable pub ones : List (List ℕ) → List Item
ones [] = []
ones (u ∷ us) = one u ∷ ones us

unfoldable pub gather {ℓ} : {A : Type ℓ} → (Call → List A) → List Call → List A
gather f [] = []
gather f (c ∷ cs) = f c ++ gather f cs

-- What a call hands to the database.
abbrev pub items : Call → List Item
items (appended us r) = ones us
items (compacted b rows r) = whole b ∷ []
items (saved v r) = []
items (pruned keep r) = []

-- The rows that a call of Append gave.
abbrev pub rows_given : Call → List ℕ
rows_given (appended us (ok rows)) = rows
rows_given _ = []

-- The rows that a call of Compact folded, here or in the snapshot of another replica.
abbrev pub rows_folded : Call → List ℕ
rows_folded (compacted b rows a) = if is_folded a then rows else []
rows_folded _ = []

abbrev pub asked : Input → List Item
asked (job (write u waits)) = one u ∷ []
asked (job (snapshot b)) = whole b ∷ []
asked _ = []

unfoldable pub asked_all : List Input → List Item
asked_all [] = []
asked_all (i ∷ is) = asked i ++ asked_all is

abbrev pub waits_for : Input → ℕ
waits_for (job (write u true)) = 1
waits_for (job (save v true)) = 1
waits_for _ = 0

unfoldable pub waits_all : List Input → ℕ
waits_all [] = 0
waits_all (i ∷ is) = waits_for i + waits_all is

-- The second list is the first one without some whole documents.
pub data Skips : List Item → List Item → Type 0 where
  none_left : Skips [] []
  keep : (x : Item) {xs ys : List Item} → Skips xs ys → Skips (x ∷ xs) (x ∷ ys)
  skip : (b : List ℕ) {xs ys : List Item} → Skips xs ys → Skips (whole b ∷ xs) ys

pub Skips-append :
    {xs ys zs ws : List Item} → Skips xs ys → Skips zs ws → Skips (xs ++ zs) (ys ++ ws)
Skips-append none_left t = t
Skips-append (keep x s) t = keep x (Skips-append s t)
Skips-append (skip b s) t = skip b (Skips-append s t)

pub gather-last {ℓ} :
    {A : Type ℓ} (f : Call → List A) (cs : List Call) (c : Call)
    → gather f (cs ++ (c ∷ [])) ≡ gather f cs ++ f c
unfolding gather
gather-last f [] c = append-nil (f c)
gather-last f (x ∷ cs) c =
    ap (λ xs. f x ++ xs) (gather-last f cs c) ∙ sym (append_assoc (f x) (gather f cs) (f c))

pub ones-last : (us : List (List ℕ)) (u : List ℕ) → ones (us ++ (u ∷ [])) ≡ ones us ++ (one u ∷ [])
unfolding ones
ones-last [] u = refl
ones-last (x ∷ us) u = ap (λ xs. one x ∷ xs) (ones-last us u)

pub list-cases {ℓ} :
    {A : Type ℓ} (xs : List A) → (xs ≡ []) ⊎ ((y : A) × (ys : List A) × (xs ≡ y ∷ ys))
list-cases [] = inl refl
list-cases (y ∷ ys) = inr (y, ys, refl)

pub plus_zero : (n : ℕ) → n + 0 ≡ n
plus_zero n = omega arith

pub plus_assoc : (a b c : ℕ) → (a + b) + c ≡ a + (b + c)
plus_assoc a b c = omega arith

pub one_more :
    (v : Version) (waits : Bool) (a b n : ℕ)
    → a + b ≡ n
    → (if waits then suc a else a) + b ≡ n + waits_for (job (save v waits))
one_more v true a b n h = omega (arith, h)
one_more v false a b n h = omega (arith, h)

pub one_waits :
    (u : List ℕ) (waits : Bool) (a b n : ℕ)
    → a + b ≡ n
    → a + (if waits then suc b else b) ≡ n + waits_for (job (write u waits))
one_waits u true a b n h = omega (arith, h)
one_waits u false a b n h = omega (arith, h)
