-- ===== src/Crdt/DeleteSet/Merge.antt =====
-- Sorting and merging ranges keeps what they cover, and leaves them apart and in order.
use crdt_server.Base.{
  ℕ, ◌+◌, ◌^◌, ◌<◌, ◌≤◌, ◌≡◌, refl, sym, ap, ◌∙◌, List, [], ◌∷◌, Bool, true, false, ◌&&◌, ◌||◌, ltb,
  leb, All, arith, inl, inr, Bool-cases,
}
use crdt_server.Crdt.DeleteSet.{
  DeleteRange, end_of, insert_range, sort_ranges, extend, merge_from, merge,
}

-- clock ≤ c < end
abbrev pub in_range : DeleteRange → ℕ → Bool
in_range r c = leb r.clock c && ltb c (end_of r)

unfoldable pub covers : List DeleteRange → ℕ → Bool
covers [] c = false
covers (r ∷ rs) c = in_range r c || covers rs c

-- A range that ends at a clock that a uint64 holds.
abbrev pub IsBounded : DeleteRange → Type 0
IsBounded r = r.clock + r.len < 2 ^ 64

-- Every range starts at or behind `c`, in order of the clocks.
unfoldable pub IsSortedFrom : ℕ → List DeleteRange → Type 0
IsSortedFrom c [] = Unit {0}
IsSortedFrom c (r ∷ rs) = (c ≤ r.clock) × IsSortedFrom r.clock rs

-- Every range starts behind the end of the range before it, and not at it.
unfoldable pub IsApartFrom : ℕ → List DeleteRange → Type 0
IsApartFrom e [] = Unit {0}
IsApartFrom e (r ∷ rs) = (e < r.clock) × IsApartFrom (end_of r) rs

pub covers-cons :
    (r : DeleteRange) (rs : List DeleteRange) (c : ℕ)
    → covers (r ∷ rs) c ≡ (in_range r c || covers rs c)
unfolding covers
covers-cons r rs c = refl

covers-insert_range :
    (r : DeleteRange) (rs : List DeleteRange) (c : ℕ)
    → covers (insert_range r rs) c ≡ (in_range r c || covers rs c)
unfolding covers insert_range
covers-insert_range r [] c = refl
covers-insert_range r (x ∷ xs) c = ground (arith, covers-insert_range r xs c)

pub covers-sort_ranges : (rs : List DeleteRange) (c : ℕ) → covers (sort_ranges rs) c ≡ covers rs c
unfolding covers sort_ranges
covers-sort_ranges [] c = refl
covers-sort_ranges (r ∷ rs) c =
    covers-insert_range r (sort_ranges rs) c ∙ ap (λ b. in_range r c || b) (covers-sort_ranges rs c)

insert_range-IsSortedFrom :
    (r : DeleteRange) (rs : List DeleteRange) (c : ℕ)
    → c ≤ r.clock
    → IsSortedFrom c rs
    → IsSortedFrom c (insert_range r rs)
unfolding insert_range IsSortedFrom
insert_range-IsSortedFrom r [] c h s = (h, tt)
insert_range-IsSortedFrom r (x ∷ xs) c h (hx, s) = elim (Bool-cases (ltb x.clock r.clock)) [
  | inl b ↦ rw b (hx, insert_range-IsSortedFrom r xs x.clock (ground arith) s)
  | inr b ↦ rw b (h, (ground arith, s))
]

pub sort_ranges-IsSortedFrom : (rs : List DeleteRange) → IsSortedFrom 0 (sort_ranges rs)
unfolding sort_ranges IsSortedFrom
sort_ranges-IsSortedFrom [] = tt
sort_ranges-IsSortedFrom (r ∷ rs) =
    insert_range-IsSortedFrom r (sort_ranges rs) 0 (omega arith) (sort_ranges-IsSortedFrom rs)

insert_range-All :
    (r : DeleteRange) (rs : List DeleteRange)
    → IsBounded r
    → All IsBounded rs
    → All IsBounded (insert_range r rs)
unfolding insert_range
insert_range-All r [] h hs = (h, tt)
insert_range-All r (x ∷ xs) h (hx, hs) = elim (Bool-cases (ltb x.clock r.clock)) [
  | inl b ↦ rw b (hx, insert_range-All r xs h hs)
  | inr b ↦ rw b (h, (hx, hs))
]

pub sort_ranges-All : (rs : List DeleteRange) → All IsBounded rs → All IsBounded (sort_ranges rs)
unfolding sort_ranges
sort_ranges-All [] h = tt
sort_ranges-All (r ∷ rs) (h, hs) = insert_range-All r (sort_ranges rs) h (sort_ranges-All rs hs)

extend-IsBounded :
    (last r : DeleteRange)
    → IsBounded last
    → IsBounded r
    → last.clock ≤ r.clock
    → IsBounded (extend last r)
unfolding extend
extend-IsBounded last r hl hr h = ground arith

in_range-extend :
    (last r : DeleteRange) (c : ℕ)
    → IsBounded last
    → IsBounded r
    → last.clock ≤ r.clock
    → r.clock ≤ end_of last
    → in_range (extend last r) c ≡ (in_range last c || in_range r c)
unfolding extend
in_range-extend last r c hl hr h e = ground arith

clock-extend : (last r : DeleteRange) → (extend last r).clock ≡ last.clock
unfolding extend
clock-extend last r = ground arith

or_assoc : (a b c : Bool) → ((a || b) || c) ≡ (a || (b || c))
or_assoc true b c = refl
or_assoc false b c = refl

IsSortedFrom-weaken :
    {c d : ℕ} (rs : List DeleteRange) → c ≤ d → IsSortedFrom d rs → IsSortedFrom c rs
unfolding IsSortedFrom
IsSortedFrom-weaken [] h s = tt
IsSortedFrom-weaken (r ∷ rs) h (o, s) = (omega (arith, h, o), s)

merge_from-IsBounded :
    (rs : List DeleteRange) (last : DeleteRange)
    → IsBounded last
    → IsSortedFrom last.clock rs
    → All IsBounded rs
    → All IsBounded (merge_from last rs)
unfolding merge_from IsSortedFrom
merge_from-IsBounded [] last h s hs = (h, tt)
merge_from-IsBounded (r ∷ rs) last h (o, s) (hr, hs) =
    elim (Bool-cases (leb r.clock (end_of last))) [
      | inl b ↦ rw b (
          merge_from-IsBounded rs (extend last r) (extend-IsBounded last r h hr o)
            (rw clock-extend (IsSortedFrom-weaken rs o s)) hs)
      | inr b ↦ rw b (h, merge_from-IsBounded rs r hr s hs)
    ]

covers-merge_from :
    (rs : List DeleteRange) (last : DeleteRange) (c : ℕ)
    → IsBounded last
    → IsSortedFrom last.clock rs
    → All IsBounded rs
    → covers (merge_from last rs) c ≡ (in_range last c || covers rs c)
unfolding merge_from IsSortedFrom covers
covers-merge_from [] last c h s hs = refl
covers-merge_from (r ∷ rs) last c h (o, s) (hr, hs) =
    elim (Bool-cases (leb r.clock (end_of last))) [
      | inl b ↦ rw b (
          covers-merge_from rs (extend last r) c (extend-IsBounded last r h hr o)
            (rw clock-extend (IsSortedFrom-weaken rs o s)) hs
          ∙ ap (λ x. x || covers rs c) (in_range-extend last r c h hr o (ground arith))
          ∙ or_assoc (in_range last c) (in_range r c) (covers rs c))
      | inr b ↦ rw b (ap (λ x. in_range last c || x) (covers-merge_from rs r c hr s hs))
    ]

merge_from-IsApartFrom :
    (rs : List DeleteRange) (last : DeleteRange) (e : ℕ)
    → e < last.clock
    → IsApartFrom e (merge_from last rs)
unfolding merge_from IsApartFrom
merge_from-IsApartFrom [] last e h = (h, tt)
merge_from-IsApartFrom (r ∷ rs) last e h = elim (Bool-cases (leb r.clock (end_of last))) [
  | inl b ↦ rw b (merge_from-IsApartFrom rs (extend last r) e (rw clock-extend h))
  | inr b ↦ rw b (h, merge_from-IsApartFrom rs r (end_of last) (ground arith))
]

-- The normal form: each range ends before the next one starts, with a gap.
unfoldable pub IsNormal : List DeleteRange → Type 0
IsNormal [] = Unit {0}
IsNormal (r ∷ rs) = IsApartFrom (end_of r) rs

merge_from-IsNormal : (rs : List DeleteRange) (last : DeleteRange) → IsNormal (merge_from last rs)
unfolding merge_from IsNormal IsApartFrom
merge_from-IsNormal [] last = tt
merge_from-IsNormal (r ∷ rs) last = elim (Bool-cases (leb r.clock (end_of last))) [
  | inl b ↦ rw b (merge_from-IsNormal rs (extend last r))
  | inr b ↦ rw b (merge_from-IsApartFrom rs r (end_of last) (ground arith))
]

merge_lem :
    (rs : List DeleteRange)
    → IsSortedFrom 0 rs
    → All IsBounded rs
    → IsNormal (merge rs) × All IsBounded (merge rs) × ((c : ℕ) → covers (merge rs) c ≡ covers rs c)
unfolding merge IsNormal IsSortedFrom
merge_lem [] s h = (tt, tt, λ c. refl)
merge_lem (r ∷ rs) (_, s) (hr, hs) = (
  merge_from-IsNormal rs r,
  merge_from-IsBounded rs r hr s hs,
  λ c. covers-merge_from rs r c hr s hs ∙ sym (covers-cons r rs c),
)

-- Sorting and merging ranges, each of which ends below 2^64, gives ranges in normal form that cover
-- the same clocks.
pub merge-sort_ranges :
    (rs : List DeleteRange)
    → All IsBounded rs
    → IsNormal (merge (sort_ranges rs))
      × All IsBounded (merge (sort_ranges rs))
      × ((c : ℕ) → covers (merge (sort_ranges rs)) c ≡ covers rs c)
merge-sort_ranges rs h =
    let (n, b, c) =
      merge_lem (sort_ranges rs) (sort_ranges-IsSortedFrom rs) (sort_ranges-All rs h) in
    (n, b, λ x. c x ∙ covers-sort_ranges rs x)
