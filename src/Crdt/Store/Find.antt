-- ===== src/Crdt/Store/Find.antt =====
-- Get finds the struct that covers a clock, against a scan of the whole list.
use native.Mathlib.Nat.{le_refl}
use crdt_server.Base.{
  ℕ, zero, suc, ◌+◌, ◌^◌, ◌≤◌, ◌<◌, ◌≡◌, refl, ◌∙◌, List, [], ◌∷◌, Bool, true, false, ◌&&◌, Option,
  none, some, ltb, leb, length, get_elem?, if◌then◌else◌, arith, Bool-cases, if-cases, ltb→lt,
  lt→ltb, leb→le, inl, inr, Result, ok, err, and_then, missing_struct,
}
use crdt_server.Crdt.{StructId}
use crdt_server.Crdt.DeleteSet.{search_first}
use crdt_server.Crdt.DeleteSet.Search.{Divides, search_first-Divides}
use crdt_server.Crdt.Store.{
  Cell, cell_clock, cell_len, cell_end, Store, cells_of, cell_is, find_cell, find, at_index, get,
}
use crdt_server.Crdt.Store.Gapless.{IsGaplessFrom, IsSound}

-- The first cell that covers the clock, by a scan.
unfoldable pub covering : ℕ → List Cell → Option Cell
covering k [] = none
covering k (c ∷ cs) =
    let rest = covering k cs in
    if leb (cell_clock c) k && ltb k (cell_clock c + cell_len c) then some c else rest

abbrev ends_behind : ℕ → Cell → Bool
ends_behind k c = ltb k (cell_end c)

cell_end-exact :
    (x : Cell) (c : ℕ) → cell_clock x ≡ c → c + cell_len x < 2 ^ 63 → cell_end x ≡ c + cell_len x
cell_end-exact x c e b = rw e (omega (arith, b))

-- Before the cells nothing is covered, and all of them end behind.
covering-before : (cs : List Cell) (c k : ℕ) → IsGaplessFrom c cs → k < c → covering k cs ≡ none
unfolding covering IsGaplessFrom
covering-before [] c k g h = refl
covering-before (x ∷ xs) c k (e, p, b, t) h =
    rw (covering-before xs (c + cell_len x) k t (omega (arith, h)), e) (ground arith)

up_lem :
    (cs : List Cell) (c k i : ℕ)
    → IsGaplessFrom c cs
    → k < c
    → i < length cs
    → cell_is cs (ends_behind k) i ≡ true
unfolding IsGaplessFrom
up_lem [] c k i g h hi = absurd (omega (arith, hi))
up_lem (x ∷ xs) c k zero (e, p, b, t) h hi = rw e (ground arith)
up_lem (x ∷ xs) c k (suc i) (e, p, b, t) h hi =
    up_lem xs (c + cell_len x) k i t (omega (arith, h)) (omega (arith, hi))

ends-ascend :
    (cs : List Cell) (c k : ℕ)
    → IsGaplessFrom c cs
    → (a b : ℕ) → a ≤ b
    → b < length cs
    → cell_is cs (ends_behind k) a ≡ true
    → cell_is cs (ends_behind k) b ≡ true
unfolding IsGaplessFrom
ends-ascend [] c k g a b h hb y = absurd (omega (arith, hb))
ends-ascend (x ∷ xs) c k g zero zero h hb y = y
ends-ascend (x ∷ xs) c k (e, p, b, t) zero (suc j) h hb y =
    up_lem xs (c + cell_len x) k j t (rw (cell_end-exact x c e b) at (ltb→lt k (cell_end x) y))
      (omega (arith, hb))
ends-ascend (x ∷ xs) c k g (suc i) zero h hb y = absurd (omega (arith, h))
ends-ascend (x ∷ xs) c k (e, p, b, t) (suc i) (suc j) h hb y =
    ends-ascend xs (c + cell_len x) k t i j (omega (arith, h)) (omega (arith, hb)) y

-- What Get makes of the index that the search gives.
abbrev picked : List Cell → ℕ → ℕ → Result Cell
picked cs k i =
    if ltb i (length cs) && cell_is cs (λ c. leb (cell_clock c) k) i
    then at_index cs i
    else err missing_struct

abbrev pub found : Option Cell → Result Cell
found none = err missing_struct
found (some c) = ok c

-- The parts of the test, one element further on.
tail_lem :
    (b : Bool) (x : Cell) (n i : ℕ) (p : Bool) (r : Result Cell) (o : Option Cell)
    → (if ltb i n && p then r else err missing_struct) ≡ found o
    → (if ltb (suc i) (suc n) && p then r else err missing_struct)
      ≡ found (if b && false then some x else o)
tail_lem true x n i p r o h = ground arith
tail_lem false x n i p r o h = ground arith

picked-covering :
    (cs : List Cell) (c k i : ℕ)
    → IsGaplessFrom c cs
    → Divides (length cs) (cell_is cs (ends_behind k)) i
    → picked cs k i ≡ found (covering k cs)
unfolding IsGaplessFrom covering
picked-covering [] c k i g d = ground (arith, d.in_bounds)
picked-covering (x ∷ xs) c k zero (e, p, b, t) d =
    let first =
      rw (cell_end-exact x c e b) at
        (ltb→lt k (cell_end x) (d.above 0 (omega arith) (omega arith))) in
    rw e (elim (Bool-cases (leb c k)) [
      | inl l ↦
          rw (l, lt→ltb 0 (suc (length xs)) (omega arith), lt→ltb k (c + cell_len x) first) refl
      | inr l ↦
          rw
            (
              l,
              lt→ltb 0 (suc (length xs)) (omega arith),
              covering-before xs (c + cell_len x) k t first,
            )
            refl
    ])
picked-covering (x ∷ xs) c k (suc i) (e, p, b, t) d =
    let first = d.below 0 (omega arith) in
    let rest = picked-covering xs (c + cell_len x) k i t (record {
      in_bounds = omega (arith, d.in_bounds);
      below = λ k h. d.below (suc k) (omega (arith, h));
      above = λ k h h'. d.above (suc k) (omega (arith, h)) (omega (arith, h'));
    }) in
    let out : ltb k (c + cell_len x) ≡ false = rw (cell_end-exact x c e b) at first in
    rw (e, out) (tail_lem (leb c k) x (length xs) i _ _ _ rest)

if_lem :
    (b : Bool) (cs : List Cell) (i : ℕ)
    → and_then (if b then ok i else err missing_struct) (at_index cs)
      ≡ (if b then at_index cs i else err missing_struct)
if_lem true cs i = refl
if_lem false cs i = refl

get_lem :
    (cs : List Cell) (k : ℕ)
    → IsGaplessFrom 0 cs
    → and_then (find_cell cs k) (at_index cs) ≡ found (covering k cs)
unfolding find_cell
get_lem cs k g =
    let i = search_first (length cs) (cell_is cs (ends_behind k)) in
    let d = search_first-Divides (length cs) (cell_is cs (ends_behind k)) (ends-ascend cs 0 k g) in
    if_lem (ltb i (length cs) && cell_is cs (λ c. leb (cell_clock c) k) i) cs i
    ∙ picked-covering cs 0 k i g d

-- In a sound store Get gives the struct that a scan finds to cover the clock, and the error for a
-- missing struct where there is none.
pub get-covering :
    (s : Store) (id : StructId)
    → IsSound s
    → get s id ≡ found (covering id.clock (cells_of s id.client))
unfolding get find
get-covering s id h = get_lem (cells_of s id.client) id.clock (h id.client).gapless

and_true : (a b : Bool) → (a && b) ≡ true → (a ≡ true) × (b ≡ true)
and_true true b h = (refl, h)
and_true false b h = cc

cell_is-true :
    (cs : List Cell) (p : Cell → Bool) (i : ℕ)
    → cell_is cs p i ≡ true
    → (c : Cell) × (get_elem? cs i ≡ some c) × (p c ≡ true)
cell_is-true [] p i h = cc
cell_is-true (c ∷ cs) p zero h = (c, refl, h)
cell_is-true (c ∷ cs) p (suc i) h = cell_is-true cs p i h

cell_is-at :
    (cs : List Cell) (p : Cell → Bool) (i : ℕ) (c : Cell)
    → get_elem? cs i ≡ some c
    → cell_is cs p i ≡ true
    → p c ≡ true
cell_is-at cs p i c e h =
    let (d, f, t) = cell_is-true cs p i h in let same : d ≡ c = cc in rw same at t

-- What find gives is the index of a cell that covers the clock.
pub find_cell-eq-ok :
    (cs : List Cell) (k i : ℕ)
    → IsGaplessFrom 0 cs
    → find_cell cs k ≡ ok i
    → (c : Cell) × (get_elem? cs i ≡ some c) × (cell_clock c ≤ k) × (k < cell_end c)
unfolding find_cell
find_cell-eq-ok cs k i g h =
    let j = search_first (length cs) (cell_is cs (ends_behind k)) in
    let d = search_first-Divides (length cs) (cell_is cs (ends_behind k)) (ends-ascend cs 0 k g) in
    elim (if-cases (ltb j (length cs) && cell_is cs (λ c. leb (cell_clock c) k) j) h) [
      | inr (_, e) ↦ cc
      | inl (t, e) ↦
          let same : j ≡ i = cc in
          let (inside, starts) = and_true (ltb j (length cs)) _ t in
          let (c, at, le) = cell_is-true cs (λ c. leb (cell_clock c) k) j starts in
          let ends = d.above j (le_refl j) (ltb→lt j (length cs) inside) in
          (
            c,
            rw same at at,
            leb→le (cell_clock c) k le,
            ltb→lt k (cell_end c) (cell_is-at cs (ends_behind k) j c at ends),
          )
    ]
