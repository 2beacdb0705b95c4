-- ===== src/Crdt/Store/Gapless.antt =====
-- The structs of a client follow each other without a gap from clock 0 on: what append and the
-- assignments to links do to that.
use native.Mathlib.Nat.{le_refl}
use crdt_server.Base.{
  ℕ, ◌+◌, ◌^◌, ◌≤◌, ◌<◌, ◌≡◌, refl, sym, ap, ◌∙◌, List, [], ◌∷◌, ◌++◌, true, false, Option, none,
  some, ◌==◌, if◌then◌else◌, All, arith, Bool-cases, inl, inr,
}
use crdt_server.Base.GoMap
use crdt_server.Base.GoMap.{insert, lookup-insert}
use crdt_server.Crdt.Struct.{struct_id}
use crdt_server.Crdt.Store.{
  Cell, struct_of, cell_clock, cell_len, Store, cells_of, put_cells, end_of_cells, state,
}

-- The cells from clock `c` on: each starts where the one before it ends, none is empty, and no
-- end wraps around.
unfoldable pub IsGaplessFrom : ℕ → List Cell → Type 0
IsGaplessFrom c [] = Unit {0}
IsGaplessFrom c (x ∷ xs) =
    (cell_clock x ≡ c)
    × (0 < cell_len x)
    × (c + cell_len x < 2 ^ 63)
    × IsGaplessFrom (c + cell_len x) xs

abbrev pub IsOf : ℕ → Cell → Type 0
IsOf client c = (struct_id (struct_of c)).client ≡ client

-- The cells that a client may have: its own, from clock 0 on.
pub record IsSoundFor (client : ℕ) (cs : List Cell) : Type 0 where
  pub gapless : IsGaplessFrom 0 cs
  pub owned : All (IsOf client) cs

-- The invariant of a store.
abbrev pub IsSound : Store → Type 0
IsSound s = (client : ℕ) → IsSoundFor client (cells_of s client)

-- Where gapless cells from `c` on end.
unfoldable pub total : ℕ → List Cell → ℕ
total c [] = c
total c (x ∷ xs) = total (c + cell_len x) xs

pub end_of_cells-total :
    (x : Cell) (xs : List Cell) (c : ℕ)
    → IsGaplessFrom c (x ∷ xs)
    → end_of_cells (x ∷ xs) ≡ total c (x ∷ xs)
unfolding end_of_cells total IsGaplessFrom
end_of_cells-total x [] c (e, p, b, t) = rw e (omega (arith, b))
end_of_cells-total x (y ∷ ys) c (e, p, b, t) = end_of_cells-total y ys (c + cell_len x) t

-- For gapless cells State is where they end.
pub state-total : (xs : List Cell) → IsGaplessFrom 0 xs → end_of_cells xs ≡ total 0 xs
unfolding total
state-total [] h = unfold end_of_cells in refl
state-total (x ∷ xs) h = end_of_cells-total x xs 0 h

pub total-le : (xs : List Cell) (c : ℕ) → c ≤ total c xs
unfolding total
total-le [] c = omega arith
total-le (x ∷ xs) c = omega (arith, total-le xs (c + cell_len x))

pub total-append : (xs ys : List Cell) (c : ℕ) → total c (xs ++ ys) ≡ total (total c xs) ys
unfolding total
total-append [] ys c = refl
total-append (x ∷ xs) ys c = total-append xs ys (c + cell_len x)

pub append-IsGaplessFrom :
    (xs ys : List Cell) (c : ℕ)
    → IsGaplessFrom c xs
    → IsGaplessFrom (total c xs) ys
    → IsGaplessFrom c (xs ++ ys)
unfolding IsGaplessFrom total
append-IsGaplessFrom [] ys c h k = k
append-IsGaplessFrom (x ∷ xs) ys c (e, p, b, t) k =
    (e, p, b, append-IsGaplessFrom xs ys (c + cell_len x) t k)

pub total-bound : (xs : List Cell) (c : ℕ) → c < 2 ^ 63 → IsGaplessFrom c xs → total c xs < 2 ^ 63
unfolding IsGaplessFrom total
total-bound [] c h g = h
total-bound (x ∷ xs) c h (e, p, b, t) = total-bound xs (c + cell_len x) b t

-- Reading what was put.
pub cells_of-put_cells :
    (client : ℕ) (cs : List Cell) (s : Store) (c : ℕ)
    → cells_of (put_cells client cs s) c ≡ (if client == c then cs else cells_of s c)
unfolding cells_of put_cells GoMap.get
cells_of-put_cells client cs s c =
    ap (λ (o : Option (List Cell)). elim o as (λ _. List Cell) [ none ↦ [] | some v ↦ v ])
      (lookup-insert client c cs s.clients)
    ∙ (elim (Bool-cases (client == c)) [ inl e ↦ rw e refl | inr e ↦ rw e refl ])

at_put :
    (client : ℕ) (cs : List Cell) (s : Store) (c : ℕ)
    → (client == c) ≡ true
    → cells_of (put_cells client cs s) c ≡ cs
at_put client cs s c e = cells_of-put_cells client cs s c ∙ rw e refl

beside_put :
    (client : ℕ) (cs : List Cell) (s : Store) (c : ℕ)
    → (client == c) ≡ false
    → cells_of (put_cells client cs s) c ≡ cells_of s c
beside_put client cs s c e = cells_of-put_cells client cs s c ∙ rw e refl

-- Another store that covers the same clocks of every client.
pub record Covers (s t : Store) : Type 0 where
  pub sound : IsSound s → IsSound t
  pub same : (client : ℕ) → IsSound s → state t client ≡ state s client

-- A store whose clocks of every client go at least as far.
pub record Grows (s t : Store) : Type 0 where
  pub sound : IsSound s → IsSound t
  pub more : (client : ℕ) → IsSound s → state s client ≤ state t client

pub Grows-same : (s : Store) → Grows s s
Grows-same s = record { sound = λ h. h; more = λ c h. le_refl (state s c) }

pub Grows-then : {s t u : Store} → Grows s t → Grows t u → Grows s u
Grows-then g k = record {
  sound = λ h. k.sound (g.sound h);
  more = λ c h. omega (arith, g.more c h, k.more c (g.sound h));
}

pub Covers-Grows : {s t : Store} → Covers s t → Grows s t
Covers-Grows g = record { sound = g.sound; more = λ c h. omega (arith, g.same c h) }

pub Covers-same : (s : Store) → Covers s s
Covers-same s = record { sound = λ h. h; same = λ c h. refl }

pub Covers-then : {s t u : Store} → Covers s t → Covers t u → Covers s u
Covers-then g k = record {
  sound = λ h. k.sound (g.sound h);
  same = λ c h. k.same c (g.sound h) ∙ g.same c h;
}

-- Other cells of one client, which are sound if the ones before were, and end in the same place.
pub put_cells-Covers :
    (client : ℕ) (cs : List Cell) (s : Store)
    → (IsSoundFor client (cells_of s client)
        → IsSoundFor client cs × (total 0 cs ≡ total 0 (cells_of s client)))
    → Covers s (put_cells client cs s)
unfolding state
put_cells-Covers client cs s h = record {
  sound = λ g c. elim (Bool-cases (client == c)) [
    | inl e ↦
        let one : client ≡ c = ground arith in rw (at_put client cs s c e, ← one) (h (g client)).0
    | inr e ↦ rw (beside_put client cs s c e) (g c)
  ];
  same = λ c g. elim (Bool-cases (client == c)) [
    | inl e ↦
        let one : client ≡ c = ground arith in
        let (k, ends) = h (g client) in
        rw (at_put client cs s c e) (
          state-total cs k.gapless
          ∙ ends
          ∙ sym (state-total (cells_of s client) (g client).gapless)
          ∙ ap (λ k. end_of_cells (cells_of s k)) one)
    | inr e ↦ rw (beside_put client cs s c e) refl
  ];
}

-- What holds for a store that is sound to begin with.
pub Covers-from : {s t : Store} → (IsSound s → Covers s t) → Covers s t
Covers-from f = record { sound = λ h. (f h).sound h; same = λ c h. (f h).same c h }

pub Grows-from : {s t : Store} → (IsSound s → Grows s t) → Grows s t
Grows-from f = record { sound = λ h. (f h).sound h; more = λ c h. (f h).more c h }
