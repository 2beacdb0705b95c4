-- ===== src/Crdt/Store/Links.antt =====
-- Assignments to links and Append, on the clocks that a store covers.
use crdt_server.Base.{
  ℕ, ◌+◌, ◌^◌, ◌<◌, ◌≡◌, refl, sym, ap, ◌∙◌, List, [], ◌∷◌, ◌++◌, Option, none, some, ◌==◌,
  if◌then◌else◌, All, All-append, arith, Bool-cases, if-cases, inl, inr, ok, Option-cases,
}
use crdt_server.Crdt.{StructId}
use crdt_server.Crdt.Struct
use crdt_server.Crdt.Struct.{Item, struct_id, struct_len, ParentInfo}
use crdt_server.Crdt.Store.{
  Node, Cell, gc_cell, skip_cell, node, struct_of, cell_clock, cell_len, Store, cells_of, put_cells,
  end_of_cells, state, append, same_struct_id, change_node, assign, assign_to, set_start,
  set_map_item, hand_over_key,
}
use crdt_server.Crdt.Store.Gapless.{
  IsGaplessFrom, IsOf, IsSoundFor, IsSound, total, total-append, append-IsGaplessFrom, state-total,
  cells_of-put_cells, Covers, Covers-same, Grows, put_cells-Covers,
}

-- An assignment that does not change the item.
abbrev pub KeepsItem : (Node → Node) → Type 0
KeepsItem f = (n : Node) → (f n).item ≡ n.item

-- A cell in the place of one with its clock and its length.
cons_lem :
    (x y : Cell) (xs ys : List Cell) (c : ℕ)
    → cell_clock y ≡ cell_clock x
    → cell_len y ≡ cell_len x
    → (IsGaplessFrom (c + cell_len x) xs
        → IsGaplessFrom (c + cell_len x) ys
          × (total (c + cell_len x) ys ≡ total (c + cell_len x) xs))
    → IsGaplessFrom c (x ∷ xs)
    → IsGaplessFrom c (y ∷ ys) × (total c (y ∷ ys) ≡ total c (x ∷ xs))
unfolding IsGaplessFrom total
cons_lem x y xs ys c clock len rest (e, p, b, t) =
    let (h, same) = rest t in rw len ((clock ∙ e, p, b, h), same)

change_node-IsGaplessFrom :
    (id : StructId) (f : Node → Node) (cs : List Cell) (c : ℕ)
    → KeepsItem f
    → IsGaplessFrom c cs
    → IsGaplessFrom c (change_node id f cs) × (total c (change_node id f cs) ≡ total c cs)
unfolding change_node
change_node-IsGaplessFrom id f [] c k g = (g, refl)
change_node-IsGaplessFrom id f (gc_cell j n ∷ cs) c k g =
    cons_lem (gc_cell j n) (gc_cell j n) cs _ c refl refl
      (λ t. change_node-IsGaplessFrom id f cs _ k t) g
change_node-IsGaplessFrom id f (skip_cell j n ∷ cs) c k g =
    cons_lem (skip_cell j n) (skip_cell j n) cs _ c refl refl
      (λ t. change_node-IsGaplessFrom id f cs _ k t) g
change_node-IsGaplessFrom id f (node n ∷ cs) c k g =
    let kept : (if same_struct_id n.item.id id then f n else n).item ≡ n.item =
      elim (Bool-cases (same_struct_id n.item.id id)) [ inl x ↦ rw x (k n) | inr x ↦ rw x refl ] in
    cons_lem (node n) (node (if same_struct_id n.item.id id then f n else n)) cs _ c
      (ap (λ it. (struct_id (Struct.item it)).clock) kept)
      (ap (λ it. struct_len (Struct.item it)) kept) (λ t. change_node-IsGaplessFrom id f cs _ k t) g

change_node-IsOf :
    (id : StructId) (f : Node → Node) (cs : List Cell) (client : ℕ)
    → KeepsItem f
    → All (IsOf client) cs
    → All (IsOf client) (change_node id f cs)
unfolding change_node struct_id
change_node-IsOf id f [] client k g = tt
change_node-IsOf id f (gc_cell j n ∷ cs) client k (g, gs) =
    (g, change_node-IsOf id f cs client k gs)
change_node-IsOf id f (skip_cell j n ∷ cs) client k (g, gs) =
    (g, change_node-IsOf id f cs client k gs)
change_node-IsOf id f (node n ∷ cs) client k (g, gs) =
    let rest = change_node-IsOf id f cs client k gs in
    elim (Bool-cases (same_struct_id n.item.id id)) [
      | inl x ↦ rw x (ap (λ (it : Item). it.id.client) (k n) ∙ g, rest)
      | inr x ↦ rw x (g, rest)
    ]

pub assign-Covers :
    (id : StructId) (f : Node → Node) (s : Store) → KeepsItem f → Covers s (assign id f s)
unfolding assign
assign-Covers id f s k = put_cells-Covers id.client _ s (λ g.
    let (h, same) = change_node-IsGaplessFrom id f (cells_of s id.client) 0 k g.gapless in
    (
      record { gapless = h; owned = change_node-IsOf id f (cells_of s id.client) _ k g.owned },
      same,
    ))

pub assign_to-Covers :
    (p : Option StructId) (f : Node → Node) (s : Store) → KeepsItem f → Covers s (assign_to p f s)
unfolding assign_to
assign_to-Covers none f s k = Covers-same s
assign_to-Covers (some id) f s k = assign-Covers id f s k

pub set_start-Covers :
    (t : ParentInfo) (p : Option StructId) (s : Store) → Covers s (set_start t p s)
unfolding set_start state cells_of
set_start-Covers t p s = record { sound = λ h. h; same = λ c h. refl }

pub set_map_item-Covers :
    (t : ParentInfo) (key : List ℕ) (p : StructId) (s : Store) → Covers s (set_map_item t key p s)
unfolding set_map_item state cells_of
set_map_item-Covers t key p s = record { sound = λ h. h; same = λ c h. refl }

pub hand_over_key-Covers : (r : Node) (s : Store) → Covers s (hand_over_key r s)
unfolding hand_over_key
hand_over_key-Covers r s = elim (Bool-cases r.item.has_parent_sub) [
  | inr e ↦ rw e (Covers-same s)
  | inl e ↦ elim (Option-cases r.right) [
    | inr (x, f) ↦ rw (e, f) (Covers-same s)
    | inl f ↦ elim (Option-cases r.item.parent_type) [
      | inl g ↦ rw (e, f, g) (Covers-same s)
      | inr (t, g) ↦ rw (e, f, g) (set_map_item-Covers t r.item.parent_sub r.item.id s)
    ]
  ]
]

appended_lem :
    (cs : List Cell) (c : Cell)
    → IsGaplessFrom 0 cs
    → 0 < cell_len c
    → cell_clock c + cell_len c < 2 ^ 63
    → end_of_cells cs ≡ cell_clock c
    → IsGaplessFrom 0 (cs ++ (c ∷ [])) × (end_of_cells (cs ++ (c ∷ [])) ≡ cell_clock c + cell_len c)
appended_lem cs c g p b e =
    let at : total 0 cs ≡ cell_clock c = sym (state-total cs g) ∙ e in
    let one : IsGaplessFrom (total 0 cs) (c ∷ []) =
      unfold IsGaplessFrom in (sym at, p, omega (arith, at, b), tt) in
    let whole = append-IsGaplessFrom cs (c ∷ []) 0 g one in
    (
      whole,
      state-total (cs ++ (c ∷ [])) whole
          ∙ total-append cs (c ∷ []) 0
          ∙ (unfold total in ap (λ n. n + cell_len c) at),
    )

put_cells-IsSound :
    (client : ℕ) (cs : List Cell) (s : Store)
    → IsSound s
    → IsSoundFor client cs
    → IsSound (put_cells client cs s)
put_cells-IsSound client cs s h g k =
    rw (cells_of-put_cells client cs s k) (elim (Bool-cases (client == k)) [
      | inl e ↦ let one : client ≡ k = ground arith in rw (e, ← one) g
      | inr e ↦ rw e (h k)
    ])

state-put_cells :
    (client : ℕ) (cs : List Cell) (s : Store) (k n : ℕ)
    → end_of_cells cs ≡ n
    → state (put_cells client cs s) k ≡ (if client == k then n else state s k)
unfolding state
state-put_cells client cs s k n e =
    rw (cells_of-put_cells client cs s k)
      (elim (Bool-cases (client == k)) [ inl b ↦ rw b e | inr b ↦ rw b refl ])

-- What a successful Append says.
append-eq-ok :
    (s : Store) (c : Cell) (t : Store)
    → append s c ≡ ok t
    → (state s (struct_id (struct_of c)).client ≡ cell_clock c)
      × (put_cells
            (struct_id (struct_of c)).client
            (cells_of s (struct_id (struct_of c)).client ++ (c ∷ []))
            s
          ≡ t)
unfolding append
append-eq-ok s c t h =
    elim (if-cases (state s (struct_id (struct_of c)).client == cell_clock c) h) [
      | inl (e, k) ↦ (ground arith, cc)
      | inr (e, k) ↦ cc
    ]

-- Append to a sound store takes only a struct that starts where its client's clock stands. If the
-- struct is not empty and ends below 2^63, the store is sound afterwards, the client's clock stands
-- at the end of the struct, and no other clock moves.
pub append-IsSound :
    (s : Store) (c : Cell) (t : Store)
    → IsSound s
    → 0 < cell_len c
    → cell_clock c + cell_len c < 2 ^ 63
    → append s c ≡ ok t
    → (state s (struct_id (struct_of c)).client ≡ cell_clock c)
      × IsSound t
      × ((k : ℕ)
          → state t k ≡ (
              if (struct_id (struct_of c)).client == k
              then cell_clock c + cell_len c
              else state s k))
unfolding state
append-IsSound s c t h p b e =
    let client = (struct_id (struct_of c)).client in
    let (at, same) = append-eq-ok s c t e in
    let more = appended_lem (cells_of s client) c (h client).gapless p b at in
    let sound : IsSoundFor client (cells_of s client ++ (c ∷ [])) = record {
      gapless = more.0;
      owned = All-append (IsOf client) (cells_of s client) (c ∷ []) (h client).owned (refl, tt);
    } in
    (
      at,
      rw (← same) (put_cells-IsSound client _ s h sound),
      λ k. rw (← same) (state-put_cells client _ s k (cell_clock c + cell_len c) more.1),
    )

pub append-Grows :
    (s : Store) (c : Cell) (t : Store)
    → 0 < cell_len c
    → cell_clock c + cell_len c < 2 ^ 63
    → append s c ≡ ok t
    → Grows s t
append-Grows s c t p b e = record {
  sound = λ h. (append-IsSound s c t h p b e).1;
  more = λ k h.
      let (at, _, all) = append-IsSound s c t h p b e in
      rw (all k) (elim (Bool-cases ((struct_id (struct_of c)).client == k)) [
        | inl x ↦
            let one : (struct_id (struct_of c)).client ≡ k = ground arith in
            rw (x, ← one) (omega (arith, at))
        | inr x ↦ rw x (omega arith)
      ]);
}
