-- ===== src/Crdt/Store/Split.antt =====
-- Splitting an item leaves a store sound and every clock where it stood.
use crdt_server.Base.{
  ℕ, zero, suc, ◌+◌, ◌^◌, ◌<◌, ◌≡◌, refl, ap, ◌∙◌, List, [], ◌∷◌, ◌++◌, some, get_elem?, take, drop,
  All, arith, ok, and_then-eq-ok,
}
use crdt_server.Crdt.Content.{Content, content_len, splice}
use crdt_server.Crdt.Content.Splice.{IsCut, splice-IsCut}
use crdt_server.Crdt.Struct.{struct_id, struct_len}
use crdt_server.Crdt.Store.{
  Node, Cell, node, cell_clock, cell_len, Store, cells_of, put_cells, split_item, left_half,
  right_half, put_halves, hand_over_key, assign_to, set_left,
}
use crdt_server.Crdt.Store.Gapless.{
  IsGaplessFrom, IsOf, total, Covers, Covers-then, put_cells-Covers,
}
use crdt_server.Crdt.Store.Links.{assign_to-Covers, hand_over_key-Covers}

-- Two cells in the place of one.
record Halves (x y z : Cell) : Type 0 where
  first : cell_clock y ≡ cell_clock x
  second : cell_clock z ≡ cell_clock x + cell_len y
  sum : cell_len y + cell_len z ≡ cell_len x
  left_full : 0 < cell_len y
  right_full : 0 < cell_len z

Halves-IsGaplessFrom :
    (cs : List Cell) (i c : ℕ) (x y z : Cell)
    → get_elem? cs i ≡ some x
    → Halves x y z
    → IsGaplessFrom c cs
    → IsGaplessFrom c (take i cs ++ (y ∷ z ∷ drop (suc i) cs))
      × (total c (take i cs ++ (y ∷ z ∷ drop (suc i) cs)) ≡ total c cs)
unfolding IsGaplessFrom total
Halves-IsGaplessFrom [] i c x y z e h g = cc
Halves-IsGaplessFrom (w ∷ cs) zero c x y z e h (at, p, b, t) =
    let same : w ≡ x = cc in
    let end : c + cell_len y + cell_len z ≡ c + cell_len w = rw same (omega (arith, h.sum)) in
    let clock : cell_clock x ≡ c = rw same at at in
    (
      (
        h.first ∙ clock,
        h.left_full,
        omega (arith, end, b),
        (h.second ∙ ap (λ n. n + cell_len y) clock, h.right_full, omega (arith, end, b), rw end t),
      ),
      ap (λ n. total n cs) end,
    )
Halves-IsGaplessFrom (w ∷ cs) (suc i) c x y z e h (at, p, b, t) =
    let (g, same) = Halves-IsGaplessFrom cs i (c + cell_len w) x y z e h t in ((at, p, b, g), same)

-- The item that is cut, at its place in the store.
pub record Place (s : Store) (n : Node) (index : ℕ) : Type 0 where
  pub at : get_elem? (cells_of s n.item.id.client) index ≡ some (node n)

pub gapless-at :
    (cs : List Cell) (i c : ℕ) (x : Cell)
    → get_elem? cs i ≡ some x
    → IsGaplessFrom c cs
    → (0 < cell_len x) × (cell_clock x + cell_len x < 2 ^ 63)
unfolding IsGaplessFrom
gapless-at [] i c x e g = cc
gapless-at (w ∷ cs) zero c x e (at, p, b, t) =
    let same : w ≡ x = cc in rw (← same) (p, (rw at (omega (arith, b))))
gapless-at (w ∷ cs) (suc i) c x e (at, p, b, t) = gapless-at cs i (c + cell_len w) x e t

Halves-IsCut :
    (n : Node) (offset : ℕ) (parts : Content × Content)
    → 0 < offset
    → offset < content_len n.item.content
    → n.item.id.clock + content_len n.item.content < 2 ^ 63
    → IsCut offset n.item.content parts
    → Halves (node n) (node (left_half n offset parts.0)) (node (right_half n offset parts.1))
unfolding left_half right_half struct_id struct_len
Halves-IsCut n offset parts p h b (l, r) = record {
  first = refl;
  second = rw l (omega (arith, h, b));
  sum = omega (arith, l, r);
  left_full = omega (arith, l, p);
  right_full = omega (arith, r, h);
}

halves-IsOf :
    (cs : List Cell) (i client : ℕ) (y z : Cell)
    → IsOf client y
    → IsOf client z
    → All (IsOf client) cs
    → All (IsOf client) (take i cs ++ (y ∷ z ∷ drop (suc i) cs))
halves-IsOf [] zero client y z h k g = (h, (k, tt))
halves-IsOf [] (suc i) client y z h k g = (h, (k, tt))
halves-IsOf (w ∷ cs) zero client y z h k (g, gs) = (h, (k, gs))
halves-IsOf (w ∷ cs) (suc i) client y z h k (g, gs) = (g, halves-IsOf cs i client y z h k gs)

put_halves-Covers :
    (s : Store) (n : Node) (offset index : ℕ) (parts : Content × Content)
    → Place s n index
    → 0 < offset
    → offset < content_len n.item.content
    → splice n.item.content offset ≡ ok parts
    → Covers s (
        put_cells n.item.id.client
          (put_halves index
            (left_half n offset parts.0)
            (right_half n offset parts.1)
            (cells_of s n.item.id.client))
          s)
unfolding put_halves
put_halves-Covers s n offset index parts place p h e = put_cells-Covers n.item.id.client _ s (λ g.
    let (full, bound) =
      gapless-at (cells_of s n.item.id.client) index 0 (node n) place.at g.gapless in
    let bound' : n.item.id.clock + content_len n.item.content < 2 ^ 63 =
      unfold struct_id in unfold struct_len in bound in
    let (h', same) =
      Halves-IsGaplessFrom (cells_of s n.item.id.client) index 0 (node n) _ _ place.at
        (Halves-IsCut n offset parts p h bound'
          (splice-IsCut n.item.content offset parts p h (omega (arith, bound')) e))
        g.gapless in
    (
      record {
        gapless = h';
        owned =
            halves-IsOf (cells_of s n.item.id.client) index n.item.id.client _ _
              (unfold struct_id in unfold left_half in refl)
              (unfold struct_id in unfold right_half in refl) g.owned;
      },
      same,
    ))

-- Splitting inside an item covers the same clocks.
pub split_item-Covers :
    (s : Store) (n : Node) (offset index : ℕ) (halves : Node × Node) (t : Store)
    → Place s n index
    → 0 < offset
    → offset < content_len n.item.content
    → split_item s n offset index ≡ ok (halves, t)
    → Covers s t
unfolding split_item
split_item-Covers s n offset index halves t place p h e =
    let (parts, cut, made) = and_then-eq-ok (splice n.item.content offset) _ e in
    let l = left_half n offset parts.0 in
    let r = right_half n offset parts.1 in
    let client = n.item.id.client in
    let halved = put_cells client (put_halves index l r (cells_of s client)) s in
    let result : hand_over_key r (assign_to n.right (set_left (some r.item.id)) halved) ≡ t = cc in
    rw (← result) (
      Covers-then (put_halves-Covers s n offset index parts place p h cut)
        (Covers-then (assign_to-Covers n.right _ halved (λ m. refl)) (hand_over_key-Covers r _)))

-- The halves that splitting gives.
pub split_item-halves :
    (s : Store) (n : Node) (offset index : ℕ) (halves : Node × Node) (t : Store)
    → split_item s n offset index ≡ ok (halves, t)
    → (parts : Content × Content) × (splice n.item.content offset ≡ ok parts)
      × ((left_half n offset parts.0, right_half n offset parts.1) ≡ halves)
unfolding split_item
split_item-halves s n offset index halves t e =
    let (parts, cut, made) = and_then-eq-ok (splice n.item.content offset) _ e in (parts, cut, cc)
