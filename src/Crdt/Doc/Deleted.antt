-- ===== src/Crdt/Doc/Deleted.antt =====
-- Deleting covers the same clocks: it marks items, and splits them at the ends of a range.
use crdt_server.Base.{
  if_both, ℕ, zero, suc, ◌+◌, ◌^◌, ◌<◌, ◌≡◌, ap, ◌∙◌, false, some, ltb, leb, ltb→lt, get_elem?,
  arith, Bool-cases, Option-cases, Result-cases, inl, inr, sub_u64,
}
use crdt_server.Crdt.{StructId, id_at}
use crdt_server.Crdt.Content.{content_len}
use crdt_server.Crdt.Struct.{struct_id, struct_len}
use crdt_server.Crdt.Store.{
  Node, Cell, gc_cell, skip_cell, node, Store, cell_clock, cell_end, cells_of, state, find, get,
  clean_start, split_item,
}
use crdt_server.Crdt.Store.Gapless.{IsSound, Covers, Covers-same, Covers-then, Covers-from}
use crdt_server.Crdt.Store.Split.{Place, gapless-at, split_item-Covers}
use crdt_server.Crdt.Store.Clean.{clean_start-Covers, owned-at}
use crdt_server.Crdt.Doc.Deletes.{
  starting_at, delete_part, delete_cell, delete_cells, delete_from, delete_range,
}
use crdt_server.Crdt.Doc.Placed.{delete_item-Covers}

starting_at-Covers :
    (s : Store) (id : StructId) (t : Store) → starting_at s id ≡ some t → Covers s t
unfolding starting_at
starting_at-Covers s id t e = elim (Result-cases (clean_start s id)) [
  | inr ((n, u), k) ↦
      let f = rw (k, starting_at) at e in
      let same : u ≡ t = cc in rw (← same) (Covers-from (λ h. (clean_start-Covers s id n u h k).1))
  | inl (x, k) ↦ elim (Result-cases (get s id)) [
    | inl (y, m) ↦ let f = rw (k, m, starting_at) at e in cc f
    | inr (c, m) ↦
        let f = rw (k, m, starting_at) at e in let same : s ≡ t = cc in rw (← same) (Covers-same s)
  ]
]

not_leb : (a b : ℕ) → leb a b ≡ false → b < a
not_leb a b h = ground arith

delete_part-Covers :
    (s : Store) (n : Node) (to index : ℕ)
    → Place s n index
    → n.item.id.clock < to
    → n.item.id.clock + content_len n.item.content < 2 ^ 63
    → Covers s (delete_part s n to index)
unfolding delete_part struct_id struct_len
delete_part-Covers s n to index place before b = elim (Bool-cases (ltb to (cell_end (node n)))) [
  | inr e ↦ rw e (delete_item-Covers n.item.id s)
  | inl e ↦ rw e (
      let wrapped = ltb→lt to (cell_end (node n)) e in
      let inside : to < n.item.id.clock + content_len n.item.content = omega (arith, wrapped, b) in
      elim (Result-cases (split_item s n (sub_u64 to n.item.id.clock) index)) [
        | inl (x, k) ↦ rw k (Covers-same s)
        | inr ((halves, t), k) ↦ rw k (
            Covers-then
              (split_item-Covers s n (sub_u64 to n.item.id.clock) index halves t place
                (omega (arith, before, inside, b)) (omega (arith, before, inside, b)) k)
              (delete_item-Covers n.item.id t))
      ])
]

delete_cell-Covers :
    (s : Store) (c : Cell) (client to index : ℕ)
    → get_elem? (cells_of s client) index ≡ some c
    → cell_clock c < to
    → Covers s (delete_cell s c to index)
unfolding delete_cell
delete_cell-Covers s (gc_cell id n) client to index at before = Covers-same s
delete_cell-Covers s (skip_cell id n) client to index at before = Covers-same s
delete_cell-Covers s (node n) client to index at before =
    Covers-from {s = s} {t = delete_cell s (node n) to index} (λ h.
      let mine : n.item.id.client ≡ client =
        unfold struct_id in
        owned-at (cells_of s client) index client (node n) at (h client).owned in
      let (p, b) = gapless-at (cells_of s client) index 0 (node n) at (h client).gapless in
      if_both (Covers _) n.deleted (Covers-same s) (
        delete_part-Covers s n to index
          (record { at = ap (λ k. get_elem? (cells_of s k) index) mine ∙ at })
          (unfold struct_id in before) (unfold struct_id in unfold struct_len in b)))

delete_cells-Covers :
    (fuel : ℕ) (s : Store) (client to index : ℕ) → Covers s (delete_cells fuel s client to index)
unfolding delete_cells
delete_cells-Covers zero s client to index = Covers-same s
delete_cells-Covers (suc fuel) s client to index =
    elim (Option-cases (get_elem? (cells_of s client) index)) [
      | inl e ↦ rw (e, delete_cells) (Covers-same s)
      | inr (c, e) ↦
          rw (e, delete_cells)
            (elim (Bool-cases (leb to (cell_clock c))) [
              | inl k ↦ rw k (Covers-same s)
              | inr k ↦ rw k (
                  Covers-then
                    (delete_cell-Covers s c client to index e (not_leb to (cell_clock c) k))
                    (delete_cells-Covers fuel (delete_cell s c to index) client to (suc index)))
            ])
    ]

delete_from-Covers : (s : Store) (id : StructId) (to : ℕ) → Covers s (delete_from s id to)
unfolding delete_from
delete_from-Covers s id to = elim (Result-cases (find s id)) [
  | inl (x, e) ↦ rw (e, delete_from) (Covers-same s)
  | inr (i, e) ↦ rw (e, delete_from) (delete_cells-Covers _ s id.client to i)
]

-- Deleting a range leaves a sound store sound, and every clock where it stood.
pub delete_range-Covers :
    (s : Store) (client from to : ℕ) → Covers s (delete_range s client from to)
unfolding delete_range
delete_range-Covers s client from to = elim (Bool-cases (leb to from)) [
  | inl e ↦ rw e (Covers-same s)
  | inr e ↦ rw e (elim (Option-cases (starting_at s (id_at client from))) [
    | inl k ↦ rw (k, delete_range) (Covers-same s)
    | inr (t, k) ↦
        rw (k, delete_range)
          (Covers-then (starting_at-Covers s (id_at client from) t k)
            (delete_from-Covers t (id_at client from) to))
  ])
]

-- Deleting a range of a sound store leaves it sound, and every client's clock where it stood.
pub delete_range-IsSound :
    (s : Store) (client from to : ℕ)
    → IsSound s
    → IsSound (delete_range s client from to)
      × ((k : ℕ) → state (delete_range s client from to) k ≡ state s k)
delete_range-IsSound s client from to h =
    let c = delete_range-Covers s client from to in (c.sound h, λ k. c.same k h)
