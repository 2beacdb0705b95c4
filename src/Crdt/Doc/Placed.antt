-- ===== src/Crdt/Doc/Placed.antt =====
-- Placing an item keeps a store sound, and takes no clock back.
use crdt_server.Base.{
  if_both, ℕ, ◌+◌, ◌^◌, ◌<◌, ◌≡◌, refl, not, ◌&&◌, ◌||◌, Option, none, some, if◌then◌else◌, arith,
  Bool-cases, Option-cases, Result-cases, inl, inr, is_positive, sub_u64,
}
use crdt_server.Crdt.{StructId, id_at}
use crdt_server.Crdt.Content.{content_len, splice}
use crdt_server.Crdt.Content.Splice.{splice-IsCut}
use crdt_server.Crdt.Struct.{Item, ParentInfo, struct_id, struct_len}
use crdt_server.Crdt.Store.{
  Node, Cell, gc_cell, node, Store, cell_clock, cell_len, append, clean_end, assign, set_left,
  set_right,
}
use crdt_server.Crdt.Store.Gapless.{
  Covers, Covers-same, Covers-then, Grows, Grows-same, Grows-then, Grows-from, Covers-Grows,
}
use crdt_server.Crdt.Store.Links.{
  assign-Covers, set_start-Covers, set_map_item-Covers, append-Grows, KeepsItem,
}
use crdt_server.Crdt.Store.Clean.{clean_end-Covers}
use crdt_server.Crdt.Doc.Place.{
  set_deleted, delete_item, delete_at, appended, link_left, link_right, link, settle, place, attach,
  place_rest, integrate_item, cut_off, is_deleted_type, is_content_deleted, same_id, is_conflicting,
  resolve_conflict,
}

-- An item that takes up clocks, all of which an int64 holds.
abbrev pub IsPlaceable : Item → Type 0
IsPlaceable it = (0 < content_len it.content) × (it.id.clock + content_len it.content < 2 ^ 63)

set_deleted-KeepsItem : KeepsItem set_deleted
set_deleted-KeepsItem n = elim (Bool-cases n.deleted) [ inl e ↦ rw e refl | inr e ↦ rw e refl ]

pub delete_item-Covers : (id : StructId) (s : Store) → Covers s (delete_item id s)
unfolding delete_item
delete_item-Covers id s = assign-Covers id set_deleted s set_deleted-KeepsItem

delete_at-Covers : (p : Option StructId) (s : Store) → Covers s (delete_at p s)
delete_at-Covers none s = Covers-same s
delete_at-Covers (some id) s = delete_item-Covers id s

-- A conditional on a store that covers the same clocks either way.
link_left-Covers :
    (s : Store) (t : ParentInfo) (it : Node)
    → Covers s (link_left s t it).1 × ((link_left s t it).0.item ≡ it.item)
unfolding link_left
link_left-Covers s t it = elim (Option-cases it.left) [
  | inr (l, e) ↦ rw e (assign-Covers l (set_right (some it.item.id)) s (λ n. refl), refl)
  | inl e ↦ rw e (
    if_both (Covers _) it.item.has_parent_sub (Covers-same s)
        (set_start-Covers t (some it.item.id) s),
    refl,
  )
]

link_right-Covers : (t : ParentInfo) (it : Node) (s : Store) → Covers s (link_right t it s)
unfolding link_right
link_right-Covers t it s = elim (Option-cases it.right) [
  | inr (r, e) ↦ rw e (assign-Covers r (set_left (some it.item.id)) s (λ n. refl))
  | inl e ↦ rw e (
      if_both (Covers _) it.item.has_parent_sub
        (Covers-then (set_map_item-Covers t it.item.parent_sub it.item.id s)
          (delete_at-Covers it.left _))
        (Covers-same s))
]

settle-Covers : (t : ParentInfo) (it : Node) (s : Store) → Covers s (settle t it s)
unfolding settle
settle-Covers t it s =
    let marked =
      if is_content_deleted it.item.content then assign it.item.id set_deleted s else s in
    let first : Covers s marked =
      if_both (Covers _) (is_content_deleted it.item.content)
        (assign-Covers it.item.id set_deleted s set_deleted-KeepsItem) (Covers-same s) in
    if_both (Covers _)
      (is_deleted_type marked t || (it.item.has_parent_sub && not (same_id it.right none)))
      (Covers-then first (delete_item-Covers it.item.id marked)) first

pub appended-Grows :
    (s : Store) (c : Cell)
    → 0 < cell_len c
    → cell_clock c + cell_len c < 2 ^ 63
    → Grows s (appended s c)
unfolding appended
appended-Grows s c p b = elim (Result-cases (append s c)) [
  | inl (x, e) ↦ rw (e, appended) (Grows-same s)
  | inr (t, e) ↦ rw (e, appended) (append-Grows s c t p b e)
]

link-Grows : (s : Store) (t : ParentInfo) (it : Node) → IsPlaceable it.item → Grows s (link s t it)
unfolding link struct_id struct_len
link-Grows s t it h =
    let (left, same) = link_left-Covers s t it in
    let n = (link_left s t it).0 in
    let (p, b) : IsPlaceable n.item = rw same h in
    let before = Covers-then left (link_right-Covers t n (link_left s t it).1) in
    Grows-then (Covers-Grows before)
      (Grows-then (appended-Grows _ (node n) p b) (Covers-Grows (settle-Covers t n _)))

attach-Grows :
    (s : Store) (t : ParentInfo) (it : Node) → IsPlaceable it.item → Grows s (attach s t it)
unfolding attach
attach-Grows s t it h = elim (Bool-cases (is_conflicting s it)) [
  | inl e ↦ rw e (link-Grows s t (set_left (resolve_conflict s t it) it) h)
  | inr e ↦ rw e (link-Grows s t it h)
]

place-Grows : (s : Store) (it : Node) → IsPlaceable it.item → Grows s (place s it)
unfolding place struct_id struct_len
place-Grows s it h = elim (Option-cases it.item.parent_type) [
  | inl e ↦ rw e (appended-Grows s (gc_cell it.item.id (content_len it.item.content)) h.0 h.1)
  | inr (t, e) ↦ rw (e, place) (attach-Grows s t it h)
]

place_rest-Grows :
    (s : Store) (it : Node) (offset : ℕ) (id : StructId)
    → 0 < offset
    → offset < content_len it.item.content
    → it.item.id.clock + content_len it.item.content < 2 ^ 63
    → id.clock ≡ it.item.id.clock + offset
    → Grows s (place_rest s it offset id)
unfolding place_rest
place_rest-Grows s it offset id p h b at =
    elim (Result-cases (clean_end s (id_at id.client (sub_u64 id.clock 1)))) [
      | inl (x, e) ↦ rw (e, place_rest) (Grows-same s)
      | inr ((l, t), e) ↦
          let cut : Grows s t = Grows-from (λ g. Covers-Grows (clean_end-Covers s _ l t g e).1) in
          rw (e, place_rest)
            (elim (Result-cases (splice it.item.content offset)) [
              | inl (x, k) ↦ rw k cut
              | inr ((head, tail), k) ↦
                  let (m, r) =
                    splice-IsCut it.item.content offset (head, tail) p h (omega (arith, b)) k in
                  rw k (
                    Grows-then cut (
                      place-Grows t (cut_off it id l tail)
                        (omega (arith, r, h), omega (arith, r, b, at))))
            ])
    ]

-- Integrating an item from an offset inside it keeps the store sound.
pub integrate_item-Grows :
    (s : Store) (it : Node) (offset : ℕ)
    → offset < content_len it.item.content
    → it.item.id.clock + content_len it.item.content < 2 ^ 63
    → Grows s (integrate_item s it offset)
unfolding integrate_item
integrate_item-Grows s it offset h b = elim (Bool-cases (is_positive offset)) [
  | inl e ↦
      let p : 0 < offset = ground arith in
      rw e (place_rest-Grows s it offset _ p h b (omega (arith, h, b)))
  | inr e ↦ rw e (place-Grows s it (omega (arith, h), b))
]
