-- ===== src/Crdt/Doc/Ready.antt =====
-- What resolve and the integration of one struct do to a document.
use crdt_server.Base.{
  if_both, ℕ, ◌+◌, ◌^◌, ◌≤◌, ◌<◌, ◌≡◌, refl, sym, ap, ◌∙◌, List, false, ◌||◌, some, ltb, arith,
  Bool-cases, Option-cases, Result-cases, if-cases, inl, inr, is_positive, u64, sub_u64,
}
use crdt_server.Crdt.{StructId, id_at}
use crdt_server.Crdt.Content.{Content}
use crdt_server.Crdt.Struct.{Item, root, owner, Struct, gc, skip, item, struct_id, struct_len}
use crdt_server.Crdt.Store.{Node, gc_cell, Store, cells_of, state, get_item, clean_start, clean_end}
use crdt_server.Crdt.Store.Gapless.{
  IsSound, state-total, total-bound, Covers, Covers-same, Covers-then, Covers-from, Grows,
  Grows-same, Grows-then, Covers-Grows,
}
use crdt_server.Crdt.Store.Clean.{clean_start-Covers, clean_end-Covers}
use crdt_server.Crdt.Doc.{
  Doc, has_root, get_root, Resolved, fresh, resolve_left, resolve_right, resolve_parent,
  resolve_then, resolve_item, resolve, deref, is_missing, owner_of,
}
use crdt_server.Crdt.Doc.Placed.{appended-Grows, integrate_item-Grows}
use crdt_server.Crdt.Doc.Queue.{
  taken, gc_from, take_resolved, take_struct, is_known, offer_head, offer,
}

-- The struct ends where an int64 can hold the clock.
abbrev pub IsBounded : Struct → Type 0
IsBounded s = (struct_id s).clock + struct_len s < 2 ^ 63

-- What looking for an item's neighbours leaves as it was: the clocks, the pending updates, and
-- the id and the content of the item.
record Prepared (d : Doc) (i : StructId) (c : Content) (r : Resolved) : Type 0 where
  covers : Covers d.store r.doc.store
  pending : r.doc.pending ≡ d.pending
  id : r.node.item.id ≡ i
  content : r.node.item.content ≡ c

Prepared-same :
    (d : Doc) (i : StructId) (c : Content) (r : Resolved)
    → r.doc.store ≡ d.store
    → r.doc.pending ≡ d.pending
    → r.node.item.id ≡ i
    → r.node.item.content ≡ c
    → Prepared d i c r
Prepared-same d i c r e p f g = record {
  covers = rw e (Covers-same d.store);
  pending = p;
  id = f;
  content = g;
}

resolve_left-Prepared :
    (d : Doc) (n : Node) → Prepared d n.item.id n.item.content (resolve_left d n)
unfolding resolve_left
resolve_left-Prepared d n = elim (Option-cases n.item.origin) [
  | inl e ↦ rw (e, resolve_left) (Prepared-same d n.item.id n.item.content _ refl refl refl refl)
  | inr (id, e) ↦ elim (Result-cases (clean_end d.store id)) [
    | inl (x, k) ↦
        rw (e, k, resolve_left) (Prepared-same d n.item.id n.item.content _ refl refl refl refl)
    | inr ((l, s), k) ↦
        rw (e, k, resolve_left)
          (record {
            covers = Covers-from (λ h. (clean_end-Covers d.store id l s h k).1);
            pending = refl;
            id = refl;
            content = refl;
          })
  ]
]

resolve_right-Prepared :
    (d : Doc) (n : Node) → Prepared d n.item.id n.item.content (resolve_right d n)
unfolding resolve_right
resolve_right-Prepared d n = elim (Option-cases n.item.right_origin) [
  | inl e ↦ rw (e, resolve_right) (Prepared-same d n.item.id n.item.content _ refl refl refl refl)
  | inr (id, e) ↦ elim (Result-cases (clean_start d.store id)) [
    | inl (x, k) ↦
        rw (e, k, resolve_right) (Prepared-same d n.item.id n.item.content _ refl refl refl refl)
    | inr ((l, s), k) ↦
        rw (e, k, resolve_right)
          (record {
            covers = Covers-from (λ h. (clean_start-Covers d.store id l s h k).1);
            pending = refl;
            id = refl;
            content = refl;
          })
  ]
]

get_root-same :
    (d : Doc) (name : List ℕ)
    → ((get_root d name).store ≡ d.store) × ((get_root d name).pending ≡ d.pending)
unfolding get_root
get_root-same d name = elim (Bool-cases (has_root name d.roots)) [
  | inl e ↦ rw e (refl, refl)
  | inr e ↦ rw e (refl, refl)
]

resolve_parent-Prepared :
    (d : Doc) (n : Node) → Prepared d n.item.id n.item.content (resolve_parent d n)
unfolding resolve_parent
resolve_parent-Prepared d n = elim (Option-cases n.item.parent) [
  | inr (root name, e) ↦
      let (s, p) = get_root-same d name in
      rw (e, resolve_parent) (Prepared-same d n.item.id n.item.content _ s p refl refl)
  | inr (owner id, e) ↦ elim (Result-cases (get_item d.store id)) [
    | inl (x, k) ↦
        rw (e, k, resolve_parent) (Prepared-same d n.item.id n.item.content _ refl refl refl refl)
    | inr (o, k) ↦
        rw (e, k, resolve_parent) (Prepared-same d n.item.id n.item.content _ refl refl refl refl)
  ]
  | inl e ↦ elim (Option-cases (deref d.store n.left)) [
    | inr (l, k) ↦
        rw (e, k, resolve_parent) (Prepared-same d n.item.id n.item.content _ refl refl refl refl)
    | inl k ↦ elim (Option-cases (deref d.store n.right)) [
      | inr (r, m) ↦
          rw (e, k, m, resolve_parent)
            (Prepared-same d n.item.id n.item.content _ refl refl refl refl)
      | inl m ↦
          rw (e, k, m, resolve_parent)
            (Prepared-same d n.item.id n.item.content _ refl refl refl refl)
    ]
  ]
]

resolve_then-Prepared :
    (d : Doc) (n : Node) (r : Resolved) (f : Doc → Node → Resolved)
    → Prepared d n.item.id n.item.content r
    → Prepared r.doc r.node.item.id r.node.item.content (f r.doc r.node)
    → Prepared d n.item.id n.item.content (resolve_then r f)
unfolding resolve_then
resolve_then-Prepared d n r f h k = if_both (Prepared _ _ _) r.gone h (record {
  covers = Covers-then h.covers k.covers;
  pending = k.pending ∙ h.pending;
  id = k.id ∙ h.id;
  content = k.content ∙ h.content;
})

resolve_item-Prepared : (d : Doc) (it : Item) → Prepared d it.id it.content (resolve_item d it)
unfolding resolve_item
resolve_item-Prepared d it =
    resolve_then-Prepared d (fresh it) _ resolve_parent
      (resolve_then-Prepared d (fresh it) (resolve_left d (fresh it)) resolve_right
        (resolve_left-Prepared d (fresh it)) (resolve_right-Prepared _ _))
      (resolve_parent-Prepared _ _)

-- A document after some integration: the store is sound if it was, no clock went back, and the
-- pending updates are the same.
pub record Advances (d e : Doc) : Type 0 where
  pub grows : Grows d.store e.store
  pub pending : e.pending ≡ d.pending

pub Advances-same : (d : Doc) → Advances d d
Advances-same d = record { grows = Grows-same d.store; pending = refl }

pub Advances-then : {d e f : Doc} → Advances d e → Advances e f → Advances d f
Advances-then h k = record { grows = Grows-then h.grows k.grows; pending = k.pending ∙ h.pending }

gc_from-Grows :
    (id : StructId) (n offset : ℕ) (s : Store)
    → offset < n
    → id.clock + n < 2 ^ 63
    → Grows s (gc_from id n offset s)
unfolding struct_id struct_len
gc_from-Grows id n offset s h b = elim (Bool-cases (is_positive offset)) [
  | inl e ↦ rw e (
      appended-Grows s (gc_cell (id_at id.client (u64 (id.clock + offset))) (sub_u64 n offset))
        (omega (arith, h, b)) (omega (arith, h, b)))
  | inr e ↦ rw e (appended-Grows s (gc_cell id n) (omega (arith, h)) b)
]

taken-eq : {d e : Doc} → taken d ≡ taken e → d ≡ e
taken-eq h = cc

resolve-eq-some :
    (d : Doc) (it : Item) (r : Resolved) → resolve d it ≡ some r → resolve_item d it ≡ r
unfolding resolve
resolve-eq-some d it r h =
    elim (if-cases
      (is_missing d it it.origin
        || is_missing d it it.right_origin
        || is_missing d it (owner_of it.parent))
      h) [ inl (x, k) ↦ cc | inr (x, k) ↦ cc ]

take_struct-Advances :
    (d : Doc) (s : Struct) (offset : ℕ) (e : Doc)
    → offset < struct_len s
    → IsBounded s
    → take_struct d s offset ≡ taken e
    → Advances d e
unfolding take_struct struct_id struct_len
take_struct-Advances d (gc id n) offset e h b k =
    rw (← taken-eq k) (record { grows = gc_from-Grows id n offset d.store h b; pending = refl })
take_struct-Advances d (skip id n) offset e h b k = rw (← taken-eq k) (Advances-same d)
take_struct-Advances d (item it) offset e h b k = elim (Option-cases (resolve d it)) [
  | inl m ↦ let f = rw (m, take_struct) at k in cc f
  | inr (r, m) ↦
      let f : take_resolved offset (some r) ≡ taken e = ap (take_resolved offset) (sym m) ∙ k in
      let same : resolve_item d it ≡ r = resolve-eq-some d it r m in
      let ready : Prepared d it.id it.content r = rw (← same) (resolve_item-Prepared d it) in
      rw (← taken-eq f) (record {
        grows = Grows-then (Covers-Grows ready.covers) (
            integrate_item-Grows r.doc.store r.node offset (rw ready.content h)
              (rw (ready.content, ready.id) b));
        pending = ready.pending;
      })
]

pub state-bound : (s : Store) (client : ℕ) → IsSound s → state s client < 2 ^ 63
unfolding state
state-bound s client g =
    rw (state-total (cells_of s client) (g client).gapless)
      (total-bound (cells_of s client) 0 (omega arith) (g client).gapless)

not_ltb : (a b : ℕ) → ltb a b ≡ false → b ≤ a
not_ltb a b h = ground arith

not_known : (offset len : ℕ) → offset < 2 ^ 63 → is_known offset len ≡ false → offset < len
not_known offset len b h = ground arith

-- A struct that is not blocked is dropped or integrated.
pub offer_head-Advances :
    (d : Doc) (s : Struct) (e : Doc)
    → IsSound d.store
    → IsBounded s
    → offer_head d s ≡ taken e
    → Advances d e
unfolding offer_head
offer_head-Advances d s e g b k =
    let at = state d.store (struct_id s).client in
    let low = state-bound d.store (struct_id s).client g in
    elim (if-cases (ltb at (struct_id s).clock) k) [
      | inl (x, f) ↦ cc
      | inr (x, f) ↦
          let offset = sub_u64 at (struct_id s).clock in
          let after : (struct_id s).clock ≤ at = not_ltb at (struct_id s).clock x in
          elim (if-cases (is_known offset (struct_len s)) f) [
            | inl (y, m) ↦ rw (← taken-eq m) (Advances-same d)
            | inr (y, m) ↦
                take_struct-Advances d s offset e
                  (not_known offset (struct_len s) (omega (arith, low, after, b)) y) b m
          ]
    ]

pub offer-Advances :
    (d : Doc) (s : Struct) (e : Doc)
    → IsSound d.store
    → IsBounded s
    → offer d s ≡ taken e
    → Advances d e
unfolding offer
offer-Advances d (skip id n) e g b k = rw (← taken-eq k) (Advances-same d)
offer-Advances d (gc id n) e g b k = offer_head-Advances d (gc id n) e g b k
offer-Advances d (item it) e g b k = offer_head-Advances d (item it) e g b k
