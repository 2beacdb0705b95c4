-- ===== src/Crdt/Store/Clean.antt =====
-- GetItemCleanStart and GetItemCleanEnd give an item with the wanted boundary, and leave a sound
-- store sound and every clock where it stood.
use crdt_server.Base.{
  ℕ, zero, suc, ◌+◌, ◌-◌, ◌^◌, ◌≤◌, ◌<◌, ◌≡◌, ◌≢◌, ap, ◌∙◌, List, [], ◌∷◌, some, ◌==◌, get_elem?,
  All, arith, if-cases, Option-cases, inl, inr, u64, sub_u64, ok, and_then, and_then-eq-ok,
}
use crdt_server.Crdt.{StructId}
use crdt_server.Crdt.Content.{content_len}
use crdt_server.Crdt.Content.Splice.{splice-IsCut}
use crdt_server.Crdt.Struct.{struct_id, struct_len, last_id}
use crdt_server.Crdt.Store.{
  Node, Cell, gc_cell, skip_cell, node, Store, cells_of, state, find_cell, find, at_index, node_of,
  find_item, split_item, clean_start, clean_end, clean_start_at, clean_end_at, left_half,
  right_half,
}
use crdt_server.Crdt.Store.Gapless.{IsOf, IsSound, Covers, Covers-same}
use crdt_server.Crdt.Store.Find.{find_cell-eq-ok}
use crdt_server.Crdt.Store.Split.{Place, gapless-at, split_item-Covers, split_item-halves}

-- An index that find gives is one of the client's items, which covers the clock.
record FoundItem (s : Store) (id : StructId) (p : ℕ × Node) : Type 0 where
  place : Place s p.1 p.0
  client : p.1.item.id.client ≡ id.client
  starts : p.1.item.id.clock ≤ id.clock
  ends : id.clock < p.1.item.id.clock + content_len p.1.item.content
  bound : p.1.item.id.clock + content_len p.1.item.content < 2 ^ 63

pub owned-at :
    (cs : List Cell) (i client : ℕ) (x : Cell)
    → get_elem? cs i ≡ some x
    → All (IsOf client) cs
    → IsOf client x
owned-at [] i client x e h = cc
owned-at (w ∷ cs) zero client x e (h, hs) = let same : w ≡ x = cc in rw (← same) h
owned-at (w ∷ cs) (suc i) client x e (h, hs) = owned-at cs i client x e hs

pub at_index-eq-ok :
    (cs : List Cell) (i : ℕ) (c : Cell) → at_index cs i ≡ ok c → get_elem? cs i ≡ some c
at_index-eq-ok cs i c h = elim (Option-cases (get_elem? cs i)) [
  | inl e ↦ let f = rw (e, at_index) at h in cc f
  | inr (d, e) ↦ let f = rw (e, at_index) at h in let g : d ≡ c = cc in e ∙ ap some g
]

node_of-eq-ok : (c : Cell) (n : Node) → node_of c ≡ ok n → c ≡ node n
node_of-eq-ok (node m) n h = let e : m ≡ n = cc in ap node e
node_of-eq-ok (gc_cell id k) n h = cc
node_of-eq-ok (skip_cell id k) n h = cc

found_lem :
    (s : Store) (id : StructId) (i : ℕ) (n : Node)
    → IsSound s
    → find_cell (cells_of s id.client) id.clock ≡ ok i
    → get_elem? (cells_of s id.client) i ≡ some (node n)
    → FoundItem s id (i, n)
unfolding struct_id struct_len
found_lem s id i n h f at =
    let cs = cells_of s id.client in
    let (c, at', le, lt) = find_cell-eq-ok cs id.clock i (h id.client).gapless f in
    let one : c ≡ node n = cc in
    let (full, bound) = gapless-at cs i 0 (node n) at (h id.client).gapless in
    let mine : n.item.id.client ≡ id.client =
      owned-at cs i id.client (node n) at (h id.client).owned in
    let le' : n.item.id.clock ≤ id.clock = rw one at le in
    let lt' : id.clock < u64 (n.item.id.clock + content_len n.item.content) = rw one at lt in
    record {
      place = record { at = ap (λ c. get_elem? (cells_of s c) i) mine ∙ at };
      client = mine;
      starts = le';
      ends = omega (arith, lt', bound);
      bound = bound;
    }

find_item-eq-ok :
    (s : Store) (id : StructId) (p : ℕ × Node)
    → IsSound s
    → find_item s id ≡ ok p
    → FoundItem s id p
unfolding find_item find
find_item-eq-ok s id p h e =
    let cs = cells_of s id.client in
    let (i, f, k) = and_then-eq-ok (find_cell cs id.clock) _ e in
    let (n, m, r) = and_then-eq-ok (and_then (at_index cs i) node_of) _ k in
    let (c, a, b) = and_then-eq-ok (at_index cs i) node_of m in
    let same : (i, n) ≡ p = cc in
    rw (← same) (found_lem s id i n h f (at_index-eq-ok cs i c a ∙ ap some (node_of-eq-ok c n b)))

StructId-eq : (a b : StructId) → a.client ≡ b.client → a.clock ≡ b.clock → a ≡ b
StructId-eq a b h k = cc

-- How far into the item an id is.
offset_lem :
    (s : Store) (id : StructId) (p : ℕ × Node)
    → FoundItem s id p
    → sub_u64 id.clock p.1.item.id.clock ≡ id.clock - p.1.item.id.clock
offset_lem s id p f = omega (arith, f.starts, f.ends, f.bound)

-- Where the item starts at the id already, or is split there.
clean_start-cases :
    (s : Store) (id : StructId) (p : ℕ × Node) (n : Node) (t : Store)
    → FoundItem s id p
    → clean_start_at s id p ≡ ok (n, t)
    → (n.item.id ≡ id) × Covers s t
unfolding right_half clean_start_at
clean_start-cases s id p n t found k =
    let offset = sub_u64 id.clock p.1.item.id.clock in
    let exact = offset_lem s id p found in
    elim (if-cases (offset == 0) k) [
      | inl (z, k) ↦
          let e₁ : p.1 ≡ n = cc in
          let e₂ : s ≡ t = cc in
          let clock : p.1.item.id.clock ≡ id.clock = ground (arith, found.starts) in
          (rw (← e₁) (StructId-eq _ id found.client clock), rw (← e₂) (Covers-same s))
      | inr (z, k) ↦
          let (u, g, made) = and_then-eq-ok (split_item s p.1 offset p.0) _ k in
          let (parts, cut, halves) = split_item-halves s p.1 offset p.0 u.0 u.1 g in
          let e₁ : u.0.1 ≡ n = cc in
          let e₂ : u.1 ≡ t = cc in
          let e₃ : right_half p.1 offset parts.1 ≡ n = ap (λ x. x.1) halves ∙ e₁ in
          let positive : 0 < offset = ground arith in
          (
            rw (← e₃) (
                StructId-eq _ id found.client
                  (omega (arith, exact, found.starts, found.bound, found.ends))),
            rw (← e₂) (
                split_item-Covers s p.1 offset p.0 u.0 u.1 found.place positive
                  (omega (arith, exact, found.starts, found.ends)) g),
          )
    ]

-- The item that GetItemCleanStart gives starts at the id, and the store covers the same clocks.
pub clean_start-Covers :
    (s : Store) (id : StructId) (n : Node) (t : Store)
    → IsSound s
    → clean_start s id ≡ ok (n, t)
    → (n.item.id ≡ id) × Covers s t
unfolding clean_start
clean_start-Covers s id n t h e =
    let (p, f, k) = and_then-eq-ok (find_item s id) _ e in
    clean_start-cases s id p n t (find_item-eq-ok s id p h f) k

-- Where the item ends behind the id already, or is split there.
clean_end-cases :
    (s : Store) (id : StructId) (p : ℕ × Node) (n : Node) (t : Store)
    → FoundItem s id p
    → clean_end_at s id p ≡ ok (n, t)
    → (last_id n.item ≡ id) × Covers s t
unfolding left_half last_id clean_end_at
clean_end-cases s id p n t found k =
    let offset = sub_u64 id.clock p.1.item.id.clock in
    let exact = offset_lem s id p found in
    let len = content_len p.1.item.content in
    elim (if-cases (offset == sub_u64 len 1) k) [
      | inl (z, k) ↦
          let e₁ : p.1 ≡ n = cc in
          let e₂ : s ≡ t = cc in
          let z' : offset ≡ sub_u64 len 1 = ground arith in
          (
            rw (← e₁) (
                StructId-eq _ id found.client
                  (omega (arith, z', exact, found.starts, found.ends, found.bound))),
            rw (← e₂) (Covers-same s),
          )
      | inr (z, k) ↦
          let (u, g, made) = and_then-eq-ok (split_item s p.1 (u64 (offset + 1)) p.0) _ k in
          let (parts, cut, halves) = split_item-halves s p.1 (u64 (offset + 1)) p.0 u.0 u.1 g in
          let e₁ : u.0.0 ≡ n = cc in
          let e₂ : u.1 ≡ t = cc in
          let e₃ : left_half p.1 (u64 (offset + 1)) parts.0 ≡ n = ap (λ x. x.0) halves ∙ e₁ in
          let z' : offset ≢ sub_u64 len 1 = ground arith in
          let next : u64 (offset + 1) ≡ id.clock - p.1.item.id.clock + 1 =
            omega (arith, exact, found.starts, found.bound, found.ends) in
          let inside : u64 (offset + 1) < len =
            omega (arith, next, z', exact, found.starts, found.ends, found.bound) in
          let positive : 0 < u64 (offset + 1) = omega (arith, next) in
          let (l, r) =
            splice-IsCut p.1.item.content (u64 (offset + 1)) parts positive inside
              (omega (arith, found.bound)) cut in
          (
            rw (← e₃, l)
                (StructId-eq _ id found.client
                  (omega (arith, next, found.starts, found.bound, found.ends))),
            rw (← e₂) (
                split_item-Covers s p.1 (u64 (offset + 1)) p.0 u.0 u.1 found.place positive inside
                  g),
          )
    ]

-- The item that GetItemCleanEnd gives ends with the id, and the store covers the same clocks.
pub clean_end-Covers :
    (s : Store) (id : StructId) (n : Node) (t : Store)
    → IsSound s
    → clean_end s id ≡ ok (n, t)
    → (last_id n.item ≡ id) × Covers s t
unfolding clean_end
clean_end-Covers s id n t h e =
    let (p, f, k) = and_then-eq-ok (find_item s id) _ e in
    clean_end-cases s id p n t (find_item-eq-ok s id p h f) k

-- In a sound store, the item that GetItemCleanStart gives starts at the id. The store is sound
-- afterwards, and every client's clock stands where it stood, whether an item was split or not.
pub clean_start-IsSound :
    (s : Store) (id : StructId) (n : Node) (t : Store)
    → IsSound s
    → clean_start s id ≡ ok (n, t)
    → (n.item.id ≡ id) × IsSound t × ((client : ℕ) → state t client ≡ state s client)
clean_start-IsSound s id n t h e =
    let (at, c) = clean_start-Covers s id n t h e in (at, c.sound h, λ client. c.same client h)

-- In a sound store, the item that GetItemCleanEnd gives ends with the id. The store is sound
-- afterwards, and every client's clock stands where it stood, whether an item was split or not.
pub clean_end-IsSound :
    (s : Store) (id : StructId) (n : Node) (t : Store)
    → IsSound s
    → clean_end s id ≡ ok (n, t)
    → (last_id n.item ≡ id) × IsSound t × ((client : ℕ) → state t client ≡ state s client)
clean_end-IsSound s id n t h e =
    let (at, c) = clean_end-Covers s id n t h e in (at, c.sound h, λ client. c.same client h)
