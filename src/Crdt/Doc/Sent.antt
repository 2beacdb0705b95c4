-- ===== src/Crdt/Doc/Sent.antt =====
-- What a document sends to a peer that is behind on a client.
use crdt_server.Base.{
  ◌==◌, Option, none, ℕ, zero, suc, ◌+◌, ◌≤◌, ◌<◌, ◌≡◌, refl, sym, ap, ◌∙◌, List, [], ◌∷◌, true,
  false, ◌&&◌, some, ltb, leb, get_elem?, drop, arith, Bool-cases, inl, inr, ok, and_then-eq-ok,
}
use mathlib.Core.List.{Mem, mem-cons_self, mem-cons_of_mem}
use crdt_server.Base.GoMap
use crdt_server.Base.GoMap.{lookup, keys, member, lookup-keys, member-sort_descending}
use crdt_server.Crdt.Doc.{Doc}
use crdt_server.Crdt.{id_at}
use crdt_server.Crdt.StateVector
use crdt_server.Crdt.StateVector.{StateVector}
use crdt_server.Crdt.Update.{ClientBlock, encode}
use crdt_server.Crdt.Store.{
  clients_descending, Cell, cell_clock, cell_len, Store, cells_of, end_of_cells, state, find, get,
  at_index,
}
use crdt_server.Crdt.Store.Gapless.{IsGaplessFrom, IsSound, total, state-total}
use crdt_server.Crdt.Store.Find.{covering, found, get-covering}
use crdt_server.Crdt.Store.Clean.{at_index-eq-ok}
use crdt_server.Crdt.Doc.Sync.{
  structs_of, block_at, block_from, add_block, missing_blocks, missing_update,
  encode_state_as_update,
}

-- The clock is one of the cell's.
abbrev pub HasClock : ℕ → Cell → Type 0
HasClock k c = (cell_clock c ≤ k) × (k < cell_clock c + cell_len c)

test_lem :
    (a k n : ℕ)
    → (((leb a k && ltb k (a + n)) ≡ true) → (a ≤ k) × (k < a + n))
      × (((leb a k && ltb k (a + n)) ≡ false) → a ≤ k → a + n ≤ k)
test_lem a k n = (λ h. (ground (arith, h), ground (arith, h)), λ h le. ground (arith, h, le))

irrefl_lem : (m n : ℕ) → m ≤ n → n < m → ⊥
irrefl_lem m n h k = omega (arith, h, k)

covering-HasClock :
    (cs : List Cell) (start k : ℕ)
    → IsGaplessFrom start cs
    → start ≤ k
    → k < total start cs
    → (c : Cell) × (covering k cs ≡ some c) × HasClock k c
unfolding covering IsGaplessFrom total
covering-HasClock [] start k g le lt = absurd (irrefl_lem start k le lt)
covering-HasClock (x ∷ xs) start k (at, p, b, g) le lt =
    let (inside, outside) = test_lem (cell_clock x) k (cell_len x) in
    elim (Bool-cases (leb (cell_clock x) k && ltb k (cell_clock x + cell_len x))) [
      | inl e ↦ rw e (x, refl, inside e)
      | inr e ↦
          let beyond = outside e (omega (arith, at, le)) in
          rw e (covering-HasClock xs (start + cell_len x) k g (omega (arith, beyond, at)) lt)
    ]

drop-get_elem? :
    (cs : List Cell) (i : ℕ) (c : Cell) → get_elem? cs i ≡ some c → drop i cs ≡ c ∷ drop (suc i) cs
drop-get_elem? [] i c e = cc
drop-get_elem? (x ∷ xs) zero c e = let same : x ≡ c = cc in ap (λ y. y ∷ xs) same
drop-get_elem? (x ∷ xs) (suc i) c e = drop-get_elem? xs i c e

total-drop :
    (cs : List Cell) (i start : ℕ) (c : Cell)
    → IsGaplessFrom start cs
    → get_elem? cs i ≡ some c
    → total (cell_clock c) (drop i cs) ≡ total start cs
unfolding IsGaplessFrom total
total-drop [] i start c g e = cc
total-drop (x ∷ xs) zero start c (at, p, b, g) e =
    let same : x ≡ c = cc in
    ap (λ n. total (n + cell_len x) xs) (ap (λ y. cell_clock y) (sym same) ∙ at)
total-drop (x ∷ xs) (suc i) start c (at, p, b, g) e = total-drop xs i (start + cell_len x) c g e

-- The block for a client whose structs are `cs`, where the store finds the clock.
block_at-HasClock :
    (s : Store) (client clock : ℕ)
    → IsSound s
    → clock < total 0 (cells_of s client)
    → (c : Cell) × (rest : List Cell) × (block_at s client clock
        ≡ some (record { client = client; start_clock = clock; structs = structs_of (c ∷ rest) }))
      × HasClock clock c
      × (total (cell_clock c) (c ∷ rest) ≡ total 0 (cells_of s client))
unfolding block_at get
block_at-HasClock s client clock h lt =
    let cs = cells_of s client in
    let (c, is, has) = covering-HasClock cs 0 clock (h client).gapless (omega arith) lt in
    let got : get s (id_at client clock) ≡ ok c =
      get-covering s (id_at client clock) h ∙ ap found is in
    let (i, f, at) = and_then-eq-ok (find s (id_at client clock)) (at_index cs) got in
    let place = at_index-eq-ok cs i c at in
    let cut = drop-get_elem? cs i c place in
    (
      c,
      drop (suc i) cs,
      rw (f, cut, block_at) refl,
      has,
      ap (λ ds. total (cell_clock c) ds) (sym cut) ∙ total-drop cs i 0 c (h client).gapless place,
    )

block_from_lem :
    (s : Store) (client clock : ℕ) (cs : List Cell)
    → IsGaplessFrom 0 cs
    → clock < end_of_cells cs
    → clock < state s client
    → block_from s client clock cs ≡ block_at s client clock
unfolding block_from end_of_cells IsGaplessFrom
block_from_lem s client clock [] g lt k = absurd (irrefl_lem 0 clock (omega arith) lt)
block_from_lem s client clock (c ∷ cs) (at, p, b, g) lt k =
    let behind : leb (state s client) clock ≡ false = ground (arith, k) in
    let later : ltb clock (cell_clock c) ≡ false = rw at (ground arith) in rw (behind, later) refl

-- The block that the loop over the clients makes for one.
block_from-HasClock :
    (s : Store) (client clock : ℕ)
    → IsSound s
    → clock < state s client
    → (c : Cell) × (rest : List Cell) × (block_from s client clock (cells_of s client)
        ≡ some (record { client = client; start_clock = clock; structs = structs_of (c ∷ rest) }))
      × HasClock clock c
      × (total (cell_clock c) (c ∷ rest) ≡ state s client)
unfolding state
block_from-HasClock s client clock h lt =
    let ends = state-total (cells_of s client) (h client).gapless in
    let (c, rest, made, has, last) = block_at-HasClock s client clock h (omega (arith, lt, ends)) in
    (
      c,
      rest,
      block_from_lem s client clock (cells_of s client) (h client).gapless lt (unfold state in lt)
          ∙ made,
      has,
      last ∙ sym ends,
    )

-- A store with a clock for a client has the client.
cells_of-member :
    (s : Store) (client clock : ℕ)
    → clock < state s client
    → member client (clients_descending s) ≡ true
unfolding state cells_of GoMap.get end_of_cells clients_descending
cells_of-member s client clock lt = elim (Bool-cases (member client (keys s.clients))) [
  | inl e ↦ member-sort_descending client (keys s.clients) ∙ e
  | inr e ↦
      let absent : lookup client s.clients ≡ none = lookup-keys [] client s.clients ∙ rw e refl in
      let empty : cells_of s client ≡ [] = rw (absent, cells_of, GoMap.get) refl in
      let nowhere : state s client ≡ 0 = rw (empty, state) refl in
      absurd (irrefl_lem 0 clock (omega arith) (rw nowhere at lt))
]

add_block-Mem :
    (o : Option ClientBlock) (b : ClientBlock) (bs : List ClientBlock)
    → Mem b bs
    → Mem b (add_block o bs)
unfolding add_block
add_block-Mem none b bs h = h
add_block-Mem (some x) b bs h = mem-cons_of_mem x h

missing_blocks-Mem :
    (s : Store) (sv : StateVector) (client : ℕ) (b : ClientBlock) (clients : List ℕ)
    → member client clients ≡ true
    → block_from s client (StateVector.get sv client) (cells_of s client) ≡ some b
    → Mem b (missing_blocks s sv clients)
unfolding missing_blocks add_block member
missing_blocks-Mem s sv client b [] m e = cc
missing_blocks-Mem s sv client b (c ∷ cs) m e = elim (Bool-cases (c == client)) [
  | inl k ↦ let same : c ≡ client = ground (arith, k) in rw (same, e) mem-cons_self
  | inr k ↦
      add_block-Mem (block_from s c (StateVector.get sv c) (cells_of s c)) b
        (missing_blocks s sv cs) (missing_blocks-Mem s sv client b cs (rw k at m) e)
]

-- For every client on which a peer is behind a document with a sound store, the update that
-- EncodeStateAsUpdate encodes for the peer's state vector has a block: it starts at the peer's
-- clock, its first struct has that clock, and its last one ends where the store's clock stands.
pub missing_update-HasClock :
    (d : Doc) (sv : StateVector) (client : ℕ)
    → IsSound d.store
    → StateVector.get sv client < state d.store client
    → (encode_state_as_update d sv ≡ encode (missing_update d sv))
      × (c : Cell) × (rest : List Cell) × Mem
          (record {
            client = client;
            start_clock = StateVector.get sv client;
            structs = structs_of (c ∷ rest);
          })
          (missing_update d sv).clients
      × HasClock (StateVector.get sv client) c
      × (total (cell_clock c) (c ∷ rest) ≡ state d.store client)
unfolding missing_update encode_state_as_update
missing_update-HasClock d sv client h lt =
    let (c, rest, made, has, last) =
      block_from-HasClock d.store client (StateVector.get sv client) h lt in
    (
      refl,
      c,
      rest,
      missing_blocks-Mem d.store sv client _ (clients_descending d.store)
          (cells_of-member d.store client (StateVector.get sv client) lt) made,
      has,
      last,
    )
