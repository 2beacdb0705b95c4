-- ===== src/Crdt/Update/Decoded.antt =====
-- An update of the form that decoding gives comes back as it was.
use crdt_server.Base.{
  ℕ, ◌+◌, ◌^◌, ◌<◌, ◌≡◌, refl, sym, ap, ap₂, List, [], ◌∷◌, Bool, true, false, ◌&&◌, Option, none,
  some, All, arith, if◌then◌else◌, u64,
}
use crdt_server.Lib0.Transfer.{Returns}
use crdt_server.Crdt.{StructId, id_at}
use crdt_server.Crdt.Content.{
  Content, deleted, json, binary, string, embed, format, type, any, doc, string_from,
}
use crdt_server.Crdt.Content.RoundTrip.{content_from}
use crdt_server.Crdt.Struct.{
  Item, Struct, gc, skip, item, ParentInfo, struct_id, struct_len, no_neighbour, origin_at,
}
use crdt_server.Crdt.Struct.RoundTrip.{received, received_item, parent_on_wire}
use crdt_server.Crdt.Update.{
  ClientBlock, Update, is_descending_by_client, ordered, encode, decode_update,
}
use crdt_server.Crdt.Update.RoundTrip.{
  received_structs, received_block, received_blocks, received_update, received_deletes,
  first_offset, IsWritable, encode-Returns,
}

abbrev IsGiven : Option ParentInfo → Type 0
IsGiven none = ⊥
IsGiven (some p) = Unit {0}

-- A parent and a parentSub are there exactly where the wire carries them.
abbrev ParentFits : Bool → Bool → Option ParentInfo → List ℕ → Type 0
ParentFits false has_sub parent sub = (parent ≡ none) × (sub ≡ [])
ParentFits true false parent sub = (sub ≡ []) × IsGiven parent
ParentFits true true parent sub = IsGiven parent

pub record IsDecodedItem (it : Item) : Type 0 where
  pub unresolved : it.parent_type ≡ none
  pub parent :
      ParentFits (no_neighbour it.origin it.right_origin) it.has_parent_sub it.parent it.parent_sub

content_from-zero : (c : Content) → content_from 0 c ≡ c
unfolding content_from string_from
content_from-zero (deleted n) = ap deleted (omega arith)
content_from-zero (json vs) = refl
content_from-zero (string s) = refl
content_from-zero (any vs) = refl
content_from-zero (binary b) = refl
content_from-zero (embed j) = refl
content_from-zero (format k v) = refl
content_from-zero (type t) = refl
content_from-zero (doc g o) = refl

parent_same :
    (alone has_sub : Bool) (parent : Option ParentInfo) (sub : List ℕ)
    → ParentFits alone has_sub parent sub
    → (if alone then some (parent_on_wire none parent) else none) ≡ parent
unfolding parent_on_wire
parent_same false has_sub parent sub (h, _) = sym h
parent_same true false none sub (_, h) = absurd h
parent_same true false (some p) sub h = refl
parent_same true true none sub h = absurd h
parent_same true true (some p) sub h = refl

sub_same :
    (alone has_sub : Bool) (parent : Option ParentInfo) (sub : List ℕ)
    → ParentFits alone has_sub parent sub
    → (if alone && has_sub then sub else []) ≡ sub
sub_same false has_sub parent sub (_, h) = sym h
sub_same true false parent sub (h, _) = sym h
sub_same true true parent sub h = refl

received_item-same : (it : Item) → IsDecodedItem it → received_item it.id 0 it ≡ it
unfolding received_item origin_at
received_item-same it h =
    let alone = no_neighbour it.origin it.right_origin in
    let same_parent = parent_same alone it.has_parent_sub it.parent it.parent_sub h.parent in
    let same_sub = sub_same alone it.has_parent_sub it.parent it.parent_sub h.parent in
    cc (h.unresolved, same_parent, same_sub, content_from-zero it.content)

abbrev pub IsDecodedStruct : Struct → Type 0
IsDecodedStruct (gc id n) = Unit {0}
IsDecodedStruct (skip id n) = Unit {0}
IsDecodedStruct (item it) = IsDecodedItem it

received-same : (s : Struct) → IsDecodedStruct s → received (struct_id s) 0 s ≡ s
unfolding received struct_id
received-same (gc id n) h = ap (gc id) (omega arith)
received-same (skip id n) h = ap (skip id) (omega arith)
received-same (item it) h = ap item (received_item-same it h)

-- The structs stand one behind the other in the clock space of the client.
abbrev pub IsDecodedFrom : ℕ → ℕ → List Struct → Type 0
IsDecodedFrom client clock [] = Unit {0}
IsDecodedFrom client clock (s ∷ ss) =
    (struct_id s ≡ id_at client clock)
    × IsDecodedStruct s
    × IsDecodedFrom client (u64 (clock + struct_len s)) ss

received_structs-same :
    (client clock : ℕ) (ss : List Struct)
    → IsDecodedFrom client clock ss
    → received_structs client clock 0 ss ≡ ss
unfolding received_structs
received_structs-same client clock [] h = refl
received_structs-same client clock (s ∷ ss) (e, h, hs) =
    let same : received (id_at client clock) 0 s ≡ s = rw (← e) (received-same s h) in
    rw same (ap (λ ss. s ∷ ss) (received_structs-same client (u64 (clock + struct_len s)) ss hs))

abbrev IsDecodedBlock : ClientBlock → Type 0
IsDecodedBlock b = (b.start_clock < 2 ^ 64) × IsDecodedFrom b.client b.start_clock b.structs

first_offset-zero :
    (client clock : ℕ) (ss : List Struct)
    → clock < 2 ^ 64
    → IsDecodedFrom client clock ss
    → first_offset clock ss ≡ 0
first_offset-zero client clock [] small h = refl
first_offset-zero client clock (s ∷ ss) small (e, _, _) =
    let at : (struct_id s).clock ≡ clock = ap (λ (id : StructId). id.clock) e in rw at (omega arith)

received_block-same : (b : ClientBlock) → IsDecodedBlock b → received_block b ≡ b
unfolding received_block
received_block-same b (small, h) =
    ap (λ ss. record b { structs = ss })
      (rw (first_offset-zero b.client b.start_clock b.structs small h)
        (received_structs-same b.client b.start_clock b.structs h))

received_blocks-same : (bs : List ClientBlock) → All IsDecodedBlock bs → received_blocks bs ≡ bs
unfolding received_blocks
received_blocks-same [] h = refl
received_blocks-same (b ∷ bs) (h, hs) =
    ap₂ (λ b bs. b ∷ bs) (received_block-same b h) (received_blocks-same bs hs)

-- The form that decoding gives an update: blocks in descending order of client, structs numbered
-- from the start of their block on, and an item's parent where the wire carries it.
pub record IsDecoded (u : Update) : Type 0 where
  pub descending : is_descending_by_client u.clients ≡ true
  pub blocks : All IsDecodedBlock u.clients

received_update-same :
    (u : Update)
    → IsDecoded u
    → received_update u ≡ record u { deletes = some (received_deletes u.deletes) }
unfolding received_update ordered
received_update-same u h = rw h.descending (
    ap (λ bs. record { clients = bs; deletes = some (received_deletes u.deletes) })
      (received_blocks-same u.clients h.blocks))

-- A writable update of that form is encoded to bytes that decode to it, its delete set with the
-- same ranges for the same clients.
pub decode-encode_decoded :
    (u : Update)
    → IsWritable u
    → IsDecoded u
    → Returns (encode u) decode_update (record u { deletes = some (received_deletes u.deletes) })
decode-encode_decoded u w h = rw (← received_update-same u h) (encode-Returns u w)
