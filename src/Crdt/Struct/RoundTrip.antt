-- ===== src/Crdt/Struct/RoundTrip.antt =====
-- A struct is read back as it was written: from its place in the block, less what the offset
-- leaves out.
use crdt_server.Base.{
  ℕ, ◌-◌, ◌%◌, ◌^◌, ◌≤◌, ◌<◌, ◌≡◌, refl, ◌≢◌, List, [], Bool, true, false, ◌&&◌, Option, none, some,
  ◌==◌, length, arith, if◌then◌else◌, has_bit, sub_u64,
}
use crdt_server.Lib0.Decoder.{read_var_uint, Read, ◌>>=◌, pure, read_var_string}
use crdt_server.Lib0.Encoder.{write_uint8, write_var_uint, write_var_string}
use crdt_server.Lib0.Transfer.{
  Transfers, Transfers-pure, Transfers-writer, Transfers-reader, Transfers-weaken, Transfers-bind,
  Transfers-map,
}
use crdt_server.Lib0.VarUint.{var_uint-Transfers}
use crdt_server.Lib0.Bytes.{uint8-Transfers, var_string-Transfers}
use crdt_server.Crdt.{
  write_id, read_id, StructId, id_at, read_len, IsSafeId, id-Transfers, len-Transfers,
}
use crdt_server.Crdt.Content
use crdt_server.Crdt.Content.{Content, read_content}
use crdt_server.Crdt.Content.RoundTrip
use crdt_server.Crdt.Content.RoundTrip.{content_from, content-Transfers, rest_length}
use crdt_server.Crdt.Struct.{
  ParentInfo, root, owner, Item, Struct, gc, skip, item, origin_at, no_neighbour, is_present,
  info_byte, write_optional_id, write_parent_info, write_parent, write_item, write_struct,
  read_optional_id, read_parent_of_kind, read_parent_info, read_parent, read_parent_unless,
  read_struct_body, read_struct,
}

-- The parent that the wire names.
unfoldable pub parent_on_wire : Option ParentInfo → Option ParentInfo → ParentInfo
parent_on_wire (some p) decoded = p
parent_on_wire none (some p) = p
parent_on_wire none none = root []

-- An item as a receiver decodes it, at its place in the block.
unfoldable pub received_item : StructId → ℕ → Item → Item
received_item id offset it =
    let alone = no_neighbour (origin_at offset it) it.right_origin in
    record {
      id = id;
      origin = origin_at offset it;
      right_origin = it.right_origin;
      parent = if alone then some (parent_on_wire it.parent_type it.parent) else none;
      has_parent_sub = it.has_parent_sub;
      parent_sub = if alone && it.has_parent_sub then it.parent_sub else [];
      content = content_from offset it.content;
      parent_type = none;
    }

unfoldable pub received : StructId → ℕ → Struct → Struct
received id offset (gc _ n) = gc id (n - offset)
received id offset (skip _ n) = skip id (n - offset)
received id offset (item it) = item (received_item id offset it)

abbrev IsSafeOption : Option StructId → Type 0
IsSafeOption none = Unit {0}
IsSafeOption (some id) = IsSafeId id

abbrev IsSafeParent : ParentInfo → Type 0
IsSafeParent (root name) = length name < 2 ^ 53
IsSafeParent (owner id) = IsSafeId id

-- What the wire has room for: the ids, the strings, and the content from the offset on.
pub record IsWritableItem (offset : ℕ) (it : Item) : Type 0 where
  pub origin : IsSafeOption (origin_at offset it)
  pub right_origin : IsSafeOption it.right_origin
  pub parent : IsSafeParent (parent_on_wire it.parent_type it.parent)
  pub parent_sub : length it.parent_sub < 2 ^ 53
  pub content : Content.RoundTrip.IsWritable offset it.content

abbrev pub IsWritable : ℕ → Struct → Type 0
IsWritable offset (gc id n) = (offset ≤ n) × (n ≤ 2 ^ 31)
IsWritable offset (skip id n) = (offset ≤ n) × (n ≤ 2 ^ 31)
IsWritable offset (item it) = IsWritableItem offset it

-- The flags and the ref of an info byte.
info_bits :
    (ref : ℕ) (o r s : Bool)
    → ref < 10
    → (has_bit (info_byte ref o r s) 7 ≡ o)
      × (has_bit (info_byte ref o r s) 6 ≡ r)
      × (has_bit (info_byte ref o r s) 5 ≡ s)
      × (info_byte ref o r s % 32 ≡ ref)
unfolding info_byte
info_bits ref true true true h = (ground arith, ground arith, ground arith, omega arith)
info_bits ref true true false h = (ground arith, ground arith, ground arith, omega arith)
info_bits ref true false true h = (ground arith, ground arith, ground arith, omega arith)
info_bits ref true false false h = (ground arith, ground arith, ground arith, omega arith)
info_bits ref false true true h = (ground arith, ground arith, ground arith, omega arith)
info_bits ref false true false h = (ground arith, ground arith, ground arith, omega arith)
info_bits ref false false true h = (ground arith, ground arith, ground arith, omega arith)
info_bits ref false false false h = (ground arith, ground arith, ground arith, omega arith)

ref_bounds : (c : Content) → (0 < Content.ref c) × (Content.ref c < 10)
unfolding Content.ref
ref_bounds c = ground arith

optional_id-Transfers :
    (o : Option StructId)
    → IsSafeOption o
    → Transfers (write_optional_id o) (read_optional_id (is_present o)) o 0
unfolding write_optional_id read_optional_id is_present
optional_id-Transfers none h = Transfers-pure none
optional_id-Transfers (some id) h =
    Transfers-weaken (omega arith) (Transfers-map some (id-Transfers id h))

root-Transfers :
    (name : List ℕ)
    → length name < 2 ^ 53
    → (f : ℕ → Read ParentInfo)
    → ((d : List ℕ) → f 1 d ≡ (read_var_string >>= λ s. pure (root s)) d)
    → Transfers
        (λ e. write_var_string name (write_var_uint 1 e))
        (read_var_uint >>= f)
        (root name)
        2
root-Transfers name h f e =
    Transfers-bind f (var_uint-Transfers 1 (omega arith))
      (Transfers-reader e (Transfers-map root (var_string-Transfers name h)))

owner-Transfers :
    (id : StructId)
    → IsSafeId id
    → (f : ℕ → Read ParentInfo) → ((d : List ℕ) → f 0 d ≡ (read_id >>= λ s. pure (owner s)) d)
    → Transfers (λ e. write_id id (write_var_uint 0 e)) (read_var_uint >>= f) (owner id) 3
owner-Transfers id h f e =
    Transfers-bind f (var_uint-Transfers 0 (omega arith))
      (Transfers-reader e (Transfers-map owner (id-Transfers id h)))

parent_info-Transfers :
    (resolved decoded : Option ParentInfo)
    → IsSafeParent (parent_on_wire resolved decoded)
    → Transfers
        (write_parent_info resolved decoded)
        read_parent_info
        (parent_on_wire resolved decoded)
        2
unfolding write_parent_info parent_on_wire read_parent_info read_parent_of_kind
parent_info-Transfers (some (owner id)) decoded h =
    Transfers-weaken (omega arith) (owner-Transfers id h read_parent_of_kind (λ d. refl))
parent_info-Transfers (some (root name)) decoded h =
    root-Transfers name h read_parent_of_kind (λ d. refl)
parent_info-Transfers none none h = root-Transfers [] h read_parent_of_kind (λ d. refl)
parent_info-Transfers none (some (root name)) h =
    root-Transfers name h read_parent_of_kind (λ d. refl)
parent_info-Transfers none (some (owner id)) h =
    Transfers-weaken (omega arith) (owner-Transfers id h read_parent_of_kind (λ d. refl))

parent_sub-Transfers :
    (resolved decoded : Option ParentInfo) (sub : List ℕ) (has_sub : Bool)
    → IsSafeParent (parent_on_wire resolved decoded)
    → length sub < 2 ^ 53
    → Transfers
        (λ e.
          if has_sub
          then write_var_string sub (write_parent_info resolved decoded e)
          else write_parent_info resolved decoded e)
        (read_parent has_sub)
        (some (parent_on_wire resolved decoded), if has_sub then sub else [])
        0
unfolding read_parent
parent_sub-Transfers resolved decoded sub true hp hs = Transfers-weaken (omega arith) (
    Transfers-bind (λ p. read_var_string >>= λ s. pure (some p, s))
      (parent_info-Transfers resolved decoded hp)
      (Transfers-map (λ s. (some (parent_on_wire resolved decoded), s))
        (var_string-Transfers sub hs)))
parent_sub-Transfers resolved decoded sub false hp hs =
    Transfers-weaken (omega arith)
      (Transfers-map (λ p. (some p, [])) (parent_info-Transfers resolved decoded hp))

parent-Transfers :
    (it : Item) (alone : Bool)
    → IsSafeParent (parent_on_wire it.parent_type it.parent)
    → length it.parent_sub < 2 ^ 53
    → Transfers
        (λ e. if alone then write_parent it e else e)
        (read_parent_unless alone it.has_parent_sub)
        (
          if alone then some (parent_on_wire it.parent_type it.parent) else none,
          if alone && it.has_parent_sub then it.parent_sub else [],
        )
        0
unfolding read_parent_unless write_parent
parent-Transfers it false hp hs = Transfers-pure (none, [])
parent-Transfers it true hp hs =
    parent_sub-Transfers it.parent_type it.parent it.parent_sub it.has_parent_sub hp hs

-- The reader of an item behind an info byte with these flags and this ref, in its stages.
abbrev read_after_parent :
    StructId
    → Option StructId
    → Option StructId
    → Bool
    → ℕ
    → Option ParentInfo × List ℕ
    → Read Struct
read_after_parent id origin right has_sub ref p = read_content ref >>= λ content. pure (
    item (record {
      id = id;
      origin = origin;
      right_origin = right;
      parent = p.0;
      has_parent_sub = has_sub;
      parent_sub = p.1;
      content = content;
      parent_type = none;
    }))

abbrev read_after_right : StructId → Option StructId → Bool → ℕ → Option StructId → Read Struct
read_after_right id origin has_sub ref right =
    read_parent_unless (no_neighbour origin right) has_sub
    >>= read_after_parent id origin right has_sub ref

abbrev read_after_origin : StructId → Bool → Bool → ℕ → Option StructId → Read Struct
read_after_origin id has_right has_sub ref origin =
    read_optional_id has_right >>= read_after_right id origin has_sub ref

abbrev read_flagged : StructId → Bool → Bool → Bool → ℕ → Read Struct
read_flagged id has_origin has_right has_sub ref =
    read_optional_id has_origin >>= read_after_origin id has_right has_sub ref

ne→== : (a b : ℕ) → a ≢ b → (a == b) ≡ false
ne→== a b h = ground arith

read_struct_body-info_byte :
    (id : StructId) (ref : ℕ) (o r s : Bool) (d : List ℕ)
    → 0 < ref
    → ref < 10
    → read_struct_body id (info_byte ref o r s) d ≡ read_flagged id o r s ref d
unfolding read_struct_body
read_struct_body-info_byte id ref o r s d lo hi =
    let (ho, hr, hs, hf) = info_bits ref o r s hi in
    rw (ho, hr, hs, hf, ne→== ref 0 (omega arith), ne→== ref 10 (omega arith))

pub item-Transfers :
    (it : Item) (offset client clock : ℕ)
    → IsWritableItem offset it
    → Transfers
        (write_item it offset)
        (read_struct client clock)
        (item (received_item (id_at client clock) offset it))
        1
unfolding write_item read_struct received_item
item-Transfers it offset client clock h =
    let id = id_at client clock in
    let origin = origin_at offset it in
    let ref = Content.ref it.content in
    let (lo, hi) = ref_bounds it.content in
    Transfers-weaken (omega arith) (
      Transfers-bind (read_struct_body id)
        (uint8-Transfers
          (info_byte ref (is_present origin) (is_present it.right_origin) it.has_parent_sub))
        (Transfers-reader
          (λ d.
            read_struct_body-info_byte id ref (is_present origin) (is_present it.right_origin)
              it.has_parent_sub d lo hi)
          (Transfers-bind (read_after_origin id (is_present it.right_origin) it.has_parent_sub ref)
            (optional_id-Transfers origin h.origin)
            (Transfers-bind (read_after_right id origin it.has_parent_sub ref)
              (optional_id-Transfers it.right_origin h.right_origin)
              (Transfers-bind (read_after_parent id origin it.right_origin it.has_parent_sub ref)
                (parent-Transfers it (no_neighbour origin it.right_origin) h.parent h.parent_sub)
                (Transfers-map
                  (λ content. item (record (received_item id offset it) { content = content }))
                  (content-Transfers it.content offset h.content)))))))

-- A GC and a Skip: a length behind the tag.
run-Transfers :
    (make : StructId → ℕ → Struct) (tag n offset client clock : ℕ)
    → offset ≤ n
    → n ≤ 2 ^ 31
    → ((d : List ℕ)
        → read_struct_body (id_at client clock) tag d
          ≡ (read_len >>= λ n. pure (make (id_at client clock) n)) d)
    → Transfers
        (λ e. write_var_uint (sub_u64 n offset) (write_uint8 tag e))
        (read_struct client clock)
        (make (id_at client clock) (n - offset))
        1
unfolding read_struct
run-Transfers make tag n offset client clock h k e =
    let id = id_at client clock in
    Transfers-weaken (omega arith) (
      Transfers-bind {w = write_var_uint (sub_u64 n offset)} (read_struct_body id)
        (uint8-Transfers tag)
        (Transfers-reader e (
          Transfers-writer (λ b. rw (rest_length n offset h k))
            (Transfers-map (make id) (len-Transfers (n - offset) (omega arith))))))

-- A struct of a block is read back at its place, less what the offset leaves out.
pub struct-Transfers :
    (s : Struct) (offset client clock : ℕ)
    → IsWritable offset s
    → Transfers
        (write_struct s offset)
        (read_struct client clock)
        (received (id_at client clock) offset s)
        1
unfolding write_struct received
struct-Transfers (gc id n) offset client clock (h, k) =
    run-Transfers gc 0 n offset client clock h k (λ d. unfold read_struct_body in refl)
struct-Transfers (skip id n) offset client clock (h, k) =
    run-Transfers skip 10 n offset client clock h k (λ d. unfold read_struct_body in refl)
struct-Transfers (item it) offset client clock h = item-Transfers it offset client clock h
