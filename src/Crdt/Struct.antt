-- ===== src/Crdt/Struct.antt =====
-- internal/crdt/struct.go: the structs as the wire carries them, and their codec. Of an item's
-- integration state the codec looks only at the resolved parent, `parent_type`.
pub mod RoundTrip
use crdt_server.Base.{
  ℕ, ◌+◌, ◌-◌, ◌*◌, ◌/◌, ◌%◌, List, [], ◌∷◌, Bool, true, false, ◌&&◌, ◌||◌, not, Option, none, some,
  ltb, ◌==◌, if◌then◌else◌, low_bits, has_bit, is_positive, u64, sub_u64, corrupt_update,
}
use crdt_server.Lib0.Decoder
use crdt_server.Lib0.Decoder.{Read, ◌>>=◌, pure, read_uint8, read_var_uint, read_var_string}
use crdt_server.Lib0.Encoder.{Encoder, write_uint8, write_var_uint, write_var_string}
use crdt_server.Crdt.{StructId, id_at, read_len, write_id, read_id}
use crdt_server.Crdt.Content
use crdt_server.Crdt.Content.{Content, content_len, write_content, read_content}

-- ParentInfo: a root type's name, or the item that holds the parent type.
pub data ParentInfo : Type 0 where
  root : List ℕ → ParentInfo
  owner : StructId → ParentInfo

pub record Item : Type 0 where
  pub id : StructId
  pub origin : Option StructId
  pub right_origin : Option StructId
  pub parent : Option ParentInfo
  pub has_parent_sub : Bool
  pub parent_sub : List ℕ
  pub content : Content
  -- `it.parent`, by its `item` or its `rootName`
  pub parent_type : Option ParentInfo

pub data Struct : Type 0 where
  gc skip : StructId → ℕ → Struct
  item : Item → Struct

unfoldable pub struct_id : Struct → StructId
struct_id (gc id n) = id
struct_id (skip id n) = id
struct_id (item it) = it.id

unfoldable pub struct_len : Struct → ℕ
struct_len (gc id n) = n
struct_len (skip id n) = n
struct_len (item it) = content_len it.content

-- Item.LastID
unfoldable pub last_id : Item → StructId
last_id it = id_at it.id.client (sub_u64 (u64 (it.id.clock + content_len it.content)) 1)

-- The origin that Item.write writes: in the middle of an item, the unit before.
unfoldable pub origin_at : ℕ → Item → Option StructId
origin_at offset it =
    if is_positive offset
    then some (id_at it.id.client (sub_u64 (u64 (it.id.clock + offset)) 1))
    else it.origin

-- `a == nil && b == nil`
unfoldable pub no_neighbour : Option StructId → Option StructId → Bool
no_neighbour none none = true
no_neighbour none (some b) = false
no_neighbour (some a) b = false

-- `x != nil`
unfoldable pub is_present : Option StructId → Bool
is_present none = false
is_present (some a) = true

abbrev pub flag : Bool → ℕ → ℕ
flag b bit = if b then bit else 0

-- The info byte: bitOrigin, bitRightOrigin and bitParentSub over the content ref.
unfoldable pub info_byte : ℕ → Bool → Bool → Bool → ℕ
info_byte ref has_origin has_right has_sub =
    low_bits ref 5 + flag has_sub 0x20 + flag has_right 0x40 + flag has_origin 0x80

unfoldable pub write_optional_id : Option StructId → Encoder → Encoder
write_optional_id none e = e
write_optional_id (some id) e = write_id id e

-- writeParentInfo: the resolved parent first, then the decoded one.
unfoldable pub write_parent_info : Option ParentInfo → Option ParentInfo → Encoder → Encoder
write_parent_info (some (owner id)) decoded e = write_id id (write_var_uint 0 e)
write_parent_info (some (root name)) decoded e = write_var_string name (write_var_uint 1 e)
write_parent_info none none e = write_var_string [] (write_var_uint 1 e)
write_parent_info none (some (root name)) e = write_var_string name (write_var_uint 1 e)
write_parent_info none (some (owner id)) e = write_id id (write_var_uint 0 e)

-- What an item without a neighbour writes in front of its content.
unfoldable pub write_parent : Item → Encoder → Encoder
write_parent it e =
    let e' = write_parent_info it.parent_type it.parent e in
    if it.has_parent_sub then write_var_string it.parent_sub e' else e'

-- Item.write
unfoldable pub write_item : Item → ℕ → Encoder → Encoder
write_item it offset e =
    let origin = origin_at offset it in
    let info =
      info_byte (Content.ref it.content) (is_present origin) (is_present it.right_origin)
        it.has_parent_sub in
    let e' = write_optional_id it.right_origin (write_optional_id origin (write_uint8 info e)) in
    write_content it.content offset
      (if no_neighbour origin it.right_origin then write_parent it e' else e')

-- Struct.write
unfoldable pub write_struct : Struct → ℕ → Encoder → Encoder
unfolding write_item
write_struct (gc id n) offset e = write_var_uint (sub_u64 n offset) (write_uint8 0 e)
write_struct (skip id n) offset e = write_var_uint (sub_u64 n offset) (write_uint8 10 e)
write_struct (item it) offset e = write_item it offset e

unfoldable pub read_optional_id : Bool → Read (Option StructId)
read_optional_id true = do id ← read_id; pure (some id)
read_optional_id false = pure none

unfoldable pub read_parent_of_kind : ℕ → Read ParentInfo
read_parent_of_kind kind =
    if kind == 1
    then (do name ← read_var_string; pure (root name))
    else if kind == 0
    then (do pid ← read_id; pure (owner pid))
    else Decoder.fail corrupt_update

unfoldable pub read_parent_info : Read ParentInfo
read_parent_info = do kind ← read_var_uint; read_parent_of_kind kind

-- The parent and the parentSub, which are on the wire only when both neighbours are absent.
unfoldable pub read_parent : Bool → Read (Option ParentInfo × List ℕ)
read_parent true = do parent ← read_parent_info; sub ← read_var_string; pure (some parent, sub)
read_parent false = do parent ← read_parent_info; pure (some parent, [])

unfoldable pub read_parent_unless : Bool → Bool → Read (Option ParentInfo × List ℕ)
read_parent_unless true has_sub = read_parent has_sub
read_parent_unless false has_sub = pure (none, [])

unfoldable pub read_item : StructId → ℕ → Read Struct
read_item id info = do
  origin ← read_optional_id (has_bit info 7)
  right ← read_optional_id (has_bit info 6)
  (parent, sub) ← read_parent_unless (no_neighbour origin right) (has_bit info 5)
  content ← read_content (low_bits info 5)
  pure (
      item (record {
        id = id;
        origin = origin;
        right_origin = right;
        parent = parent;
        has_parent_sub = has_bit info 5;
        parent_sub = sub;
        content = content;
        parent_type = none;
      }))

-- readStruct behind the info byte. GC and Skip must not carry flags.
unfoldable pub read_struct_body : StructId → ℕ → Read Struct
unfolding read_item
read_struct_body id info =
    let ref = low_bits info 5 in
    if (ref == 0 || ref == 10) && not (info / 32 == 0)
    then Decoder.fail corrupt_update
    else if ref == 0
    then (do n ← read_len; pure (gc id n))
    else if ref == 10
    then (do n ← read_len; pure (skip id n))
    else read_item id info

unfoldable pub read_struct : ℕ → ℕ → Read Struct
read_struct client clock = do info ← read_uint8; read_struct_body (id_at client clock) info
