-- ===== src/Crdt/Content.antt =====
-- internal/crdt/content.go, and the wire form of a nested type in type.go. A string is its bytes,
-- raw JSON text too; a length and an offset are ints, by their bit patterns where they may wrap.
pub mod RoundTrip
pub mod Splice
use crdt_server.Base.{
  ℕ, ◌+◌, ◌-◌, List, [], ◌∷◌, ◌++◌, Bool, true, false, ◌||◌, Option, none, some, ltb, ◌==◌, length,
  take, drop, if◌then◌else◌, u64, sub_u64, Result, ok, err, unexpected_eof, unknown_content_ref,
  unknown_type_ref, not_splittable, split_surrogate, slice_out_of_range,
}
use crdt_server.Lib0.Decoder
use crdt_server.Lib0.Decoder.{
  Read, ◌>>=◌, pure, remaining, read_var_uint, read_var_string, read_var_uint8_array,
}
use crdt_server.Lib0.Encoder.{Encoder, write_var_uint, write_var_string, write_var_uint8_array}
use crdt_server.Lib0.Transfer.{read_times, write_each}
use crdt_server.Lib0.Any.{Any, write_any, read_any}
use crdt_server.Lib0.Utf16.{utf16_length, split_utf16}
use crdt_server.Crdt.{read_len}

-- AbstractType, as far as the wire carries it.
pub record AbstractType : Type 0 where
  pub type_ref : ℕ
  pub name : List ℕ

pub data Content : Type 0 where
  deleted : ℕ → Content
  json : List (List ℕ) → Content
  binary string embed : List ℕ → Content
  format : List ℕ → List ℕ → Content
  type : AbstractType → Content
  any : List Any → Content
  doc : List ℕ → Any → Content

unfoldable pub ref : Content → ℕ
ref (deleted n) = 1
ref (json vs) = 2
ref (binary b) = 3
ref (string s) = 4
ref (embed j) = 5
ref (format k v) = 6
ref (type t) = 7
ref (any vs) = 8
ref (doc g o) = 9

unfoldable pub content_len : Content → ℕ
content_len (deleted n) = n
content_len (json vs) = length vs
content_len (string s) = utf16_length s
content_len (any vs) = length vs
content_len (binary b) = 1
content_len (embed j) = 1
content_len (format k v) = 1
content_len (type t) = 1
content_len (doc g o) = 1

unfoldable pub countable : Content → Bool
countable (deleted n) = false
countable (format k v) = false
countable _ = true

-- Only these two kinds of type carry a name.
abbrev pub has_name : ℕ → Bool
has_name type_ref = type_ref == 3 || type_ref == 5

-- AbstractType.write
unfoldable pub write_type : AbstractType → Encoder → Encoder
write_type t e =
    let e' = write_var_uint t.type_ref e in
    if has_name t.type_ref then write_var_string t.name e' else e'

-- A slice expression whose bound is out of range: the program stops, and nothing more is written.
unfoldable pub panic : Encoder → Encoder
panic e = record e { err = some slice_out_of_range }

-- The rest of a list from `offset` on, counted and written one by one.
unfoldable pub write_rest : {A : Type 0} → (A → Encoder → Encoder) → List A → ℕ → Encoder → Encoder
unfolding panic
write_rest w vs offset e =
    let e' = write_var_uint (sub_u64 (length vs) offset) e in
    if ltb (length vs) offset then panic e' else write_each w (drop offset vs) e'

-- The part of a string that ContentString.Write writes.
unfoldable pub string_from : ℕ → List ℕ → List ℕ
string_from offset s =
    if offset == 0 then s else elim (split_utf16 s offset) [ none ↦ s | some (head, tail) ↦ tail ]

-- Content.Write
unfoldable pub write_content : Content → ℕ → Encoder → Encoder
write_content (deleted n) offset e = write_var_uint (sub_u64 n offset) e
write_content (json vs) offset e = write_rest write_var_string vs offset e
write_content (binary b) offset e = write_var_uint8_array b e
write_content (string s) offset e = write_var_string (string_from offset s) e
write_content (embed j) offset e = write_var_string j e
write_content (format k v) offset e = write_var_string v (write_var_string k e)
write_content (type t) offset e = write_type t e
write_content (any vs) offset e = write_rest write_any vs offset e
write_content (doc g o) offset e = write_any o (write_var_string g e)

-- Content.Splice: what stays in the receiver, and the tail.
unfoldable pub splice : Content → ℕ → Result (Content × Content)
splice (deleted n) offset = ok (deleted offset, deleted (sub_u64 n offset))
splice (json vs) offset =
    if ltb (length vs) offset
    then err slice_out_of_range
    else ok (json (take offset vs), json (drop offset vs))
splice (any vs) offset =
    if ltb (length vs) offset
    then err slice_out_of_range
    else ok (any (take offset vs), any (drop offset vs))
splice (string s) offset = elim (split_utf16 s offset) [
  | none ↦ err split_surrogate
  | some (head, tail) ↦ ok (string head, string tail)
]
splice (binary b) offset = err not_splittable
splice (embed j) offset = err not_splittable
splice (format k v) offset = err not_splittable
splice (type t) offset = err not_splittable
splice (doc g o) offset = err not_splittable

-- Content.MergeWith: the receiver afterwards, or `none` for false.
unfoldable pub merge_with : Content → Content → Option Content
merge_with (deleted n) (deleted m) = some (deleted (u64 (n + m)))
merge_with (json vs) (json ws) = some (json (vs ++ ws))
merge_with (string s) (string t) = some (string (s ++ t))
merge_with (any vs) (any ws) = some (any (vs ++ ws))
merge_with _ _ = none

-- readAbstractType
unfoldable pub read_abstract_type : Read AbstractType
read_abstract_type = do
  n ← read_var_uint
  λ d.
      if ltb 6 n
      then err unknown_type_ref
      else if has_name n
      then (do name ← read_var_string; pure (record { type_ref = n; name = name })) d
      else ok (record { type_ref = n; name = [] }, d)

-- A counted list of values, each of a byte at least.
unfoldable pub read_counted : {A : Type 0} → Read A → Read (List A)
read_counted r = do
  n ← read_len
  λ d. if ltb (remaining d) n then err unexpected_eof else read_times n r d

-- readContent
unfoldable pub read_content : ℕ → Read Content
read_content ref =
    if ref == 1
    then (do n ← read_len; pure (deleted n))
    else if ref == 2
    then (do vs ← read_counted read_var_string; pure (json vs))
    else if ref == 3
    then (do b ← read_var_uint8_array; pure (binary b))
    else if ref == 4
    then (do s ← read_var_string; pure (string s))
    else if ref == 5
    then (do s ← read_var_string; pure (embed s))
    else if ref == 6
    then (do key ← read_var_string; val ← read_var_string; pure (format key val))
    else if ref == 7
    then (do t ← read_abstract_type; pure (type t))
    else if ref == 8
    then (do vs ← read_counted read_any; pure (any vs))
    else if ref == 9
    then (do guid ← read_var_string; opts ← read_any; pure (doc guid opts))
    else Decoder.fail unknown_content_ref
