-- ===== src/Crdt/Content/RoundTrip.antt =====
-- Content is read back as it was written, less what the offset leaves out.
use native.Mathlib.Nat.{le_refl}
use crdt_server.Base.{
  ℕ, ◌+◌, ◌-◌, ◌%◌, ◌^◌, ◌≤◌, ◌<◌, ◌≡◌, sym, ◌∙◌, List, [], Bool-cases, inl, inr, ltb, le→ltb,
  length, length-drop, drop, All, All-map, arith, if◌then◌else◌, ok, err, unexpected_eof,
  unknown_type_ref,
}
use crdt_server.Lib0.Decoder.{Read, ◌>>=◌, pure, remaining, read_var_string}
use crdt_server.Lib0.Encoder.{Encoder}
use crdt_server.Lib0.Transfer.{
  Transfers, Transfers-writer, Transfers-reader, Transfers-weaken, Transfers-bind, Transfers-map,
  Transfers-then, Transfers-bounded, Transfers-each, read_times,
}
use crdt_server.Lib0.VarUint.{var_uint-Transfers}
use crdt_server.Lib0.Bytes.{var_string-Transfers, var_uint8_array-Transfers}
use crdt_server.Lib0.Any.{read_any}
use crdt_server.Lib0.Any.RoundTrip.{IsCanonical, write_any-Transfers}
use crdt_server.Crdt.{len-Transfers}
use crdt_server.Crdt.Content.{
  AbstractType, Content, deleted, json, binary, string, embed, format, type, any, doc, ref,
  has_name, write_type, write_rest, string_from, write_content, read_abstract_type, read_counted,
  read_content,
}

-- What is left of a content when its first `offset` units are left out.
unfoldable pub content_from : ℕ → Content → Content
content_from offset (deleted n) = deleted (n - offset)
content_from offset (json vs) = json (drop offset vs)
content_from offset (string s) = string (string_from offset s)
content_from offset (any vs) = any (drop offset vs)
content_from offset (binary b) = binary b
content_from offset (embed j) = embed j
content_from offset (format k v) = format k v
content_from offset (type t) = type t
content_from offset (doc g o) = doc g o

abbrev Fits : List ℕ → Type 0
Fits s = length s < 2 ^ 53

-- The offset lies in the content, and what is written is in the ranges that the reader accepts.
abbrev pub IsWritable : ℕ → Content → Type 0
IsWritable offset (deleted n) = (offset ≤ n) × (n ≤ 2 ^ 31)
IsWritable offset (json vs) =
    (offset ≤ length vs) × (length vs ≤ 2 ^ 31) × All Fits (drop offset vs)
IsWritable offset (string s) = Fits (string_from offset s)
IsWritable offset (any vs) =
    (offset ≤ length vs) × (length vs ≤ 2 ^ 31) × All (λ v. IsCanonical v 129) (drop offset vs)
IsWritable offset (binary b) = Fits b
IsWritable offset (embed j) = Fits j
IsWritable offset (format k v) = Fits k × Fits v
IsWritable offset (type t) =
    (t.type_ref ≤ 6) × (if has_name t.type_ref then Fits t.name else t.name ≡ [])
IsWritable offset (doc g o) = Fits g × IsCanonical o 129

pub rest_length :
    (n offset : ℕ) → offset ≤ n → n ≤ 2 ^ 31 → (n + 2 ^ 64 - offset) % 2 ^ 64 ≡ n - offset
rest_length n offset h k = omega arith

rest-Transfers :
    {A : Type 0} (w : A → Encoder → Encoder) (r : Read A) (vs : List A) (offset : ℕ)
    → offset ≤ length vs
    → length vs ≤ 2 ^ 31
    → All (λ v. Transfers (w v) r v 1) (drop offset vs)
    → Transfers (write_rest w vs offset) (read_counted r) (drop offset vs) 1
unfolding write_rest read_counted
rest-Transfers w r vs offset h n hs =
    let left : (length vs + 2 ^ 64 - offset) % 2 ^ 64 ≡ length (drop offset vs) =
      rest_length (length vs) offset h n ∙ sym (length-drop offset vs) in
    Transfers-writer (λ b. rw (left, le→ltb offset (length vs) h))
      (Transfers-weaken (omega arith) (
        Transfers-bind (λ n d. if ltb (remaining d) n then err unexpected_eof else read_times n r d)
          (len-Transfers (length (drop offset vs)) (omega (arith, length-drop offset vs)))
          (Transfers-bounded (length (drop offset vs)) unexpected_eof
            (le_refl (length (drop offset vs))) (Transfers-each w r (drop offset vs) hs))))

abbrev read_named : ℕ → Read AbstractType
read_named n d =
    if ltb 6 n
    then err unknown_type_ref
    else if has_name n
    then (do name ← read_var_string; pure (record { type_ref = n; name = name })) d
    else ok (record { type_ref = n; name = [] }, d)

type-Transfers :
    (t : AbstractType) (offset : ℕ)
    → IsWritable offset (type t)
    → Transfers (write_type t) read_abstract_type t 1
unfolding write_type read_abstract_type
type-Transfers t offset (small, h) = elim (Bool-cases (has_name t.type_ref)) [
  | inl named ↦
      Transfers-writer (λ b. rw named)
        (Transfers-weaken (omega arith) (
          Transfers-bind read_named (var_uint-Transfers t.type_ref (omega arith)) (
            Transfers-reader (λ d. rw (le→ltb t.type_ref 6 small, named))
              (Transfers-map (λ name. record { type_ref = t.type_ref; name = name })
                (var_string-Transfers t.name (rw named at h))))))
  | inr bare ↦
      Transfers-writer (λ b. rw bare)
        (Transfers-then read_named (λ d. rw (le→ltb t.type_ref 6 small, bare, rw bare at h))
          (var_uint-Transfers t.type_ref (omega arith)))
]

pub content-Transfers :
    (c : Content) (offset : ℕ)
    → IsWritable offset c
    → Transfers (write_content c offset) (read_content (ref c)) (content_from offset c) 1
unfolding write_content read_content ref content_from
content-Transfers (deleted n) offset (h, k) =
    Transfers-writer (λ b. rw (rest_length n offset h k))
      (Transfers-map deleted (len-Transfers (n - offset) (omega arith)))
content-Transfers (json vs) offset (h, k, hs) = Transfers-map json (
    rest-Transfers _ _ vs offset h k
      (All-map (drop offset vs) (λ s p. var_string-Transfers s p) hs))
content-Transfers (string s) offset h = Transfers-map string (var_string-Transfers _ h)
content-Transfers (any vs) offset (h, k, hs) = Transfers-map any (
    rest-Transfers _ _ vs offset h k (All-map (drop offset vs) (λ v p. write_any-Transfers v p) hs))
content-Transfers (binary b) offset h = Transfers-map binary (var_uint8_array-Transfers b h)
content-Transfers (embed j) offset h = Transfers-map embed (var_string-Transfers j h)
content-Transfers (format k v) offset (hk, hv) = Transfers-weaken (omega arith) (
    Transfers-bind (λ key. read_var_string >>= λ val. pure (format key val))
      (var_string-Transfers k hk) (Transfers-map (format k) (var_string-Transfers v hv)))
content-Transfers (type t) offset h = Transfers-map type (type-Transfers t offset h)
content-Transfers (doc g o) offset (hg, ho) = Transfers-weaken (omega arith) (
    Transfers-bind (λ guid. read_any >>= λ opts. pure (doc guid opts)) (var_string-Transfers g hg)
      (Transfers-map (doc g) (write_any-Transfers o ho)))
