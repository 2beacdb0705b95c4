-- ===== src/Crdt/Content/Splice.antt =====
-- What Splice does to the length of a content.
use crdt_server.Base.{
  ℕ, ◌+◌, ◌^◌, ◌<◌, ◌≡◌, refl, sym, true, length, length-take, length-drop, ltb, arith, inl, inr,
  if-cases, Option-cases, is_positive, Result, ok,
}
use crdt_server.Lib0.Utf16.{split_utf16}
use crdt_server.Lib0.Utf16.Split.{split_utf16_lem}
use crdt_server.Lib0.Utf16.Head.{utf16_length-head}
use crdt_server.Crdt.Content.{
  Content, deleted, json, binary, string, embed, format, type, any, doc, content_len, splice,
}

-- The length of the two parts.
abbrev pub IsCut : ℕ → Content → Content × Content → Type 0
IsCut offset c parts =
    (content_len parts.0 ≡ offset) × (offset + content_len parts.1 ≡ content_len c)

parts-eq : (p q : Content × Content) → ◌≡◌ {A = Result (Content × Content)} (ok p) (ok q) → p ≡ q
parts-eq p q h = cc

-- A content cut inside its length, which an int holds, gives two parts: the first as long as the
-- offset says, and both together as long as the content was.
pub splice-IsCut :
    (c : Content) (offset : ℕ) (parts : Content × Content)
    → 0 < offset
    → offset < content_len c
    → content_len c < 2 ^ 63
    → splice c offset ≡ ok parts
    → IsCut offset c parts
unfolding splice content_len
splice-IsCut (deleted n) offset parts p h b e =
    rw (← parts-eq _ parts e) (refl, omega (arith, h, b))
splice-IsCut (json vs) offset parts p h b e = elim (if-cases (ltb (length vs) offset) e) [
  | inl (_, k) ↦ cc
  | inr (_, k) ↦
      rw (← parts-eq _ parts k)
        (omega (arith, length-take offset vs, h), omega (arith, length-drop offset vs, h))
]
splice-IsCut (any vs) offset parts p h b e = elim (if-cases (ltb (length vs) offset) e) [
  | inl (_, k) ↦ cc
  | inr (_, k) ↦
      rw (← parts-eq _ parts k)
        (omega (arith, length-take offset vs, h), omega (arith, length-drop offset vs, h))
]
splice-IsCut (string s) offset parts p h b e = elim (Option-cases (split_utf16 s offset)) [
  | inl k ↦ let f = rw (k, splice) at e in cc f
  | inr ((head, tail), k) ↦
      let cut : (string head, string tail) ≡ parts = parts-eq _ parts (rw (k, splice) at e) in
      let positive : is_positive offset ≡ true = ground arith in
      let sum = rw positive at (split_utf16_lem s offset head tail k).1 in
      rw (← cut) (utf16_length-head s offset head tail positive k, sym sum)
]
splice-IsCut (binary x) offset parts p h b e = cc
splice-IsCut (embed j) offset parts p h b e = cc
splice-IsCut (format k v) offset parts p h b e = cc
splice-IsCut (type t) offset parts p h b e = cc
splice-IsCut (doc g o) offset parts p h b e = cc
