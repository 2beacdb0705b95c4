-- ===== src/Lib0/Utf16/Split.antt =====
-- A string split at an offset of UTF-16 code units.
use crdt_server.Base.{
  ℕ, zero, suc, ◌+◌, ◌-◌, ◌≡◌, refl, ap, ◌∙◌, List, [], ◌∷◌, ◌++◌, append_assoc, Option, some, ltb,
  ◌==◌, if◌then◌else◌, arith, inl, inr, if-cases, is_positive,
}
use crdt_server.Lib0.Utf16.{decode_rune, units, count_units, utf16_length, split_loop, split_utf16}

-- The two parts of a result.
pub pair-eq :
    (p q : List ℕ × List ℕ)
    → ◌≡◌ {A = Option (List ℕ × List ℕ)} (some p) (some q)
    → (p.0 ≡ q.0) × (p.1 ≡ q.1)
pair-eq p q h = let e : p ≡ q = cc in (ap (λ x. x.0) e, ap (λ x. x.1) e)

split_loop_lem :
    (s : List ℕ) (skip seen n : ℕ) (front head tail : List ℕ)
    → split_loop skip seen n front s ≡ some (head, tail)
    → (head ++ tail ≡ front ++ s) × (seen + count_units skip s ≡ n + utf16_length tail)
unfolding split_loop count_units utf16_length
split_loop_lem [] zero seen n front head tail h = elim (if-cases (seen == n) h) [
  | inr (_, e) ↦ cc
  | inl (at, e) ↦ let (eh, et) = pair-eq _ (head, tail) e in rw (← eh, ← et) (refl, ground arith)
]
split_loop_lem [] (suc skip) seen n front head tail h = elim (if-cases (seen == n) h) [
  | inr (_, e) ↦ cc
  | inl (at, e) ↦ let (eh, et) = pair-eq _ (head, tail) e in rw (← eh, ← et) (refl, ground arith)
]
split_loop_lem (b ∷ bs) (suc skip) seen n front head tail h =
    let (whole, sum) = split_loop_lem bs skip seen n (front ++ (b ∷ [])) head tail h in
    (whole ∙ append_assoc front (b ∷ []) bs, sum)
split_loop_lem (b ∷ bs) zero seen n front head tail h = elim (if-cases (seen == n) h) [
  | inl (at, e) ↦ let (eh, et) = pair-eq _ (head, tail) e in rw (← eh, ← et) (refl, ground arith)
  | inr (_, e) ↦ elim (if-cases (ltb n (seen + units (decode_rune b bs))) e) [
    | inl (_, e) ↦ cc
    | inr (_, e) ↦
        let width = (decode_rune b bs).width in
        let (whole, sum) =
          split_loop_lem bs (width - 1) (seen + units (decode_rune b bs)) n (front ++ (b ∷ [])) head
            tail e in
        (whole ∙ append_assoc front (b ∷ []) bs, omega (arith, sum))
  ]
]

utf16_lem : (s : List ℕ) → utf16_length s ≡ 0 + count_units 0 s
unfolding utf16_length
utf16_lem s = omega arith

-- Where a string is split, the two parts together are the string, and if the offset is positive,
-- the string is as many code units longer than the second part as the offset says.
pub split_utf16_lem :
    (s : List ℕ) (n : ℕ) (head tail : List ℕ)
    → split_utf16 s n ≡ some (head, tail)
    → (head ++ tail ≡ s) × (utf16_length s ≡ (if is_positive n then n else 0) + utf16_length tail)
unfolding split_utf16
split_utf16_lem s n head tail h = elim (if-cases (is_positive n) h) [
  | inl (p, e) ↦
      let (whole, sum) = split_loop_lem s 0 0 n [] head tail e in (whole, rw p (utf16_lem s ∙ sum))
  | inr (p, e) ↦ let (eh, et) = pair-eq _ (head, tail) e in rw (p, ← eh, ← et) (refl, omega arith)
]
