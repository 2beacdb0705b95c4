-- ===== src/Lib0/Utf16/Head.antt =====
-- The first part of a string that is split has as many code units as the offset says.
use crdt_server.Base.{
  ℕ, zero, suc, ◌+◌, ◌-◌, ◌≤◌, ◌<◌, ◌≡◌, refl, sym, ap, ◌∙◌, List, [], ◌∷◌, ◌++◌, append-nil,
  append_assoc, Bool, true, false, some, ltb, ◌==◌, length, if◌then◌else◌, arith, inl, inr,
  if-cases, is_positive, ◌&&◌, Bool-cases,
}
use crdt_server.Lib0.Utf16.{
  rune, rune_error, between, second_of_three, second_of_four, two_bytes, three_bytes, four_bytes,
  decode_rune, units, count_units, utf16_length, split_loop, split_utf16,
}
use crdt_server.Lib0.Utf16.Split.{pair-eq}

-- A rune that does not fit in what is left is not one.
short :
    (b : Bool) (v w n : ℕ)
    → (if b then rune v w else rune_error).width ≤ n
    → n < w
    → rune_error ≡ (if b then rune v w else rune_error)
short true v w n h k = absurd (omega (arith, h, k))
short false v w n h k = refl

two_bytes-prefix :
    (b : ℕ) (h t : List ℕ)
    → (two_bytes b (h ++ t)).width ≤ suc (length h)
    → two_bytes b h ≡ two_bytes b (h ++ t)
unfolding two_bytes
two_bytes-prefix b [] [] w = refl
two_bytes-prefix b [] (c ∷ t) w = short (between 0x80 0xBF c) _ 2 1 w (omega arith)
two_bytes-prefix b (c ∷ h) t w = refl

abbrev is_four : ℕ → ℕ → ℕ → ℕ → Bool
is_four b c d f = second_of_four b c && between 0x80 0xBF d && between 0x80 0xBF f

three_bytes-prefix :
    (b : ℕ) (h t : List ℕ)
    → (three_bytes b (h ++ t)).width ≤ suc (length h)
    → three_bytes b h ≡ three_bytes b (h ++ t)
unfolding three_bytes
three_bytes-prefix b [] [] w = refl
three_bytes-prefix b [] (c ∷ []) w = refl
three_bytes-prefix b [] (c ∷ d ∷ t) w =
    short (second_of_three b c && between 0x80 0xBF d) _ 3 1 w (omega arith)
three_bytes-prefix b (c ∷ []) [] w = refl
three_bytes-prefix b (c ∷ []) (d ∷ t) w =
    short (second_of_three b c && between 0x80 0xBF d) _ 3 2 w (omega arith)
three_bytes-prefix b (c ∷ d ∷ h) t w = refl

four_bytes-prefix :
    (b : ℕ) (h t : List ℕ)
    → (four_bytes b (h ++ t)).width ≤ suc (length h)
    → four_bytes b h ≡ four_bytes b (h ++ t)
unfolding four_bytes
four_bytes-prefix b [] [] w = refl
four_bytes-prefix b [] (c ∷ []) w = refl
four_bytes-prefix b [] (c ∷ d ∷ []) w = refl
four_bytes-prefix b [] (c ∷ d ∷ f ∷ t) w = short (is_four b c d f) _ 4 1 w (omega arith)
four_bytes-prefix b (c ∷ []) [] w = refl
four_bytes-prefix b (c ∷ []) (d ∷ []) w = refl
four_bytes-prefix b (c ∷ []) (d ∷ f ∷ t) w = short (is_four b c d f) _ 4 2 w (omega arith)
four_bytes-prefix b (c ∷ d ∷ []) [] w = refl
four_bytes-prefix b (c ∷ d ∷ []) (f ∷ t) w = short (is_four b c d f) _ 4 3 w (omega arith)
four_bytes-prefix b (c ∷ d ∷ f ∷ h) t w = refl

-- A rune is decoded from its own bytes.
decode_rune-prefix :
    (b : ℕ) (h t : List ℕ)
    → (decode_rune b (h ++ t)).width ≤ suc (length h)
    → decode_rune b h ≡ decode_rune b (h ++ t)
unfolding decode_rune
decode_rune-prefix b h t w = elim (Bool-cases (ltb b 0x80)) [
  | inl e ↦ rw e refl
  | inr e ↦ elim (Bool-cases (between 0xC2 0xDF b)) [
    | inl e₂ ↦ rw (e, e₂) (two_bytes-prefix b h t (rw (e, e₂) at w))
    | inr e₂ ↦ elim (Bool-cases (between 0xE0 0xEF b)) [
      | inl e₃ ↦ rw (e, e₂, e₃) (three_bytes-prefix b h t (rw (e, e₂, e₃) at w))
      | inr e₃ ↦ elim (Bool-cases (between 0xF0 0xF4 b)) [
        | inl e₄ ↦ rw (e, e₂, e₃, e₄) (four_bytes-prefix b h t (rw (e, e₂, e₃, e₄) at w))
        | inr e₄ ↦ rw (e, e₂, e₃, e₄) refl
      ]
    ]
  ]
]

-- The first part as it comes out of the loop, which has passed `front` already. It ends with a
-- whole rune.
record Head (skip seen n : ℕ) (front s head tail : List ℕ) : Type 0 where
  passed : List ℕ
  all : head ≡ front ++ passed
  split : s ≡ passed ++ tail
  count : seen + count_units skip passed ≡ n
  fits : skip ≤ length passed

fits_lem : (b : Bool) (v w n : ℕ) → w ≤ n + 1 → (if b then rune v w else rune_error).width - 1 ≤ n
fits_lem true v w n h = omega (arith, h)
fits_lem false v w n h = omega arith

two_bytes-width : (b : ℕ) (s : List ℕ) → (two_bytes b s).width - 1 ≤ length s
unfolding two_bytes
two_bytes-width b [] = omega arith
two_bytes-width b (c ∷ s) = fits_lem (between 0x80 0xBF c) _ 2 (suc (length s)) (omega arith)

three_bytes-width : (b : ℕ) (s : List ℕ) → (three_bytes b s).width - 1 ≤ length s
unfolding three_bytes
three_bytes-width b [] = omega arith
three_bytes-width b (c ∷ []) = omega arith
three_bytes-width b (c ∷ d ∷ s) =
    fits_lem (second_of_three b c && between 0x80 0xBF d) _ 3 (suc (suc (length s))) (omega arith)

four_bytes-width : (b : ℕ) (s : List ℕ) → (four_bytes b s).width - 1 ≤ length s
unfolding four_bytes
four_bytes-width b [] = omega arith
four_bytes-width b (c ∷ []) = omega arith
four_bytes-width b (c ∷ d ∷ []) = omega arith
four_bytes-width b (c ∷ d ∷ f ∷ s) =
    fits_lem (is_four b c d f) _ 4 (suc (suc (suc (length s)))) (omega arith)

width-le : (b : ℕ) (s : List ℕ) → (decode_rune b s).width - 1 ≤ length s
unfolding decode_rune two_bytes three_bytes four_bytes
width-le b s = elim (Bool-cases (ltb b 0x80)) [
  | inl e ↦ rw e (omega arith)
  | inr e ↦ elim (Bool-cases (between 0xC2 0xDF b)) [
    | inl e₂ ↦ rw (e, e₂) (two_bytes-width b s)
    | inr e₂ ↦ elim (Bool-cases (between 0xE0 0xEF b)) [
      | inl e₃ ↦ rw (e, e₂, e₃) (three_bytes-width b s)
      | inr e₃ ↦ elim (Bool-cases (between 0xF0 0xF4 b)) [
        | inl e₄ ↦ rw (e, e₂, e₃, e₄) (four_bytes-width b s)
        | inr e₄ ↦ rw (e, e₂, e₃, e₄) (omega arith)
      ]
    ]
  ]
]

split_loop-Head :
    (s : List ℕ) (skip seen n : ℕ) (front head tail : List ℕ)
    → skip ≤ length s
    → split_loop skip seen n front s ≡ some (head, tail)
    → Head skip seen n front s head tail
unfolding split_loop count_units
split_loop-Head [] zero seen n front head tail k h = elim (if-cases (seen == n) h) [
  | inr (_, e) ↦ cc
  | inl (at, e) ↦
      let (eh, et) = pair-eq _ (head, tail) e in
      record {
        passed = [];
        all = sym eh ∙ sym (append-nil front);
        split = et;
        count = ground arith;
        fits = k;
      }
]
split_loop-Head [] (suc skip) seen n front head tail k h = absurd (omega (arith, k))
split_loop-Head (b ∷ bs) (suc skip) seen n front head tail k h =
    let r = split_loop-Head bs skip seen n (front ++ (b ∷ [])) head tail (omega (arith, k)) h in
    record {
      passed = b ∷ r.passed;
      all = r.all ∙ append_assoc front (b ∷ []) r.passed;
      split = ap (λ x. b ∷ x) r.split;
      count = r.count;
      fits = omega (arith, r.fits);
    }
split_loop-Head (b ∷ bs) zero seen n front head tail k h = elim (if-cases (seen == n) h) [
  | inl (at, e) ↦
      let (eh, et) = pair-eq _ (head, tail) e in
      record {
        passed = [];
        all = sym eh ∙ sym (append-nil front);
        split = et;
        count = ground arith;
        fits = omega arith;
      }
  | inr (_, e) ↦ elim (if-cases (ltb n (seen + units (decode_rune b bs))) e) [
    | inl (_, e) ↦ cc
    | inr (_, e) ↦
        let seen' = seen + units (decode_rune b bs) in
        let r =
          split_loop-Head bs ((decode_rune b bs).width - 1) seen' n (front ++ (b ∷ [])) head tail
            (width-le b bs) e in
        let whole : decode_rune b bs ≡ decode_rune b (r.passed ++ tail) =
          ap (decode_rune b) r.split in
        let small : (decode_rune b bs).width ≤ suc (length r.passed) = omega (arith, r.fits) in
        let same : decode_rune b r.passed ≡ decode_rune b bs =
          decode_rune-prefix b r.passed tail (rw whole at small) ∙ sym whole in
        record {
          passed = b ∷ r.passed;
          all = r.all ∙ append_assoc front (b ∷ []) r.passed;
          split = ap (λ x. b ∷ x) r.split;
          count = rw same (omega (arith, r.count));
          fits = omega arith;
        }
  ]
]

-- Where a string is split at a positive offset, the first part has as many code units.
pub utf16_length-head :
    (s : List ℕ) (n : ℕ) (head tail : List ℕ)
    → is_positive n ≡ true
    → split_utf16 s n ≡ some (head, tail)
    → utf16_length head ≡ n
unfolding split_utf16 utf16_length
utf16_length-head s n head tail p h =
    let r = split_loop-Head s 0 0 n [] head tail (omega arith) (rw p at h) in
    rw r.all (omega (arith, r.count))
