-- ===== src/Lib0/Utf16.antt =====
-- UTF16Length of internal/crdt/lib0/lib0.go and splitUTF16 of internal/crdt/content.go. A string
-- is its bytes; ranging over it decodes UTF-8, and a byte that starts no rune counts as U+FFFD.
pub mod Split
pub mod Head
use crdt_server.Base.{
  ℕ, zero, suc, ◌+◌, ◌-◌, ◌*◌, ◌%◌, List, [], ◌∷◌, ◌++◌, Bool, ◌&&◌, Option, none, some, ltb, leb,
  ◌==◌, if◌then◌else◌, is_positive,
}

-- A rune and its width in bytes.
pub record Rune : Type 0 where
  pub value : ℕ
  pub width : ℕ

abbrev rune : ℕ → ℕ → Rune
rune value width = record { value = value; width = width }

abbrev rune_error : Rune
rune_error = rune 0xFFFD 1

between : ℕ → ℕ → ℕ → Bool
between lo hi b = leb lo b && leb b hi

-- The second byte of a rune of three and of four bytes has a range of its own after some first
-- bytes (no overlong forms, no surrogates, nothing above U+10FFFF).
second_of_three : ℕ → ℕ → Bool
unfolding between
second_of_three b c =
    if b == 0xE0
    then between 0xA0 0xBF c
    else if b == 0xED
    then between 0x80 0x9F c
    else between 0x80 0xBF c

second_of_four : ℕ → ℕ → Bool
unfolding between
second_of_four b c =
    if b == 0xF0
    then between 0x90 0xBF c
    else if b == 0xF4
    then between 0x80 0x8F c
    else between 0x80 0xBF c

two_bytes : ℕ → List ℕ → Rune
unfolding between
two_bytes b (c ∷ _) = if between 0x80 0xBF c then rune (b % 32 * 64 + c % 64) 2 else rune_error
two_bytes b [] = rune_error

three_bytes : ℕ → List ℕ → Rune
unfolding between second_of_three
three_bytes b (c ∷ d ∷ _) =
    if second_of_three b c && between 0x80 0xBF d
    then rune (b % 16 * 4096 + c % 64 * 64 + d % 64) 3
    else rune_error
three_bytes b _ = rune_error

four_bytes : ℕ → List ℕ → Rune
unfolding between second_of_four
four_bytes b (c ∷ d ∷ f ∷ _) =
    if second_of_four b c && between 0x80 0xBF d && between 0x80 0xBF f
    then rune (b % 8 * 262144 + c % 64 * 4096 + d % 64 * 64 + f % 64) 4
    else rune_error
four_bytes b _ = rune_error

-- The rune that starts with the byte `b`.
unfoldable pub decode_rune : ℕ → List ℕ → Rune
unfolding two_bytes three_bytes four_bytes
decode_rune b rest =
    if ltb b 0x80
    then rune b 1
    else if between 0xC2 0xDF b
    then two_bytes b rest
    else if between 0xE0 0xEF b
    then three_bytes b rest
    else if between 0xF0 0xF4 b
    then four_bytes b rest
    else rune_error

-- `if r > 0xFFFF { n += 2 } else { n++ }`
unfoldable pub units : Rune → ℕ
units r = if ltb 0xFFFF r.value then 2 else 1

-- `skip` bytes of the current rune are still to be passed.
unfoldable pub count_units : ℕ → List ℕ → ℕ
unfolding units
count_units skip [] = 0
count_units zero (b ∷ bs) = units (decode_rune b bs) + count_units ((decode_rune b bs).width - 1) bs
count_units (suc skip) (b ∷ bs) = count_units skip bs

unfoldable pub utf16_length : List ℕ → ℕ
unfolding count_units
utf16_length s = count_units 0 s

-- The loop of splitUTF16; `front` is s[:i].
unfoldable pub split_loop : ℕ → ℕ → ℕ → List ℕ → List ℕ → Option (List ℕ × List ℕ)
unfolding units
split_loop skip seen n front [] = if seen == n then some (front, []) else none
split_loop zero seen n front (b ∷ bs) =
    let seen' = seen + units (decode_rune b bs) in
    let more = split_loop ((decode_rune b bs).width - 1) seen' n (front ++ (b ∷ [])) bs in
    if seen == n then some (front, b ∷ bs) else if ltb n seen' then none else more
split_loop (suc skip) seen n front (b ∷ bs) = split_loop skip seen n (front ++ (b ∷ [])) bs

-- `none` stands for the result false.
unfoldable pub split_utf16 : List ℕ → ℕ → Option (List ℕ × List ℕ)
unfolding split_loop
split_utf16 s n = if is_positive n then split_loop 0 0 n [] s else some ([], s)
