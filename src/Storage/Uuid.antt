-- ===== src/Storage/Uuid.antt =====
-- internal/store/uuid.go: UUIDs are lists of sixteen bytes. SHA-1 is an argument.
use crdt_server.Base.{
  ℕ, ◌+◌, ◌-◌, ◌*◌, ◌/◌, ◌%◌, List, [], ◌∷◌, ◌++◌, Bool, false, ◌==◌, ◌&&◌, leb, length, take, drop,
  get_elem?, Option, none, some, if◌then◌else◌, low_bits,
}

abbrev pub Uuid : Type 0
Uuid = List ℕ

-- NilUUID
abbrev pub nil_uuid : Uuid
nil_uuid = 0 ∷ 0 ∷ 0 ∷ 0 ∷ 0 ∷ 0 ∷ 0 ∷ 0 ∷ 0 ∷ 0 ∷ 0 ∷ 0 ∷ 0 ∷ 0 ∷ 0 ∷ 0 ∷ []

abbrev pub document_namespace : Uuid
document_namespace =
    95 ∷ 43 ∷ 154 ∷ 30 ∷ 124 ∷ 100 ∷ 77 ∷ 143 ∷ 163 ∷ 17 ∷ 14 ∷ 109 ∷ 194 ∷ 132 ∷ 183 ∷ 89 ∷ []

abbrev pub owner_namespace : Uuid
owner_namespace =
    183 ∷ 60 ∷ 65 ∷ 216 ∷ 10 ∷ 159 ∷ 78 ∷ 38 ∷ 140 ∷ 93 ∷ 146 ∷ 240 ∷ 23 ∷ 107 ∷ 227 ∷ 164 ∷ []

-- hex.Encode
abbrev pub hex_digit : ℕ → ℕ
hex_digit n = if leb n 9 then 48 + n else 87 + n

unfoldable pub hex_encode : List ℕ → List ℕ
hex_encode [] = []
hex_encode (b ∷ bs) = hex_digit (b / 16) ∷ hex_digit (b % 16) ∷ hex_encode bs

-- The value of a hexadecimal digit of either case.
abbrev pub hex_value : ℕ → Option ℕ
hex_value c =
    if leb 48 c && leb c 57
    then some (c - 48)
    else (if leb 97 c && leb c 102
        then some (c - 87)
        else (if leb 65 c && leb c 70 then some (c - 55) else none))

abbrev pub hex_byte : Option ℕ → Option ℕ → Option (List ℕ) → Option (List ℕ)
hex_byte (some a) (some b) (some bs) = some ((16 * a + b) ∷ bs)
hex_byte _ _ _ = none

-- hex.Decode; none is its error.
unfoldable pub hex_decode : List ℕ → Option (List ℕ)
hex_decode [] = some []
hex_decode (c ∷ []) = none
hex_decode (c ∷ d ∷ cs) = hex_byte (hex_value c) (hex_value d) (hex_decode cs)

-- `s[from:to]`
abbrev pub slice : ℕ → ℕ → List ℕ → List ℕ
slice from to s = take (to - from) (drop from s)

abbrev pub has_dash : List ℕ → ℕ → Bool
has_dash s i = elim (get_elem? s i) [ none ↦ false | some c ↦ c == 45 ]

unfoldable pub is_dashed : List ℕ → Bool
is_dashed s = length s == 36 && has_dash s 8 && has_dash s 13 && has_dash s 18 && has_dash s 23

abbrev pub join_groups : Option (List ℕ) → Option (List ℕ) → Option (List ℕ)
join_groups (some a) (some b) = some (a ++ b)
join_groups _ _ = none

abbrev pub group : ℕ → ℕ → List ℕ → Option (List ℕ)
group from to s = hex_decode (slice from to s)

-- ParseUUID; none is ErrBadUUID.
unfoldable pub parse_uuid : List ℕ → Option Uuid
parse_uuid s =
    if is_dashed s
    then join_groups (group 0 8 s) (
        join_groups (group 9 13 s)
          (join_groups (group 14 18 s) (join_groups (group 19 23 s) (group 24 36 s))))
    else none

-- UUID.String
unfoldable pub string : Uuid → List ℕ
string u =
    hex_encode (slice 0 4 u)
    ++ (45 ∷ hex_encode (slice 4 6 u)
        ++ (45 ∷ hex_encode (slice 6 8 u)
            ++ (45 ∷ hex_encode (slice 8 10 u) ++ (45 ∷ hex_encode (slice 10 16 u)))))

-- `out[6] = (out[6] & 0x0f) | 0x50` and `out[8] = (out[8] & 0x3f) | 0x80`
unfoldable pub with_version : List ℕ → Uuid
with_version (b0 ∷ b1 ∷ b2 ∷ b3 ∷ b4 ∷ b5 ∷ b6 ∷ b7 ∷ b8 ∷ rest) =
    b0 ∷ b1 ∷ b2 ∷ b3 ∷ b4 ∷ b5 ∷ (low_bits b6 4 + 0x50) ∷ b7 ∷ (low_bits b8 6 + 0x80) ∷ rest
with_version short = short

-- uuidV5
unfoldable pub uuid_v5 : (List ℕ → List ℕ) → Uuid → List ℕ → Uuid
uuid_v5 sha1 namespace name = with_version (take 16 (sha1 (namespace ++ name)))

unfoldable pub named : (List ℕ → List ℕ) → Uuid → List ℕ → Uuid
named sha1 namespace name = elim (parse_uuid name) [
  | some u ↦ u
  | none ↦ uuid_v5 sha1 namespace name
]

-- DocumentID
unfoldable pub document_id : (List ℕ → List ℕ) → List ℕ → Uuid
document_id sha1 name = named sha1 document_namespace name

-- OwnerID
unfoldable pub owner_id : (List ℕ → List ℕ) → List ℕ → Uuid
owner_id sha1 [] = nil_uuid
owner_id sha1 (c ∷ cs) = named sha1 owner_namespace (c ∷ cs)
