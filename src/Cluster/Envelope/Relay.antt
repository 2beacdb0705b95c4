-- ===== src/Cluster/Envelope/Relay.antt =====
-- What a replica decodes it can also encode: nothing is accepted that cannot be passed on.
use crdt_server.Base.{
  ℕ, ◌+◌, ◌*◌, ◌%◌, ◌^◌, ◌<◌, ◌≤◌, ◌≡◌, refl, List, [], ◌∷◌, length, length-take, arith, ok, err,
  Result, and_then-eq-ok, if◌then◌else◌, ltb, ◌==◌, if-cases, Bool, true, false, ◌⊎◌, inl, inr,
  take,
}
use crdt_server.Lib0.{max_safe_integer}
use crdt_server.Lib0.Decoder.{
  Decoder, Read, feed, done, read_var_uint, var_uint_loop, read_bytes, read_var_uint8_array,
  remaining,
}
use crdt_server.Lib0.Transfer.{Returns}
use crdt_server.Cluster.Envelope.{
  Envelope, encode, read_payload, read_of_kind, read_from_origin, read_of_version, read_envelope,
  decode,
}
use crdt_server.Cluster.Envelope.RoundTrip.{IsSendable, decode-encode_envelope}

feed-eq-ok {ℓ κ} :
    {A : Type ℓ} {B : Type κ} (f : A → Read B) (m : Result (A × Decoder)) {b : B × Decoder}
    → feed f m ≡ ok b
    → (a : A) × (rest : Decoder) × (m ≡ ok (a, rest)) × (f a rest ≡ ok b)
feed-eq-ok f (ok (a, rest)) h = (a, rest, refl, h)
feed-eq-ok f (err e) h = cc

choice-eq-ok {ℓ} :
    {A : Type ℓ} (b : Bool) (f g : Read A) (d : Decoder) {z : Result (A × Decoder)}
    → (if b then f else g) d ≡ z
    → ((b ≡ true) × (f d ≡ z)) ⊎ ((b ≡ false) × (g d ≡ z))
choice-eq-ok true f g d h = inl (refl, h)
choice-eq-ok false f g d h = inr (refl, h)

-- Reading a number leaves less to read.
read_var_uint-shorter :
    (num mult : ℕ) (d : Decoder) (a : ℕ) (d' : Decoder)
    → var_uint_loop num mult d ≡ ok (a, d')
    → length d' < length d
unfolding var_uint_loop
read_var_uint-shorter num mult [] a d' h = cc
read_var_uint-shorter num mult (r ∷ rest) a d' h =
    let num' = (num + (r % 128 * mult) % 2 ^ 64) % 2 ^ 64 in
    let again = read_var_uint-shorter num' (mult * 128 % 2 ^ 64) rest a d' in ground (arith, again)

length-read_bytes :
    (n : ℕ) (d : Decoder) (p : List ℕ) (d' : Decoder)
    → read_bytes n d ≡ ok (p, d')
    → length p ≤ length d
unfolding read_bytes remaining
length-read_bytes n d p d' h = elim (if-cases (ltb (length d) n) h) [
  | inl (_, e) ↦ cc
  | inr (_, e) ↦ let same : take n d ≡ p = cc in rw (← same) (omega (arith, length-take n d))
]

length-read_var_uint8_array :
    (d : Decoder) (p : List ℕ) (d' : Decoder)
    → read_var_uint8_array d ≡ ok (p, d')
    → length p < length d
unfolding read_var_uint8_array read_var_uint remaining
length-read_var_uint8_array d p d' h =
    let (n, rest, e, k) = feed-eq-ok _ (var_uint_loop 0 1 d) h in
    elim (if-cases (ltb (length rest) n) k) [
      | inl (_, k) ↦ cc
      | inr (_, k) ↦
          omega (arith, read_var_uint-shorter 0 1 d n rest e, length-read_bytes n rest p d' k)
    ]

-- Each part of the reader adds one bound.
read_payload-IsSendable :
    (origin kind : ℕ) (d : Decoder) (e : Envelope) (d' : Decoder)
    → read_payload origin kind d ≡ ok (e, d')
    → (e.origin ≡ origin) × (e.kind ≡ kind) × (length e.payload < length d)
unfolding read_payload
read_payload-IsSendable origin kind d e d' h =
    let (p, rest, r, k) = feed-eq-ok _ (read_var_uint8_array d) h in
    let same : record { origin = origin; kind = kind; payload = p } ≡ e = cc in
    rw (← same) (refl, refl, length-read_var_uint8_array d p rest r)

read_of_kind-IsSendable :
    (origin kind : ℕ) (d : Decoder) (e : Envelope) (d' : Decoder)
    → read_of_kind origin kind d ≡ ok (e, d')
    → (e.origin ≡ origin) × (e.kind < 3) × (length e.payload < length d)
unfolding read_of_kind
read_of_kind-IsSendable origin kind d e d' h =
    ground (arith, read_payload-IsSendable origin kind d e d')

read_from_origin-IsSendable :
    (origin : ℕ) (d : Decoder) (e : Envelope) (d' : Decoder)
    → read_from_origin origin d ≡ ok (e, d')
    → (e.origin < 2 ^ 53) × (e.kind < 3) × (length e.payload < length d)
unfolding read_from_origin read_var_uint
read_from_origin-IsSendable origin d e d' h =
    elim (choice-eq-ok (ltb max_safe_integer origin) _ _ d h) [
      | inl (_, k) ↦ cc
      | inr (s, k) ↦
          let (kind, rest, r, k) = feed-eq-ok _ (var_uint_loop 0 1 d) k in
          ground (
            arith,
            read_var_uint-shorter 0 1 d kind rest r,
            read_of_kind-IsSendable origin kind rest e d' k,
          )
    ]

read_envelope-IsSendable :
    (d : Decoder) (e : Envelope) (d' : Decoder)
    → read_envelope d ≡ ok (e, d')
    → (e.origin < 2 ^ 53) × (e.kind < 3) × (length e.payload < length d)
unfolding read_envelope read_of_version read_var_uint
read_envelope-IsSendable d e d' h =
    let (version, d₁, r₁, k₁) = feed-eq-ok _ (var_uint_loop 0 1 d) h in
    elim (choice-eq-ok (version == 0) _ _ d₁ k₁) [
      | inr (_, k) ↦ cc
      | inl (_, k) ↦
          let (origin, d₂, r₂, k₂) = feed-eq-ok _ (var_uint_loop 0 1 d₁) k in
          ground (
            arith,
            read_var_uint-shorter 0 1 d version d₁ r₁,
            read_var_uint-shorter 0 1 d₁ origin d₂ r₂,
            read_from_origin-IsSendable origin d₂ e d' k₂,
          )
    ]

-- An envelope decoded from fewer than 2^53 bytes can be encoded again, and is decoded from what it
-- is then encoded to.
pub encode-decode_envelope :
    (b : List ℕ) (e : Envelope) → length b < 2 ^ 53 → decode b ≡ ok e → Returns (encode e) decode e
unfolding decode
encode-decode_envelope b e hb h =
    let (p, r, k) = and_then-eq-ok (read_envelope b) _ h in
    elim (if-cases (done p.1) k) [
      | inr (_, k) ↦ cc
      | inl (_, k) ↦
          let same : p.0 ≡ e = cc in
          let sendable : IsSendable p.0 = ground (arith, read_envelope-IsSendable b p.0 p.1 r) in
          rw (← same) (decode-encode_envelope p.0 sendable)
    ]
