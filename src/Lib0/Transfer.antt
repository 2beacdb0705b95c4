-- ===== src/Lib0/Transfer.antt =====
-- What it means that a writer and a reader agree on a value, with one rule for each way to put
-- writers and readers together. The round trips of the formats are put together from these.
use crdt_server.Base.{
  ℕ, zero, suc, ◌+◌, ◌≤◌, ◌≡◌, refl, sym, ◌∙◌, ap, List, [], ◌∷◌, ◌++◌, append-nil, append_assoc,
  none, some, ltb, length, length-append, if◌then◌else◌, Error, ok, err, Result, and_then, arith,
  All, le→ltb,
}
use crdt_server.Lib0.Decoder.{Decoder, Read, feed, ◌>>=◌, pure, remaining, done}
use crdt_server.Lib0.Encoder.{Encoder, new_encoder, unless_failed}

-- An encoder with no error.
abbrev pub holding : List ℕ → Encoder
holding b = record { buf = b; err = none }

-- `w` appends some bytes, at least `least` of them and no error, from which `r` reads `a`,
-- whatever follows them.
pub record Transfers {ℓ} {A : Type ℓ} (w : Encoder → Encoder) (r : Read A) (a : A) (least : ℕ)
    : Type ℓ where
  pub bytes : List ℕ
  pub writes : (b : List ℕ) → w (holding b) ≡ holding (b ++ bytes)
  pub reads : (rest : List ℕ) → r (bytes ++ rest) ≡ ok (a, rest)
  pub long : least ≤ length bytes

module _ {ℓ} {A : Type ℓ} where
  pub Transfers-pure : (a : A) → Transfers (λ e. e) (pure a) a 0
  Transfers-pure a = record {
    bytes = [];
    writes = λ b. ap holding (sym (append-nil b));
    reads = λ rest. refl;
    long = omega arith;
  }

  pub Transfers-weaken :
      {w : Encoder → Encoder} {r : Read A} {a : A} {m n : ℕ}
      → n ≤ m
      → Transfers w r a m
      → Transfers w r a n
  Transfers-weaken h t = record {
    bytes = t.bytes;
    writes = t.writes;
    reads = t.reads;
    long = omega (arith, t.long);
  }

  -- Another writer that writes the same.
  pub Transfers-writer :
      {w w' : Encoder → Encoder} {r : Read A} {a : A} {m : ℕ}
      → ((b : List ℕ) → w (holding b) ≡ w' (holding b))
      → Transfers w' r a m
      → Transfers w r a m
  Transfers-writer h t = record {
    bytes = t.bytes;
    writes = λ b. h b ∙ t.writes b;
    reads = t.reads;
    long = t.long;
  }

  -- Another reader that reads the same.
  pub Transfers-reader :
      {w : Encoder → Encoder} {r r' : Read A} {a : A} {m : ℕ}
      → ((d : Decoder) → r d ≡ r' d)
      → Transfers w r' a m
      → Transfers w r a m
  Transfers-reader h t = record {
    bytes = t.bytes;
    writes = t.writes;
    reads = λ rest. h (t.bytes ++ rest) ∙ t.reads rest;
    long = t.long;
  }

  -- A count that the reader checks against what is left to read.
  pub Transfers-bounded :
      {w : Encoder → Encoder} {r : Read A} {a : A} {m : ℕ} (n : ℕ) (e : Error)
      → n ≤ m
      → Transfers w r a m
      → Transfers w (λ d. if ltb (remaining d) n then err e else r d) a m
  unfolding remaining
  Transfers-bounded {r} {a} n e h t = record {
    bytes = t.bytes;
    writes = t.writes;
    reads = λ rest.
        rw (le→ltb n (length (t.bytes ++ rest)) (omega (arith, length-append t.bytes rest, t.long)))
          (t.reads rest);
    long = t.long;
  }

  -- Every method of the encoder first looks at the recorded error.
  pub Transfers-unless_failed :
      {w : Encoder → Encoder} {r : Read A} {a : A} {m : ℕ}
      → Transfers w r a m
      → Transfers (λ e. unless_failed e (w e)) r a m
  Transfers-unless_failed t = record {
    bytes = t.bytes;
    writes = t.writes;
    reads = t.reads;
    long = t.long;
  }

module _ {ℓ κ} {A : Type ℓ} {B : Type κ} where
  -- Two writes in turn, read by two reads in turn.
  pub Transfers-bind :
      {v w : Encoder → Encoder} {r : Read A} {a : A} {m n : ℕ} (f : A → Read B) {b : B}
      → Transfers v r a m
      → Transfers w (f a) b n
      → Transfers (λ e. w (v e)) (r >>= f) b (m + n)
  Transfers-bind {v} {w} {r} {a} f s t = record {
    bytes = s.bytes ++ t.bytes;
    writes = λ b.
        ap w (s.writes b) ∙ t.writes (b ++ s.bytes) ∙ ap holding (append_assoc b s.bytes t.bytes);
    reads = λ rest.
        ap (λ x. feed f (r x)) (append_assoc s.bytes t.bytes rest)
        ∙ ap (feed f) (s.reads (t.bytes ++ rest))
        ∙ t.reads rest;
    long = omega (arith, length-append s.bytes t.bytes, s.long, t.long);
  }

  -- The value is computed from what was read.
  pub Transfers-map :
      {w : Encoder → Encoder} {r : Read A} {a : A} {m : ℕ} (f : A → B)
      → Transfers w r a m
      → Transfers w (r >>= λ x. pure (f x)) (f a) m
  Transfers-map {r} f t = record {
    bytes = t.bytes;
    writes = t.writes;
    reads = λ rest. ap (feed (λ x. pure (f x))) (t.reads rest);
    long = t.long;
  }

module _ {ℓ κ} {A : Type ℓ} {B : Type κ} where
  -- A test of what was read, which succeeds.
  pub Transfers-then :
      {w : Encoder → Encoder} {r : Read A} {a : A} {m : ℕ} (f : A → Read B) {b : B}
      → ((d : Decoder) → f a d ≡ ok (b, d))
      → Transfers w r a m
      → Transfers w (r >>= f) b m
  Transfers-then f h t = record {
    bytes = t.bytes;
    writes = t.writes;
    reads = λ rest. ap (feed f) (t.reads rest) ∙ h rest;
    long = t.long;
  }

module _ {ℓ} {A : Type ℓ} where
  -- `for range n { … }`
  unfoldable pub read_times : ℕ → Read A → Read (List A)
  read_times zero r = pure []
  read_times (suc n) r = do x ← r; xs ← read_times n r; pure (x ∷ xs)

  unfoldable pub write_each : (A → Encoder → Encoder) → List A → Encoder → Encoder
  write_each w [] e = e
  write_each w (x ∷ xs) e = write_each w xs (w x e)

  pub Transfers-each :
      (w : A → Encoder → Encoder) (r : Read A) (xs : List A)
      → All (λ x. Transfers (w x) r x 1) xs
      → Transfers (write_each w xs) (read_times (length xs) r) xs (length xs)
  unfolding read_times write_each
  Transfers-each w r [] h = Transfers-pure []
  Transfers-each w r (x ∷ xs) (h, hs) = Transfers-weaken (omega arith) (
      Transfers-bind (λ y. read_times (length xs) r >>= λ ys. pure (y ∷ ys)) h
        (Transfers-map (λ ys. x ∷ ys) (Transfers-each w r xs hs)))

-- What a function that encodes into a new encoder returns.
abbrev pub finish : Encoder → Result (List ℕ)
finish e = elim e.err [ none ↦ ok e.buf | some x ↦ err x ]

-- A decoding of a whole input: `e` is the error for trailing bytes.
abbrev pub whole {ℓ} : {A : Type ℓ} → Error → Result (A × Decoder) → Result A
whole e r = and_then r (λ p. if done p.1 then ok p.0 else err e)

-- `encode` and `decode` fit together on `a`.
abbrev pub Returns {ℓ} : {A : Type ℓ} → Result (List ℕ) → (List ℕ → Result A) → A → Type ℓ
Returns encoded decode a = (b : List ℕ) × (encoded ≡ ok b) × (decode b ≡ ok a)

pub Transfers-whole {ℓ} :
    {A : Type ℓ} {w : Encoder → Encoder} {r : Read A} {a : A} {m : ℕ} (e : Error)
    → Transfers w r a m
    → Returns (finish (w new_encoder)) (λ b. whole e (r b)) a
unfolding done
Transfers-whole {r} {a} e t = (
  t.bytes,
  ap finish (t.writes []),
  ap (λ x. whole e (r x)) (sym (append-nil t.bytes)) ∙ ap (whole e) (t.reads []),
)
