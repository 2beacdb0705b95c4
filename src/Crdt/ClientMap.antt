-- ===== src/Crdt/ClientMap.antt =====
-- The client-keyed sections of the wire format: state vectors and delete sets. Both write the
-- number of clients, then each client, higher ids first, with what the map holds for it; both
-- read them into a new map.
use crdt_server.Base.{
  ℕ, zero, suc, ◌^◌, ◌<◌, ◌≡◌, refl, sym, ◌∙◌, List, [], ◌∷◌, some, ltb, length, All, arith,
  if◌then◌else◌, unexpected_eof, err,
}
use crdt_server.Base.GoMap.{
  GoMap, lookup, get, insert, keys, member, sort_descending, lookup-insert, lookup-keys,
  member-sort_descending, length-sort_descending, length-keys, All-sort_descending,
}
use native.Mathlib.Nat.{le_refl}
use crdt_server.Lib0.Decoder.{Read, ◌>>=◌, pure, remaining, read_var_uint}
use crdt_server.Lib0.Encoder.{Encoder, write_var_uint}
use crdt_server.Lib0.Transfer.{
  Transfers, Transfers-pure, Transfers-weaken, Transfers-bind, Transfers-bounded, write_each,
}
use crdt_server.Lib0.VarUint.{var_uint-Transfers}
use crdt_server.Crdt.{read_safe_var_uint, safe_var_uint-Transfers}

module _ {V : Type 0} where
  unfoldable pub write_entry : V → (V → Encoder → Encoder) → GoMap V → ℕ → Encoder → Encoder
  write_entry zero_value w m client e = w (get zero_value client m) (write_var_uint client e)

  unfoldable pub write_section : V → (V → Encoder → Encoder) → GoMap V → Encoder → Encoder
  unfolding write_entry
  write_section zero_value w m e =
      let clients = sort_descending (keys m) in
      write_each (write_entry zero_value w m) clients (write_var_uint (length clients) e)

  unfoldable pub read_entries : ℕ → Read V → GoMap V → Read (GoMap V)
  read_entries zero r m = pure m
  read_entries (suc n) r m = do
    client ← read_safe_var_uint
    v ← r
    read_entries n r (insert client v m)

  unfoldable pub read_section : Read V → Read (GoMap V)
  unfolding read_entries
  read_section r = do
    n ← read_var_uint
    λ d. if ltb (remaining d) n then err unexpected_eof else read_entries n r [] d

module _ {V : Type 0} (zero_value : V) (w : V → Encoder → Encoder) (r : Read V) where
  -- What reading the entries of `clients` adds to a map.
  copy_each : GoMap V → List ℕ → GoMap V → GoMap V
  copy_each m [] acc = acc
  copy_each m (c ∷ cs) acc = copy_each m cs (insert c (get zero_value c m) acc)

  -- Everything that the section writes for a client can be read back.
  abbrev pub IsWritable : GoMap V → ℕ → Type 0
  IsWritable m c = (c < 2 ^ 53) × Transfers (w (get zero_value c m)) r (get zero_value c m) 1

  entries_transfer :
      (m : GoMap V) (clients : List ℕ) (acc : GoMap V)
      → All (IsWritable m) clients
      → Transfers
          (write_each (write_entry zero_value w m) clients)
          (read_entries (length clients) r acc)
          (copy_each m clients acc)
          (length clients)
  unfolding write_each write_entry read_entries copy_each
  entries_transfer m [] acc h = Transfers-pure acc
  entries_transfer m (c ∷ cs) acc ((hc, hv), hs) = Transfers-weaken (omega arith) (
      Transfers-bind (λ client. r >>= λ v. read_entries (length cs) r (insert client v acc))
        (safe_var_uint-Transfers c hc)
        (Transfers-bind (λ v. read_entries (length cs) r (insert c v acc)) hv
          (entries_transfer m cs (insert c (get zero_value c m) acc) hs)))

  lookup-copy_each :
      (m : GoMap V) (clients : List ℕ) (acc : GoMap V) (c : ℕ)
      → lookup c (copy_each m clients acc)
        ≡ (if member c clients then some (get zero_value c m) else lookup c acc)
  unfolding copy_each member
  lookup-copy_each m [] acc c = refl
  lookup-copy_each m (b ∷ cs) acc c = ground (
    arith,
    lookup-copy_each m cs (insert b (get zero_value b m) acc) c,
    lookup-insert b c (get zero_value b m) acc,
  )

  -- The map that comes back: the same keys with the same values.
  pub read_back : GoMap V → GoMap V
  unfolding copy_each
  read_back m = copy_each m (sort_descending (keys m)) []

  pub lookup-read_back : (m : GoMap V) (c : ℕ) → lookup c (read_back m) ≡ lookup c m
  unfolding read_back
  lookup-read_back m c =
      lookup-copy_each m (sort_descending (keys m)) [] c
      ∙ rw member-sort_descending (unfold lookup in sym (lookup-keys zero_value c m))

  pub section-Transfers :
      (m : GoMap V)
      → All (IsWritable m) (keys m)
      → length m < 2 ^ 53
      → Transfers (write_section zero_value w m) (read_section r) (read_back m) 1
  unfolding write_section read_section read_back
  section-Transfers m h hn =
      let clients = sort_descending (keys m) in
      Transfers-weaken (omega arith) (
        Transfers-bind
          (λ n d. if ltb (remaining d) n then err unexpected_eof else read_entries n r [] d)
          (var_uint-Transfers (length clients)
            (omega (arith, hn, length-sort_descending (keys m), length-keys m)))
          (Transfers-bounded (length clients) unexpected_eof (le_refl (length clients))
            (entries_transfer m clients [] (All-sort_descending (IsWritable m) (keys m) h))))
