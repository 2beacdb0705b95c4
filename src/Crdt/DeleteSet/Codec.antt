-- ===== src/Crdt/DeleteSet/Codec.antt =====
-- The wire form of a delete set is read back as it was written.
use native.Mathlib.Nat.{le_refl}
use crdt_server.Base.{
  ℕ, ◌+◌, ◌^◌, ◌<◌, ◌≡◌, List, [], length, All, All-map, arith, ltb, le→ltb, if◌then◌else◌, err,
  unexpected_eof,
}
use crdt_server.Base.GoMap
use crdt_server.Base.GoMap.{keys}
use crdt_server.Lib0.Decoder.{◌>>=◌, pure, remaining}
use crdt_server.Lib0.Encoder.{write_var_uint}
use crdt_server.Lib0.Transfer.{
  Transfers, Transfers-weaken, Transfers-then, Transfers-bind, Transfers-map, Transfers-bounded,
  Transfers-each, read_times,
}
use crdt_server.Lib0.VarUint.{var_uint-Transfers}
use crdt_server.Crdt.{read_len, safe_var_uint-Transfers, len-Transfers}
use crdt_server.Crdt.ClientMap.{
  read_section, read_entries, read_back, lookup-read_back, section-Transfers,
}
use crdt_server.Crdt.DeleteSet.{
  DeleteRange, DeleteSet, range, ranges_of, write_range, write_ranges, write_delete_set, read_range,
  read_ranges, read_delete_set,
}

-- A range that the reader accepts.
abbrev pub IsReadable : DeleteRange → Type 0
IsReadable r = (r.clock < 2 ^ 53) × (r.len < 2 ^ 31 + 1)

range-Transfers : (r : DeleteRange) → IsReadable r → Transfers (write_range r) read_range r 2
unfolding write_range read_range
range-Transfers r (hc, hl) =
    Transfers-bind (λ clock. read_len >>= λ len. pure (range clock len))
      (safe_var_uint-Transfers r.clock hc) (Transfers-map (range r.clock) (len-Transfers r.len hl))

ranges_transfer :
    (rs : List DeleteRange)
    → All IsReadable rs
    → length rs < 2 ^ 53
    → Transfers (write_ranges rs) read_ranges rs 1
unfolding write_ranges read_ranges
ranges_transfer rs h n = Transfers-weaken (omega arith) (
    Transfers-bind
      (λ n d. if ltb (remaining d) n then err unexpected_eof else read_times n read_range d)
      (var_uint-Transfers (length rs) n)
      (Transfers-bounded (length rs) unexpected_eof (le_refl (length rs)) (
        Transfers-each write_range read_range rs
          (All-map rs (λ r p. Transfers-weaken (omega arith) (range-Transfers r p)) h))))

-- Ids, clocks, lengths and counts that the format has room for.
abbrev pub IsEncodable : DeleteSet → Type 0
IsEncodable ds =
    All (λ c. (c < 2 ^ 53) × All IsReadable (ranges_of ds c) × (length (ranges_of ds c) < 2 ^ 53))
      (keys ds)
    × (length ds < 2 ^ 53)

-- The set that comes back: the same clients with the same ranges.
pub reread : DeleteSet → DeleteSet
reread ds = read_back [] write_ranges read_ranges ds

pub lookup-reread : (ds : DeleteSet) (c : ℕ) → GoMap.lookup c (reread ds) ≡ GoMap.lookup c ds
unfolding reread
lookup-reread = lookup-read_back [] write_ranges read_ranges

pub delete_set-Transfers :
    (ds : DeleteSet)
    → IsEncodable ds
    → Transfers (write_delete_set ds) read_delete_set (reread ds) 1
unfolding write_delete_set read_delete_set ranges_of reread
delete_set-Transfers ds (h, n) =
    section-Transfers [] write_ranges read_ranges ds
      (All-map (keys ds) (λ c p. (p.0, ranges_transfer (GoMap.get [] c ds) p.1 p.2)) h) n

-- What an update without a delete set writes is read as an empty set.
pub empty-Transfers : Transfers (write_var_uint 0) read_delete_set [] 1
unfolding read_delete_set read_section read_entries
empty-Transfers =
    Transfers-then {a = 0}
      (λ n d. if ltb (remaining d) n then err unexpected_eof else read_entries n read_ranges [] d)
      (λ d. unfold remaining in rw (le→ltb 0 (length d) (omega arith)))
      (var_uint-Transfers 0 (omega arith))
