-- ===== src/Crdt/DeleteSet.antt =====
-- internal/crdt/deleteset.go: the ranges, the operations on a set, and its wire form.
pub mod Codec
pub mod Merge
pub mod Search
pub mod Query
use crdt_server.Base.{
  ℕ, zero, suc, ◌+◌, ◌-◌, ◌/◌, ◌^◌, ◌<◌, ◌≤◌, List, [], ◌∷◌, ◌++◌, Bool, true, false, ◌&&◌, Option,
  none, some, ltb, leb, ◌==◌, length, get_elem?, if◌then◌else◌, u64, sub_u64, is_positive, not,
  unexpected_eof, err,
}
use crdt_server.Base.GoMap
use crdt_server.Base.GoMap.{GoMap, insert}
use crdt_server.Lib0.Decoder.{Read, ◌>>=◌, pure, remaining, read_var_uint}
use crdt_server.Lib0.Encoder.{Encoder, write_var_uint}
use crdt_server.Lib0.Transfer.{read_times, write_each}
use crdt_server.Crdt.{StructId, read_safe_var_uint, read_len}
use crdt_server.Crdt.ClientMap.{write_section, read_section}

-- [clock, clock + len)
pub record DeleteRange : Type 0 where
  pub clock : ℕ
  pub len : ℕ

abbrev pub range : ℕ → ℕ → DeleteRange
range clock len = record { clock = clock; len = len }

-- DeleteRange.End, on uint64.
abbrev pub end_of : DeleteRange → ℕ
end_of r = u64 (r.clock + r.len)

-- DeleteSet.Clients
abbrev pub DeleteSet : Type 0
DeleteSet = GoMap (List DeleteRange)

-- `ds.Clients[client]`
unfoldable pub ranges_of : DeleteSet → ℕ → List DeleteRange
ranges_of ds client = GoMap.get [] client ds

unfoldable pub is_empty : DeleteSet → Bool
is_empty [] = true
is_empty ((client, []) ∷ ds) = is_empty ds
is_empty ((client, r ∷ rs) ∷ ds) = false

insert_range : DeleteRange → List DeleteRange → List DeleteRange
insert_range r [] = r ∷ []
insert_range r (x ∷ xs) =
    let rest = insert_range r xs in if ltb x.clock r.clock then x ∷ rest else r ∷ x ∷ xs

-- `sort.Slice(ranges, func(i, j int) bool { return ranges[i].Clock < ranges[j].Clock })`. Ranges of
-- one clock may come in any order: the merge makes one range of them.
unfoldable pub sort_ranges : List DeleteRange → List DeleteRange
unfolding insert_range
sort_ranges [] = []
sort_ranges (r ∷ rs) = insert_range r (sort_ranges rs)

-- `if end := r.End(); end > last.End() { last.Len = int(end - last.Clock) }`
unfoldable pub extend : DeleteRange → DeleteRange → DeleteRange
extend last r =
    if ltb (end_of last) (end_of r)
    then record last { len = sub_u64 (end_of r) last.clock }
    else last

-- The loop over `ranges[1:]`; what is merged already, less its last range, is in front of it.
unfoldable pub merge_from : DeleteRange → List DeleteRange → List DeleteRange
unfolding extend
merge_from last [] = last ∷ []
merge_from last (r ∷ rs) =
    let overlaps = merge_from (extend last r) rs in
    let apart = last ∷ merge_from r rs in if leb r.clock (end_of last) then overlaps else apart

unfoldable pub merge : List DeleteRange → List DeleteRange
unfolding merge_from
merge [] = []
merge (r ∷ rs) = merge_from r rs

-- DeleteSet.Add; the length is an int, `if n <= 0 { return }`.
unfoldable pub add : DeleteSet → ℕ → ℕ → ℕ → DeleteSet
unfolding sort_ranges merge
add ds client clock len =
    let ranges = ranges_of ds client ++ (range clock len ∷ []) in
    if is_positive len then insert client (merge (sort_ranges ranges)) ds else ds

-- `sort.Search(n, f)`: the loop `for i < j { h := (i + j) / 2; if !f(h) { i = h + 1 } else { j = h } }`.
-- The distance falls in each round, so `n` rounds are enough.
unfoldable pub search_loop : ℕ → (ℕ → Bool) → ℕ → ℕ → ℕ
search_loop zero f i j = i
search_loop (suc rounds) f i j =
    let h = (i + j) / 2 in
    let upper = search_loop rounds f (h + 1) j in
    let lower = search_loop rounds f i h in if ltb i j then (if f h then lower else upper) else i

unfoldable pub search_first : ℕ → (ℕ → Bool) → ℕ
unfolding search_loop
search_first n f = search_loop n f 0 n

-- A test of the range at an index.
abbrev pub at_range : List DeleteRange → (DeleteRange → Bool) → ℕ → Bool
at_range ranges p i = elim (get_elem? ranges i) [ none ↦ false | some r ↦ p r ]

-- DeleteSet.IsDeleted
unfoldable pub is_deleted : DeleteSet → StructId → Bool
unfolding search_first
is_deleted ds id =
    let ranges = ranges_of ds id.client in
    let i = search_first (length ranges) (at_range ranges (λ r. ltb id.clock (end_of r))) in
    ltb i (length ranges) && at_range ranges (λ r. leb r.clock id.clock) i

unfoldable pub write_range : DeleteRange → Encoder → Encoder
write_range r e = write_var_uint r.len (write_var_uint r.clock e)

unfoldable pub write_ranges : List DeleteRange → Encoder → Encoder
write_ranges rs e = write_each write_range rs (write_var_uint (length rs) e)

-- DeleteSet.write
unfoldable pub write_delete_set : DeleteSet → Encoder → Encoder
write_delete_set ds = write_section [] write_ranges ds

unfoldable pub read_range : Read DeleteRange
read_range = do clock ← read_safe_var_uint; len ← read_len; pure (range clock len)

unfoldable pub read_ranges : Read (List DeleteRange)
read_ranges = do
  n ← read_var_uint
  λ d. if ltb (remaining d) n then err unexpected_eof else read_times n read_range d

-- readDeleteSet
unfoldable pub read_delete_set : Read DeleteSet
read_delete_set = read_section read_ranges
