-- ===== src/Protocol/Awareness.antt =====
-- internal/protocol/awareness.go: the last state that every client of a room published. Times and
-- durations are numbers of nanoseconds; an int limit is given by its bit pattern.
pub mod Bounds
pub mod Replay
pub mod Removal
use crdt_server.Base.{
  ℕ, zero, suc, ◌+◌, ◌-◌, ◌*◌, List, [], ◌∷◌, Bool, true, false, not, ◌&&◌, ◌||◌, Option, none,
  some, Result, ok, err, Error, ltb, leb, ◌==◌, length, if◌then◌else◌, u64, is_negative,
  is_positive, unexpected_eof, trailing_bytes, awareness_clock_out_of_range, state_too_large,
  too_many_clients, and_then,
}
use crdt_server.Base.GoMap
use crdt_server.Base.GoMap.{GoMap, lookup, insert, delete, sort_ascending}
use crdt_server.Lib0.{max_safe_integer}
use crdt_server.Lib0.Decoder
use crdt_server.Lib0.Decoder.{
  Decoder, Read, ◌>>=◌, pure, done, remaining, read_var_uint, read_var_string,
}
use crdt_server.Lib0.Encoder.{Encoder, new_encoder, write_var_uint, write_var_string}
use crdt_server.Lib0.Transfer.{write_each, finish}

-- NullState, the bytes of "null".
abbrev pub null_state : List ℕ
null_state = 110 ∷ 117 ∷ 108 ∷ 108 ∷ []

-- `state == NullState`
unfoldable pub is_null : List ℕ → Bool
is_null (a ∷ b ∷ c ∷ d ∷ []) = a == 110 && b == 117 && c == 108 && d == 108
is_null _ = false

-- forgetAfter, ten minutes.
abbrev pub forget_after : ℕ
forget_after = 600000000000

pub record Limits : Type 0 where
  pub state : ℕ
  pub clients : ℕ

unfoldable pub max_state : Limits → ℕ
max_state l = if l.state == 0 then 4096 else l.state

unfoldable pub max_clients : Limits → ℕ
max_clients l = if l.clients == 0 then 1024 else l.clients

pub record Entry : Type 0 where
  pub clock : ℕ
  pub state : List ℕ
  pub present : Bool
  pub last_updated : ℕ

-- The zero value of an entry; the zero time is before every time that a clock gives.
abbrev pub zero_entry : Entry
zero_entry = record { clock = 0; state = []; present = false; last_updated = 0 }

-- `present--` is reached for an entry that is present only, so never at 0.
pub record Awareness : Type 0 where
  pub entries : GoMap Entry
  pub limits : Limits
  pub present : ℕ

unfoldable pub new_awareness_with_limits : Limits → Awareness
new_awareness_with_limits l = record { entries = []; limits = l; present = 0 }

-- `a.entries[client]`
unfoldable pub entry_of : Awareness → ℕ → Entry
entry_of a client = GoMap.get zero_entry client a.entries

-- What Len counts.
unfoldable pub count_present : GoMap Entry → ℕ
count_present [] = 0
count_present ((k, e) ∷ m) = if e.present then suc (count_present m) else count_present m

unfoldable pub present_clients : GoMap Entry → List ℕ
present_clients [] = []
present_clients ((k, e) ∷ m) = let rest = present_clients m in if e.present then k ∷ rest else rest

unfoldable pub clients : Awareness → List ℕ
clients a = sort_ascending (present_clients a.entries)

-- `none` is the result false.
unfoldable pub state : Awareness → ℕ → Option (List ℕ)
state a client = elim (lookup client a.entries) [
  | none ↦ none
  | some e ↦ if e.present then some e.state else none
]

-- `if !found || e.lastUpdated.Before(at) { oldest, at, found = id, e.lastUpdated, true }`
unfoldable pub older : ℕ → Entry → Option (ℕ × ℕ) → Option (ℕ × ℕ)
older k e none = some (k, e.last_updated)
older k e (some (oldest, at)) =
    if ltb e.last_updated at then some (k, e.last_updated) else some (oldest, at)

-- The search of forgetOldest: the removed entry that was updated first.
unfoldable pub find_oldest : Option (ℕ × ℕ) → GoMap Entry → Option (ℕ × ℕ)
unfolding older
find_oldest found [] = found
find_oldest found ((k, e) ∷ m) = find_oldest (if e.present then found else older k e found) m

-- `len(a.entries) >= limit`, the limit a signed number.
abbrev pub reaches : ℕ → ℕ → Bool
reaches n limit = is_negative limit || leb limit n

-- Each round but the last deletes an entry.
unfoldable pub forget_loop : ℕ → ℕ → GoMap Entry → GoMap Entry
forget_loop zero limit m = m
forget_loop (suc rounds) limit m = elim (find_oldest none m) [
  | none ↦ m
  | some (k, _) ↦
      let rest = forget_loop rounds limit (delete k m) in
      if reaches (length m) limit then rest else m
]

unfoldable pub forget_oldest : ℕ → GoMap Entry → GoMap Entry
unfolding forget_loop
forget_oldest limit m = forget_loop (length m) limit m

-- The two checks of a state that is not null, `if !isNull { … }`.
unfoldable pub refusal : Awareness → ℕ → List ℕ → Option Error
unfolding max_state max_clients entry_of
refusal a client s =
    let most = max_clients a.limits in
    if is_null s
    then none
    else if is_positive (max_state a.limits) && ltb (max_state a.limits) (length s)
    then some state_too_large
    else if is_positive most && not (entry_of a client).present && leb most a.present
    then some too_many_clients
    else none

-- awareness.js:250
unfoldable pub is_taken : Entry → ℕ → Bool → Bool
is_taken e clock null = ltb e.clock clock || (e.clock == clock && null && e.present)

-- What is left of the entries when a client that is not known comes in.
unfoldable pub make_room : Awareness → ℕ → GoMap Entry
unfolding max_clients forget_oldest
make_room a client =
    let most = max_clients a.limits in
    elim (lookup client a.entries) [
      | some _ ↦ a.entries
      | none ↦ if is_positive most then forget_oldest (u64 (2 * most)) a.entries else a.entries
    ]

unfoldable pub recount : ℕ → Bool → Bool → ℕ
recount n true false = n - 1
recount n false true = n + 1
recount n _ _ = n

-- The entry that is stored.
abbrev pub new_entry : ℕ → List ℕ → ℕ → Entry
new_entry clock s now = record {
  clock = clock;
  state = if is_null s then [] else s;
  present = not (is_null s);
  last_updated = now;
}

-- An entry that is taken.
unfoldable pub take_entry : Awareness → ℕ → ℕ → List ℕ → ℕ → Awareness
unfolding make_room recount entry_of
take_entry a client clock s now = record a {
  entries = insert client (new_entry clock s now) (make_room a client);
  present = recount a.present (entry_of a client).present (not (is_null s));
}

unfoldable pub apply_allowed : Awareness → ℕ → ℕ → List ℕ → ℕ → Result (Option Awareness)
unfolding is_taken take_entry
apply_allowed a client clock s now =
    if is_taken (entry_of a client) clock (is_null s)
    then ok (some (take_entry a client clock s now))
    else ok none

-- One round of the loop of ApplyUpdate; `none` is `continue`.
unfoldable pub apply_entry : Awareness → ℕ → ℕ → List ℕ → ℕ → Result (Option Awareness)
unfolding refusal apply_allowed
apply_entry a client clock s now = elim (refusal a client s) [
  | some e ↦ err e
  | none ↦ apply_allowed a client clock s now
]

-- The check behind the three reads.
unfoldable pub checked : ℕ → ℕ → List ℕ → Read (ℕ × ℕ × List ℕ)
checked client clock s =
    if ltb max_safe_integer client || ltb max_safe_integer clock
    then Decoder.fail awareness_clock_out_of_range
    else pure (client, clock, s)

unfoldable pub read_entry : Read (ℕ × ℕ × List ℕ)
unfolding checked
read_entry = do
  client ← read_var_uint
  clock ← read_var_uint
  s ← read_var_string
  checked client clock s

-- What ApplyUpdate returns, with the awareness that it leaves: the entries before a failure stay
-- applied.
pub record Applied : Type 0 where
  pub awareness : Awareness
  pub changed : List ℕ
  pub failure : Option Error

abbrev applied : Awareness → Option Error → Applied
applied a e = record { awareness = a; changed = []; failure = e }

abbrev also_changed : ℕ → Applied → Applied
also_changed client r = record r { changed = client ∷ r.changed }

-- One round of the loop, `more` being the rounds that follow.
unfoldable pub apply_read :
    (Awareness → Decoder → Applied) → Awareness → ℕ → Result ((ℕ × ℕ × List ℕ) × Decoder) → Applied
unfolding apply_entry
apply_read more a now (err e) = applied a (some e)
apply_read more a now (ok ((client, clock, s), d)) = elim (apply_entry a client clock s now) [
  | err e ↦ applied a (some e)
  | ok o ↦ elim o [ none ↦ more a d | some a' ↦ also_changed client (more a' d) ]
]

unfoldable pub apply_entries : ℕ → ℕ → Awareness → Decoder → Applied
unfolding read_entry apply_read
apply_entries zero now a d = applied a (if done d then none else some trailing_bytes)
apply_entries (suc n) now a d = apply_read (λ a d. apply_entries n now a d) a now (read_entry d)

unfoldable pub apply_update : Awareness → List ℕ → ℕ → Applied
unfolding apply_entries
apply_update a payload now = elim (read_var_uint payload) [
  | err e ↦ applied a (some e)
  | ok (n, d) ↦
      let run = apply_entries n now a d in
      if ltb (remaining d) n then applied a (some unexpected_eof) else run
]

unfoldable pub write_client : Awareness → ℕ → Encoder → Encoder
unfolding entry_of
write_client a id e =
    let ent = entry_of a id in
    write_var_string (if ent.present then ent.state else null_state)
      (write_var_uint ent.clock (write_var_uint id e))

unfoldable pub encode : Awareness → List ℕ → Result (List ℕ)
unfolding write_client
encode a ids = finish (write_each (write_client a) ids (write_var_uint (length ids) new_encoder))

unfoldable pub encode_all : Awareness → Result (List ℕ)
unfolding encode clients
encode_all a = encode a (clients a)
