-- ===== src/Room/Registry.antt =====
-- internal/room/registry.go and memory.go: the rooms that are open, and which of them has to go.
--
-- Every method takes the lock around one of the steps below, so other callers' steps may come in
-- between: what they do is an argument of a turn of get, for each place where the lock is free. A
-- room stands here with what the registry asks it: its owner, its weight and how many connections
-- it has. `used` stands with the room, as both are set and deleted together. The database may answer
-- otherwise from one call of Ensure to the next.
pub mod Reach
pub mod Cap
pub mod Mine
pub mod Enough
use crdt_server.Base.{
  ℕ, zero, suc, ◌+◌, List, [], ◌∷◌, Bool, true, false, not, ◌&&◌, ◌||◌, ◌==◌, ltb, leb, length,
  list_same, Option, none, some, if◌then◌else◌, Result, ok, err, and_then, Error, wrong_owner,
  manager_closed, too_many_rooms,
}
use crdt_server.Storage.Uuid.{Uuid, document_id, owner_id}

pub record Resident : Type 0 where
  pub name : List ℕ
  -- Which of the rooms that ever had the name it is.
  pub serial : ℕ
  pub owner : Uuid
  -- What the database answered the caller who opened the room; none without a store.
  pub answer : Option (Result Uuid)
  pub bytes : ℕ
  pub conns : ℕ
  pub used : ℕ

pub record Manager : Type 0 where
  -- Zero is no limit, for both.
  pub max_rooms : ℕ
  pub max_memory : ℕ
  pub sha1 : List ℕ → List ℕ
  pub rooms : List Resident
  pub clock : ℕ
  pub closed : Bool
  -- How many rooms were started.
  pub started : ℕ

-- The surroundings of a turn of get: what others do before its first lock and between the two, and
-- Ensure as it answers in that turn, none without a store.
pub record Turn : Type 0 where
  pub before : Manager → Manager
  pub ensure : Option (Uuid → List ℕ → Uuid → Result Uuid)
  pub meanwhile : Manager → Manager

-- `m.rooms[name]`
unfoldable pub find_room : List ℕ → List Resident → Option Resident
find_room name [] = none
find_room name (r ∷ rs) =
    let rest = find_room name rs in if list_same r.name name then some r else rest

abbrev pub stamp : ℕ → List ℕ → Resident → Resident
stamp clock name r = if list_same r.name name then record r { used = clock } else r

unfoldable pub stamp_each : ℕ → List ℕ → List Resident → List Resident
stamp_each clock name [] = []
stamp_each clock name (r ∷ rs) = stamp clock name r ∷ stamp_each clock name rs

-- Manager.touch
unfoldable pub touch : List ℕ → Manager → Manager
touch name m = record m { clock = suc m.clock; rooms = stamp_each (suc m.clock) name m.rooms }

unfoldable pub resident_bytes : List Resident → ℕ
resident_bytes [] = 0
resident_bytes (r ∷ rs) = r.bytes + resident_bytes rs

unfoldable pub insert_by_use : Resident → List Resident → List Resident
insert_by_use r [] = r ∷ []
insert_by_use r (x ∷ xs) =
    let rest = insert_by_use r xs in if leb r.used x.used then r ∷ x ∷ xs else x ∷ rest

-- Manager.byLeastRecentlyUsed
unfoldable pub by_least_recently_used : List Resident → List Resident
by_least_recently_used [] = []
by_least_recently_used (r ∷ rs) = insert_by_use r (by_least_recently_used rs)

-- The test of overBudget.
unfoldable pub is_over_budget : Manager → Bool
is_over_budget m = ltb 0 m.max_memory && ltb m.max_memory (resident_bytes m.rooms)

-- What tryGet gives: a room, or the candidates for eviction.
pub data Got : Type 0 where
  room : Resident → Got
  full : List Resident → Got

abbrev pub if_owned : Uuid → Resident → Manager → Result (Got × Manager)
if_owned want r m = if list_same r.owner want then ok (room r, touch r.name m) else err wrong_owner

-- Manager.resident; none is that the room is not there.
unfoldable pub resident : Manager → List ℕ → Uuid → Option (Result (Got × Manager))
resident m name want = elim (find_room name m.rooms) [
  | none ↦ none
  | some r ↦ some (if_owned want r m)
]

-- `p.Ensure`, where there is a store.
unfoldable pub ask : Turn → (List ℕ → List ℕ) → List ℕ → Uuid → Option (Result Uuid)
ask t sha1 name want = elim t.ensure [
  | none ↦ none
  | some ensure ↦ some (ensure (document_id sha1 name) name want)
]

-- Manager.settleOwner, with the answer.
unfoldable pub settle_owner : Option (Result Uuid) → Uuid → Result (Unit {0})
settle_owner none want = ok tt
settle_owner (some answer) want =
    and_then answer (λ found. if list_same found want then ok tt else err wrong_owner)

abbrev pub opened : Option (Result Uuid) → Manager → List ℕ → Uuid → Resident
opened answer m name want = record {
  name = name;
  serial = m.started;
  owner = want;
  answer = answer;
  bytes = 0;
  conns = 0;
  used = suc m.clock;
}

abbrev pub with_opened : Option (Result Uuid) → Manager → List ℕ → Uuid → Manager
with_opened answer m name want = record m {
  rooms = opened answer m name want ∷ m.rooms;
  clock = suc m.clock;
  started = suc m.started;
}

-- `m.cfg.MaxRooms > 0 && len(m.rooms) >= m.cfg.MaxRooms`
unfoldable pub is_full : Manager → Bool
is_full m = ltb 0 m.max_rooms && leb m.max_rooms (length m.rooms)

-- tryGet from its second lock on, where the room is not there.
unfoldable pub create : Option (Result Uuid) → Manager → List ℕ → Uuid → Result (Got × Manager)
create answer m name want =
    if m.closed
    then err manager_closed
    else (if is_full m || is_over_budget m
        then ok (full (by_least_recently_used m.rooms), m)
        else ok (room (opened answer m name want), with_opened answer m name want))

-- The second lock of tryGet.
unfoldable pub get_or_create :
    Option (Result Uuid) → Manager → List ℕ → Uuid → Result (Got × Manager)
get_or_create answer m name want = elim (find_room name m.rooms) [
  | some r ↦ if_owned want r m
  | none ↦ create answer m name want
]

-- tryGet from the answer of the database on, with the registry at the second lock.
unfoldable pub enter : Option (Result Uuid) → Manager → List ℕ → Uuid → Result (Got × Manager)
enter answer m name want =
    and_then (settle_owner answer want) (λ _. get_or_create answer m name want)

-- Manager.tryGet, for a tenant's id
unfoldable pub try_get : Turn → Manager → List ℕ → Uuid → Result (Got × Manager)
try_get t m name want = elim (resident m name want) [
  | some found ↦ found
  | none ↦ enter (ask t m.sha1 name want) (t.meanwhile m) name want
]

-- Manager.forget
unfoldable pub forget : Resident → List Resident → List Resident
forget r [] = []
forget r (x ∷ xs) =
    let rest = forget r xs in
    if list_same x.name r.name && x.serial == r.serial then xs else x ∷ rest

-- Manager.evictOne: the rooms without the first candidate that nobody is connected to.
unfoldable pub evict_one : List Resident → List Resident → Option (List Resident)
evict_one [] rooms = none
evict_one (r ∷ rs) rooms =
    let rest = evict_one rs rooms in if r.conns == 0 then some (forget r rooms) else rest

abbrev pub with_rooms : Manager → List Resident → Manager
with_rooms m rooms = record m { rooms = rooms }

-- The turn of the loop of get after tryGet. `again` is the loop.
unfoldable pub get_after :
    (Manager → Result (Resident × Manager)) → Got × Manager → Result (Resident × Manager)
get_after again (room r, m) = ok (r, m)
get_after again (full candidates, m) = elim (evict_one candidates m.rooms) [
  | none ↦ err too_many_rooms
  | some rooms ↦ again (with_rooms m rooms)
]

-- Manager.get, with a turn for each time around its loop, and fuel.
unfoldable pub get_loop : (ℕ → Turn) → ℕ → List ℕ → Uuid → Manager → Result (Resident × Manager)
get_loop turns zero name want m = err too_many_rooms
get_loop turns (suc fuel) name want m =
    and_then (try_get (turns 0) ((turns 0).before m) name want)
      (get_after (get_loop (λ i. turns (suc i)) fuel name want))

unfoldable pub get : (ℕ → Turn) → ℕ → Manager → List ℕ → List ℕ → Result (Resident × Manager)
get turns fuel m name owner = get_loop turns fuel name (owner_id m.sha1 owner) m

-- Manager.enforceBudget, with how many rooms went.
unfoldable pub enforce_budget : ℕ → Manager → ℕ × Manager
enforce_budget zero m = (0, m)
enforce_budget (suc fuel) m =
    if is_over_budget m
    then (elim (evict_one (by_least_recently_used m.rooms) m.rooms) [
      | none ↦ (0, m)
      | some rooms ↦ let p = enforce_budget fuel (with_rooms m rooms) in (suc p.0, p.1)
    ])
    else (0, m)

-- Manager.Evict, with whether the document is out of memory.
unfoldable pub evict : List ℕ → Manager → Bool × Manager
evict name m = elim (find_room name m.rooms) [
  | none ↦ (true, m)
  | some r ↦ if r.conns == 0 then (true, with_rooms m (forget r m.rooms)) else (false, m)
]

-- Manager.Wait, up to where it waits.
unfoldable pub wait : Manager → Manager
wait m = record m { closed = true }
