-- ===== src/Tests/Registry.antt =====
-- The mailbox of a room, a registry with a room, and a writer.
use crdt_server.Base.{
  arith, ◌+◌, suc, some, ℕ, ◌≡◌, refl, List, [], ◌∷◌, ◌++◌, true, false, none, ok, Option, Result,
}
use crdt_server.Storage.Uuid.{owner_id, named, parse_uuid, is_dashed, uuid_v5, with_version}
use crdt_server.Room.Writer.{
  Database, Input, job, timer, write, snapshot, Writer, new_writer, persist,
}
use crdt_server.Room.Handover
use crdt_server.Room.Handover.{Mailbox, new_mailbox, gone}
use crdt_server.Room.Handover.Conserved.{Reach-accepted}
use crdt_server.Room.Registry.{
  Resident, Manager, Turn, room, find_room, settle_owner, opened, with_opened, resident, ask, enter,
  get, get_loop, get_after, try_get, get_or_create, create, is_full, is_over_budget,
}
use crdt_server.Room.Registry.Reach
use crdt_server.Room.Registry.Cap.{Reach-IsWellFormed}
use crdt_server.Room.Registry.Enough.{get_loop-rooms}
use crdt_server.Room.Registry.Mine.{get-IsVouched}

-- Command 1 is handled, command 2 comes in before the room is closed and is taken out.
abbrev last_mailbox : Mailbox
last_mailbox = record {
  capacity = 1;
  phase = gone;
  queued = [];
  holder = none;
  accepted = 1 ∷ 2 ∷ [];
  refused = 3 ∷ [];
  handled = 1 ∷ [];
  drained = 2 ∷ [];
}

run : Handover.Reach (new_mailbox 1) last_mailbox
unfolding new_mailbox
run =
    Handover.next
      (Handover.next
        (Handover.next
          (Handover.next
            (Handover.next
              (Handover.next
                (Handover.next
                  (Handover.next
                    (Handover.next
                      (Handover.next
                        (Handover.next
                          (Handover.next
                            (Handover.next
                              (Handover.next (Handover.next Handover.here (Handover.lock 1 refl))
                                (Handover.go_on 1 refl refl))
                              (Handover.accept 1 refl (omega arith)))
                            (Handover.handle 1 [] refl refl))
                          (Handover.begin_stop refl))
                        (Handover.lock 2 refl))
                      (Handover.go_on 2 refl refl))
                    (Handover.accept 2 refl (omega arith)))
                  (Handover.close_done refl))
                (Handover.lock 3 refl))
              (Handover.go_on 3 refl refl))
            (Handover.refuse 3 refl refl))
          (Handover.set_closed refl refl))
        (Handover.drain 2 [] refl refl))
      (Handover.leave refl refl)

Reach-accepted_example :
    (last_mailbox.queued ≡ [])
    × (last_mailbox.accepted ≡ last_mailbox.handled ++ last_mailbox.drained)
Reach-accepted_example = Reach-accepted 1 last_mailbox run refl

-- A registry for one room, which is empty, and a database that has its documents with tenant 97.
abbrev registry : Manager
registry = record {
  max_rooms = 1;
  max_memory = 0;
  sha1 = λ _. 1 ∷ 2 ∷ [];
  rooms = [];
  clock = 0;
  closed = false;
  started = 0;
}

abbrev tenant : List ℕ
tenant = owner_id (λ _. 1 ∷ 2 ∷ []) (97 ∷ [])

-- A caller of the tenant opens the room 98.
abbrev answered : Option (Result (List ℕ))
answered = some (ok tenant)

abbrev opened_there : Resident
opened_there = opened answered registry (98 ∷ []) tenant

abbrev with_room : Manager
with_room = with_opened answered registry (98 ∷ []) tenant

registry-IsWellFormed : Reach.IsWellFormed registry
registry-IsWellFormed = record { distinct = tt; vouched = tt; few = λ h. omega arith }

room_opens : enter answered registry (98 ∷ []) tenant ≡ ok (room opened_there, with_room)
unfolding enter settle_owner get_or_create create find_room is_full is_over_budget owner_id named
    parse_uuid is_dashed uuid_v5 with_version
room_opens = refl

other_caller : Reach.Reach registry with_room
other_caller = Reach.next Reach.here (Reach.entered answered (98 ∷ []) tenant room_opens)

Reach-IsWellFormed_example : Reach.IsWellFormed with_room
Reach-IsWellFormed_example =
    Reach-IsWellFormed registry with_room registry-IsWellFormed other_caller

-- Nobody else is there, and the room is opened.
abbrev turns : ℕ → Turn
turns i = record { before = λ m. m; ensure = some (λ id name want. ok tenant); meanwhile = λ m. m }

tenant_opens : get turns 1 registry (98 ∷ []) (97 ∷ []) ≡ ok (opened_there, with_room)
unfolding get get_loop get_after try_get resident ask enter get_or_create create find_room is_full
    is_over_budget settle_owner owner_id named parse_uuid is_dashed uuid_v5 with_version
tenant_opens = refl

get-IsVouched_example :
    (opened_there.name ≡ 98 ∷ [])
    × (opened_there.owner ≡ owner_id registry.sha1 (97 ∷ []))
    × Reach.IsVouched opened_there
    × Reach.Reach registry with_room
get-IsVouched_example =
    get-IsVouched turns 1 registry with_room (98 ∷ []) (97 ∷ []) opened_there
      (λ i. record { before = λ m. Reach.here; meanwhile = λ m. Reach.here }) registry-IsWellFormed
      tenant_opens

-- The registry is full, so the room that nobody is in makes way.
get_loop-rooms_example :
    get_loop turns (2 + 3) (99 ∷ []) tenant with_room ≡ get_loop turns 2 (99 ∷ []) tenant with_room
get_loop-rooms_example =
    get_loop-rooms turns 2 3 (99 ∷ []) tenant with_room
      (λ i. record { before = λ m. omega arith; meanwhile = λ m. omega arith }) (omega arith)

-- A database that counts its rows, and keeps everything that it is asked to.
abbrev counting : Database ℕ
counting = record {
  append = λ us rows. (ok (rows ∷ []), suc rows);
  compact = λ b folded rows. (ok tt, rows);
  save_version = λ v rows. (ok true, rows);
  prune_versions = λ keep rows. (ok 0, rows);
}

-- Two updates around a tick, a snapshot, and an update that somebody waits for.
abbrev inputs : List Input
inputs =
    job (write (1 ∷ []) false)
    ∷ timer
    ∷ job (write (2 ∷ []) false)
    ∷ job (snapshot (3 ∷ []))
    ∷ job (write (4 ∷ []) true)
    ∷ []

abbrev last_writer : Writer ℕ
last_writer = persist counting inputs (new_writer 2 7 (5 ∷ []))
