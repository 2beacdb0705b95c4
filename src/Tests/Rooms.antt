-- ===== src/Tests/Rooms.antt =====
-- A room at its limits, and a delete set.
use crdt_server.Base.{
  ℕ, ◌≡◌, refl, List, [], ◌∷◌, Bool, true, false, ◌&&◌, ◌||◌, none, some, arith, inl, inr,
  Bool-cases, ltb, leb, ◌==◌, ok, if◌then◌else◌,
}
use crdt_server.Base.GoMap
use crdt_server.Base.GoMap.{GoMap, lookup, IsDistinct}
use crdt_server.Crdt.{id_at}
use crdt_server.Crdt.DeleteSet.{
  DeleteRange, DeleteSet, range, ranges_of, sort_ranges, merge, add, is_deleted,
}
use crdt_server.Crdt.DeleteSet.Merge.{IsNormal, IsApartFrom}
use crdt_server.Crdt.DeleteSet.Query.{IsNormalSet, add-is_deleted}
use crdt_server.Protocol.Awareness.{
  Entry, Awareness, max_state, max_clients, count_present, entry_of, state, is_null, is_taken,
  refusal, take_entry, apply_entry, apply_allowed, apply_update,
}
use crdt_server.Protocol.Awareness.Removal.{remove_clients, sweep}
use crdt_server.Protocol.Awareness.Bounds.{IsWellFormed, apply_update-IsWellFormed}
use crdt_server.Protocol.Awareness.Bounds.Removed.{remove-IsWellFormed}
use crdt_server.Protocol.Awareness.Replay.{GoesPast, apply_entry-again}

abbrev pub cursor : ℕ → Bool → ℕ → Entry
cursor clock present at = record {
  clock = clock;
  state = if present then 97 ∷ [] else [];
  present = present;
  last_updated = at;
}

-- One client of the one allowed, and the clock of one that left.
abbrev pub full_room : Awareness
full_room = record {
  entries = (3, cursor 1 true 20) ∷ (4, cursor 9 false 10) ∷ [];
  limits = record { state = 10; clients = 1 };
  present = 1;
}

full_room-IsDistinct : IsDistinct full_room.entries
unfolding lookup IsDistinct
full_room-IsDistinct = (refl, (refl, tt))

pub full_room-IsWellFormed : IsWellFormed full_room
unfolding count_present max_state max_clients
full_room-IsWellFormed = record {
  distinct = full_room-IsDistinct;
  counted = refl;
  few = λ _. (omega arith, omega arith);
  small = ((λ _. omega arith), ((λ _. omega arith), tt));
}

-- One entry: client 4 at clock 10 with the state "b".
abbrev newcomer : List ℕ
newcomer = 1 ∷ 4 ∷ 10 ∷ 1 ∷ 98 ∷ []

apply_update-IsWellFormed_example : IsWellFormed (apply_update full_room newcomer 30).awareness
apply_update-IsWellFormed_example =
    apply_update-IsWellFormed full_room newcomer 30 full_room-IsWellFormed

remove-IsWellFormed_example :
    IsWellFormed (remove_clients full_room (3 ∷ 3 ∷ []) 30).0
    × IsWellFormed (sweep full_room 30 5).0
remove-IsWellFormed_example = remove-IsWellFormed full_room (3 ∷ 3 ∷ []) 30 5 full_room-IsWellFormed

-- Client 3 moves on to clock 2 with the state "b".
abbrev moved : Awareness
moved = take_entry full_room 3 2 (98 ∷ []) 30

moved_applied : apply_entry full_room 3 2 (98 ∷ []) 30 ≡ ok (some moved)
unfolding apply_entry apply_allowed refusal is_taken is_null entry_of GoMap.get lookup max_state
    max_clients
moved_applied = refl

apply_entry-again_example :
    GoesPast (entry_of full_room 3) 2 (98 ∷ [])
    × ((entry_of moved 3).clock ≡ 2)
    × (state moved 3 ≡ (if is_null (98 ∷ []) then none else some (98 ∷ [])))
    × (apply_entry moved 3 2 (98 ∷ []) 40 ≡ ok none)
apply_entry-again_example = apply_entry-again full_room moved 3 2 (98 ∷ []) 30 40 moved_applied

abbrev three_ranges : List DeleteRange
three_ranges = range 8 2 ∷ range 0 3 ∷ range 3 1 ∷ []

three_ranges_merged : merge (sort_ranges three_ranges) ≡ (range 0 4 ∷ range 8 2 ∷ [])
unfolding merge sort_ranges
three_ranges_merged = refl

abbrev one_range : DeleteSet
one_range = (7, range 0 3 ∷ []) ∷ []

one_range-IsNormalSet : IsNormalSet one_range
unfolding ranges_of GoMap.get lookup IsNormal IsApartFrom
one_range-IsNormalSet c = elim (Bool-cases (7 == c)) [
  | inl e ↦
      let at : ranges_of one_range c ≡ (range 0 3 ∷ []) =
        rw (e, ranges_of, GoMap.get, lookup) refl in
      rw at (tt, (omega arith, tt))
  | inr e ↦
      let at : ranges_of one_range c ≡ [] = rw (e, ranges_of, GoMap.get, lookup) refl in
      rw at (tt, tt)
]

add-is_deleted_example :
    IsNormalSet (add one_range 7 3 2)
    × (is_deleted (add one_range 7 3 2) (id_at 7 4)
        ≡ (is_deleted one_range (id_at 7 4) || (7 == 7 && leb 3 4 && ltb 4 5)))
add-is_deleted_example =
    add-is_deleted one_range 7 3 2 (id_at 7 4) one_range-IsNormalSet (omega arith) (omega arith)
