-- ===== src/Tests/Actor.antt =====
-- A room with two connections, and one that could not be loaded.
use crdt_server.Base.{
  some, ℕ, ◌+◌, ◌≤◌, ◌≡◌, refl, sym, List, [], ◌∷◌, ◌∙◌, true, false, none, arith, Result, ok, ◌==◌,
}
use crdt_server.Crdt.{id_at, read_safe_var_uint, read_len}
use crdt_server.Lib0.Decoder
use crdt_server.Lib0.Transfer.{read_times}
use crdt_server.Crdt.DeleteSet.{read_delete_set}
use crdt_server.Crdt.ClientMap.{read_section}
use crdt_server.Crdt.Update
use crdt_server.Crdt.Doc.Applied.{new_doc-IsWellFormed}
use crdt_server.Crdt.Struct.{gc, struct_id, struct_len, read_struct, read_struct_body}
use crdt_server.Crdt.Store.{state}
use crdt_server.Crdt.Update.{Update, decode_update}
use crdt_server.Cluster.Envelope.{Envelope}
use crdt_server.Room.{Config, Room, new_room}
use crdt_server.Room.Outbound.{leave_at}
use crdt_server.Room.Outbound.Enough.{leave_at-conns}
use crdt_server.Room.Outbound.Follows.{count_writes}
use crdt_server.Room.Client.{take_frame}
use crdt_server.Room.Remote.{receive}
use crdt_server.Room.Handle.{merge, tick, handle}
use crdt_server.Room.Handle.Follows.{take_frame-read_only}
use crdt_server.Room.Handle.Sound.{IsWellFormed, IsBoundedBytes}
use crdt_server.Room.Handle.Commands.{brought, handle-IsWellFormed, tick-is_idle}
use crdt_server.Room.Handle.Received.{receive-IsWellFormed, receive-count_writes}
use crdt_server.Room.Persist.{Stored, load, apply_snapshot}
use crdt_server.Room.Start.{begin, begin_loaded}
use crdt_server.Room.Start.Unserved.{count_handed, begin-count_handed}
use crdt_server.Crdt.Doc.Queue.{apply_update}
use crdt_server.Tests.Rooms.{full_room, full_room-IsWellFormed}

-- Connection 7 may write, connection 8 may not.
abbrev config : Config
config = record {
  name = 100 ∷ [];
  server_client_id = 9;
  awareness_limits = record { state = 10; clients = 1 };
  idle_timeout = 300;
  awareness_ttl = 30;
  anti_entropy = 15;
  usage_interval = 15;
  version_interval = 0;
  compact_after = 500;
  node_id = 1;
  has_store = true;
  has_versions = false;
  has_bus = true;
  has_hooks = true;
  hook_state = false;
  can_write = λ conn. conn == 7;
  error_text = λ _. [];
  usage_of = λ _. (0, 0);
}

abbrev empty_room : Room
unfolding new_room
empty_room = record (new_room config 10) { now = 310 }

-- Connection 7 has announced the client 3 of the awareness, and its buffer is full.
abbrev busy_room : Room
busy_room = record empty_room {
  awareness = full_room;
  conns = (7, 3 ∷ []) ∷ (8, []) ∷ [];
  last_empty = none;
  answers = false ∷ [];
}

busy_room-IsWellFormed : IsWellFormed busy_room
unfolding new_room
busy_room-IsWellFormed = record {
  doc = new_doc-IsWellFormed 9;
  aware = full_room-IsWellFormed;
  timed = refl;
}

-- An update with one GC struct of client 1, from clock 0 on, of length 3.
abbrev update_bytes : List ℕ
update_bytes = 1 ∷ 1 ∷ 1 ∷ 0 ∷ 0 ∷ 3 ∷ 0 ∷ []

abbrev gc_update : Update
gc_update = record {
  clients = record { client = 1; start_clock = 0; structs = gc (id_at 1 0) 3 ∷ [] } ∷ [];
  deletes = some [];
}

update_read : decode_update update_bytes ≡ ok gc_update
unfolding decode_update Update.read_update Update.read_blocks Update.read_block
    Update.read_block_body Update.read_structs Decoder.read_var_uint Decoder.remaining
    Decoder.read_uint8 Decoder.done read_times read_safe_var_uint read_struct read_struct_body
    read_len read_delete_set read_section
update_read = refl

ok-eq : {a b : Update} → ◌≡◌ {A = Result Update} (ok a) (ok b) → a ≡ b
ok-eq h = cc

update_bytes-IsBoundedBytes : IsBoundedBytes update_bytes
unfolding struct_id struct_len
update_bytes-IsBoundedBytes u e = rw (← ok-eq (sym update_read ∙ e)) ((omega arith, tt), tt)

handle-IsWellFormed_example :
    IsWellFormed (handle (merge update_bytes) busy_room).1
    × ((client : ℕ)
        → state busy_room.doc.store client
          ≤ state (handle (merge update_bytes) busy_room).1.doc.store client)
unfolding brought
handle-IsWellFormed_example =
    handle-IsWellFormed (merge update_bytes) busy_room busy_room-IsWellFormed
      (update_bytes-IsBoundedBytes, tt)

abbrev from_replica : Envelope
from_replica = record { origin = 2; kind = 0; payload = update_bytes }

receive-IsWellFormed_example :
    IsWellFormed (receive from_replica busy_room)
    × ((client : ℕ)
        → state busy_room.doc.store client
          ≤ state (receive from_replica busy_room).doc.store client)
receive-IsWellFormed_example =
    receive-IsWellFormed from_replica busy_room busy_room-IsWellFormed update_bytes-IsBoundedBytes

receive-count_writes_example :
    count_writes (receive from_replica busy_room).effects ≡ count_writes busy_room.effects
receive-count_writes_example =
    receive-count_writes from_replica busy_room busy_room-IsWellFormed update_bytes-IsBoundedBytes
      refl

-- That update in a frame, from the connection that may not write.
abbrev update_frame : List ℕ
update_frame = 0 ∷ 2 ∷ 7 ∷ update_bytes

take_frame-read_only_example :
    ((take_frame 8 update_frame busy_room).doc ≡ busy_room.doc)
    × (count_writes (take_frame 8 update_frame busy_room).effects ≡ count_writes busy_room.effects)
unfolding empty_room
take_frame-read_only_example = take_frame-read_only 8 update_frame busy_room refl

tick-is_idle_example : (handle tick empty_room).0 ≡ true
unfolding empty_room
tick-is_idle_example = tick-is_idle empty_room 10 refl refl

leave_at-conns_example : leave_at (2 + 5) 8 busy_room ≡ leave_at 2 8 busy_room
leave_at-conns_example = leave_at-conns 2 5 8 busy_room (omega arith)

-- The snapshot that is stored does not decode.
abbrev broken : Stored
broken = record { snapshot = some []; updates = update_bytes ∷ []; seqs = 1 ∷ [] }

broken_ends : (begin (ok tt) (ok broken) empty_room).0 ≡ false
unfolding empty_room begin begin_loaded load apply_snapshot apply_update decode_update
    Update.read_update Decoder.read_var_uint Decoder.remaining Update.read_blocks
broken_ends = refl

begin-count_handed_example :
    count_handed (begin (ok tt) (ok broken) empty_room).1.effects ≡ count_handed empty_room.effects
begin-count_handed_example = begin-count_handed (ok tt) (ok broken) empty_room broken_ends
