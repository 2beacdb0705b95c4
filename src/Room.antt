-- ===== src/Room.antt =====
-- internal/room: one document with the connections that edit it, and the registry of rooms.
--
-- This file has the state of a room (room.go). The room's goroutine is the only one to touch it, so
-- a command is one step on it. What a room does to others, its calls of Send, Close, Publish and
-- Emit and the jobs for the writer, is in `effects`, the latest first. Logs and metrics are left
-- out, and so are the reasons given to Close.
pub mod Outbound
pub mod Persist
pub mod Events
pub mod Client
pub mod Remote
pub mod Handle
pub mod Handover
pub mod Writer
pub mod Start
pub mod Offline
pub mod Registry
use crdt_server.Base.{
  ℕ, ◌+◌, List, [], ◌∷◌, Bool, true, false, Option, none, some, if◌then◌else◌, Result, Error,
}
use crdt_server.Base.GoMap.{GoMap}
use crdt_server.Crdt.Doc.{Doc, new_doc}
use crdt_server.Protocol.Awareness.{Awareness, Limits, new_awareness_with_limits}

-- Config, with what the room asks of its surroundings: whether a connection may write, the text of
-- an error, and what a document is estimated to take up, in bytes and structs.
pub record Config : Type 0 where
  pub name : List ℕ
  pub server_client_id : ℕ
  pub awareness_limits : Limits
  pub idle_timeout : ℕ
  pub awareness_ttl : ℕ
  pub anti_entropy : ℕ
  pub usage_interval : ℕ
  -- VersionInterval; zero takes no versions.
  pub version_interval : ℕ
  pub compact_after : ℕ
  pub node_id : ℕ
  -- Whether Store, Versions, Bus and Hooks are there.
  pub has_store : Bool
  pub has_versions : Bool
  pub has_bus : Bool
  pub has_hooks : Bool
  pub hook_state : Bool
  pub can_write : ℕ → Bool
  pub error_text : Error → List ℕ
  pub usage_of : Doc → ℕ × ℕ

-- The kinds of a hook event.
pub data EventKind : Type 0 where
  change store : EventKind

-- hook.Event; none where encoding failed or was not asked for.
pub record Event : Type 0 where
  pub doc : List ℕ
  pub kind : EventKind
  pub at : ℕ
  pub node : ℕ
  pub clients : ℕ
  pub updates : ℕ
  pub state_vector : Option (List ℕ)
  pub state : Option (List ℕ)

-- Snapshot of read.go
pub record Snapshot : Type 0 where
  pub update : List ℕ
  pub state_vector : List ℕ
  -- none is -1, for a document read from the database.
  pub clients : Option ℕ
  pub resident : Bool
  pub skipped : ℕ

pub data Effect : Type 0 where
  -- Send, with the frame and whether it was taken.
  sent : ℕ → List ℕ → Bool → Effect
  -- Close, with its code.
  closed : ℕ → ℕ → Effect
  -- An envelope of a kind in the publisher's queue.
  published : ℕ → List ℕ → Effect
  -- Jobs for the writer: an update, a snapshot, a version with its label and interval.
  recorded compacted : List ℕ → Effect
  versioned : List ℕ → List ℕ → List ℕ → ℕ → Effect
  emitted : Event → Effect
  -- Replies to a read, a merge and a request for a version.
  read_reply : Result Snapshot → Effect
  merge_reply version_reply : Result (Unit {0}) → Effect
  -- OnEvict and OnExit.
  evicted exited : Effect

pub record Room : Type 0 where
  pub cfg : Config
  pub doc : Doc
  pub awareness : Awareness
  -- The connections, by their number, with the clients that each has announced.
  pub conns : GoMap (List ℕ)
  -- lastEmpty; none is the zero time.
  pub last_empty : Option ℕ
  pub since_snapshot : ℕ
  pub changes : ℕ
  pub stored_rows : ℕ
  pub version_dirty : Bool
  pub last_version : Option ℕ
  pub last_announce : Option ℕ
  pub bytes : ℕ
  pub structs : ℕ
  pub usage_dirty : Bool
  pub measured : Option ℕ
  -- Whether `jobs` and `pub` are still there, and `versions` is.
  pub persisting : Bool
  pub publishing : Bool
  pub versioning : Bool
  -- What cfg.Now gives during the command.
  pub now : ℕ
  -- What the next calls of Send give; with no answer left they give true.
  pub answers : List Bool
  pub effects : List Effect

-- New
unfoldable pub new_room : Config → ℕ → Room
new_room cfg now = record {
  cfg = cfg;
  doc = new_doc cfg.server_client_id;
  awareness = new_awareness_with_limits cfg.awareness_limits;
  conns = [];
  last_empty = some now;
  since_snapshot = 0;
  changes = 0;
  stored_rows = 0;
  version_dirty = false;
  last_version = none;
  last_announce = none;
  bytes = 0;
  structs = 0;
  usage_dirty = false;
  measured = none;
  persisting = cfg.has_store;
  publishing = cfg.has_bus;
  versioning = if cfg.has_store then cfg.has_versions else false;
  now = now;
  answers = [];
  effects = [];
}

-- One more thing done.
abbrev pub did : Effect → Room → Room
did e r = record r { effects = e ∷ r.effects }
