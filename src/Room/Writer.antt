-- ===== src/Room/Writer.antt =====
-- internal/room/persist.go: the goroutine that writes what a room hands over, and versions.go, the
-- part of it that saves a version.
--
-- The database is an argument: its state, and what Append, Compact and SaveVersion do to it and
-- give back. The writer keeps its calls, the latest last. The jobs arrive in the order of the
-- channel, with the ticks of the timer between them, until the channel is closed.
pub mod Trace
pub mod Flushed
pub mod Written
use crdt_server.Base.{
  ◌&&◌, ℕ, suc, ◌+◌, List, [], ◌∷◌, ◌++◌, Bool, true, false, ◌||◌, ltb, leb, length, Option, none,
  some, if◌then◌else◌, Result, ok, err, Error, stale_snapshot,
}

-- store.Version, with the age that the latest one must have.
pub record Version : Type 0 where
  pub payload : List ℕ
  pub state_vector : List ℕ
  pub label : List ℕ
  pub min_age : ℕ

-- The calls of Persistence and Versioning that the writer makes; S is what the database holds.
pub record Database (S : Type 0) : Type 0 where
  -- Append gives the numbers of the rows.
  pub append : List (List ℕ) → S → Result (List ℕ) × S
  pub compact : List ℕ → List ℕ → S → Result (Unit {0}) × S
  pub save_version : Version → S → Result Bool × S
  -- PruneVersions, with how many versions to keep; it gives how many went.
  pub prune_versions : ℕ → S → Result ℕ × S

-- A call with its arguments and what it gave.
pub data Call : Type 0 where
  appended : List (List ℕ) → Result (List ℕ) → Call
  compacted : List ℕ → List ℕ → Result (Unit {0}) → Call
  saved : Version → Result Bool → Call
  pruned : ℕ → Result ℕ → Call

-- persistJob: an update, and whether somebody waits for it; a snapshot; a version.
pub data Job : Type 0 where
  write : List ℕ → Bool → Job
  snapshot : List ℕ → Job
  save : Version → Bool → Job

-- What the select of persist takes.
pub data Input : Type 0 where
  job : Job → Input
  timer : Input

pub record Writer (S : Type 0) : Type 0 where
  -- cfg.VersionKeep; zero prunes nothing.
  pub version_keep : ℕ
  pub database : S
  pub batch : List (List ℕ)
  -- How many wait for the batch, and how many `done` channels were closed.
  pub waiters : ℕ
  pub released : ℕ
  -- r.folded
  pub folded : List ℕ
  -- What the calls of r.stored add up to.
  pub stored_rows : ℕ
  -- What was put into `written` of the versions that somebody waits for, the latest last.
  pub reports : List Bool
  pub calls : List Call

-- The writer of a room that loaded the rows.
unfoldable pub new_writer : {S : Type 0} → ℕ → S → List ℕ → Writer S
new_writer version_keep database rows = record {
  version_keep = version_keep;
  database = database;
  batch = [];
  waiters = 0;
  released = 0;
  folded = rows;
  stored_rows = 0;
  reports = [];
  calls = [];
}

abbrev pub max_batch : ℕ
max_batch = 256

-- Whether the rows are gone, because of this call of Compact or of one by another replica.
unfoldable pub is_folded : Result (Unit {0}) → Bool
is_folded (ok _) = true
is_folded (err stale_snapshot) = true
is_folded (err _) = false

module _ {S : Type 0} (db : Database S) where
  unfoldable pub take_rows : List (List ℕ) → Result (List ℕ) → Writer S → Writer S
  take_rows us (err _) w = w
  take_rows us (ok rows) w = record w {
    folded = w.folded ++ rows;
    stored_rows = w.stored_rows + length us;
  }

  abbrev pub append_batch : List (List ℕ) → Writer S → Writer S
  append_batch us w =
      let p = db.append us w.database in
      take_rows us p.0
        (record w { database = p.1; batch = []; calls = w.calls ++ (appended us p.0 ∷ []) })

  abbrev pub release : Writer S → Writer S
  release w = record w { waiters = 0; released = w.released + w.waiters }

  -- The closure `flush` of persist.
  unfoldable pub flush : Writer S → Writer S
  flush w = release (elim w.batch [ [] ↦ w | u ∷ us ↦ append_batch (u ∷ us) w ])

  unfoldable pub after_compact : Result (Unit {0}) → Writer S → Writer S
  after_compact a w = if is_folded a then record w { folded = [] } else w

  abbrev pub compact_rows : List ℕ → List ℕ → Writer S → Writer S
  compact_rows b rows w =
      let p = db.compact b rows w.database in
      after_compact p.0
        (record w { database = p.1; calls = w.calls ++ (compacted b rows p.0 ∷ []) })

  -- Room.compact
  unfoldable pub compact_folded : List ℕ → Writer S → Writer S
  compact_folded b w = elim w.folded [ [] ↦ w | s ∷ ss ↦ compact_rows b (s ∷ ss) w ]

  abbrev pub prune : Writer S → Writer S
  prune w =
      let p = db.prune_versions w.version_keep w.database in
      record w { database = p.1; calls = w.calls ++ (pruned w.version_keep p.0 ∷ []) }

  -- saveVersion after the call of SaveVersion.
  unfoldable pub after_save : Bool → Result Bool → Writer S → Writer S
  after_save waits (err _) w = w
  after_save waits (ok written) w =
      let told = record w { reports = if waits then w.reports ++ (written ∷ []) else w.reports } in
      if written && ltb 0 told.version_keep then prune told else told

  -- Room.saveVersion; `done` is closed at its end.
  unfoldable pub save_version_now : Version → Bool → Writer S → Writer S
  save_version_now v waits w =
      let p = db.save_version v w.database in
      let s =
        after_save waits p.0 (record w { database = p.1; calls = w.calls ++ (saved v p.0 ∷ []) }) in
      record s { released = if waits then suc s.released else s.released }

  abbrev pub batched : List ℕ → Bool → Writer S → Writer S
  batched u waits w = record w {
    batch = w.batch ++ (u ∷ []);
    waiters = if waits then suc w.waiters else w.waiters;
  }

  abbrev pub flush_if_due : Writer S → Writer S
  flush_if_due w = if leb max_batch (length w.batch) || ltb 0 w.waiters then flush w else w

  unfoldable pub take_job : Job → Writer S → Writer S
  take_job (write u waits) w = flush_if_due (batched u waits w)
  take_job (snapshot b) w = compact_folded b (flush w)
  take_job (save v waits) w = save_version_now v waits w

  unfoldable pub take_input : Input → Writer S → Writer S
  take_input (job j) w = take_job j w
  take_input timer w = flush w

  -- Room.persist; the inputs end where the channel is closed.
  unfoldable pub persist : List Input → Writer S → Writer S
  persist [] w = flush w
  persist (i ∷ is) w = persist is (take_input i w)
