-- ===== src/Room/Start.antt =====
-- internal/room/room.go: how Run begins, with what Subscribe and Store.Load give.
pub mod Unserved
use crdt_server.Base.{ℕ, Bool, true, false, if◌then◌else◌, Result, ok, err, and_then}
use crdt_server.Room.{Room}
use crdt_server.Room.Persist.{Stored, load}
use crdt_server.Room.Handle.{stop}

abbrev pub close_internal_error : ℕ
close_internal_error = 1011

-- abandonPersisting
abbrev pub abandon_persisting : Room → Room
abandon_persisting r = record r { persisting = false }

-- The room ends before it has served anybody.
unfoldable pub give_up : Room → Room
give_up r = stop close_internal_error (abandon_persisting r)

unfoldable pub begin_loaded : Result Room → Room → Bool × Room
begin_loaded (err _) r = (false, give_up r)
begin_loaded (ok s) r = (true, s)

-- Run up to its loop, with whether it gets there.
unfoldable pub begin : Result (Unit {0}) → Result Stored → Room → Bool × Room
begin (err _) found r = (false, give_up r)
begin (ok _) found r =
    if r.cfg.has_store then begin_loaded (and_then found (λ s. load s r)) r else (true, r)
