-- ===== src/Room/Start/Unserved.antt =====
-- A room that could not be loaded.
use crdt_server.Base.{
  if_both, arith, ℕ, ◌+◌, ◌≡◌, refl, ◌∙◌, List, [], ◌∷◌, Bool, true, false, Result, ok, err,
  and_then, if◌then◌else◌, ltb,
}
use crdt_server.Base.GoMap.{keys}
use crdt_server.Room.{Room, Effect, published, recorded, compacted, versioned, closed, exited, did}
use crdt_server.Room.Outbound.Follows.{true-false}
use crdt_server.Room.Persist.{Stored, load, request_compaction}
use crdt_server.Room.Events.{emit_hooks, emit_changes, emit_rows}
use crdt_server.Room.Handle.{stop, close_each, finish_persisting}
use crdt_server.Room.Start.{close_internal_error, abandon_persisting, give_up, begin_loaded, begin}

-- What a room hands to the writer or to the other replicas.
abbrev pub is_handed : Effect → ℕ
is_handed (published k p) = 1
is_handed (recorded u) = 1
is_handed (compacted b) = 1
is_handed (versioned p sv label age) = 1
is_handed _ = 0

abbrev pub count_handed : List Effect → ℕ
count_handed [] = 0
count_handed (e ∷ es) = is_handed e + count_handed es

-- Nothing is handed over, and the writer stays away.
record Keeps (r s : Room) : Type 0 where
  handed : count_handed s.effects ≡ count_handed r.effects
  persisting : r.persisting ≡ false → s.persisting ≡ false

Keeps-same : (r : Room) → Keeps r r
Keeps-same r = record { handed = refl; persisting = λ h. h }

Keeps-then : {r s t : Room} → Keeps r s → Keeps s t → Keeps r t
Keeps-then f g = record {
  handed = g.handed ∙ f.handed;
  persisting = λ h. g.persisting (f.persisting h);
}

emit_hooks-Keeps : (now : ℕ) (r : Room) → Keeps r (emit_hooks now r)
unfolding emit_hooks emit_changes emit_rows
emit_hooks-Keeps now r =
    let changes : Keeps r (emit_changes now r) =
      if_both (Keeps _) (ltb 0 r.changes) (record { handed = omega arith; persisting = λ h. h })
        (Keeps-same r) in
    let s = emit_changes now r in
    let rows : Keeps s (emit_rows now s) =
      if_both (Keeps _) (ltb 0 s.stored_rows) (record { handed = omega arith; persisting = λ h. h })
        (Keeps-same s) in
    if_both (Keeps _) r.cfg.has_hooks (Keeps-then changes rows) (Keeps-same r)

close_each-Keeps : (conns : List ℕ) (code : ℕ) (r : Room) → Keeps r (close_each conns code r)
unfolding close_each
close_each-Keeps [] code r = Keeps-same r
close_each-Keeps (conn ∷ conns) code r =
    Keeps-then (record { handed = omega arith; persisting = λ h. h })
      (close_each-Keeps conns code (did (closed conn code) r))

finish_persisting-Keeps : (r : Room) → r.persisting ≡ false → Keeps r (finish_persisting r)
unfolding finish_persisting request_compaction
finish_persisting-Keeps r h =
    rw (h, request_compaction) (record { handed = refl; persisting = λ k. refl })

give_up-Keeps : (r : Room) → Keeps (abandon_persisting r) (give_up r)
unfolding give_up stop
give_up-Keeps r =
    let a = abandon_persisting r in
    let s = emit_hooks r.now a in
    let before = emit_hooks-Keeps r.now a in
    let closing = close_each-Keeps (keys s.conns) close_internal_error s in
    let both = Keeps-then before closing in
    let left =
      record (did exited
        (record (close_each (keys s.conns) close_internal_error s) { conns = [] })) {
          publishing = false;
        } in
    let out : Keeps (close_each (keys s.conns) close_internal_error s) left = record {
      handed = omega arith;
      persisting = λ h. h;
    } in
    let gone = Keeps-then both out in
    Keeps-then gone (
      Keeps-then (finish_persisting-Keeps left (gone.persisting refl))
        (emit_hooks-Keeps r.now (finish_persisting left)))

give_up-count_handed : (r : Room) → count_handed (give_up r).effects ≡ count_handed r.effects
give_up-count_handed r = (give_up-Keeps r).handed

begin_loaded-count_handed :
    (loaded : Result Room) (r : Room)
    → (begin_loaded loaded r).0 ≡ false
    → count_handed (begin_loaded loaded r).1.effects ≡ count_handed r.effects
unfolding begin_loaded
begin_loaded-count_handed (err e) r h = give_up-count_handed r
begin_loaded-count_handed (ok s) r h = absurd (true-false h)

if-count_handed :
    (b : Bool) (r : Room) (p : Bool × Room)
    → (p.0 ≡ false → count_handed p.1.effects ≡ count_handed r.effects)
    → (if b then p else (true, r)).0 ≡ false
    → count_handed (if b then p else (true, r)).1.effects ≡ count_handed r.effects
if-count_handed true r p f h = f h
if-count_handed false r p f h = refl

-- A room that does not get to its loop, because it could not join the bus or load its document,
-- hands nothing to the writer or to the other replicas, so what is stored is not overwritten with
-- a document that is not there.
pub begin-count_handed :
    (joined : Result (Unit {0})) (found : Result Stored) (r : Room)
    → (begin joined found r).0 ≡ false
    → count_handed (begin joined found r).1.effects ≡ count_handed r.effects
unfolding begin begin_loaded
begin-count_handed (err e) found r h = give_up-count_handed r
begin-count_handed (ok x) found r h =
    let loaded = and_then found (λ s. load s r) in
    if-count_handed r.cfg.has_store r (begin_loaded loaded r) (begin_loaded-count_handed loaded r) h
