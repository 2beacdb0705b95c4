-- ===== src/Room/Outbound/Follows.antt =====
-- What sending, dropping and leaving keep of a room.
use crdt_server.Base.{
  if_both, ℕ, zero, suc, ◌+◌, List, [], ◌∷◌, Bool, true, false, ◌==◌, ◌≡◌, refl, sym, ◌∙◌, arith,
  Bool-cases, Option-cases, inl, inr, Option, none, some, if◌then◌else◌, Result, ok, err, length,
}
use crdt_server.Base.GoMap.{GoMap, lookup, delete, keys}
use crdt_server.Protocol.Awareness.{Awareness}
use crdt_server.Protocol.Awareness.Bounds
use crdt_server.Protocol.Awareness.Bounds.Removed.{remove-IsWellFormed}
use crdt_server.Protocol.Awareness.Removal.{remove_clients}
use crdt_server.Room.{Room, Effect, closed, published, recorded, did}
use crdt_server.Room.Outbound.{
  kind_awareness, publish, next_answer, send, is_except, send_each, drop_each, broadcast_with,
  retract_with, without_conn, depart, leave_at, leave, drop, drop_slow, broadcast, deliver,
  close_policy_violation,
}
use crdt_server.Room.Remote.{is_nil}

abbrev pub is_some {ℓ} : {A : Type ℓ} → Option A → Bool
is_some none = false
is_some (some x) = true

-- The room knows since when it is empty exactly if it is.
abbrev pub IsTimed : Room → Type 0
IsTimed r = is_some r.last_empty ≡ is_nil r.conns

-- The updates that a room hands to the other replicas or to the writer.
abbrev pub is_write : Effect → ℕ
is_write (published k p) = if k == 0 then 1 else 0
is_write (recorded u) = 1
is_write _ = 0

abbrev pub count_writes : List Effect → ℕ
count_writes [] = 0
count_writes (e ∷ es) = is_write e + count_writes es

pub true-false : true ≡ false → ⊥
true-false h = cc

-- A room after steps that neither touch the document nor write.
pub record Follows (r s : Room) : Type 0 where
  pub doc : s.doc ≡ r.doc
  pub cfg : s.cfg ≡ r.cfg
  pub now : s.now ≡ r.now
  pub writes : count_writes s.effects ≡ count_writes r.effects
  pub aware : Bounds.IsWellFormed r.awareness → Bounds.IsWellFormed s.awareness
  pub timed : IsTimed r → IsTimed s
  pub alone : r.conns ≡ [] → (s.conns ≡ []) × (s.last_empty ≡ r.last_empty)

pub Follows-same : (r : Room) → Follows r r
Follows-same r = record {
  doc = refl;
  cfg = refl;
  now = refl;
  writes = refl;
  aware = λ h. h;
  timed = λ h. h;
  alone = λ h. (h, refl);
}

pub Follows-then : {r s t : Room} → Follows r s → Follows s t → Follows r t
Follows-then f g = record {
  doc = g.doc ∙ f.doc;
  cfg = g.cfg ∙ f.cfg;
  now = g.now ∙ f.now;
  writes = g.writes ∙ f.writes;
  aware = λ h. g.aware (f.aware h);
  timed = λ h. g.timed (f.timed h);
  alone = λ h. let (e, k) = f.alone h in let (e', k') = g.alone e in (e', k' ∙ k);
}

-- One more effect that is no write.
pub did-Follows : (e : Effect) (r : Room) → is_write e ≡ 0 → Follows r (did e r)
did-Follows e r h = record {
  doc = refl;
  cfg = refl;
  now = refl;
  writes = omega (arith, h);
  aware = λ x. x;
  timed = λ x. x;
  alone = λ x. (x, refl);
}

pub publish-Follows :
    (k : ℕ) (p : List ℕ) (r : Room) → is_write (published k p) ≡ 0 → Follows r (publish k p r)
unfolding publish
publish-Follows k p r h =
    if_both (Follows _) r.publishing (did-Follows (published k p) r h) (Follows-same r)

pub send-Follows : (conn : ℕ) (frame : List ℕ) (r : Room) → Follows r (send conn frame r)
unfolding send
send-Follows conn frame r = record {
  doc = refl;
  cfg = refl;
  now = refl;
  writes = omega arith;
  aware = λ x. x;
  timed = λ x. x;
  alone = λ x. (x, refl);
}

send_each-Follows :
    (conns frame : List ℕ) (except : Option ℕ) (r : Room)
    → Follows r (send_each conns frame except r).1
unfolding send_each
send_each-Follows [] frame except r = Follows-same r
send_each-Follows (conn ∷ conns) frame except r = elim (Bool-cases (is_except except conn)) [
  | inl e ↦ rw e (send_each-Follows conns frame except r)
  | inr e ↦
      let rest =
        Follows-then (send-Follows conn frame r)
          (send_each-Follows conns frame except (send conn frame r)) in
      rw e (elim (Bool-cases (next_answer r.answers)) [ inl k ↦ rw k rest | inr k ↦ rw k rest ])
]

-- What every connection's departure keeps, all of them keep.
abbrev pub Drops : (ℕ → Room → Room) → Type 0
Drops drop = (c : ℕ) (s : Room) → Follows s (drop c s)

drop_each-Follows :
    (drop : ℕ → Room → Room) (conns : List ℕ) (r : Room)
    → Drops drop
    → Follows r (drop_each drop conns r)
unfolding drop_each
drop_each-Follows drop [] r h = Follows-same r
drop_each-Follows drop (c ∷ cs) r h = Follows-then (h c r) (drop_each-Follows drop cs (drop c r) h)

broadcast_with-Follows :
    (drop : ℕ → Room → Room) (frame : List ℕ) (except : Option ℕ) (r : Room)
    → Drops drop
    → Follows r (broadcast_with drop frame except r)
unfolding broadcast_with
broadcast_with-Follows drop frame except r h =
    Follows-then (send_each-Follows (keys r.conns) frame except r) (drop_each-Follows drop _ _ h)

retract_with-Follows :
    (drop : ℕ → Room → Room) (p : Result (List ℕ × List ℕ)) (r : Room)
    → Drops drop
    → Follows r (retract_with drop p r)
unfolding retract_with
retract_with-Follows drop (err e) r h = Follows-same r
retract_with-Follows drop (ok (ids, [])) r h = Follows-same r
retract_with-Follows drop (ok (ids, b ∷ payload)) r h =
    Follows-then (broadcast_with-Follows drop _ none r h) (publish-Follows kind_awareness _ _ refl)

pub with_awareness-Follows :
    (a : Awareness) (r : Room)
    → (Bounds.IsWellFormed r.awareness → Bounds.IsWellFormed a)
    → Follows r (record r { awareness = a })
with_awareness-Follows a r h = record {
  doc = refl;
  cfg = refl;
  now = refl;
  writes = refl;
  aware = h;
  timed = λ x. x;
  alone = λ x. (x, refl);
}

-- Without a connection that it had, the room knows since when it is empty.
without_conn-timed :
    (conn : ℕ) (r : Room) (left : GoMap (List ℕ))
    → is_nil r.conns ≡ false
    → IsTimed r
    → is_some (elim left as (λ _. Option ℕ) [ [] ↦ some r.now | _ ∷ _ ↦ r.last_empty ])
      ≡ is_nil left
without_conn-timed conn r [] h t = refl
without_conn-timed conn r (x ∷ xs) h t = t ∙ h

without_conn-Follows :
    (conn : ℕ) (r : Room) → is_nil r.conns ≡ false → Follows r (without_conn conn r)
unfolding without_conn
without_conn-Follows conn r h = record {
  doc = refl;
  cfg = refl;
  now = refl;
  writes = refl;
  aware = λ x. x;
  timed = λ t. without_conn-timed conn r (delete conn r.conns) h t;
  alone = λ x. let f : is_nil r.conns ≡ true = rw x refl in absurd (true-false (sym f ∙ h));
}

depart-Follows :
    (drop : ℕ → Room → Room) (conn : ℕ) (ids : List ℕ) (r : Room)
    → Drops drop
    → is_nil r.conns ≡ false
    → Follows r (depart drop conn ids r)
unfolding depart
depart-Follows drop conn [] r h k = without_conn-Follows conn r k
depart-Follows drop conn (id ∷ ids) r h k =
    let removal = remove_clients r.awareness (id ∷ ids) r.now in
    Follows-then (without_conn-Follows conn r k) (
      Follows-then
        (with_awareness-Follows removal.0 (without_conn conn r)
          (unfold without_conn in λ w. (remove-IsWellFormed r.awareness (id ∷ ids) r.now 0 w).0))
        (retract_with-Follows drop removal.1 _ h))

pub lookup-is_nil :
    (conn : ℕ) (m : GoMap (List ℕ)) (ids : List ℕ) → lookup conn m ≡ some ids → is_nil m ≡ false
unfolding lookup
lookup-is_nil conn [] ids h = cc
lookup-is_nil conn (x ∷ m) ids h = refl

pub leave_at-Follows : (fuel conn : ℕ) (r : Room) → Follows r (leave_at fuel conn r)
unfolding leave_at
leave_at-Follows zero conn r = Follows-same r
leave_at-Follows (suc fuel) conn r = elim (Option-cases (lookup conn r.conns)) [
  | inl e ↦ rw (e, leave_at) (Follows-same r)
  | inr (ids, e) ↦
      rw (e, leave_at)
        (depart-Follows _ conn ids r
          (λ c s.
            Follows-then (leave_at-Follows fuel c s)
              (did-Follows (closed c close_policy_violation) _ refl))
          (lookup-is_nil conn r.conns ids e))
]

pub leave-Follows : (conn : ℕ) (r : Room) → Follows r (leave conn r)
unfolding leave
leave-Follows conn r = leave_at-Follows (length r.conns) conn r

pub drop-Follows : (conn code : ℕ) (r : Room) → Follows r (drop conn code r)
unfolding drop
drop-Follows conn code r =
    Follows-then (leave-Follows conn r) (did-Follows (closed conn code) _ refl)

pub broadcast-Follows :
    (frame : List ℕ) (except : Option ℕ) (r : Room) → Follows r (broadcast frame except r)
unfolding broadcast drop_slow
broadcast-Follows frame except r =
    broadcast_with-Follows drop_slow frame except r (λ c s. drop-Follows c close_policy_violation s)

pub deliver-Follows : (conn : ℕ) (frame : List ℕ) (r : Room) → Follows r (deliver conn frame r).1
unfolding deliver drop_slow
deliver-Follows conn frame r = elim (Bool-cases (next_answer r.answers)) [
  | inl e ↦ rw e (send-Follows conn frame r)
  | inr e ↦
      rw e (Follows-then (send-Follows conn frame r) (drop-Follows conn close_policy_violation _))
]

-- A room that differs in no more than what the document's versions, its use of memory and the jobs
-- are about.
pub Follows-fields :
    (r s : Room)
    → s.doc ≡ r.doc
    → s.cfg ≡ r.cfg
    → s.now ≡ r.now
    → count_writes s.effects ≡ count_writes r.effects
    → s.awareness ≡ r.awareness
    → s.conns ≡ r.conns
    → s.last_empty ≡ r.last_empty
    → Follows r s
Follows-fields r s d c n w a o l = record {
  doc = d;
  cfg = c;
  now = n;
  writes = w;
  aware = λ h. rw a h;
  timed = λ h. rw (o, l) h;
  alone = λ h. (o ∙ h, l);
}
