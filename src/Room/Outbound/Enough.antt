-- ===== src/Room/Outbound/Enough.antt =====
-- The fuel of leave: with as much as there are connections, more changes nothing.
use native.Mathlib.Nat.{le_refl}
use crdt_server.Base.{
  ℕ, zero, suc, ◌+◌, ◌≤◌, List, [], ◌∷◌, ◌≡◌, refl, ap, ◌∙◌, arith, Bool-cases, Option-cases, inl,
  inr, suc_add, Option, none, some, Result, ok, err, length,
}
use crdt_server.Base.GoMap.{GoMap, lookup, delete, keys, length-delete}
use crdt_server.Protocol.Awareness.Removal.{remove_clients}
use crdt_server.Protocol.Messages.{write_awareness}
use crdt_server.Room.{Room, closed, did}
use crdt_server.Room.Outbound.{
  kind_awareness, publish, next_answer, send, is_except, send_each, drop_each, broadcast_with,
  retract_with, without_conn, depart, leave_at, close_policy_violation,
}

-- How many connections a room has.
abbrev conn_count : Room → ℕ
conn_count r = length r.conns

-- Two ways to drop a connection that agree on rooms with at most `n` connections, and add none.
record Agree (n : ℕ) (f g : ℕ → Room → Room) : Type 0 where
  same : (c : ℕ) (r : Room) → conn_count r ≤ n → f c r ≡ g c r
  fewer : (c : ℕ) (r : Room) → conn_count (g c r) ≤ conn_count r

send_each-conns :
    (conns frame : List ℕ) (except : Option ℕ) (r : Room)
    → (send_each conns frame except r).1.conns ≡ r.conns
unfolding send_each send
send_each-conns [] frame except r = refl
send_each-conns (c ∷ cs) frame except r = elim (Bool-cases (is_except except c)) [
  | inl e ↦ rw e (send_each-conns cs frame except r)
  | inr e ↦ rw e (elim (Bool-cases (next_answer r.answers)) [
    | inl k ↦ rw k (send_each-conns cs frame except _)
    | inr k ↦ rw k (send_each-conns cs frame except _)
  ])
]

drop_each-Agree :
    (n : ℕ) (f g : ℕ → Room → Room) (conns : List ℕ) (r : Room)
    → Agree n f g
    → conn_count r ≤ n
    → (drop_each f conns r ≡ drop_each g conns r)
      × (conn_count (drop_each g conns r) ≤ conn_count r)
unfolding drop_each
drop_each-Agree n f g [] r a h = (refl, le_refl (conn_count r))
drop_each-Agree n f g (c ∷ cs) r a h =
    let less = a.fewer c r in
    let (same, fewer) = drop_each-Agree n f g cs (g c r) a (omega (arith, less, h)) in
    (ap (λ s. drop_each f cs s) (a.same c r h) ∙ same, omega (arith, fewer, less))

broadcast_with-Agree :
    (n : ℕ) (f g : ℕ → Room → Room) (frame : List ℕ) (except : Option ℕ) (r : Room)
    → Agree n f g
    → conn_count r ≤ n
    → (broadcast_with f frame except r ≡ broadcast_with g frame except r)
      × (conn_count (broadcast_with g frame except r) ≤ conn_count r)
unfolding broadcast_with
broadcast_with-Agree n f g frame except r a h =
    let p = send_each (keys r.conns) frame except r in
    let kept : conn_count p.1 ≡ conn_count r =
      ap (λ m. length m) (send_each-conns (keys r.conns) frame except r) in
    let (same, fewer) = drop_each-Agree n f g p.0 p.1 a (omega (arith, kept, h)) in
    (same, omega (arith, fewer, kept))

publish-conns : (k : ℕ) (p : List ℕ) (r : Room) → (publish k p r).conns ≡ r.conns
unfolding publish
publish-conns k p r = elim (Bool-cases r.publishing) [
  | inl e ↦ rw (e, publish) refl
  | inr e ↦ rw (e, publish) refl
]

retract_with-Agree :
    (n : ℕ) (f g : ℕ → Room → Room) (p : Result (List ℕ × List ℕ)) (r : Room)
    → Agree n f g
    → conn_count r ≤ n
    → (retract_with f p r ≡ retract_with g p r) × (conn_count (retract_with g p r) ≤ conn_count r)
unfolding retract_with
retract_with-Agree n f g (err e) r a h = (refl, le_refl (conn_count r))
retract_with-Agree n f g (ok (ids, [])) r a h = (refl, le_refl (conn_count r))
retract_with-Agree n f g (ok (ids, b ∷ payload)) r a h =
    let (same, fewer) = broadcast_with-Agree n f g (write_awareness (b ∷ payload)) none r a h in
    let kept : conn_count (
          publish kind_awareness (b ∷ payload)
            (broadcast_with g (write_awareness (b ∷ payload)) none r))
        ≡ _ =
      ap (λ m. length m)
        (publish-conns kind_awareness (b ∷ payload)
          (broadcast_with g (write_awareness (b ∷ payload)) none r)) in
    (ap (λ s. publish kind_awareness (b ∷ payload) s) same, omega (arith, kept, fewer))

depart-Agree :
    (n : ℕ) (f g : ℕ → Room → Room) (conn : ℕ) (ids : List ℕ) (r : Room)
    → Agree n f g
    → conn_count (without_conn conn r) ≤ n
    → (depart f conn ids r ≡ depart g conn ids r)
      × (conn_count (depart g conn ids r) ≤ conn_count (without_conn conn r))
unfolding depart
depart-Agree n f g conn [] r a h = (refl, le_refl (conn_count (without_conn conn r)))
depart-Agree n f g conn (id ∷ ids) r a h =
    let removal = remove_clients r.awareness (id ∷ ids) r.now in
    retract_with-Agree n f g removal.1 (record (without_conn conn r) { awareness = removal.0 }) a h

-- A connection that the room had is one less.
without_conn-count :
    (conn : ℕ) (r : Room) (ids : List ℕ)
    → lookup conn r.conns ≡ some ids
    → conn_count r ≡ suc (conn_count (without_conn conn r))
unfolding without_conn
without_conn-count conn r ids e =
    length-delete conn r.conns
    ∙ ap
        (λ (o : Option (List ℕ)). elim o as (λ _. ℕ) [
          | none ↦ length (delete conn r.conns)
          | some _ ↦ suc (length (delete conn r.conns))
        ])
        e

leave_at-fewer : (fuel conn : ℕ) (r : Room) → conn_count (leave_at fuel conn r) ≤ conn_count r
unfolding leave_at
leave_at-fewer zero conn r = le_refl (conn_count r)
leave_at-fewer (suc fuel) conn r = elim (Option-cases (lookup conn r.conns)) [
  | inl e ↦ rw (e, leave_at) (le_refl (conn_count r))
  | inr (ids, e) ↦
      let one_less = without_conn-count conn r ids e in
      let drop = λ (c : ℕ) (s : Room). did (closed c close_policy_violation) (leave_at fuel c s) in
      let (_, fewer) =
        depart-Agree (conn_count r) drop drop conn ids r
          (record { same = λ c s h. refl; fewer = λ c s. leave_at-fewer fuel c s })
          (omega (arith, one_less)) in
      rw (e, leave_at) (omega (arith, fewer, one_less))
]

leave_at-absent : (fuel conn : ℕ) (r : Room) → lookup conn r.conns ≡ none → leave_at fuel conn r ≡ r
unfolding leave_at
leave_at-absent zero conn r e = refl
leave_at-absent (suc fuel) conn r e = rw (e, leave_at) refl

never : (n : ℕ) → suc n ≤ 0 → ⊥
never n h = omega (arith, h)

lookup-none : (conn : ℕ) (m : GoMap (List ℕ)) → length m ≤ 0 → lookup conn m ≡ none
unfolding lookup
lookup-none conn [] h = refl
lookup-none conn (x ∷ m) h = absurd (never (length m) h)

-- As much fuel as a room has connections is enough for leave, with all the drops and retractions
-- that follow from it: more fuel gives the same room.
pub leave_at-conns :
    (fuel more conn : ℕ) (r : Room)
    → length r.conns ≤ fuel
    → leave_at (fuel + more) conn r ≡ leave_at fuel conn r
unfolding leave_at
leave_at-conns zero more conn r h = leave_at-absent (0 + more) conn r (lookup-none conn r.conns h)
leave_at-conns (suc fuel) more conn r h =
    rw (suc_add fuel more) (elim (Option-cases (lookup conn r.conns)) [
      | inl e ↦ rw (e, leave_at) refl
      | inr (ids, e) ↦
          let one_less = without_conn-count conn r ids e in
          let agree =
            depart-Agree fuel
              (λ c s. did (closed c close_policy_violation) (leave_at (fuel + more) c s))
              (λ c s. did (closed c close_policy_violation) (leave_at fuel c s)) conn ids r
              (record {
                same = λ c s k.
                    ap (λ t. did (closed c close_policy_violation) t)
                      (leave_at-conns fuel more c s k);
                fewer = λ c s. leave_at-fewer fuel c s;
              })
              (omega (arith, one_less, h)) in
          rw (e, leave_at) agree.0
    ])
