-- ===== src/Protocol/Awareness/Replay.antt =====
-- awareness.js:250: which entries of an update are taken, and that none is taken twice.
use crdt_server.Base.{
  ◌<◌, ◌⊎◌, ltb, Bool-cases, ℕ, ◌≡◌, refl, ap, ◌∙◌, List, [], Bool, true, false, not, Option, none,
  some, if◌then◌else◌, arith, inl, inr, Option-cases, if-cases, ok,
}
use crdt_server.Base.GoMap.{lookup, get, lookup-insert}
use crdt_server.Protocol.Awareness.{
  Entry, zero_entry, Awareness, entry_of, state, is_null, refusal, is_taken, make_room, new_entry,
  take_entry, apply_allowed, apply_entry,
}

lookup-take_entry :
    (a : Awareness) (client clock : ℕ) (s : List ℕ) (now : ℕ)
    → lookup client (take_entry a client clock s now).entries ≡ some (new_entry clock s now)
unfolding take_entry
lookup-take_entry a client clock s now =
    lookup-insert client client (new_entry clock s now) (make_room a client) ∙ ground arith

state_lem :
    (b : Bool) (s : List ℕ)
    → (if not b then some (if b then [] else s) else none) ≡ (if b then none else some s)
state_lem true s = refl
state_lem false s = refl

not_again :
    (e : Entry) (clock : ℕ) (null : Bool)
    → e.clock ≡ clock
    → e.present ≡ not null
    → is_taken e clock null ≡ false
unfolding is_taken
not_again e clock true c p = ground arith
not_again e clock false c p = ground arith

limits-take_entry :
    (a : Awareness) (client clock : ℕ) (s : List ℕ) (now : ℕ)
    → (take_entry a client clock s now).limits ≡ a.limits
unfolding take_entry
limits-take_entry a client clock s now = refl

-- The checks that a state passed it passes again for a client that is present with it.
refusal-again :
    (a : Awareness) (client clock : ℕ) (s : List ℕ) (now : ℕ)
    → refusal a client s ≡ none
    → (entry_of (take_entry a client clock s now) client).present ≡ not (is_null s)
    → refusal (take_entry a client clock s now) client s ≡ none
unfolding refusal
refusal-again a client clock s now r p = ground (arith, limits-take_entry a client clock s now)

again_lem :
    (a : Awareness) (client clock : ℕ) (s : List ℕ) (later : ℕ)
    → (entry_of a client).clock ≡ clock
    → (entry_of a client).present ≡ not (is_null s)
    → refusal a client s ≡ none
    → apply_entry a client clock s later ≡ ok none
unfolding apply_entry apply_allowed
again_lem a client clock s later c p r =
    rw (r, apply_entry, apply_allowed, not_again (entry_of a client) clock (is_null s) c p) refl

-- What a client is left with whose entry is taken.
taken_lem :
    (a : Awareness) (client clock : ℕ) (s : List ℕ) (now : ℕ)
    → entry_of (take_entry a client clock s now) client ≡ new_entry clock s now
unfolding entry_of get
taken_lem a client clock s now =
    ap (λ (o : Option Entry). elim o as (λ _. Entry) [ none ↦ zero_entry | some e ↦ e ])
      (lookup-take_entry a client clock s now)

-- The clock is later than the held one, or the state is null and takes back one that is held at
-- that clock.
abbrev pub GoesPast : Entry → ℕ → List ℕ → Type 0
GoesPast e clock s =
    (e.clock < clock) ⊎ ((e.clock ≡ clock) × (is_null s ≡ true) × (e.present ≡ true))

is_taken-GoesPast :
    (e : Entry) (clock : ℕ) (s : List ℕ) → is_taken e clock (is_null s) ≡ true → GoesPast e clock s
unfolding is_taken
is_taken-GoesPast e clock s h = elim (Bool-cases (ltb e.clock clock)) [
  | inl k ↦ inl (ground (arith, k))
  | inr k ↦ inr (ground (arith, h, k), ground (arith, h, k), ground (arith, h, k))
]

-- An entry that is applied went past the clock that was held for its client, or retracts at the
-- same clock a state that was held. The client then has that clock, and the state that the entry
-- has, none if it is null; and the same entry again, at any later time, changes nothing.
pub apply_entry-again :
    (a a' : Awareness) (client clock : ℕ) (s : List ℕ) (now later : ℕ)
    → apply_entry a client clock s now ≡ ok (some a')
    → GoesPast (entry_of a client) clock s
      × ((entry_of a' client).clock ≡ clock)
      × (state a' client ≡ (if is_null s then none else some s))
      × (apply_entry a' client clock s later ≡ ok none)
unfolding apply_entry apply_allowed state
apply_entry-again a a' client clock s now later h = elim (Option-cases (refusal a client s)) [
  | inr (e, r) ↦ let g = rw (r, apply_entry) at h in cc g
  | inl r ↦
      elim (if-cases (is_taken (entry_of a client) clock (is_null s)) (rw (r, apply_entry) at h)) [
        | inl (taken, t) ↦
            let same : take_entry a client clock s now ≡ a' = cc in
            let held = taken_lem a client clock s now in
            let present = ap (λ (e : Entry). e.present) held in
            rw (← same) (
              is_taken-GoesPast (entry_of a client) clock s taken,
              ap (λ (e : Entry). e.clock) held,
              rw (lookup-take_entry a client clock s now, state) (state_lem (is_null s) s),
              again_lem (take_entry a client clock s now) client clock s later
                  (ap (λ (e : Entry). e.clock) held) present
                  (refusal-again a client clock s now r present),
            )
        | inr (_, t) ↦ cc
      ]
]
