-- ===== src/Protocol/Awareness/Bounds.antt =====
-- What the limits of a room promise, and that the count behind them is right.
pub mod Forget
pub mod Removed
use Forget.{
  one, is_present, count_present-insert, count_present-length, Forgets, forget_oldest-Forgets,
}
use crdt_server.Base.{
  ℕ, zero, suc, ◌+◌, ◌-◌, ◌*◌, ◌≤◌, ◌<◌, ◌≡◌, refl, sym, ap, ◌∙◌, List, [], ◌∷◌, Bool, true, false,
  not, ◌&&◌, Option, none, some, ltb, leb, ◌==◌, length, if◌then◌else◌, All, arith, ◌⊎◌, inl, inr,
  Bool-cases, Option-cases, Result-cases, is_negative, is_positive, u64, ok, err, Result, if-cases,
}
use native.Mathlib.Nat.{le_refl}
use crdt_server.Base.GoMap
use crdt_server.Base.GoMap.{
  GoMap, lookup, get, insert, IsDistinct, insert-IsDistinct, All-insert, length-insert,
}
use crdt_server.Lib0.Decoder.{Decoder, read_var_uint, remaining}
use crdt_server.Protocol.Awareness.{
  Entry, zero_entry, Awareness, Applied, Limits, max_state, max_clients, entry_of, count_present,
  reaches, forget_oldest, is_null, refusal, is_taken, make_room, new_entry, recount, take_entry,
  apply_entry, apply_allowed, apply_read, apply_entries, apply_update, read_entry,
}

-- A state no longer than the room allows.
abbrev pub IsSmall : Limits → ℕ × Entry → Type 0
IsSmall l p = is_positive (max_state l) ≡ true → length p.1.state ≤ max_state l

-- The count is right, and the entries and their states keep to the limits: at most as many states
-- as there may be clients, and at most as many removed clients' clocks again.
pub record IsWellFormed (a : Awareness) : Type 0 where
  pub distinct : IsDistinct a.entries
  pub counted : a.present ≡ count_present a.entries
  pub few :
      is_positive (max_clients a.limits) ≡ true
      → (a.present ≤ max_clients a.limits) × (length a.entries ≤ 2 * max_clients a.limits)
  pub small : All (IsSmall a.limits) a.entries

-- What making room for a client leaves.
record Room (a : Awareness) (client : ℕ) (r : GoMap Entry) : Type 0 where
  distinct : IsDistinct r
  counted : count_present r ≡ a.present
  same : is_present client r ≡ is_present client a.entries
  small : All (IsSmall a.limits) r
  few :
      is_positive (max_clients a.limits) ≡ true
      → (e : Entry) → length (insert client e r) ≤ 2 * max_clients a.limits

Room-known :
    (a : Awareness) (client : ℕ) (x : Entry)
    → IsWellFormed a
    → lookup client a.entries ≡ some x
    → Room a client a.entries
Room-known a client x w l = record {
  distinct = w.distinct;
  counted = sym w.counted;
  same = refl;
  small = w.small;
  few = λ p e. let n = rw l at (length-insert client e a.entries) in omega (arith, n, (w.few p).1);
}

Room-unlimited :
    (a : Awareness) (client : ℕ)
    → IsWellFormed a
    → is_positive (max_clients a.limits) ≡ false
    → Room a client a.entries
Room-unlimited a client w n = record {
  distinct = w.distinct;
  counted = sym w.counted;
  same = refl;
  small = w.small;
  few = λ p e. cc (p, n);
}

room_lem :
    (n most count : ℕ)
    → is_positive most ≡ true
    → count ≤ most
    → (reaches n (u64 (2 * most)) ≡ false) ⊎ (count ≡ n)
    → n < 2 * most
room_lem n most count p h (inl b) = ground arith
room_lem n most count p h (inr b) = ground arith

Room-forgotten :
    (a : Awareness) (client : ℕ) (r : GoMap Entry)
    → IsWellFormed a
    → is_positive (max_clients a.limits) ≡ true
    → lookup client a.entries ≡ none
    → Forgets (u64 (2 * max_clients a.limits)) a.entries r
    → Room a client r
unfolding get
Room-forgotten a client r w p l f =
    let gone = f.absent client l in
    let enough =
      room_lem (length r) (max_clients a.limits) (count_present r) p
        (omega (arith, (w.few p).0, w.counted, f.counted)) f.bounded in
    record {
      distinct = f.distinct;
      counted = f.counted ∙ sym w.counted;
      same = rw (l, gone, is_present, get) refl;
      small = f.all (IsSmall a.limits) w.small;
      few = λ p e. let n = rw gone at (length-insert client e r) in omega (arith, n, enough);
    }

make_room-Room : (a : Awareness) (client : ℕ) → IsWellFormed a → Room a client (make_room a client)
unfolding make_room
make_room-Room a client w = elim (Option-cases (lookup client a.entries)) [
  | inr (x, l) ↦ rw (l, make_room) (Room-known a client x w l)
  | inl l ↦ elim (Bool-cases (is_positive (max_clients a.limits))) [
    | inl p ↦
        let limit = u64 (2 * max_clients a.limits) in
        rw (l, p, make_room)
          (Room-forgotten a client (forget_oldest limit a.entries) w p l
            (forget_oldest-Forgets limit a.entries w.distinct))
    | inr p ↦ rw (l, p, make_room) (Room-unlimited a client w p)
  ]
]

length-allowed :
    (a : Awareness) (client : ℕ) (s : List ℕ)
    → refusal a client s ≡ none
    → is_positive (max_state a.limits) ≡ true
    → length (if is_null s then [] else s) ≤ max_state a.limits
unfolding refusal
length-allowed a client s h p = ground arith

present-allowed :
    (a : Awareness) (client : ℕ) (s : List ℕ)
    → refusal a client s ≡ none
    → is_positive (max_clients a.limits) ≡ true
    → a.present ≤ max_clients a.limits
    → recount a.present (is_present client a.entries) (not (is_null s)) ≤ max_clients a.limits
unfolding refusal entry_of recount
present-allowed a client s h p few = ground arith

recount_lem : (n c : ℕ) (old new : Bool) → c + one old ≡ n + one new → recount n old new ≡ c
unfolding recount
recount_lem n c true true h = omega (arith, h)
recount_lem n c true false h = omega (arith, h)
recount_lem n c false true h = omega (arith, h)
recount_lem n c false false h = omega (arith, h)

take_entry-IsWellFormed :
    (a : Awareness) (client clock : ℕ) (s : List ℕ) (now : ℕ)
    → refusal a client s ≡ none
    → IsWellFormed a
    → IsWellFormed (take_entry a client clock s now)
unfolding take_entry entry_of
take_entry-IsWellFormed a client clock s now h w =
    let room = make_room-Room a client w in
    let r = make_room a client in
    let e = new_entry clock s now in
    record {
      distinct = insert-IsDistinct client e (make_room a client) room.distinct;
      counted = recount_lem a.present _ _ _ (
          ap (λ b. count_present (insert client e r) + one b) (sym room.same)
          ∙ count_present-insert client e r
          ∙ ap (λ n. n + one e.present) room.counted);
      few = λ p. (present-allowed a client s h p (w.few p).0, room.few p e);
      small =
          All-insert (IsSmall a.limits) client e (make_room a client)
            (λ p. length-allowed a client s h p) room.small;
    }

-- Whatever one entry of an update does, it keeps the room well-formed.
pub apply_entry-IsWellFormed :
    (a a' : Awareness) (client clock : ℕ) (s : List ℕ) (now : ℕ)
    → apply_entry a client clock s now ≡ ok (some a')
    → IsWellFormed a
    → IsWellFormed a'
unfolding apply_entry apply_allowed
apply_entry-IsWellFormed a a' client clock s now h w = elim (Option-cases (refusal a client s)) [
  | inr (e, r) ↦ let g = rw (r, apply_entry) at h in cc g
  | inl r ↦
      elim (if-cases (is_taken (entry_of a client) clock (is_null s)) (rw (r, apply_entry) at h)) [
        | inl (_, t) ↦
            let same : take_entry a client clock s now ≡ a' = cc in
            rw (← same) (take_entry-IsWellFormed a client clock s now r w)
        | inr (_, t) ↦ cc
      ]
]

-- A round keeps the room well-formed if the rounds that follow do, whatever it read.
apply_read-IsWellFormed :
    (more : Awareness → Decoder → Applied) (a : Awareness) (now : ℕ)
    (r : Result ((ℕ × ℕ × List ℕ) × Decoder))
    → ((a : Awareness) (d : Decoder) → IsWellFormed a → IsWellFormed (more a d).awareness)
    → IsWellFormed a
    → IsWellFormed (apply_read more a now r).awareness
unfolding apply_read
apply_read-IsWellFormed more a now (err e) h w = w
apply_read-IsWellFormed more a now (ok ((client, clock, s), d)) h w =
    elim (Result-cases (apply_entry a client clock s now)) [
      | inl (e, r) ↦ rw (r, apply_read) w
      | inr (none, r) ↦ rw (r, apply_read) (h a d w)
      | inr (some a', r) ↦
          rw (r, apply_read) (h a' d (apply_entry-IsWellFormed a a' client clock s now r w))
    ]

apply_entries-IsWellFormed :
    (n now : ℕ) (a : Awareness) (d : Decoder)
    → IsWellFormed a
    → IsWellFormed (apply_entries n now a d).awareness
unfolding apply_entries
apply_entries-IsWellFormed zero now a d w = w
apply_entries-IsWellFormed (suc n) now a d w =
    apply_read-IsWellFormed (λ a d. apply_entries n now a d) a now (read_entry d)
      (apply_entries-IsWellFormed n now) w

-- An awareness update leaves a well-formed room well-formed, also when it is refused halfway and
-- the entries before the failure stay applied: the count is the number of present entries, no more
-- of them than MaxClients and no more entries than twice that, no state longer than MaxState.
pub apply_update-IsWellFormed :
    (a : Awareness) (payload : List ℕ) (now : ℕ)
    → IsWellFormed a
    → IsWellFormed (apply_update a payload now).awareness
unfolding apply_update
apply_update-IsWellFormed a payload now w = elim (Result-cases (read_var_uint payload)) [
  | inl (e, r) ↦ rw (r, apply_update) w
  | inr ((n, d), r) ↦ elim (Bool-cases (ltb (remaining d) n)) [
    | inl b ↦ rw (r, b, apply_update) w
    | inr b ↦ rw (r, b, apply_update) (apply_entries-IsWellFormed n now a d w)
  ]
]
