-- ===== src/Room/Registry/Cap.antt =====
-- The registry stays within its limit and keeps the documents of tenants apart.
use crdt_server.Base.{
  ℕ, suc, ◌≤◌, ◌≡◌, refl, ap, List, true, false, ◌⊎◌, inl, inr, ◌||◌, ltb, length, list_same,
  list_same→eq, arith, if◌then◌else◌, if-cases, Option-cases, Option, none, some, Result, ok, err,
  and_then-eq-ok,
}
use crdt_server.Storage.Uuid.{Uuid}
use crdt_server.Room.Registry.{
  Resident, Manager, Got, find_room, stamp, touch, is_full, is_over_budget, settle_owner, wait,
  if_owned, resident, create, get_or_create, enter,
}
use crdt_server.Room.Registry.Reach.{
  Step, looked, entered, stopped, weighed, joined, closing, Reach, here, next, IsVouched,
  IsWellFormed, Keeps, each, each-IsDistinct, each-IsVouched, length-each, if-Keeps,
  stamp_each-each, change_room-each, with_bytes, with_conns, forget-All, forget-IsDistinct,
  length-forget, find_room-IsNew,
}

-- Other rooms in their places, with the same names and owners.
each-IsWellFormed :
    (m n : Manager) (f : Resident → Resident)
    → Keeps f
    → n.rooms ≡ each f m.rooms
    → n.max_rooms ≡ m.max_rooms
    → IsWellFormed m
    → IsWellFormed n
each-IsWellFormed m n f k e x w = record {
  distinct = rw e (each-IsDistinct f m.rooms k w.distinct);
  vouched = rw e (each-IsVouched f m.rooms k w.vouched);
  few = λ h.
      let h' = rw x at h in
      let less = w.few h' in rw (e, x) (omega (arith, less, length-each f m.rooms));
}

not_full :
    (m : Manager)
    → is_full m || is_over_budget m ≡ false
    → ltb 0 m.max_rooms ≡ true
    → suc (length m.rooms) ≤ m.max_rooms
unfolding is_full
not_full m h k = ground (arith, h, k)

touch-IsWellFormed : (name : List ℕ) (m : Manager) → IsWellFormed m → IsWellFormed (touch name m)
unfolding touch
touch-IsWellFormed name m w =
    each-IsWellFormed m (touch name m) (stamp (suc m.clock) name)
      (if-Keeps (λ r. list_same r.name name) (λ r. record r { used = suc m.clock })
        (λ r. (refl, refl, refl)))
      (stamp_each-each (suc m.clock) name m.rooms) refl w

same-IsWellFormed :
    {g h : Got} {m n : Manager}
    → ◌≡◌ {A = Result (Got × Manager)} (ok (g, m)) (ok (h, n))
    → IsWellFormed m
    → IsWellFormed n
same-IsWellFormed {m = m} {n = n} e w = let same : m ≡ n = cc in rw (← same) w

if_owned-IsWellFormed :
    {m n : Manager} {g : Got} (want : Uuid) (r : Resident)
    → if_owned want r m ≡ ok (g, n)
    → IsWellFormed m
    → IsWellFormed n
if_owned-IsWellFormed {m} want r e w = elim (if-cases (list_same r.owner want) e) [
  | inl (x, k) ↦ same-IsWellFormed k (touch-IsWellFormed r.name m w)
  | inr (x, k) ↦ cc
]

-- What settleOwner let through.
pub settle_owner-IsVouched :
    (answer : Option (Result Uuid)) (want : Uuid)
    → settle_owner answer want ≡ ok tt
    → (answer ≡ none) ⊎ (answer ≡ some (ok want))
unfolding settle_owner
settle_owner-IsVouched none want e = inl refl
settle_owner-IsVouched (some (err x)) want e = cc
settle_owner-IsVouched (some (ok found)) want e = elim (if-cases (list_same found want) e) [
  | inl (x, k) ↦ inr (ap (λ o. some (ok o)) (list_same→eq found want x))
  | inr (x, k) ↦ cc
]

create-IsWellFormed :
    {m n : Manager} {g : Got} (answer : Option (Result Uuid)) (name : List ℕ) (want : Uuid)
    → settle_owner answer want ≡ ok tt
    → find_room name m.rooms ≡ none
    → create answer m name want ≡ ok (g, n)
    → IsWellFormed m
    → IsWellFormed n
unfolding create
create-IsWellFormed {m} answer name want settled new e w = elim (if-cases m.closed e) [
  | inl (x, k) ↦ cc
  | inr (x, k) ↦ elim (if-cases (is_full m || is_over_budget m) k) [
    | inl (y, f) ↦ same-IsWellFormed f w
    | inr (y, f) ↦ same-IsWellFormed f (record {
      distinct = (find_room-IsNew name m.rooms new, w.distinct);
      vouched = (settle_owner-IsVouched answer want settled, w.vouched);
      few = λ h. not_full m y h;
    })
  ]
]

enter-IsWellFormed :
    {m n : Manager} {g : Got} (answer : Option (Result Uuid)) (name : List ℕ) (want : Uuid)
    → enter answer m name want ≡ ok (g, n)
    → IsWellFormed m
    → IsWellFormed n
unfolding enter get_or_create
enter-IsWellFormed {m} answer name want e w =
    let (u, settled, made) =
      and_then-eq-ok (settle_owner answer want) (λ _. get_or_create answer m name want) e in
    elim (Option-cases (find_room name m.rooms)) [
      | inr (r, k) ↦ if_owned-IsWellFormed want r (rw (k, get_or_create) at made) w
      | inl k ↦ create-IsWellFormed answer name want settled k (rw (k, get_or_create) at made) w
    ]

pub some-eq : {A : Type 0} {a b : A} → ◌≡◌ {A = Option A} (some a) (some b) → a ≡ b
some-eq h = cc

resident-IsWellFormed :
    {m n : Manager} {g : Got} (name : List ℕ) (want : Uuid)
    → resident m name want ≡ some (ok (g, n))
    → IsWellFormed m
    → IsWellFormed n
unfolding resident
resident-IsWellFormed {m} name want e w = elim (Option-cases (find_room name m.rooms)) [
  | inl k ↦ let f = rw (k, resident) at e in cc f
  | inr (r, k) ↦ if_owned-IsWellFormed want r (some-eq (rw (k, resident) at e)) w
]

Step-IsWellFormed : {m n : Manager} → Step m n → IsWellFormed m → IsWellFormed n
unfolding wait
Step-IsWellFormed (looked name want e) w = resident-IsWellFormed name want e w
Step-IsWellFormed (entered answer name want e) w = enter-IsWellFormed answer name want e w
Step-IsWellFormed {m} (stopped r) w = record {
  distinct = forget-IsDistinct r m.rooms w.distinct;
  vouched = forget-All IsVouched r m.rooms w.vouched;
  few = λ h. let less = w.few h in omega (arith, less, length-forget r m.rooms);
}
Step-IsWellFormed {m} (weighed name bytes) w =
    each-IsWellFormed m _ (λ r. if list_same r.name name then with_bytes bytes r else r)
      (if-Keeps (λ r. list_same r.name name) (with_bytes bytes) (λ r. (refl, refl, refl)))
      (change_room-each (with_bytes bytes) name m.rooms) refl w
Step-IsWellFormed {m} (joined name conns) w =
    each-IsWellFormed m _ (λ r. if list_same r.name name then with_conns conns r else r)
      (if-Keeps (λ r. list_same r.name name) (with_conns conns) (λ r. (refl, refl, refl)))
      (change_room-each (with_conns conns) name m.rooms) refl w
Step-IsWellFormed {m} closing w = record { distinct = w.distinct; vouched = w.vouched; few = w.few }

-- Whatever callers find and open under their locks, whatever the database answers each of them, and
-- whatever the rooms do, in whatever order: every document is open once, the caller who opened it
-- was told by the database that it is the room's owner's, if there is a store, and there are no more
-- rooms than allowed.
pub Reach-IsWellFormed : (s m : Manager) → IsWellFormed s → Reach s m → IsWellFormed m
Reach-IsWellFormed s m w here = w
Reach-IsWellFormed s m w (next r step) = Step-IsWellFormed step (Reach-IsWellFormed s _ w r)

pub Reach-then : {s m n : Manager} → Reach s m → Reach m n → Reach s n
Reach-then r here = r
Reach-then r (next t step) = next (Reach-then r t) step
