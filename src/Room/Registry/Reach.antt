-- ===== src/Room/Registry/Reach.antt =====
-- The registry under every interleaving of its callers: what holds after any sequence of steps.
use crdt_server.Base.{
  ◌⊎◌, Option, some, Result, ℕ, suc, ◌≤◌, ◌≡◌, refl, ap, ◌∙◌, List, [], ◌∷◌, Bool, true, false,
  ◌&&◌, ◌==◌, ltb, length, All, list_same, arith, Bool-cases, inl, inr, none, if◌then◌else◌, ok,
}
use crdt_server.Storage.Uuid.{Uuid}
use crdt_server.Room.Registry.{
  Got, resident, enter, Resident, Manager, find_room, stamp, stamp_each, forget, with_rooms, wait,
}

abbrev pub with_bytes : ℕ → Resident → Resident
with_bytes bytes r = record r { bytes = bytes }

abbrev pub with_conns : ℕ → Resident → Resident
with_conns conns r = record r { conns = conns }

-- A change of what a room tells of itself.
unfoldable pub change_room : (Resident → Resident) → List ℕ → List Resident → List Resident
change_room f name [] = []
change_room f name (r ∷ rs) = (if list_same r.name name then f r else r) ∷ change_room f name rs

-- One step under the lock, or one of a room by itself.
pub data Step : Manager → Manager → Type 0 where
  -- The first lock of a caller that finds its room.
  looked :
      {m n : Manager} {g : Got} (name : List ℕ) (want : Uuid)
      → resident m name want ≡ some (ok (g, n))
      → Step m n
  -- The second lock of a caller, whatever the database answered it.
  entered :
      {m n : Manager} {g : Got} (answer : Option (Result Uuid)) (name : List ℕ) (want : Uuid)
      → enter answer m name want ≡ ok (g, n)
      → Step m n
  -- A room stops, on its own or because it was told to.
  stopped : {m : Manager} (r : Resident) → Step m (with_rooms m (forget r m.rooms))
  -- A document grows or shrinks, and connections come and go.
  weighed :
      {m : Manager} (name : List ℕ) (bytes : ℕ)
      → Step m (with_rooms m (change_room (with_bytes bytes) name m.rooms))
  joined :
      {m : Manager} (name : List ℕ) (conns : ℕ)
      → Step m (with_rooms m (change_room (with_conns conns) name m.rooms))
  closing : {m : Manager} → Step m (wait m)

pub data Reach (s : Manager) : Manager → Type 0 where
  here : Reach s s
  next : {m n : Manager} → Reach s m → Step m n → Reach s n

-- No room before has the name.
abbrev pub IsNew : List ℕ → Resident → Type 0
IsNew name r = list_same r.name name ≡ false

-- Every name once.
abbrev pub IsDistinct : List Resident → Type 0
IsDistinct [] = Unit {0}
IsDistinct (r ∷ rs) = All (IsNew r.name) rs × IsDistinct rs

-- The caller who opened the room was told by the database that the document is the room's owner's,
-- or there is no store.
abbrev pub IsVouched : Resident → Type 0
IsVouched r = (r.answer ≡ none) ⊎ (r.answer ≡ some (ok r.owner))

-- Every document is open once, for a tenant that the database gave it, and there are no more rooms
-- than allowed.
pub record IsWellFormed (m : Manager) : Type 0 where
  pub distinct : IsDistinct m.rooms
  pub vouched : All IsVouched m.rooms
  pub few : ltb 0 m.max_rooms ≡ true → length m.rooms ≤ m.max_rooms

-- A change of rooms that keeps names, owners and answers.
abbrev pub Keeps : (Resident → Resident) → Type 0
Keeps f =
    (r : Resident) → ((f r).name ≡ r.name) × ((f r).owner ≡ r.owner) × ((f r).answer ≡ r.answer)

unfoldable pub each : (Resident → Resident) → List Resident → List Resident
each f [] = []
each f (r ∷ rs) = f r ∷ each f rs

each-IsNew :
    (f : Resident → Resident) (name : List ℕ) (rs : List Resident)
    → Keeps f
    → All (IsNew name) rs
    → All (IsNew name) (each f rs)
unfolding each
each-IsNew f name [] k h = tt
each-IsNew f name (r ∷ rs) k (h, hs) =
    (ap (λ n. list_same n name) (k r).0 ∙ h, each-IsNew f name rs k hs)

pub each-IsDistinct :
    (f : Resident → Resident) (rs : List Resident)
    → Keeps f
    → IsDistinct rs
    → IsDistinct (each f rs)
unfolding each
each-IsDistinct f [] k h = tt
each-IsDistinct f (r ∷ rs) k (h, hs) =
    (rw (k r).0 (each-IsNew f r.name rs k h), each-IsDistinct f rs k hs)

pub each-IsVouched :
    (f : Resident → Resident) (rs : List Resident)
    → Keeps f
    → All IsVouched rs
    → All IsVouched (each f rs)
unfolding each
each-IsVouched f [] k h = tt
each-IsVouched f (r ∷ rs) k (h, hs) =
    let (name, owner, answer) = k r in (rw (owner, answer) h, each-IsVouched f rs k hs)

pub length-each : (f : Resident → Resident) (rs : List Resident) → length (each f rs) ≡ length rs
unfolding each
length-each f [] = refl
length-each f (r ∷ rs) = ap (λ n. suc n) (length-each f rs)

pub if-Keeps :
    (b : (Resident → Bool)) (f : Resident → Resident)
    → Keeps f
    → Keeps (λ r. if b r then f r else r)
if-Keeps b f k r = elim (Bool-cases (b r)) [ inl e ↦ rw e (k r) | inr e ↦ rw e (refl, refl, refl) ]

pub stamp_each-each :
    (clock : ℕ) (name : List ℕ) (rs : List Resident)
    → stamp_each clock name rs ≡ each (stamp clock name) rs
unfolding stamp_each each
stamp_each-each clock name [] = refl
stamp_each-each clock name (r ∷ rs) =
    ap (λ xs. stamp clock name r ∷ xs) (stamp_each-each clock name rs)

pub change_room-each :
    (f : Resident → Resident) (name : List ℕ) (rs : List Resident)
    → change_room f name rs ≡ each (λ r. if list_same r.name name then f r else r) rs
unfolding change_room each
change_room-each f name [] = refl
change_room-each f name (r ∷ rs) =
    ap (λ xs. (if list_same r.name name then f r else r) ∷ xs) (change_room-each f name rs)

-- Rooms of which some are gone.
pub forget-All :
    (P : Resident → Type 0) (r : Resident) (rs : List Resident) → All P rs → All P (forget r rs)
unfolding forget
forget-All P r [] h = tt
forget-All P r (x ∷ xs) (h, hs) =
    elim (Bool-cases (list_same x.name r.name && x.serial == r.serial)) [
      | inl e ↦ rw e hs
      | inr e ↦ rw e (h, forget-All P r xs hs)
    ]

pub forget-IsDistinct :
    (r : Resident) (rs : List Resident) → IsDistinct rs → IsDistinct (forget r rs)
unfolding forget
forget-IsDistinct r [] h = tt
forget-IsDistinct r (x ∷ xs) (h, hs) =
    elim (Bool-cases (list_same x.name r.name && x.serial == r.serial)) [
      | inl e ↦ rw e hs
      | inr e ↦ rw e (forget-All (IsNew x.name) r xs h, forget-IsDistinct r xs hs)
    ]

pub length-forget : (r : Resident) (rs : List Resident) → length (forget r rs) ≤ length rs
unfolding forget
length-forget r [] = omega arith
length-forget r (x ∷ xs) =
    let rest = length-forget r xs in
    elim (Bool-cases (list_same x.name r.name && x.serial == r.serial)) [
      | inl e ↦ rw e (omega arith)
      | inr e ↦ rw e (omega (arith, rest))
    ]

pub find_room-IsNew :
    (name : List ℕ) (rs : List Resident) → find_room name rs ≡ none → All (IsNew name) rs
unfolding find_room
find_room-IsNew name [] h = tt
find_room-IsNew name (r ∷ rs) h = elim (Bool-cases (list_same r.name name)) [
  | inl e ↦ let f = rw e at h in cc f
  | inr e ↦ let f = rw e at h in (e, find_room-IsNew name rs f)
]
