-- ===== src/Room/Registry/Mine.antt =====
-- What a caller of the registry gets.
use crdt_server.Base.{
  ℕ, zero, suc, ◌≡◌, refl, ap, ◌∙◌, List, [], ◌∷◌, ◌||◌, ◌==◌, All, list_same, list_same→eq,
  Bool-cases, Option-cases, inl, inr, Option, some, Result, ok, and_then-eq-ok, if-cases,
}
use crdt_server.Storage.Uuid.{Uuid, owner_id}
use crdt_server.Room.Registry.{
  Resident, Manager, Turn, find_room, is_full, is_over_budget, settle_owner, forget, with_rooms,
  Got, room, full, if_owned, resident, ask, create, get_or_create, enter, try_get, evict_one,
  get_after, get_loop, get,
}
use crdt_server.Room.Registry.Reach.{
  looked, entered, stopped, Reach, here, next, IsVouched, IsWellFormed,
}
use crdt_server.Room.Registry.Cap.{Reach-IsWellFormed, Reach-then, settle_owner-IsVouched, some-eq}

-- The room that is found has the name, and what all rooms have.
find_room-All :
    (P : Resident → Type 0) (name : List ℕ) (rs : List Resident) (r : Resident)
    → All P rs
    → find_room name rs ≡ some r
    → P r × (r.name ≡ name)
unfolding find_room
find_room-All P name [] r h e = cc
find_room-All P name (x ∷ xs) r (h, hs) e = elim (Bool-cases (list_same x.name name)) [
  | inl k ↦
      let f = rw k at e in let same : x ≡ r = cc in rw (← same) (h, list_same→eq x.name name k)
  | inr k ↦ let f = rw k at e in find_room-All P name xs r hs f
]

-- What others do around a turn of get is made of the registry's steps.
pub record IsFair (t : Turn) : Type 0 where
  pub before : (m : Manager) → Reach m (t.before m)
  pub meanwhile : (m : Manager) → Reach m (t.meanwhile m)

-- The room is the document's and the caller's, and the database gave it to its owner.
abbrev IsMine : List ℕ → Uuid → Resident → Type 0
IsMine name want r = (r.name ≡ name) × (r.owner ≡ want) × IsVouched r

-- What a caller may rely on.
record Mine (m : Manager) (name : List ℕ) (want : Uuid) (g : Got × Manager) : Type 0 where
  reach : Reach m g.1
  mine : (r : Resident) → g.0 ≡ room r → IsMine name want r

ok-eq : {a b : Got × Manager} → ◌≡◌ {A = Result (Got × Manager)} (ok a) (ok b) → a ≡ b
ok-eq h = cc

room-eq : {r s : Resident} → room r ≡ room s → r ≡ s
room-eq h = cc

if_owned-IsMine :
    (m n : Manager) (g : Got) (name : List ℕ) (want : Uuid) (r s : Resident)
    → IsVouched r × (r.name ≡ name)
    → if_owned want r m ≡ ok (g, n)
    → g ≡ room s
    → IsMine name want s
if_owned-IsMine m n g name want r s (vouched, same) e h =
    elim (if-cases (list_same r.owner want) e) [
      | inr (x, k) ↦ cc
      | inl (x, k) ↦
          let it : r ≡ s = room-eq (ap (λ (p : Got × Manager). p.0) (ok-eq k) ∙ h) in
          rw (← it) (same, list_same→eq r.owner want x, vouched)
    ]

create-IsMine :
    (answer : Option (Result Uuid)) (m n : Manager) (g : Got) (name : List ℕ) (want : Uuid)
    (s : Resident)
    → settle_owner answer want ≡ ok tt
    → create answer m name want ≡ ok (g, n)
    → g ≡ room s
    → IsMine name want s
unfolding create
create-IsMine answer m n g name want s settled e h = elim (if-cases m.closed e) [
  | inl (x, k) ↦ cc
  | inr (x, k) ↦ elim (if-cases (is_full m || is_over_budget m) k) [
    | inl (y, f) ↦ let it = ap (λ (p : Got × Manager). p.0) (ok-eq f) ∙ h in cc it
    | inr (y, f) ↦
        let it = room-eq (ap (λ (p : Got × Manager). p.0) (ok-eq f) ∙ h) in
        rw (← it) (refl, refl, settle_owner-IsVouched answer want settled)
  ]
]

enter-IsMine :
    (answer : Option (Result Uuid)) (m n : Manager) (g : Got) (name : List ℕ) (want : Uuid)
    (s : Resident)
    → IsWellFormed m
    → enter answer m name want ≡ ok (g, n)
    → g ≡ room s
    → IsMine name want s
unfolding enter get_or_create
enter-IsMine answer m n g name want s w e h =
    let (u, settled, made) =
      and_then-eq-ok (settle_owner answer want) (λ _. get_or_create answer m name want) e in
    elim (Option-cases (find_room name m.rooms)) [
      | inr (r, k) ↦
          if_owned-IsMine m n g name want r s (find_room-All IsVouched name m.rooms r w.vouched k)
            (rw (k, get_or_create) at made) h
      | inl k ↦ create-IsMine answer m n g name want s settled (rw (k, get_or_create) at made) h
    ]

resident-IsMine :
    (m n : Manager) (g : Got) (name : List ℕ) (want : Uuid) (s : Resident)
    → IsWellFormed m
    → resident m name want ≡ some (ok (g, n))
    → g ≡ room s
    → IsMine name want s
unfolding resident
resident-IsMine m n g name want s w e h = elim (Option-cases (find_room name m.rooms)) [
  | inl k ↦ let f = rw (k, resident) at e in cc f
  | inr (r, k) ↦
      if_owned-IsMine m n g name want r s (find_room-All IsVouched name m.rooms r w.vouched k)
        (some-eq (rw (k, resident) at e)) h
]

try_get-Mine :
    (t : Turn) (m : Manager) (name : List ℕ) (want : Uuid) (g : Got × Manager)
    → IsFair t
    → IsWellFormed m
    → try_get t m name want ≡ ok g
    → Mine m name want g
unfolding try_get
try_get-Mine t m name want g fair w e = elim (Option-cases (resident m name want)) [
  | inr (found, k) ↦
      let same : found ≡ ok g = rw (k, try_get) at e in
      let there : resident m name want ≡ some (ok g) = k ∙ ap (λ r. some r) same in
      record {
        reach = next here (looked name want there);
        mine = λ s h. resident-IsMine m g.1 g.0 name want s w there h;
      }
  | inl k ↦
      let answer = ask t m.sha1 name want in
      let came : enter answer (t.meanwhile m) name want ≡ ok g = rw (k, try_get) at e in
      record {
        reach = next (fair.meanwhile m) (entered answer name want came);
        mine = λ s h.
            enter-IsMine answer (t.meanwhile m) g.1 g.0 name want s
              (Reach-IsWellFormed m (t.meanwhile m) w (fair.meanwhile m)) came h;
      }
]

evict_one-forget :
    (candidates rooms left : List Resident)
    → evict_one candidates rooms ≡ some left
    → (r : Resident) × (forget r rooms ≡ left)
unfolding evict_one
evict_one-forget [] rooms left e = cc
evict_one-forget (r ∷ rs) rooms left e = elim (if-cases (r.conns == 0) e) [
  | inl (x, k) ↦ (r, cc)
  | inr (x, k) ↦ evict_one-forget rs rooms left k
]

get_after-Mine :
    (again : Manager → Result (Resident × Manager)) (name : List ℕ) (want : Uuid) (m n : Manager)
    (r : Resident) (p : Got × Manager)
    → ((k : Manager) → IsWellFormed k → again k ≡ ok (r, n) → Mine k name want (room r, n))
    → IsWellFormed m
    → Mine m name want p
    → get_after again p ≡ ok (r, n)
    → Mine m name want (room r, n)
unfolding get_after
get_after-Mine again name want m n r (room s, k) more w mine e =
    let one : s ≡ r = cc in let two : k ≡ n = cc in rw (← one, ← two) mine
get_after-Mine again name want m n r (full candidates, k) more w mine e =
    elim (Option-cases (evict_one candidates k.rooms)) [
      | inl x ↦ let f = rw (x, get_after) at e in cc f
      | inr (left, x) ↦
          let f = rw (x, get_after) at e in
          let (gone, same) = evict_one-forget candidates k.rooms left x in
          let before : Reach m (with_rooms k left) = rw (← same) (next mine.reach (stopped gone)) in
          let rest = more (with_rooms k left) (Reach-IsWellFormed m _ w before) f in
          record { reach = Reach-then before rest.reach; mine = rest.mine }
    ]

get_loop-Mine :
    (turns : ℕ → Turn) (fuel : ℕ) (name : List ℕ) (want : Uuid) (m n : Manager) (r : Resident)
    → ((i : ℕ) → IsFair (turns i))
    → IsWellFormed m
    → get_loop turns fuel name want m ≡ ok (r, n)
    → Mine m name want (room r, n)
unfolding get_loop
get_loop-Mine turns zero name want m n r fair w e = cc
get_loop-Mine turns (suc fuel) name want m n r fair w e =
    let k = (turns 0).before m in
    let came = (fair 0).before m in
    let wk = Reach-IsWellFormed m k w came in
    let later : ℕ → Turn = λ i. turns (suc i) in
    let (p, got, after) =
      and_then-eq-ok (try_get (turns 0) k name want) (get_after (get_loop later fuel name want))
        e in
    let mine =
      get_after-Mine (get_loop later fuel name want) name want k n r p
        (λ l v f. get_loop-Mine later fuel name want l n r (λ i. fair (suc i)) v f) wk
        (try_get-Mine (turns 0) k name want p (fair 0) wk got) after in
    record { reach = Reach-then came mine.reach; mine = mine.mine }

-- Whatever other callers and rooms do before and between the locks of get, and whatever the database
-- answers: a room that a tenant gets from a well-formed registry is the room of that name and is
-- owned by the tenant, and the caller who opened it was told by the database that the document is
-- the tenant's, if there is a store. The registry comes there by its steps.
pub get-IsVouched :
    (turns : ℕ → Turn) (fuel : ℕ) (m n : Manager) (name owner : List ℕ) (r : Resident)
    → ((i : ℕ) → IsFair (turns i))
    → IsWellFormed m
    → get turns fuel m name owner ≡ ok (r, n)
    → (r.name ≡ name) × (r.owner ≡ owner_id m.sha1 owner) × IsVouched r × Reach m n
unfolding get
get-IsVouched turns fuel m n name owner r fair w e =
    let mine = get_loop-Mine turns fuel name (owner_id m.sha1 owner) m n r fair w e in
    let (a, b, c) = mine.mine r refl in (a, b, c, mine.reach)
