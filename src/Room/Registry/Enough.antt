-- ===== src/Room/Registry/Enough.antt =====
-- The loop of get ends.
use crdt_server.Base.{
  Option, ◌≤◌, ℕ, zero, suc, suc_add, ◌+◌, ◌<◌, ◌≡◌, refl, ap, ◌∙◌, List, [], ◌∷◌, Bool, true,
  false, ◌&&◌, ◌||◌, ◌==◌, leb, length, All, list_same, list_same_refl, arith, Bool-cases,
  Option-cases, Result-cases, inl, inr, some, if-cases, Result, ok, and_then-eq-ok,
}
use crdt_server.Storage.Uuid.{Uuid}
use crdt_server.Room.Registry.Cap.{some-eq}
use crdt_server.Room.Registry.{
  Turn, resident, ask, enter, Resident, Manager, find_room, insert_by_use, by_least_recently_used,
  is_full, is_over_budget, settle_owner, forget, with_rooms, Got, room, full, if_owned, create,
  get_or_create, try_get, evict_one, get_after, get_loop,
}

-- The test of forget.
abbrev is_same : Resident → Resident → Bool
is_same r x = list_same x.name r.name && x.serial == r.serial

unfoldable is_there : List Resident → Resident → Bool
is_there [] r = false
is_there (x ∷ xs) r = is_same r x || is_there xs r

abbrev IsThere : List Resident → Resident → Type 0
IsThere xs r = is_there xs r ≡ true

forget-IsThere :
    (r : Resident) (xs : List Resident) → IsThere xs r → suc (length (forget r xs)) ≡ length xs
unfolding forget is_there
forget-IsThere r [] h = cc
forget-IsThere r (x ∷ xs) h = elim (Bool-cases (is_same r x)) [
  | inl e ↦ rw e refl
  | inr e ↦ rw e (ap (λ n. suc n) (forget-IsThere r xs (rw e at h)))
]

insert_by_use-All :
    (P : Resident → Type 0) (r : Resident) (xs : List Resident)
    → P r
    → All P xs
    → All P (insert_by_use r xs)
unfolding insert_by_use
insert_by_use-All P r [] p h = (p, tt)
insert_by_use-All P r (x ∷ xs) p (h, hs) = elim (Bool-cases (leb r.used x.used)) [
  | inl e ↦ rw e (p, (h, hs))
  | inr e ↦ rw e (h, insert_by_use-All P r xs p hs)
]

by_least_recently_used-All :
    (P : Resident → Type 0) (xs : List Resident) → All P xs → All P (by_least_recently_used xs)
unfolding by_least_recently_used
by_least_recently_used-All P [] h = tt
by_least_recently_used-All P (x ∷ xs) (h, hs) =
    insert_by_use-All P x (by_least_recently_used xs) h (by_least_recently_used-All P xs hs)

later-IsThere :
    (y : Resident) (ys xs : List Resident) → All (IsThere ys) xs → All (IsThere (y ∷ ys)) xs
unfolding is_there
later-IsThere y ys [] h = tt
later-IsThere y ys (x ∷ xs) (h, hs) = (
  elim (Bool-cases (is_same x y)) [ inl e ↦ rw e refl | inr e ↦ rw e h ],
  later-IsThere y ys xs hs,
)

is_same_refl : (r : Resident) → is_same r r ≡ true
is_same_refl r = rw (list_same_refl r.name) (ground arith)

each_room-IsThere : (xs : List Resident) → All (IsThere xs) xs
unfolding is_there
each_room-IsThere [] = tt
each_room-IsThere (x ∷ xs) =
    (rw (is_same_refl x) refl, later-IsThere x xs xs (each_room-IsThere xs))

evict_one-length :
    (cs rooms left : List Resident)
    → All (IsThere rooms) cs
    → evict_one cs rooms ≡ some left
    → suc (length left) ≡ length rooms
unfolding evict_one
evict_one-length [] rooms left h e = cc
evict_one-length (c ∷ cs) rooms left (h, hs) e = elim (Bool-cases (c.conns == 0)) [
  | inl k ↦
      let same : forget c rooms ≡ left = let f = rw k at e in cc in
      rw (← same) (forget-IsThere c rooms h)
  | inr k ↦ evict_one-length cs rooms left hs (rw k at e)
]

-- The candidates are the rooms of the registry, which stays as it is.
Candidates : Manager → List Resident → Manager → Type 0
Candidates m cs n = (cs ≡ by_least_recently_used m.rooms) × (n ≡ m)

full-eq :
    {a b : List Resident} {m n : Manager}
    → ◌≡◌ {A = Result (Got × Manager)} (ok (full a, m)) (ok (full b, n))
    → (b ≡ a) × (n ≡ m)
full-eq h = (cc, cc)

if_owned-full :
    (want : Uuid) (r : Resident) (m n : Manager) (cs : List Resident) {A : Type 0}
    → if_owned want r m ≡ ok (full cs, n)
    → A
if_owned-full want r m n cs e = elim (if-cases (list_same r.owner want) e) [
  | inl (k, h) ↦ cc
  | inr (k, h) ↦ cc
]

create-full :
    (answer : Option (Result Uuid)) (m n : Manager) (name : List ℕ) (want : Uuid)
    (cs : List Resident)
    → create answer m name want ≡ ok (full cs, n)
    → Candidates m cs n
unfolding create Candidates
create-full answer m n name want cs e = elim (if-cases m.closed e) [
  | inl (k, h) ↦ cc
  | inr (k, h) ↦ elim (if-cases (is_full m || is_over_budget m) h) [
    | inl (l, f) ↦ full-eq f
    | inr (l, f) ↦ cc
  ]
]

get_or_create-full :
    (answer : Option (Result Uuid)) (m n : Manager) (name : List ℕ) (want : Uuid)
    (cs : List Resident)
    → get_or_create answer m name want ≡ ok (full cs, n)
    → Candidates m cs n
unfolding get_or_create
get_or_create-full answer m n name want cs e = elim (Option-cases (find_room name m.rooms)) [
  | inl k ↦ create-full answer m n name want cs (rw (k, get_or_create) at e)
  | inr (r, k) ↦ if_owned-full want r m n cs (rw (k, get_or_create) at e)
]

resident-full :
    (m n : Manager) (name : List ℕ) (want : Uuid) (cs : List Resident) {A : Type 0}
    → resident m name want ≡ some (ok (full cs, n))
    → A
unfolding resident
resident-full m n name want cs e = elim (Option-cases (find_room name m.rooms)) [
  | inl k ↦ let f = rw (k, resident) at e in cc f
  | inr (r, k) ↦ if_owned-full want r m n cs (some-eq (rw (k, resident) at e))
]

try_get-full :
    (t : Turn) (m n : Manager) (name : List ℕ) (want : Uuid) (cs : List Resident)
    → try_get t m name want ≡ ok (full cs, n)
    → Candidates (t.meanwhile m) cs n
unfolding try_get enter
try_get-full t m n name want cs e = elim (Option-cases (resident m name want)) [
  | inr (found, k) ↦
      let same : found ≡ ok (full cs, n) = rw (k, try_get) at e in
      resident-full m n name want cs (k ∙ ap (λ r. some r) same)
  | inl k ↦
      let answer = ask t m.sha1 name want in
      let later = t.meanwhile m in
      let f : enter answer later name want ≡ ok (full cs, n) = rw (k, try_get) at e in
      let (u, settled, made) =
        and_then-eq-ok (settle_owner answer want) (λ _. get_or_create answer later name want) f in
      get_or_create-full answer later n name want cs made
]

none_below : (n : ℕ) → n < 0 → ⊥
none_below n h = omega (arith, h)

-- Two loops that agree on a registry with a room less go on alike from what tryGet gives.
get_after-same :
    (f g : Manager → Result (Resident × Manager)) (m n : Manager) (got : Got)
    → ((cs : List Resident) → got ≡ full cs → Candidates m cs n)
    → ((k : Manager) → suc (length k.rooms) ≡ length m.rooms → f k ≡ g k)
    → get_after f (got, n) ≡ get_after g (got, n)
unfolding get_after Candidates
get_after-same f g m n (room r) c h = refl
get_after-same f g m n (full cs) c h =
    let (from, same) = c cs refl in
    elim (Option-cases (evict_one cs n.rooms)) [
      | inl e ↦ rw (e, get_after) refl
      | inr (left, e) ↦
          let there : All (IsThere n.rooms) cs =
            rw (same, from)
              (by_least_recently_used-All (IsThere m.rooms) m.rooms (each_room-IsThere m.rooms)) in
          let less : suc (length left) ≡ length m.rooms =
            evict_one-length cs n.rooms left there e ∙ ap (λ (k : Manager). length k.rooms) same in
          rw (e, get_after) (h (with_rooms n left) less)
    ]

-- Around the turn nobody else opens a room.
pub record IsCalm (t : Turn) : Type 0 where
  pub before : (m : Manager) → length (t.before m).rooms ≤ length m.rooms
  pub meanwhile : (m : Manager) → length (t.meanwhile m).rooms ≤ length m.rooms

-- With more turns than there are rooms the loop of get ends by its own tests, if others open no
-- rooms in the meantime: with further turns it gives the same room or error, and the same registry.
pub get_loop-rooms :
    (turns : ℕ → Turn) (fuel more : ℕ) (name : List ℕ) (want : Uuid) (m : Manager)
    → ((i : ℕ) → IsCalm (turns i))
    → length m.rooms < fuel
    → get_loop turns (fuel + more) name want m ≡ get_loop turns fuel name want m
unfolding get_loop
get_loop-rooms turns zero more name want m calm h = absurd (none_below (length m.rooms) h)
get_loop-rooms turns (suc fuel) more name want m calm h =
    let t = turns 0 in
    let k = t.before m in
    let later : ℕ → Turn = λ i. turns (suc i) in
    rw (suc_add fuel more) (elim (Result-cases (try_get t k name want)) [
      | inl (x, e) ↦ rw (e, get_loop) refl
      | inr ((got, n), e) ↦
          rw (e, get_loop)
            (get_after-same (get_loop later (fuel + more) name want) (get_loop later fuel name want)
              (t.meanwhile k) n got (λ cs f. try_get-full t k n name want cs (rw f at e))
              (λ l f.
                let fewer = (calm 0).meanwhile k in
                let less = (calm 0).before m in
                get_loop-rooms later fuel more name want l (λ i. calm (suc i))
                  (omega (arith, h, f, fewer, less))))
    ])
