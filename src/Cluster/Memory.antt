-- ===== src/Cluster/Memory.antt =====
-- internal/cluster/memory.go: a bus inside one process.
--
-- A subscription is a number, and what its callback is called with stands in the list of
-- deliveries that Publish gives, in the order of the calls. Each method takes the lock around
-- the state it reads and changes, so it is one step on that state.
pub mod Delivery
use crdt_server.Base.{
  ℕ, List, [], ◌∷◌, ◌++◌, Bool, true, false, ◌==◌, if◌then◌else◌, Result, ok, err, and_then,
  bus_closed, list_same,
}
use crdt_server.Base.GoMap.{member}
use crdt_server.Cluster.Envelope
use crdt_server.Cluster.Envelope.{Envelope}

-- `map[string][]*memorySub`
abbrev pub Subscribers : Type 0
Subscribers = List (List ℕ × List ℕ)

unfoldable pub subs_of : Subscribers → List ℕ → List ℕ
subs_of [] room = []
subs_of ((name, subs) ∷ rest) room =
    let others = subs_of rest room in if list_same name room then subs else others

unfoldable pub set_subs : List ℕ → List ℕ → Subscribers → Subscribers
set_subs room subs [] = (room, subs) ∷ []
set_subs room subs ((name, old) ∷ rest) =
    let others = set_subs room subs rest in
    if list_same name room then (name, subs) ∷ rest else (name, old) ∷ others

-- `delete(m.subs, room)`
unfoldable pub delete_room : List ℕ → Subscribers → Subscribers
delete_room room [] = []
delete_room room ((name, subs) ∷ rest) =
    let others = delete_room room rest in
    if list_same name room then others else (name, subs) ∷ others

pub record Memory : Type 0 where
  pub subs : Subscribers
  pub closed : Bool
  -- The subscriptions whose `once` has run.
  pub done : List ℕ

-- NewMemory
unfoldable pub new_memory : Memory
new_memory = record { subs = []; closed = false; done = [] }

unfoldable pub deliveries : List ℕ → Envelope → List (ℕ × Envelope)
deliveries [] env = []
deliveries (sub ∷ subs) env = (sub, env) ∷ deliveries subs env

-- Memory.Publish: the calls of `deliver`.
unfoldable pub publish : Memory → List ℕ → Envelope → Result (List (ℕ × Envelope))
publish m room env =
    if m.closed
    then err bus_closed
    else and_then (Envelope.encode env) (λ raw.
      and_then (Envelope.decode raw) (λ decoded. ok (deliveries (subs_of m.subs room) decoded)))

-- Memory.Subscribe, for the subscription `sub` that it makes.
unfoldable pub subscribe : Memory → List ℕ → ℕ → Result Memory
subscribe m room sub =
    if m.closed
    then err bus_closed
    else ok (record m { subs = set_subs room (subs_of m.subs room ++ (sub ∷ [])) m.subs })

unfoldable pub remove_first : ℕ → List ℕ → List ℕ
remove_first sub [] = []
remove_first sub (x ∷ xs) = let rest = remove_first sub xs in if x == sub then xs else x ∷ rest

unfoldable pub drop_if_empty : List ℕ → List ℕ → Subscribers → Subscribers
drop_if_empty room [] m = delete_room room m
drop_if_empty room (x ∷ xs) m = m

-- The function that `once` runs.
unfoldable pub remove_sub : List ℕ → ℕ → Subscribers → Subscribers
remove_sub room sub m =
    let subs = subs_of m room in
    let left = remove_first sub subs in
    if member sub subs
    then drop_if_empty room left (set_subs room left m)
    else drop_if_empty room subs m

-- memorySub.Close
unfoldable pub close_sub : Memory → List ℕ → ℕ → Memory
close_sub m room sub =
    if member sub m.done
    then m
    else record m { subs = remove_sub room sub m.subs; done = sub ∷ m.done }

-- Memory.Close
unfoldable pub close : Memory → Memory
close m = record m { closed = true }
