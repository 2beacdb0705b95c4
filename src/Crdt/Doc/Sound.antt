-- ===== src/Crdt/Doc/Sound.antt =====
-- Applying updates keeps a document well formed and takes no clock back.
use native.Mathlib.Nat.{le_refl}
use crdt_server.Base.{
  ℕ, zero, suc, ◌≤◌, ◌≡◌, ◌⊎◌, refl, List, [], ◌∷◌, leb, ◌==◌, All, All-append, arith, Bool-cases,
  inl, inr,
}
use crdt_server.Crdt.Struct.{Struct}
use crdt_server.Crdt.Update.{Update, ClientBlock}
use crdt_server.Crdt.Store.{state}
use crdt_server.Crdt.Store.Gapless.{IsSound}
use crdt_server.Crdt.Doc.{Doc}
use crdt_server.Crdt.Doc.Ready.{IsBounded, Advances, Advances-same, Advances-then, offer-Advances}
use crdt_server.Crdt.Doc.Queue.{
  Turn, blocked, taken, offer, Queues, enqueue, enqueue_all, drain, drain_all, turns, waiting,
  rest_blocks, keep_pending, integrate, integrate_each, retry_once, retry_loop, count_pending,
}

abbrev pub IsBoundedBlock : ClientBlock → Type 0
IsBoundedBlock b = All IsBounded b.structs

-- An update none of whose structs ends beyond what an int64 holds.
abbrev pub IsBoundedUpdate : Update → Type 0
IsBoundedUpdate u = All IsBoundedBlock u.clients

-- The invariant of a document: its store has no gap, and the updates that wait are bounded.
pub record IsWellFormed (d : Doc) : Type 0 where
  pub sound : IsSound d.store
  pub bounded : All IsBoundedUpdate d.pending

-- A well-formed document, whose clocks are those of `d` or later ones.
pub record Improves (d e : Doc) : Type 0 where
  pub well : IsWellFormed e
  pub later : (client : ℕ) → state d.store client ≤ state e.store client

abbrev IsBoundedQueue : ℕ × List Struct → Type 0
IsBoundedQueue q = All IsBounded q.1

pub Turn-cases : (t : Turn) → (t ≡ blocked) ⊎ ((e : Doc) × (t ≡ taken e))
Turn-cases blocked = inl refl
Turn-cases (taken e) = inr (e, refl)

drain-Advances :
    (d : Doc) (queue : List Struct)
    → IsSound d.store
    → All IsBounded queue
    → Advances d (drain d queue).0 × All IsBounded (drain d queue).1
unfolding drain
drain-Advances d [] g b = (Advances-same d, tt)
drain-Advances d (s ∷ queue) g (b, bs) = elim (Turn-cases (offer d s)) [
  | inl k ↦ rw (k, drain) (Advances-same d, (b, bs))
  | inr (e, k) ↦
      let first = offer-Advances d s e g b k in
      let (rest, left) = drain-Advances e queue (first.grows.sound g) bs in
      rw (k, drain) (Advances-then first rest, left)
]

drain_all-Advances :
    (d : Doc) (qs : Queues)
    → IsSound d.store
    → All IsBoundedQueue qs
    → Advances d (drain_all d qs).0 × All IsBoundedQueue (drain_all d qs).1
unfolding drain_all
drain_all-Advances d [] g b = (Advances-same d, tt)
drain_all-Advances d ((client, queue) ∷ qs) g (b, bs) =
    let (first, left) = drain-Advances d queue g b in
    let (rest, others) = drain_all-Advances (drain d queue).0 qs (first.grows.sound g) bs in
    (Advances-then first rest, (left, others))

turns-Advances :
    (fuel : ℕ) (d : Doc) (qs : Queues)
    → IsSound d.store
    → All IsBoundedQueue qs
    → Advances d (turns fuel d qs).0 × All IsBoundedQueue (turns fuel d qs).1
unfolding turns
turns-Advances zero d qs g b = (Advances-same d, b)
turns-Advances (suc fuel) d qs g b =
    let p = drain_all d qs in
    let (first, left) = drain_all-Advances d qs g b in
    let (rest, others) = turns-Advances fuel p.0 p.1 (first.grows.sound g) left in
    elim (Bool-cases (waiting p.1 == waiting qs)) [
      | inl e ↦ rw e (first, left)
      | inr e ↦ rw e (Advances-then first rest, others)
    ]

enqueue-IsBoundedQueue :
    (b : ClientBlock) (qs : Queues)
    → IsBoundedBlock b
    → All IsBoundedQueue qs
    → All IsBoundedQueue (enqueue b qs)
unfolding enqueue
enqueue-IsBoundedQueue b [] h g = (h, tt)
enqueue-IsBoundedQueue b ((client, queue) ∷ qs) h (g, gs) = elim (Bool-cases (client == b.client)) [
  | inl e ↦ rw e (All-append IsBounded queue b.structs g h, gs)
  | inr e ↦ rw e (g, enqueue-IsBoundedQueue b qs h gs)
]

enqueue_all-IsBoundedQueue :
    (bs : List ClientBlock) (qs : Queues)
    → All IsBoundedBlock bs
    → All IsBoundedQueue qs
    → All IsBoundedQueue (enqueue_all bs qs)
unfolding enqueue_all
enqueue_all-IsBoundedQueue [] qs h g = g
enqueue_all-IsBoundedQueue (b ∷ bs) qs (h, hs) g =
    enqueue_all-IsBoundedQueue bs (enqueue b qs) hs (enqueue-IsBoundedQueue b qs h g)

rest_blocks-IsBoundedBlock :
    (qs : Queues) → All IsBoundedQueue qs → All IsBoundedBlock (rest_blocks qs)
unfolding rest_blocks
rest_blocks-IsBoundedBlock [] h = tt
rest_blocks-IsBoundedBlock ((client, []) ∷ qs) (h, hs) = rest_blocks-IsBoundedBlock qs hs
rest_blocks-IsBoundedBlock ((client, s ∷ queue) ∷ qs) (h, hs) =
    (h, rest_blocks-IsBoundedBlock qs hs)

keep_pending-Improves :
    (bs : List ClientBlock) (d : Doc)
    → All IsBoundedBlock bs
    → IsWellFormed d
    → Improves d (keep_pending bs d)
keep_pending-Improves [] d h w = record { well = w; later = λ c. le_refl (state d.store c) }
keep_pending-Improves (b ∷ bs) d h w = record {
  well = record {
    sound = w.sound;
    bounded = All-append IsBoundedUpdate d.pending _ w.bounded (h, tt);
  };
  later = λ c. le_refl (state d.store c);
}

pub Improves-then : {d e f : Doc} → Improves d e → Improves e f → Improves d f
Improves-then h k = record { well = k.well; later = λ c. omega (arith, h.later c, k.later c) }

-- A document with another store that grew, and updates that wait as before.
pub Advances-Improves : {d e : Doc} → IsWellFormed d → Advances d e → Improves d e
Advances-Improves w a = record {
  well = record { sound = a.grows.sound w.sound; bounded = rw a.pending w.bounded };
  later = λ c. a.grows.more c w.sound;
}

-- Integrating the blocks of an update keeps a document well formed and takes no clock back.
pub integrate-Improves :
    (d : Doc) (bs : List ClientBlock)
    → IsWellFormed d
    → All IsBoundedBlock bs
    → Improves d (integrate d bs)
unfolding integrate
integrate-Improves d bs w h =
    let qs = enqueue_all bs [] in
    let (first, left) =
      turns-Advances (suc (waiting qs)) d qs w.sound (enqueue_all-IsBoundedQueue bs [] h tt) in
    let moved = Advances-Improves w first in
    Improves-then moved (keep_pending-Improves _ _ (rest_blocks-IsBoundedBlock _ left) moved.well)

integrate_each-Improves :
    (d : Doc) (us : List Update)
    → IsWellFormed d
    → All IsBoundedUpdate us
    → Improves d (integrate_each d us)
unfolding integrate_each
integrate_each-Improves d [] w h = record { well = w; later = λ c. le_refl (state d.store c) }
integrate_each-Improves d (u ∷ us) w (h, hs) =
    let first = integrate-Improves d u.clients w h in
    Improves-then first (integrate_each-Improves (integrate d u.clients) us first.well hs)

retry_once-Improves : (d : Doc) → IsWellFormed d → Improves d (retry_once d)
unfolding retry_once
retry_once-Improves d w =
    let rest =
      integrate_each-Improves (record d { pending = [] }) d.pending
        (record { sound = w.sound; bounded = tt }) w.bounded in
    record { well = rest.well; later = rest.later }

pub retry_loop-Improves : (fuel : ℕ) (d : Doc) → IsWellFormed d → Improves d (retry_loop fuel d)
unfolding retry_loop
retry_loop-Improves zero d w = record { well = w; later = λ c. le_refl (state d.store c) }
retry_loop-Improves (suc fuel) d w =
    let e = retry_once d in
    let first = retry_once-Improves d w in
    elim (Bool-cases (leb (count_pending d.pending) (count_pending e.pending))) [
      | inl k ↦ rw k first
      | inr k ↦ rw k (Improves-then first (retry_loop-Improves fuel e first.well))
    ]
