-- ===== src/Crdt/Doc/Progress.antt =====
-- The loops of integrate and retryPending end, and structs that a document has are dropped.
use crdt_server.Base.{
  ℕ, zero, suc, ◌+◌, ◌≤◌, ◌<◌, ◌≡◌, ◌≢◌, refl, sym, ap, ◌∙◌, List, [], ◌∷◌, leb, ◌==◌, length, All,
  All-append, arith, Bool-cases, ==_refl, suc_add, inl, inr,
}
use crdt_server.Crdt.Struct.{Struct, gc, skip, item, struct_id, struct_len}
use crdt_server.Crdt.Update.{ClientBlock}
use crdt_server.Crdt.Store.{state}
use crdt_server.Crdt.Store.Gapless.{IsSound}
use crdt_server.Crdt.Doc.{Doc}
use crdt_server.Crdt.Doc.Ready.{state-bound}
use crdt_server.Crdt.Doc.Sound.{Turn-cases}
use crdt_server.Crdt.Doc.Queue.{
  taken, offer, offer_head, Queues, enqueue, enqueue_all, drain, drain_all, turns, waiting,
  rest_blocks, integrate, retry_once, retry_loop, count_pending,
}

not_below : (n : ℕ) → n < 0 → ⊥
not_below n h = omega (arith, h)

longer : (m n : ℕ) → m ≤ n → m ≡ suc n → ⊥
longer m n h k = omega (arith, h, k)

length-drain : (d : Doc) (queue : List Struct) → length (drain d queue).1 ≤ length queue
unfolding drain
length-drain d [] = omega arith
length-drain d (s ∷ queue) = elim (Turn-cases (offer d s)) [
  | inl k ↦ rw (k, drain) (omega arith)
  | inr (e, k) ↦ rw (k, drain) (omega (arith, length-drain e queue))
]

waiting-drain_all : (d : Doc) (qs : Queues) → waiting (drain_all d qs).1 ≤ waiting qs
unfolding waiting drain_all
waiting-drain_all d [] = omega arith
waiting-drain_all d ((client, queue) ∷ qs) =
    omega (arith, length-drain d queue, waiting-drain_all (drain d queue).0 qs)

-- A turn that leaves a queue as long as it was has taken nothing from it.
drain-same :
    (d : Doc) (queue : List Struct)
    → length (drain d queue).1 ≡ length queue
    → drain d queue ≡ (d, queue)
unfolding drain
drain-same d [] h = refl
drain-same d (s ∷ queue) h = elim (Turn-cases (offer d s)) [
  | inl k ↦ rw (k, drain) refl
  | inr (e, k) ↦
      let h' = rw (k, drain) at h in
      absurd (longer (length (drain e queue).1) (length queue) (length-drain e queue) h')
]

drain_all-same :
    (d : Doc) (qs : Queues) → waiting (drain_all d qs).1 ≡ waiting qs → drain_all d qs ≡ (d, qs)
unfolding waiting drain_all
drain_all-same d [] h = refl
drain_all-same d ((client, queue) ∷ qs) h =
    let first = length-drain d queue in
    let others = waiting-drain_all (drain d queue).0 qs in
    let one = drain-same d queue (omega (arith, first, others, h)) in
    let rest : drain_all d qs ≡ (d, qs) = drain_all-same d qs (
      ap (λ e. waiting (drain_all e qs).1) (sym (ap (λ q. q.0) one))
      ∙ omega (arith, first, others, h)) in
    rw one (rw rest refl)

-- With more fuel than there are structs waiting, the loop of integrate ends by its own test: yet
-- more fuel gives the same, and one more turn over the queues that are left changes neither them
-- nor the document.
pub turns-drain_all :
    (fuel more : ℕ) (d : Doc) (qs : Queues)
    → waiting qs < fuel
    → (turns (fuel + more) d qs ≡ turns fuel d qs)
      × (drain_all (turns fuel d qs).0 (turns fuel d qs).1 ≡ turns fuel d qs)
unfolding turns
turns-drain_all zero more d qs h = absurd (not_below (waiting qs) h)
turns-drain_all (suc fuel) more d qs h =
    let p = drain_all d qs in
    let less = waiting-drain_all d qs in
    rw (suc_add fuel more) (elim (Bool-cases (waiting p.1 == waiting qs)) [
      | inl e ↦
          let same : p ≡ (d, qs) = drain_all-same d qs (ground arith) in
          rw e (refl, ap (λ (q : Doc × Queues). drain_all q.0 q.1) same)
      | inr e ↦
          let differ : waiting p.1 ≢ waiting qs = ground arith in
          rw e (turns-drain_all fuel more p.0 p.1 (omega (arith, less, differ, h)))
    ])

-- The loop of retryPending with more fuel than there are structs that wait ends by its own test:
-- yet more fuel does not change the document.
pub retry_loop-count_pending :
    (fuel more : ℕ) (d : Doc)
    → count_pending d.pending < fuel
    → retry_loop (fuel + more) d ≡ retry_loop fuel d
unfolding retry_loop
retry_loop-count_pending zero more d h = absurd (not_below (count_pending d.pending) h)
retry_loop-count_pending (suc fuel) more d h =
    let e = retry_once d in
    rw (suc_add fuel more)
      (elim (Bool-cases (leb (count_pending d.pending) (count_pending e.pending))) [
        | inl k ↦ rw k refl
        | inr k ↦
            let fewer : count_pending e.pending < count_pending d.pending = ground arith in
            rw k (retry_loop-count_pending fuel more e (omega (arith, fewer, h)))
      ])

-- The document has every unit of the struct.
abbrev pub IsPresent : Doc → Struct → Type 0
IsPresent d s = (struct_id s).clock + struct_len s ≤ state d.store (struct_id s).client

offer_head-IsPresent :
    (d : Doc) (s : Struct) → IsSound d.store → IsPresent d s → offer_head d s ≡ taken d
unfolding offer_head
offer_head-IsPresent d s g h =
    let bound = state-bound d.store (struct_id s).client g in ground (arith, h, bound)

offer-IsPresent : (d : Doc) (s : Struct) → IsSound d.store → IsPresent d s → offer d s ≡ taken d
unfolding offer
offer-IsPresent d (skip id n) g h = refl
offer-IsPresent d (gc id n) g h = offer_head-IsPresent d (gc id n) g h
offer-IsPresent d (item it) g h = offer_head-IsPresent d (item it) g h

drain-IsPresent :
    (d : Doc) (queue : List Struct)
    → IsSound d.store
    → All (IsPresent d) queue
    → drain d queue ≡ (d, [])
unfolding drain
drain-IsPresent d [] g h = refl
drain-IsPresent d (s ∷ queue) g (h, hs) =
    rw (offer-IsPresent d s g h, drain) (drain-IsPresent d queue g hs)

abbrev HasAll : Doc → ℕ × List Struct → Type 0
HasAll d q = All (IsPresent d) q.1

-- What is left of queues that are drained at once.
unfoldable emptied : Queues → Queues
emptied [] = []
emptied ((client, queue) ∷ qs) = (client, []) ∷ emptied qs

drain_all-IsPresent :
    (d : Doc) (qs : Queues) → IsSound d.store → All (HasAll d) qs → drain_all d qs ≡ (d, emptied qs)
unfolding drain_all emptied
drain_all-IsPresent d [] g h = refl
drain_all-IsPresent d ((client, queue) ∷ qs) g (h, hs) =
    rw (drain-IsPresent d queue g h) (rw (drain_all-IsPresent d qs g hs) refl)

HasAll-emptied : (d : Doc) (qs : Queues) → All (HasAll d) (emptied qs)
unfolding emptied
HasAll-emptied d [] = tt
HasAll-emptied d ((client, queue) ∷ qs) = (tt, HasAll-emptied d qs)

emptied_twice : (qs : Queues) → emptied (emptied qs) ≡ emptied qs
unfolding emptied
emptied_twice [] = refl
emptied_twice ((client, queue) ∷ qs) = ap (λ rest. (client, []) ∷ rest) (emptied_twice qs)

rest_blocks-emptied : (qs : Queues) → rest_blocks (emptied qs) ≡ []
unfolding rest_blocks emptied
rest_blocks-emptied [] = refl
rest_blocks-emptied ((client, queue) ∷ qs) = rest_blocks-emptied qs

turns-emptied :
    (fuel : ℕ) (d : Doc) (qs : Queues)
    → IsSound d.store
    → turns fuel d (emptied qs) ≡ (d, emptied qs)
unfolding turns
turns-emptied zero d qs g = refl
turns-emptied (suc fuel) d qs g =
    let one : drain_all d (emptied qs) ≡ (d, emptied qs) =
      drain_all-IsPresent d (emptied qs) g (HasAll-emptied d qs)
      ∙ ap (λ r. (d, r)) (emptied_twice qs) in
    rw one (rw (==_refl (waiting (emptied qs))) refl)

turns-IsPresent :
    (fuel : ℕ) (d : Doc) (qs : Queues)
    → IsSound d.store
    → All (HasAll d) qs
    → turns (suc fuel) d qs ≡ (d, emptied qs)
unfolding turns
turns-IsPresent fuel d qs g h =
    rw (drain_all-IsPresent d qs g h) (elim (Bool-cases (waiting (emptied qs) == waiting qs)) [
      | inl e ↦ rw e refl
      | inr e ↦ rw e (turns-emptied fuel d qs g)
    ])

enqueue-HasAll :
    (d : Doc) (b : ClientBlock) (qs : Queues)
    → All (IsPresent d) b.structs
    → All (HasAll d) qs
    → All (HasAll d) (enqueue b qs)
unfolding enqueue
enqueue-HasAll d b [] h g = (h, tt)
enqueue-HasAll d b ((client, queue) ∷ qs) h (g, gs) = elim (Bool-cases (client == b.client)) [
  | inl e ↦ rw e (All-append (IsPresent d) queue b.structs g h, gs)
  | inr e ↦ rw e (g, enqueue-HasAll d b qs h gs)
]

enqueue_all-HasAll :
    (d : Doc) (bs : List ClientBlock) (qs : Queues)
    → All (λ (b : ClientBlock). All (IsPresent d) b.structs) bs
    → All (HasAll d) qs
    → All (HasAll d) (enqueue_all bs qs)
unfolding enqueue_all
enqueue_all-HasAll d [] qs h g = g
enqueue_all-HasAll d (b ∷ bs) qs (h, hs) g =
    enqueue_all-HasAll d bs (enqueue b qs) hs (enqueue-HasAll d b qs h g)

-- Integrating blocks of structs whose every unit a sound document has already does not change the
-- document: an update may be delivered again.
pub integrate-IsPresent :
    (d : Doc) (bs : List ClientBlock)
    → IsSound d.store
    → All (λ (b : ClientBlock). All (IsPresent d) b.structs) bs
    → integrate d bs ≡ d
unfolding integrate
integrate-IsPresent d bs g h =
    let qs = enqueue_all bs [] in
    rw
      (
        turns-IsPresent (waiting qs) d qs g (enqueue_all-HasAll d bs [] h tt),
        rest_blocks-emptied qs,
      )
      refl
