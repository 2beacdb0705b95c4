-- ===== src/Cluster/Memory/Delivery.antt =====
-- What a bus delivers, and what is left of a subscription that was closed.
use crdt_server.Base.{
  ℕ, List, [], ◌∷◌, ◌++◌, true, false, ◌≡◌, refl, sym, ap, ◌∙◌, ◌==◌, ==_refl, if◌then◌else◌,
  list_same, list_same_refl, list_same→eq, if-cases, Bool-cases, inl, inr, Result, ok,
}
use mathlib.Core.List.{map}
use crdt_server.Base.GoMap.{member}
use crdt_server.Cluster.Envelope.{Envelope}
use crdt_server.Cluster.Envelope.RoundTrip.{IsSendable, decode-encode_envelope}
use crdt_server.Cluster.Memory.{
  Subscribers, subs_of, set_subs, delete_room, Memory, deliveries, publish, subscribe, remove_first,
  drop_if_empty, remove_sub, close_sub,
}

-- Two names that differ are not both the same as a third.
apart :
    (name room r : List ℕ)
    → list_same name room ≡ false
    → list_same name r ≡ true
    → list_same room r ≡ false
apart name room r e k = elim (Bool-cases (list_same room r)) [
  | inr x ↦ x
  | inl x ↦
      let same : name ≡ room = list_same→eq name r k ∙ sym (list_same→eq room r x) in
      let yes : list_same name room ≡ true =
        ap (λ n. list_same n room) same ∙ list_same_refl room in
      cc
]

-- Reading a room after the subscribers of one are set.
subs_of-set_subs :
    (room subs : List ℕ) (m : Subscribers) (r : List ℕ)
    → subs_of (set_subs room subs m) r ≡ (if list_same room r then subs else subs_of m r)
unfolding subs_of set_subs
subs_of-set_subs room subs [] r = refl
subs_of-set_subs room subs ((name, old) ∷ rest) r = elim (Bool-cases (list_same name room)) [
  | inl e ↦
      let one : list_same room r ≡ list_same name r =
        ap (λ x. list_same x r) (sym (list_same→eq name room e)) in
      rw e (elim (Bool-cases (list_same name r)) [
        | inl k ↦ rw (k, one ∙ k) refl
        | inr k ↦ rw (k, one ∙ k) refl
      ])
  | inr e ↦ rw e (elim (Bool-cases (list_same name r)) [
    | inl k ↦ rw (k, apart name room r e k) refl
    | inr k ↦ rw k (subs_of-set_subs room subs rest r)
  ])
]

ok-eq : {a b : Memory} → ◌≡◌ {A = Result Memory} (ok a) (ok b) → a ≡ b
ok-eq h = cc

publish_lem :
    (m : Memory) (room : List ℕ) (env : Envelope)
    → IsSendable env
    → m.closed ≡ false
    → publish m room env ≡ ok (deliveries (subs_of m.subs room) env)
unfolding publish
publish_lem m room env h c =
    let (raw, sent, got) = decode-encode_envelope env h in rw (c, sent, got, publish) refl

deliveries-to_each :
    (ids : List ℕ) (env : Envelope) → deliveries ids env ≡ map (λ id. (id, env)) ids
unfolding deliveries
deliveries-to_each [] env = refl
deliveries-to_each (id ∷ ids) env = ap (λ ds. (id, env) ∷ ds) (deliveries-to_each ids env)

-- A bus that is open delivers an envelope which can be sent to every subscription of its room, in
-- the order in which they subscribed, and as it was sent: a subscription made before is the last of
-- its room, and no other room has it.
pub publish-subscribe :
    (m n : Memory) (room r : List ℕ) (sub : ℕ) (env : Envelope)
    → IsSendable env
    → subscribe m room sub ≡ ok n
    → publish n r env
      ≡ ok (
          map
            (λ id. (id, env))
            (if list_same room r then subs_of m.subs room ++ (sub ∷ []) else subs_of m.subs r))
unfolding subscribe publish
publish-subscribe m n room r sub env h e = elim (if-cases m.closed e) [
  | inl (c, k) ↦ cc
  | inr (c, k) ↦
      let made : record m { subs = set_subs room (subs_of m.subs room ++ (sub ∷ [])) m.subs } ≡ n =
        ok-eq k in
      publish_lem n r env h (ap (λ (x : Memory). x.closed) (sym made) ∙ c)
      ∙ ap (λ (x : Memory). ok (deliveries (subs_of x.subs r) env)) (sym made)
      ∙ ap (λ ids. ok (deliveries ids env))
          (subs_of-set_subs room (subs_of m.subs room ++ (sub ∷ [])) m.subs r)
      ∙ ap (λ ds. ok ds) (deliveries-to_each _ env)
]

member-append : (x : ℕ) (xs : List ℕ) → member x (xs ++ (x ∷ [])) ≡ true
unfolding member
member-append x [] = rw (==_refl x) refl
member-append x (y ∷ ys) = elim (Bool-cases (y == x)) [
  | inl e ↦ rw e refl
  | inr e ↦ rw e (member-append x ys)
]

remove_first-append :
    (x : ℕ) (xs : List ℕ) → member x xs ≡ false → remove_first x (xs ++ (x ∷ [])) ≡ xs
unfolding member remove_first
remove_first-append x [] h = rw (==_refl x) refl
remove_first-append x (y ∷ ys) h = elim (Bool-cases (y == x)) [
  | inl e ↦ let h' = rw e at h in cc h'
  | inr e ↦ let h' = rw e at h in rw e (ap (λ r. y ∷ r) (remove_first-append x ys h'))
]

subs_of-delete_room :
    (room : List ℕ) (m : Subscribers) (r : List ℕ)
    → subs_of (delete_room room m) r ≡ (if list_same room r then [] else subs_of m r)
unfolding subs_of delete_room
subs_of-delete_room room [] r = elim (Bool-cases (list_same room r)) [
  | inl k ↦ rw k refl
  | inr k ↦ rw k refl
]
subs_of-delete_room room ((name, old) ∷ rest) r = elim (Bool-cases (list_same name room)) [
  | inl e ↦
      let one : list_same room r ≡ list_same name r =
        ap (λ x. list_same x r) (sym (list_same→eq name room e)) in
      rw e (
        subs_of-delete_room room rest r ∙ (elim (Bool-cases (list_same name r)) [
          | inl k ↦ rw (k, one ∙ k) refl
          | inr k ↦ rw (k, one ∙ k) refl
        ]))
  | inr e ↦ rw e (elim (Bool-cases (list_same name r)) [
    | inl k ↦ rw (k, apart name room r e k) refl
    | inr k ↦ rw k (subs_of-delete_room room rest r)
  ])
]

subs_of-drop_if_empty :
    (room left : List ℕ) (m : Subscribers) (r : List ℕ)
    → subs_of m room ≡ left
    → subs_of (drop_if_empty room left m) r ≡ subs_of m r
unfolding drop_if_empty
subs_of-drop_if_empty room (x ∷ xs) m r h = refl
subs_of-drop_if_empty room [] m r h =
    subs_of-delete_room room m r ∙ (elim (Bool-cases (list_same room r)) [
      | inl k ↦ rw k (sym h ∙ ap (λ x. subs_of m x) (list_same→eq room r k))
      | inr k ↦ rw k refl
    ])

removed :
    (room r : List ℕ) (sub : ℕ) (m : Subscribers)
    → member sub (subs_of m room) ≡ false
    → subs_of (remove_sub room sub (set_subs room (subs_of m room ++ (sub ∷ [])) m)) r ≡ subs_of m r
unfolding remove_sub
removed room r sub m new =
    let subs = subs_of m room in
    let more = set_subs room (subs ++ (sub ∷ [])) m in
    let there : subs_of more room ≡ subs ++ (sub ∷ []) =
      subs_of-set_subs room _ m room ∙ rw (list_same_refl room) refl in
    rw (there, member-append sub subs, remove_first-append sub subs new)
      (subs_of-drop_if_empty room subs (set_subs room subs more) r
          (subs_of-set_subs room subs more room ∙ rw (list_same_refl room) refl)
        ∙ subs_of-set_subs room subs more r
        ∙ (elim (Bool-cases (list_same room r)) [
          | inl k ↦ rw k (ap (λ x. subs_of m x) (list_same→eq room r k))
          | inr k ↦ rw k (subs_of-set_subs room _ m r ∙ rw k refl)
        ]))

-- Closing a subscription right after it was made leaves every room the subscriptions that it had.
-- The subscription must be new to its room and not have been closed before.
pub close_sub-subscribe :
    (m n : Memory) (room r : List ℕ) (sub : ℕ)
    → member sub (subs_of m.subs room) ≡ false
    → member sub m.done ≡ false
    → subscribe m room sub ≡ ok n
    → subs_of (close_sub n room sub).subs r ≡ subs_of m.subs r
unfolding subscribe close_sub
close_sub-subscribe m n room r sub new open_still e = elim (if-cases m.closed e) [
  | inl (c, k) ↦ cc
  | inr (c, k) ↦
      let more = set_subs room (subs_of m.subs room ++ (sub ∷ [])) m.subs in
      rw (← ok-eq k) (rw open_still (removed room r sub m.subs new))
]
