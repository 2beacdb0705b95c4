-- ===== src/Crdt/DeleteSet/Query.antt =====
-- DeleteSet.Add and DeleteSet.IsDeleted, against the clocks that the ranges cover.
use crdt_server.Base.{
  ℕ, zero, suc, ◌+◌, ◌^◌, ◌<◌, ◌≤◌, ◌≡◌, refl, sym, ap, ◌∙◌, List, [], ◌∷◌, ◌++◌, Bool, true, false,
  ◌&&◌, ◌||◌, Option, none, some, ltb, leb, ◌==◌, length, if◌then◌else◌, is_positive, All, arith,
  inl, inr, Bool-cases,
}
use crdt_server.Base.GoMap
use crdt_server.Base.GoMap.{lookup, insert, lookup-insert}
use crdt_server.Crdt.{StructId}
use crdt_server.Crdt.DeleteSet.{
  DeleteRange, DeleteSet, range, end_of, ranges_of, add, at_range, is_deleted, merge, sort_ranges,
}
use crdt_server.Crdt.DeleteSet.Merge.{
  in_range, covers, covers-cons, IsBounded, IsNormal, IsApartFrom, merge-sort_ranges,
}
use crdt_server.Crdt.DeleteSet.Search.{Divides, search_first-Divides}

-- The test of the search.
abbrev ends_behind : ℕ → DeleteRange → Bool
ends_behind c r = ltb c (end_of r)

-- Behind the end of a range of a normal form nothing is covered at or before it.
covers-before :
    (rs : List DeleteRange) (e c : ℕ)
    → IsApartFrom e rs
    → All IsBounded rs
    → c ≤ e
    → covers rs c ≡ false
unfolding covers IsApartFrom
covers-before [] e c a b h = refl
covers-before (r ∷ rs) e c (lt, a) (b, bs) h =
    rw (covers-before rs (end_of r) c a bs (omega (arith, lt, h, b))) (ground arith)

up_lem :
    (rs : List DeleteRange) (e c : ℕ)
    → IsApartFrom e rs
    → All IsBounded rs
    → c < e
    → (k : ℕ) → k < length rs
    → at_range rs (ends_behind c) k ≡ true
unfolding IsApartFrom
up_lem [] e c a b h k hk = absurd (omega (arith, hk))
up_lem (r ∷ rs) e c (lt, a) (b, bs) h zero hk = ground arith
up_lem (r ∷ rs) e c (lt, a) (b, bs) h (suc k) hk =
    up_lem rs (end_of r) c a bs (omega (arith, lt, h, b)) k (omega (arith, hk))

IsNormal-tail : (r : DeleteRange) (rs : List DeleteRange) → IsNormal (r ∷ rs) → IsNormal rs
unfolding IsNormal IsApartFrom
IsNormal-tail r [] n = tt
IsNormal-tail r (x ∷ xs) (lt, a) = a

-- The ends of ranges in normal form ascend.
ends-ascend :
    (rs : List DeleteRange) (c : ℕ)
    → IsNormal rs
    → All IsBounded rs
    → (a b : ℕ) → a ≤ b
    → b < length rs
    → at_range rs (ends_behind c) a ≡ true
    → at_range rs (ends_behind c) b ≡ true
unfolding IsNormal
ends-ascend [] c n bs a b h hb t = absurd (omega (arith, hb))
ends-ascend (r ∷ rs) c n (b, bs) zero zero h hb t = t
ends-ascend (r ∷ rs) c n (b, bs) zero (suc j) h hb t =
    up_lem rs (end_of r) c n bs (ground arith) j (omega (arith, hb))
ends-ascend (r ∷ rs) c n (b, bs) (suc i) zero h hb t = absurd (omega (arith, h))
ends-ascend (r ∷ rs) c n (b, bs) (suc i) (suc j) h hb t =
    ends-ascend rs c (IsNormal-tail r rs n) bs i j (omega (arith, h)) (omega (arith, hb)) t

-- The range at the index that divides the ranges is the only one that may cover the clock.
covers-Divides :
    (rs : List DeleteRange) (c i : ℕ)
    → IsNormal rs
    → All IsBounded rs
    → Divides (length rs) (at_range rs (ends_behind c)) i
    → covers rs c ≡ (ltb i (length rs) && at_range rs (λ r. leb r.clock c) i)
unfolding IsNormal
covers-Divides [] c i n b d = unfold covers in ground (arith, d.in_bounds)
covers-Divides (r ∷ rs) c zero n (b, bs) d =
    let first = d.above 0 (omega arith) (omega arith) in
    covers-cons r rs c ∙ rw (covers-before rs (end_of r) c n bs (ground arith)) (ground arith)
covers-Divides (r ∷ rs) c (suc i) n (b, bs) d =
    let first = d.below 0 (omega arith) in
    let rest = covers-Divides rs c i (IsNormal-tail r rs n) bs (record {
      in_bounds = omega (arith, d.in_bounds);
      below = λ k h. d.below (suc k) (omega (arith, h));
      above = λ k h h'. d.above (suc k) (omega (arith, h)) (omega (arith, h'));
    }) in
    covers-cons r rs c ∙ rw rest (ground arith)

-- Ranges in normal form for each client.
abbrev pub IsNormalSet : DeleteSet → Type 0
IsNormalSet ds = (client : ℕ) → IsNormal (ranges_of ds client) × All IsBounded (ranges_of ds client)

-- The search tells exactly the clocks that a range covers.
is_deleted-covers :
    (ds : DeleteSet) (id : StructId)
    → IsNormalSet ds
    → is_deleted ds id ≡ covers (ranges_of ds id.client) id.clock
unfolding is_deleted
is_deleted-covers ds id n =
    let rs = ranges_of ds id.client in
    let (normal, bounded) = n id.client in
    sym (
      covers-Divides rs id.clock _ normal bounded (
        search_first-Divides (length rs) (at_range rs (ends_behind id.clock))
          (ends-ascend rs id.clock normal bounded)))

All-append :
    (rs : List DeleteRange) (r : DeleteRange)
    → All IsBounded rs
    → IsBounded r
    → All IsBounded (rs ++ (r ∷ []))
All-append [] r h b = (b, tt)
All-append (x ∷ xs) r (h, hs) b = (h, All-append xs r hs b)

covers-append :
    (rs : List DeleteRange) (r : DeleteRange) (c : ℕ)
    → covers (rs ++ (r ∷ [])) c ≡ (covers rs c || in_range r c)
unfolding covers
covers-append [] r c = ground arith
covers-append (x ∷ xs) r c = ground (arith, covers-append xs r c)

ranges_of-insert :
    (ds : DeleteSet) (client : ℕ) (rs : List DeleteRange) (c : ℕ)
    → ranges_of (insert client rs ds) c ≡ (if client == c then rs else ranges_of ds c)
unfolding ranges_of GoMap.get
ranges_of-insert ds client rs c =
    ap
      (λ (o : Option (List DeleteRange)). elim o as (λ _. List DeleteRange) [
        | none ↦ []
        | some v ↦ v
      ])
      (lookup-insert client c rs ds)
    ∙ (elim (Bool-cases (client == c)) [ inl e ↦ rw e refl | inr e ↦ rw e refl ])

-- What Add does for a positive length.
abbrev added : DeleteSet → ℕ → ℕ → ℕ → List DeleteRange
added ds client clock len = merge (sort_ranges (ranges_of ds client ++ (range clock len ∷ [])))

insert-IsNormalSet :
    (ds : DeleteSet) (client : ℕ) (rs : List DeleteRange)
    → IsNormalSet ds
    → IsNormal rs
    → All IsBounded rs
    → IsNormalSet (insert client rs ds)
insert-IsNormalSet ds client rs n h b c = elim (Bool-cases (client == c)) [
  | inl e ↦
      let at : ranges_of (insert client rs ds) c ≡ rs =
        ranges_of-insert ds client rs c ∙ rw e refl in
      rw at (h, b)
  | inr e ↦
      let at : ranges_of (insert client rs ds) c ≡ ranges_of ds c =
        ranges_of-insert ds client rs c ∙ rw e refl in
      rw at (n c)
]

add_lem :
    (ds : DeleteSet) (client clock len c k : ℕ)
    → IsNormalSet ds
    → clock + len < 2 ^ 64
    → covers (ranges_of (insert client (added ds client clock len) ds) c) k
      ≡ (covers (ranges_of ds c) k || (client == c && leb clock k && ltb k (clock + len)))
add_lem ds client clock len c k n h =
    let rs = ranges_of ds client in
    let (_, _, same) =
      merge-sort_ranges (rs ++ (range clock len ∷ []))
        (All-append rs (range clock len) (n client).1 h) in
    let at = ranges_of-insert ds client (added ds client clock len) c in
    elim (Bool-cases (client == c)) [
      | inl e ↦
          let one : client ≡ c = ground arith in
          let exact : in_range (range clock len) k ≡ (leb clock k && ltb k (clock + len)) =
            ground arith in
          rw (at, e)
            (same k
              ∙ covers-append rs (range clock len) k
              ∙ ap (λ b. covers rs k || b) exact
              ∙ ap (λ j. covers (ranges_of ds j) k || (leb clock k && ltb k (clock + len))) one)
      | inr e ↦ rw (at, e) (ground arith)
    ]

-- Adding a range whose end a uint64 holds keeps the ranges of every client in normal form, and
-- then exactly the clocks of the range are deleted besides those that were.
pub add-is_deleted :
    (ds : DeleteSet) (client clock len : ℕ) (id : StructId)
    → IsNormalSet ds
    → clock + len < 2 ^ 64
    → len < 2 ^ 63
    → IsNormalSet (add ds client clock len)
      × (is_deleted (add ds client clock len) id ≡ (
          is_deleted ds id
          || (client == id.client && leb clock id.clock && ltb id.clock (clock + len))))
unfolding add
add-is_deleted ds client clock len id n h small =
    let rs = ranges_of ds client in
    let (normal, bounded, _) =
      merge-sort_ranges (rs ++ (range clock len ∷ []))
        (All-append rs (range clock len) (n client).1 h) in
    let after = insert-IsNormalSet ds client (added ds client clock len) n normal bounded in
    elim (Bool-cases (is_positive len)) [
      | inr e ↦ rw e (n, ground arith)
      | inl e ↦ rw e (
        after,
        is_deleted-covers (insert client (added ds client clock len) ds) id after
            ∙ add_lem ds client clock len id.client id.clock n h
            ∙ ap
                (λ x.
                  x || (client == id.client && leb clock id.clock && ltb id.clock (clock + len)))
                (sym (is_deleted-covers ds id n)),
      )
    ]
