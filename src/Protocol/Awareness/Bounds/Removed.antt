-- ===== src/Protocol/Awareness/Bounds/Removed.antt =====
-- The removals keep a room well-formed too.
use crdt_server.Base.{
  ℕ, ◌+◌, ◌-◌, ◌≤◌, ◌≡◌, refl, sym, ◌∙◌, List, [], ◌∷◌, Bool, true, false, not, ◌&&◌, none, some,
  leb, length, if◌then◌else◌, ◌==◌, All, All-map, arith, inl, inr, Bool-cases, Option-cases,
}
use crdt_server.Base.GoMap.{
  GoMap, lookup, get, lookup-insert, IsDistinct, insert-IsDistinct, All-insert, length-insert,
  sort_ascending, All-sort_ascending,
}
use crdt_server.Protocol.Awareness.{Entry, Awareness, entry_of, count_present, forget_after}
use crdt_server.Protocol.Awareness.Removal.{
  remove_one, remove_each, remove, remove_some, filter_present, remove_clients, keep_recent,
  stale_clients, sweep,
}
use crdt_server.Protocol.Awareness.Bounds.{IsSmall, IsWellFormed}
use crdt_server.Protocol.Awareness.Bounds.Forget.{one, is_present, count_present-insert}

-- A client with an entry.
abbrev IsKnown : GoMap Entry → ℕ → Type 0
IsKnown m id = (e : Entry) × (lookup id m ≡ some e)

removed_count :
    (b : Bool) (n m c : ℕ) → n ≡ m → c + one b ≡ m + one false → (if b then n - 1 else n) ≡ c
removed_count true n m c h k = omega (arith, h, k)
removed_count false n m c h k = omega (arith, h, k)

removed_few : (b : Bool) {n m : ℕ} → n ≤ m → (if b then n - 1 else n) ≤ m
removed_few true h = omega (arith, h)
removed_few false h = h

here : (k : ℕ) (e : Entry) (m : GoMap Entry) → lookup k ((k, e) ∷ m) ≡ some e
unfolding lookup
here k e m = ground arith

behind : (k : ℕ) (e : Entry) (m : GoMap Entry) (j : ℕ) → IsKnown m j → IsKnown ((k, e) ∷ m) j
unfolding lookup
behind k e m j (x, l) = elim (Bool-cases (k == j)) [ inl b ↦ (e, rw b refl) | inr b ↦ (x, rw b l) ]

remove_one-IsWellFormed :
    (now id : ℕ) (a : Awareness)
    → IsKnown a.entries id
    → IsWellFormed a
    → IsWellFormed (remove_one now id a)
unfolding remove_one entry_of get
remove_one-IsWellFormed now id a (e, l) w =
    let gone = record e { present = false; state = []; last_updated = now } in
    let c = count_present-insert id gone a.entries in
    let n = rw l at (length-insert id gone a.entries) in
    rw (l, remove_one, entry_of, get)
      (record {
        distinct = insert-IsDistinct id gone a.entries w.distinct;
        counted = removed_count e.present a.present _ _ w.counted (rw (l, is_present, get) at c);
        few = λ p. (removed_few e.present (w.few p).0, omega (arith, n, (w.few p).1));
        small = All-insert (IsSmall a.limits) id gone a.entries (λ p. omega arith) w.small;
      })

-- A client stays known while others are removed.
remove_one-IsKnown :
    (now id j : ℕ) (a : Awareness) → IsKnown a.entries j → IsKnown (remove_one now id a).entries j
unfolding remove_one
remove_one-IsKnown now id j a (e, l) =
    let gone = record (entry_of a id) { present = false; state = []; last_updated = now } in
    elim (Bool-cases (id == j)) [
      | inl same ↦ (gone, lookup-insert id j gone a.entries ∙ rw same refl)
      | inr apart ↦ (e, lookup-insert id j gone a.entries ∙ rw apart l)
    ]

remove_each-IsWellFormed :
    (now : ℕ) (ids : List ℕ) (a : Awareness)
    → All (IsKnown a.entries) ids
    → IsWellFormed a
    → IsWellFormed (remove_each now ids a)
unfolding remove_each
remove_each-IsWellFormed now [] a h w = w
remove_each-IsWellFormed now (id ∷ ids) a (h, hs) w =
    remove_each-IsWellFormed now ids (remove_one now id a)
      (All-map ids (λ j. remove_one-IsKnown now id j a) hs) (remove_one-IsWellFormed now id a h w)

remove_some-IsWellFormed :
    (a : Awareness) (ids : List ℕ) (now : ℕ)
    → All (IsKnown a.entries) ids
    → IsWellFormed a
    → IsWellFormed (remove_some a ids now).0
unfolding remove_some remove
remove_some-IsWellFormed a [] now h w = w
remove_some-IsWellFormed a (id ∷ ids) now h w = remove_each-IsWellFormed now (id ∷ ids) a h w

filter_present-IsKnown :
    (a : Awareness) (ids : List ℕ) → All (IsKnown a.entries) (filter_present a ids)
unfolding filter_present
filter_present-IsKnown a [] = tt
filter_present-IsKnown a (id ∷ ids) = elim (Bool-cases (entry_of a id).present) [
  | inr p ↦ rw p (filter_present-IsKnown a ids)
  | inl p ↦ elim (Option-cases (lookup id a.entries)) [
    | inl l ↦ unfold entry_of in unfold get in cc (rw (l, entry_of, get) at p)
    | inr known ↦ rw p (known, filter_present-IsKnown a ids)
  ]
]

-- What a sweep keeps of the entries.
record Keeps (m r : GoMap Entry) : Type 1 where
  counted : count_present r ≡ count_present m
  distinct : IsDistinct m → IsDistinct r
  absent : (k : ℕ) → lookup k m ≡ none → lookup k r ≡ none
  all : (P : ℕ × Entry → Type 0) → All P m → All P r
  shorter : length r ≤ length m

keep_recent-Keeps : (now : ℕ) (m : GoMap Entry) → Keeps m (keep_recent now m)
unfolding keep_recent count_present IsDistinct lookup
keep_recent-Keeps now [] = record {
  counted = refl;
  distinct = λ d. d;
  absent = λ k h. h;
  all = λ P h. h;
  shorter = omega arith;
}
keep_recent-Keeps now ((k, e) ∷ m) =
    let rest = keep_recent-Keeps now m in
    elim (Bool-cases (not e.present && leb (e.last_updated + forget_after) now)) [
      | inr b ↦ rw b (record {
        counted = rw rest.counted refl;
        distinct = λ (h, hs). (rest.absent k h, rest.distinct hs);
        absent = λ j h. ground (arith, rest.absent j);
        all = λ P (h, hs). (h, rest.all P hs);
        shorter = omega (arith, rest.shorter);
      })
      | inl b ↦
          let gone : e.present ≡ false = ground arith in
          rw b (record {
            counted = rest.counted ∙ rw gone refl;
            distinct = λ (h, hs). rest.distinct hs;
            absent = λ j h. ground (arith, rest.absent j);
            all = λ P (h, hs). rest.all P hs;
            shorter = omega (arith, rest.shorter);
          })
    ]

-- The stale clients have entries that are kept.
stale_clients-IsKnown :
    (now ttl : ℕ) (m : GoMap Entry) → All (IsKnown (keep_recent now m)) (stale_clients now ttl m)
unfolding stale_clients keep_recent lookup
stale_clients-IsKnown now ttl [] = tt
stale_clients-IsKnown now ttl ((k, e) ∷ m) =
    let rest = stale_clients-IsKnown now ttl m in
    let kept = All-map (stale_clients now ttl m) (behind k e (keep_recent now m)) rest in
    elim (Bool-cases (not e.present && leb (e.last_updated + forget_after) now)) [
      | inl dropped ↦
          let fresh : (e.present && leb (e.last_updated + ttl) now) ≡ false = ground arith in
          rw (dropped, fresh) rest
      | inr stays ↦ elim (Bool-cases (e.present && leb (e.last_updated + ttl) now)) [
        | inl stale ↦ rw (stays, stale) ((e, here k e (keep_recent now m)), kept)
        | inr fresh ↦ rw (stays, fresh) kept
      ]
    ]

keep_recent-IsWellFormed :
    (now : ℕ) (a : Awareness)
    → IsWellFormed a
    → IsWellFormed (record a { entries = keep_recent now a.entries })
keep_recent-IsWellFormed now a w =
    let kept = keep_recent-Keeps now a.entries in
    record {
      distinct = kept.distinct w.distinct;
      counted = w.counted ∙ sym kept.counted;
      few = λ p. ((w.few p).0, omega (arith, (w.few p).1, kept.shorter));
      small = kept.all (IsSmall a.limits) w.small;
    }

-- Removing the clients of a connection, and the sweep for clients not heard from, leave a
-- well-formed room well-formed, whatever the clients, the time and the timeout are.
pub remove-IsWellFormed :
    (a : Awareness) (ids : List ℕ) (now ttl : ℕ)
    → IsWellFormed a
    → IsWellFormed (remove_clients a ids now).0 × IsWellFormed (sweep a now ttl).0
unfolding remove_clients sweep
remove-IsWellFormed a ids now ttl w = (
  remove_some-IsWellFormed a (filter_present a ids) now (filter_present-IsKnown a ids) w,
  remove_some-IsWellFormed (record a { entries = keep_recent now a.entries })
      (sort_ascending (stale_clients now ttl a.entries)) now
      (All-sort_ascending (IsKnown (keep_recent now a.entries)) (stale_clients now ttl a.entries)
        (stale_clients-IsKnown now ttl a.entries))
      (keep_recent-IsWellFormed now a w),
)
