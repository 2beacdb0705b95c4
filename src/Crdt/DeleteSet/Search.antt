-- ===== src/Crdt/DeleteSet/Search.antt =====
-- sort.Search finds the first index at which a test that stays true becomes true.
use crdt_server.Base.{
  ℕ, zero, suc, ◌+◌, ◌-◌, ◌/◌, ◌<◌, ◌≤◌, ◌≡◌, Bool, true, false, ltb, arith, inl, inr, Bool-cases,
}
use crdt_server.Crdt.DeleteSet.{search_loop, search_first}

-- `i` divides the indices below `n` by the test.
pub record Divides (n : ℕ) (f : ℕ → Bool) (i : ℕ) : Type 0 where
  pub in_bounds : i ≤ n
  pub below : (k : ℕ) → k < i → f k ≡ false
  pub above : (k : ℕ) → i ≤ k → k < n → f k ≡ true

module _ (n : ℕ) (f : ℕ → Bool) (up : (a b : ℕ) → a ≤ b → b < n → f a ≡ true → f b ≡ true) where
  not_above : (k h : ℕ) → k ≤ h → h < n → f h ≡ false → f k ≡ false
  not_above k h le lt e = elim (Bool-cases (f k)) [
    | inr b ↦ b
    | inl b ↦ let t = up k h le lt b in cc (t, e)
  ]

  search_loop-Divides :
      (rounds i j : ℕ)
      → i ≤ j
      → j ≤ n
      → j - i ≤ rounds
      → ((k : ℕ) → k < i → f k ≡ false)
      → ((k : ℕ) → j ≤ k → k < n → f k ≡ true)
      → Divides n f (search_loop rounds f i j)
  unfolding search_loop
  search_loop-Divides zero i j h hn enough below above = record {
    in_bounds = omega (arith, h, hn);
    below = below;
    above = λ k hk hkn. above k (omega (arith, enough, h, hk)) hkn;
  }
  search_loop-Divides (suc rounds) i j h hn enough below above = elim (Bool-cases (ltb i j)) [
    | inr b ↦ rw b (record {
      in_bounds = omega (arith, h, hn);
      below = below;
      above = λ k hk hkn. above k (ground arith) hkn;
    })
    | inl b ↦
        let lt : i < j = ground arith in
        elim (Bool-cases (f ((i + j) / 2))) [
          | inl t ↦
              rw (b, t)
                (search_loop-Divides rounds i ((i + j) / 2) (omega (arith, lt))
                  (omega (arith, lt, hn)) (omega (arith, lt, enough)) below
                  (λ k hk hkn. up ((i + j) / 2) k hk hkn t))
          | inr t ↦
              rw (b, t)
                (search_loop-Divides rounds ((i + j) / 2 + 1) j (omega (arith, lt)) hn
                  (omega (arith, lt, enough))
                  (λ k hk. not_above k ((i + j) / 2) (omega (arith, hk)) (omega (arith, lt, hn)) t)
                  above)
        ]
  ]

  -- For a test that stays true once it is true, the search of `n` indices ends within the rounds
  -- that it is given, at an index below which the test fails and from which on it holds.
  pub search_first-Divides : Divides n f (search_first n f)
  unfolding search_first
  search_first-Divides =
      search_loop-Divides n 0 n (omega arith) (omega arith) (omega arith)
        (λ k h. absurd (omega (arith, h))) (λ k h h'. absurd (omega (arith, h, h')))
