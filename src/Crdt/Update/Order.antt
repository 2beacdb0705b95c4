-- ===== src/Crdt/Update/Order.antt =====
-- The order in which the blocks of an update are written.
use crdt_server.Base.{
  ℕ, ◌≤◌, ◌≡◌, refl, ap, ◌∙◌, List, [], ◌∷◌, Bool, true, false, ◌&&◌, ◌==◌, ltb, All, All-map,
  arith, Bool-cases, inl, inr, if◌then◌else◌,
}
use crdt_server.Crdt.Update.{
  ClientBlock, is_descending_by_client, insert_block, sort_blocks, ordered,
}

-- Every block's client is at least the clients of those behind it.
abbrev pub IsFalling : List ClientBlock → Type 0
IsFalling [] = Unit {0}
IsFalling (b ∷ bs) = All (λ x. x.client ≤ b.client) bs × IsFalling bs

-- The blocks of one client, in their order.
unfoldable pub blocks_of : ℕ → List ClientBlock → List ClientBlock
blocks_of client [] = []
blocks_of client (b ∷ bs) =
    let rest = blocks_of client bs in if b.client == client then b ∷ rest else rest

insert_block-All :
    (P : ClientBlock → Type 0) (b : ClientBlock) (xs : List ClientBlock)
    → P b
    → All P xs
    → All P (insert_block b xs)
unfolding insert_block
insert_block-All P b [] p h = (p, tt)
insert_block-All P b (x ∷ xs) p (h, hs) = elim (Bool-cases (ltb b.client x.client)) [
  | inl e ↦ rw e (h, insert_block-All P b xs p hs)
  | inr e ↦ rw e (p, (h, hs))
]

insert_block-IsFalling :
    (b : ClientBlock) (xs : List ClientBlock) → IsFalling xs → IsFalling (insert_block b xs)
unfolding insert_block
insert_block-IsFalling b [] h = (tt, tt)
insert_block-IsFalling b (x ∷ xs) (h, hs) = elim (Bool-cases (ltb b.client x.client)) [
  | inl e ↦ rw e (
    insert_block-All (λ y. y.client ≤ x.client) b xs (ground (arith, e)) h,
    insert_block-IsFalling b xs hs,
  )
  | inr e ↦
      let least : x.client ≤ b.client = ground (arith, e) in
      rw e ((least, All-map xs (λ y k. omega (arith, k, least)) h), (h, hs))
]

sort_blocks-IsFalling : (bs : List ClientBlock) → IsFalling (sort_blocks bs)
unfolding sort_blocks
sort_blocks-IsFalling [] = tt
sort_blocks-IsFalling (b ∷ bs) =
    insert_block-IsFalling b (sort_blocks bs) (sort_blocks-IsFalling bs)

and-true : (a b : Bool) → a && b ≡ true → (a ≡ true) × (b ≡ true)
and-true true b h = (refl, h)
and-true false b h = cc

descending-IsFalling : (bs : List ClientBlock) → is_descending_by_client bs ≡ true → IsFalling bs
unfolding is_descending_by_client
descending-IsFalling [] h = tt
descending-IsFalling (b ∷ []) h = (tt, tt)
descending-IsFalling (a ∷ b ∷ bs) h =
    let (lower, rest) = and-true (ltb b.client a.client) (is_descending_by_client (b ∷ bs)) h in
    let (below, falls) = descending-IsFalling (b ∷ bs) rest in
    let least : b.client ≤ a.client = ground (arith, lower) in
    ((least, All-map bs (λ y k. omega (arith, k, least)) below), (below, falls))

pub ordered-IsFalling : (bs : List ClientBlock) → IsFalling (ordered bs)
unfolding ordered
ordered-IsFalling bs = elim (Bool-cases (is_descending_by_client bs)) [
  | inl e ↦ rw (e, ordered) (descending-IsFalling bs e)
  | inr e ↦ rw (e, ordered) (sort_blocks-IsFalling bs)
]

-- A block that another client's block passes stays among its own.
swap_lem :
    (c : ℕ) (b x : ClientBlock) (rest : List ClientBlock)
    → ltb b.client x.client ≡ true
    → (if x.client == c
        then x ∷ (if b.client == c then b ∷ rest else rest)
        else (if b.client == c then b ∷ rest else rest))
      ≡ (if b.client == c
          then b ∷ (if x.client == c then x ∷ rest else rest)
          else (if x.client == c then x ∷ rest else rest))
swap_lem c b x rest h = elim (Bool-cases (b.client == c)) [
  | inr k ↦ rw k refl
  | inl k ↦ let apart : (x.client == c) ≡ false = ground (arith, h, k) in rw (k, apart) refl
]

blocks_of-insert_block :
    (c : ℕ) (b : ClientBlock) (xs : List ClientBlock)
    → blocks_of c (insert_block b xs) ≡ blocks_of c (b ∷ xs)
unfolding blocks_of insert_block
blocks_of-insert_block c b [] = refl
blocks_of-insert_block c b (x ∷ xs) = elim (Bool-cases (ltb b.client x.client)) [
  | inr e ↦ rw e refl
  | inl e ↦ rw e (
      ap (λ rest. if x.client == c then x ∷ rest else rest) (blocks_of-insert_block c b xs)
      ∙ swap_lem c b x (blocks_of c xs) e)
]

blocks_of-sort_blocks :
    (c : ℕ) (bs : List ClientBlock) → blocks_of c (sort_blocks bs) ≡ blocks_of c bs
unfolding blocks_of sort_blocks
blocks_of-sort_blocks c [] = refl
blocks_of-sort_blocks c (b ∷ bs) =
    blocks_of-insert_block c b (sort_blocks bs)
    ∙ ap (λ rest. if b.client == c then b ∷ rest else rest) (blocks_of-sort_blocks c bs)

pub blocks_of-ordered : (c : ℕ) (bs : List ClientBlock) → blocks_of c (ordered bs) ≡ blocks_of c bs
unfolding ordered
blocks_of-ordered c bs = elim (Bool-cases (is_descending_by_client bs)) [
  | inl e ↦ rw (e, ordered) refl
  | inr e ↦ rw (e, ordered) (blocks_of-sort_blocks c bs)
]
