-- ===== src/Crdt/Update/Vector.antt =====
-- Update.StateVector against its description: for each client, the last clock behind its blocks.
use crdt_server.Base.{
  u64, ◌+◌, ◌^◌, ◌<◌, All, ℕ, ◌≡◌, refl, ap, ◌∙◌, List, [], ◌∷◌, ltb, ◌==◌, if◌then◌else◌, arith,
  Bool-cases, true, false, inl, inr, Option, none, some,
}
use crdt_server.Base.GoMap
use crdt_server.Base.GoMap.{insert, lookup-insert}
use crdt_server.Crdt.StateVector
use crdt_server.Crdt.StateVector.{StateVector}
use crdt_server.Crdt.Struct.{Struct, struct_len}
use crdt_server.Crdt.Update.{
  ClientBlock, Update, end_clock, note_block, state_vector_from, state_vector,
}

abbrev larger : ℕ → ℕ → ℕ
larger a b = if ltb a b then b else a

-- How many clocks the structs take up together.
unfoldable pub total_len : List Struct → ℕ
total_len [] = 0
total_len (s ∷ ss) = struct_len s + total_len ss

u64_sum : (a b : ℕ) → u64 (u64 a + b) ≡ u64 (a + b)
u64_sum a b = omega arith

in_range : (a : ℕ) → a < 2 ^ 64 → a ≡ u64 a
in_range a h = omega (arith, h)

plus_assoc : (a b c : ℕ) → (a + b) + c ≡ a + (b + c)
plus_assoc a b c = omega arith

end_clock-u64 :
    (ss : List Struct) (clock : ℕ) → end_clock (u64 clock) ss ≡ u64 (clock + total_len ss)
unfolding end_clock total_len
end_clock-u64 [] clock = omega arith
end_clock-u64 (s ∷ ss) clock =
    ap (λ c. end_clock c ss) (u64_sum clock (struct_len s))
    ∙ end_clock-u64 ss (clock + struct_len s)
    ∙ ap (λ c. u64 c) (plus_assoc clock (struct_len s) (total_len ss))

-- A block's start is a uint64.
abbrev pub StartsInRange : ClientBlock → Type 0
StartsInRange b = b.start_clock < 2 ^ 64

end_clock-total_len :
    (b : ClientBlock)
    → StartsInRange b
    → end_clock b.start_clock b.structs ≡ u64 (b.start_clock + total_len b.structs)
end_clock-total_len b h =
    ap (λ c. end_clock c b.structs) (in_range b.start_clock h)
    ∙ end_clock-u64 b.structs b.start_clock

-- The largest clock at which a block of the client ends, 0 if it has no block.
unfoldable pub latest : ℕ → List ClientBlock → ℕ
latest client [] = 0
latest client (b ∷ bs) =
    let rest = latest client bs in
    if b.client == client then larger (u64 (b.start_clock + total_len b.structs)) rest else rest

get-insert :
    (sv : StateVector) (client clock c : ℕ)
    → StateVector.get (insert client clock sv) c
      ≡ (if client == c then clock else StateVector.get sv c)
unfolding StateVector.get GoMap.get
get-insert sv client clock c =
    ap (λ (o : Option ℕ). elim o as (λ _. ℕ) [ none ↦ 0 | some v ↦ v ])
      (lookup-insert client c clock sv)
    ∙ (elim (Bool-cases (client == c)) [ inl e ↦ rw e refl | inr e ↦ rw e refl ])

own :
    (sv : StateVector) (client c clock : ℕ)
    → ltb (StateVector.get sv client) clock ≡ true
    → (if client == c then clock else StateVector.get sv c)
      ≡ (if client == c then larger (StateVector.get sv c) clock else StateVector.get sv c)
own sv client c clock h = ground arith

other :
    (sv : StateVector) (client c clock : ℕ)
    → ltb (StateVector.get sv client) clock ≡ false
    → StateVector.get sv c
      ≡ (if client == c then larger (StateVector.get sv c) clock else StateVector.get sv c)
other sv client c clock h = ground arith

get-note_block :
    (sv : StateVector) (b : ClientBlock) (c : ℕ)
    → StateVector.get (note_block sv b) c ≡ (
        if b.client == c
        then larger (StateVector.get sv c) (end_clock b.start_clock b.structs)
        else StateVector.get sv c)
unfolding note_block
get-note_block sv b c =
    let clock = end_clock b.start_clock b.structs in
    elim (Bool-cases (ltb (StateVector.get sv b.client) clock)) [
      | inl e ↦ rw (e, note_block) (get-insert sv b.client clock c ∙ own sv b.client c clock e)
      | inr e ↦ rw (e, note_block) (other sv b.client c clock e)
    ]

get-state_vector_from :
    (bs : List ClientBlock) (sv : StateVector) (c : ℕ)
    → All StartsInRange bs
    → StateVector.get (state_vector_from sv bs) c ≡ larger (StateVector.get sv c) (latest c bs)
unfolding state_vector_from latest
get-state_vector_from [] sv c h = ground arith
get-state_vector_from (b ∷ bs) sv c (h, hs) =
    get-state_vector_from bs (note_block sv b) c hs
    ∙ rw (get-note_block sv b c, end_clock-total_len b h) (ground arith)

empty_lem : (c n : ℕ) → larger (StateVector.get [] c) n ≡ n
unfolding StateVector.get GoMap.get GoMap.lookup
empty_lem c n = ground arith

-- The state vector of an update whose blocks start at a uint64 has for every client the largest
-- clock at which one of its blocks ends, which is its start and the lengths of its structs added
-- up as uint64, and 0 for a client without a block.
pub get-state_vector :
    (u : Update) (c : ℕ)
    → All StartsInRange u.clients
    → StateVector.get (state_vector u) c ≡ latest c u.clients
unfolding state_vector
get-state_vector u c h = get-state_vector_from u.clients [] c h ∙ empty_lem c (latest c u.clients)
