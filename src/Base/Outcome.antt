-- ===== src/Base/Outcome.antt =====
-- Go's (value, error) pairs: the errors of every package modelled here, and the result type.
use Prim.Native.Nat.{ℕ}
use mathlib.Core.Path.{◌≡◌, refl}
use mathlib.Core.Logic.{◌⊎◌, inl, inr}

-- The error variables of the packages, under their own names. `slice_out_of_range` is no error
-- value of Go: it stands for the run-time panic of an index or slice expression.
pub data Error : Type 0 where
  unexpected_eof integer_out_of_range negative_length unknown_any_tag : Error
  unsupported_type depth_exceeded : Error
  unknown_content_ref unknown_type_ref corrupt_update : Error
  missing_struct clock_gap not_splittable split_surrogate : Error
  unknown_message_type unknown_sync_type unknown_auth_type : ℕ → Error
  trailing_bytes awareness_clock_out_of_range state_too_large too_many_clients : Error
  unknown_version unknown_kind origin_out_of_range : Error
  bus_closed no_versioning wrong_owner manager_closed too_many_rooms stale_snapshot no_document :
      Error
  slice_out_of_range : Error

-- A value or the error in its place.
pub data Result {ℓ} (Value : Type ℓ) : Type ℓ where
  err : Error → Result Value
  ok : Value → Result Value

module _ {ℓ κ} {Value : Type ℓ} {Next : Type κ} where
  -- What follows a call that may fail: `if err != nil { return nil, err }`.
  abbrev pub and_then : Result Value → (Value → Result Next) → Result Next
  and_then (ok v) next = next v
  and_then (err e) next = err e

  -- Both the call and what follows it succeed.
  pub and_then-eq-ok :
      (call : Result Value) (next : Value → Result Next) {result : Next}
      → and_then call next ≡ ok result
      → (v : Value) × (call ≡ ok v) × (next v ≡ ok result)
  and_then-eq-ok (ok v) next h = (v, refl, h)
  and_then-eq-ok (err e) next h = cc

pub Result-cases {ℓ} :
    {A : Type ℓ} (r : Result A) → ((e : Error) × (r ≡ err e)) ⊎ ((a : A) × (r ≡ ok a))
Result-cases (ok a) = inr (a, refl)
Result-cases (err e) = inl (e, refl)
