-- ===== src/Storage/SpaceGuard.antt =====
-- The arithmetic of the space guard: data-plane/src/storage/space_guard.rs.
pub mod Bounds
mod Examples
use holo.Prelude.{
  ℕ, ◌+◌, ◌-◌, ◌*◌, ◌%◌, ltb, leb, ◌==◌, Bool, true, false, not, Option, none, some, List, [], ◌∷◌,
  if◌then◌else◌, checked_add, checked_mul,
}
use holo.Prelude.Outcome.{Result, ok, err, and_then, ensure, ok_or}
use holo.Storage.Error.{
  SpaceGuardError, insufficient_space, arithmetic_overflow, invalid_allocation_unit,
}

abbrev pub space_reserve_bytes : ℕ
space_reserve_bytes = 67108864

abbrev pub blob_record_overhead : ℕ
blob_record_overhead = 175

abbrev pub segment_overhead : ℕ
segment_overhead = 100

unfoldable pub round_up_to_allocation_unit : ℕ → ℕ → Result SpaceGuardError ℕ
round_up_to_allocation_unit bytes allocation_unit =
    let remainder = bytes % allocation_unit in
    if allocation_unit == 0
    then err invalid_allocation_unit
    else if bytes == 0
    then ok 0
    else if remainder == 0
    then ok bytes
    else ok_or (checked_add bytes (allocation_unit - remainder)) arithmetic_overflow

unfoldable pub ensure_capacity : ℕ → ℕ → ℕ → Result SpaceGuardError (Unit {0})
ensure_capacity available_bytes peak_extra_bytes reserve_bytes =
    and_then (ok_or (checked_add peak_extra_bytes reserve_bytes) arithmetic_overflow) λ required.
      ensure (leb required available_bytes) (insufficient_space available_bytes required)

-- `try_fold` with checked additions.
unfoldable pub checked_sum : ℕ → List ℕ → Result SpaceGuardError ℕ
checked_sum sum [] = ok sum
checked_sum sum (value ∷ values) =
    and_then (ok_or (checked_add sum value) arithmetic_overflow) λ next. checked_sum next values

unfoldable pub estimate_write_peak_bytes : ℕ → ℕ → ℕ → ℕ → ℕ → Result SpaceGuardError ℕ
estimate_write_peak_bytes payload_bytes blob_count touched_segments temporary allocation_unit =
    and_then (round_up_to_allocation_unit payload_bytes allocation_unit) λ payload.
      and_then (ok_or (checked_mul blob_count blob_record_overhead) arithmetic_overflow) λ records.
        and_then (ok_or (checked_mul touched_segments segment_overhead) arithmetic_overflow)
          λ segments.
            and_then (round_up_to_allocation_unit temporary allocation_unit)
              λ metadata. checked_sum 0 (payload ∷ records ∷ segments ∷ metadata ∷ [])
