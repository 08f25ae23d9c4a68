-- ===== src/Storage/SpaceGuard/Examples.antt =====
-- A write of 5000 bytes in one blob and one segment, in units of 4096 bytes.
use holo.Prelude.{◌+◌, ◌≤◌, ◌≡◌, refl, checked_add, checked_mul, arith}
use holo.Prelude.Outcome.{ok}
use holo.Storage.SpaceGuard.{
  space_reserve_bytes, round_up_to_allocation_unit, ensure_capacity, checked_sum,
  estimate_write_peak_bytes,
}
use holo.Storage.SpaceGuard.Bounds.{IsWholeUnits, ensure_capacity_fits}

estimated : estimate_write_peak_bytes 5000 1 1 100 4096 ≡ ok 12563
unfolding estimate_write_peak_bytes round_up_to_allocation_unit checked_sum checked_add checked_mul
estimated = refl

ensure_capacity_fits_example :
    IsWholeUnits 5000 1 1 100 4096 12563 × (12563 + space_reserve_bytes ≤ 70000000)
ensure_capacity_fits_example =
    ensure_capacity_fits 70000000 5000 1 1 100 4096 space_reserve_bytes 12563 (omega arith)
      (omega arith) estimated (unfold ensure_capacity checked_add in refl)
