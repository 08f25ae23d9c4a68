-- ===== src/Storage/SpaceGuard/Bounds.antt =====
-- Estimates and admission against what is written: data-plane/src/storage/space_guard.rs.
use native.Mathlib.Nat.{mod-lt, mod-add-mod, mod_self, zero-mod}
use holo.Prelude.{
  sym, ap, ◌∙◌, ℕ, ◌+◌, ◌-◌, ◌*◌, ◌%◌, ◌≤◌, ◌<◌, ◌≡◌, refl, ◌==◌, checked_add, checked_mul, u64_max,
  arith, inl, inr, Bool-cases,
}
use holo.Prelude.Outcome.{Result, ok, err}
use holo.Storage.Error.{SpaceGuardError}
use holo.Storage.SpaceGuard.{
  blob_record_overhead, segment_overhead, round_up_to_allocation_unit, ensure_capacity, checked_sum,
  estimate_write_peak_bytes,
}

filled_up : (bytes unit : ℕ) → 1 ≤ unit → (bytes + (unit - bytes % unit)) % unit ≡ 0
filled_up bytes unit h =
    let below : bytes % unit < unit = mod-lt bytes (omega arith) in
    let whole : bytes % unit + (unit - bytes % unit) ≡ unit = omega arith in
    sym (mod-add-mod bytes unit (unit - bytes % unit)) ∙ ap (λ n. n % unit) whole ∙ mod_self unit

-- Rounding up gives a multiple of the unit that is at least the bytes, by less than a unit more.
pub round_up_to_allocation_unit_least :
    (bytes unit r : ℕ)
    → bytes ≤ u64_max
    → round_up_to_allocation_unit bytes unit ≡ ok r
    → (bytes ≤ r) × ((r < bytes + unit) × ((r % unit ≡ 0) × (r ≤ u64_max)))
unfolding round_up_to_allocation_unit checked_add
round_up_to_allocation_unit_least bytes unit r b e = elim (Bool-cases (unit == 0)) [
  | inl z ↦ ground arith
  | inr z ↦
      let below : bytes % unit < unit = mod-lt bytes (ground arith) in
      ground (arith, filled_up bytes unit, zero-mod unit)
]

-- What an estimate stands on: the fewest whole units that are enough for the payload and for the
-- temporary metadata.
pub record IsWholeUnits (payload blobs segments temporary unit r : ℕ) : Type 0 where
  pub payload_units : ℕ
  pub metadata_units : ℕ
  pub payload_fits : payload ≤ payload_units
  pub payload_least : payload_units < payload + unit
  pub payload_whole : payload_units % unit ≡ 0
  pub metadata_fits : temporary ≤ metadata_units
  pub metadata_least : metadata_units < temporary + unit
  pub metadata_whole : metadata_units % unit ≡ 0
  pub summed :
      payload_units + blobs * blob_record_overhead + segments * segment_overhead + metadata_units
      ≡ r
  pub in_word : r ≤ u64_max

module _ (payload blobs segments temporary unit r : ℕ) (p : payload ≤ u64_max)
    (t : temporary ≤ u64_max)
    (e : estimate_write_peak_bytes payload blobs segments temporary unit ≡ ok r) where
  rounded_sum :
      (a b : Result SpaceGuardError ℕ)
      → round_up_to_allocation_unit payload unit ≡ a
      → round_up_to_allocation_unit temporary unit ≡ b
      → IsWholeUnits payload blobs segments temporary unit r
  unfolding estimate_write_peak_bytes checked_mul checked_sum checked_add
  rounded_sum (err x) b f g = absurd (ground arith)
  rounded_sum (ok m) (err x) f g = absurd (ground arith)
  rounded_sum (ok m) (ok n) f g =
      let (pf, (pl, (pw, pb))) = round_up_to_allocation_unit_least payload unit m p f in
      let (tf, (tl, (tw, tb))) = round_up_to_allocation_unit_least temporary unit n t g in
      record {
        payload_units = m;
        metadata_units = n;
        payload_fits = pf;
        payload_least = pl;
        payload_whole = pw;
        metadata_fits = tf;
        metadata_least = tl;
        metadata_whole = tw;
        summed = ground arith;
        in_word = ground arith;
      }

  pub estimate_write_peak_bytes-IsWholeUnits : IsWholeUnits payload blobs segments temporary unit r
  estimate_write_peak_bytes-IsWholeUnits =
      rounded_sum (round_up_to_allocation_unit payload unit)
        (round_up_to_allocation_unit temporary unit) refl refl

-- A write whose estimate is admitted has room, beside the reserve, for the fewest whole units that
-- hold the payload, the fewest that hold the temporary metadata, and for the allowance of each
-- blob and each touched segment. The two byte counts are within 64 bits.
pub ensure_capacity_fits :
    (available payload blobs segments temporary unit reserve r : ℕ)
    → payload ≤ u64_max
    → temporary ≤ u64_max
    → estimate_write_peak_bytes payload blobs segments temporary unit ≡ ok r
    → ensure_capacity available r reserve ≡ ok tt
    → IsWholeUnits payload blobs segments temporary unit r × (r + reserve ≤ available)
unfolding ensure_capacity checked_add
ensure_capacity_fits available payload blobs segments temporary unit reserve r p t e c = (
  estimate_write_peak_bytes-IsWholeUnits payload blobs segments temporary unit r p t e,
  ground (arith, c),
)
