-- ===== src/Drive/Partitions/Capacity.antt =====
-- The capacity of the medium and of the partition in use: data-plane/src/iscsi/cdb_drive.rs. The
-- capacity that the drive's profile has by itself is an argument.
use Prim.Native.Nat.{zero, suc}
use holo.Prelude.{
  ℕ, ◌+◌, ◌-◌, ◌≤◌, ◌<◌, ◌≡◌, refl, min, ◌==◌, Bool, false, not, ◌&&◌, Option, none, some, List, [],
  ◌∷◌, length, arith, if◌then◌else◌, u64_max,
}
use holo.Prelude.Outcome.{ok}
use holo.Drive.{byte_or_zero}
use holo.Drive.Partitions.{PartitionRuntime, partition_size_to_units, apply_format_medium_layout}
use holo.Drive.Partitions.Sums.{sum}
use holo.Drive.Partitions.Layout.{apply_format_medium_layout_full}

pub record MediumState : Type 0 where
  pub cartridge_capacity_bytes : Option ℕ
  pub partition_runtime : PartitionRuntime

-- The capacity of the cartridge, if it is known and not 0.
unfoldable pub medium_capacity_bytes_for_state : ℕ → MediumState → ℕ
medium_capacity_bytes_for_state native s = elim s.cartridge_capacity_bytes [
  | none ↦ native
  | some capacity ↦ if capacity == 0 then native else capacity
]

unfoldable pub has_custom_capacity_override : ℕ → MediumState → Bool
has_custom_capacity_override native s = elim s.cartridge_capacity_bytes [
  | none ↦ false
  | some capacity ↦ not (capacity == 0) && not (capacity == native)
]

abbrev single_partition : ℕ → PartitionRuntime → PartitionRuntime
single_partition capacity_bytes r =
    if r.addl_partitions_defined == 0
    then record {
      partition_units = 9;
      addl_partitions_defined = 0;
      fdp = 0x9C;
      medium_fmt_recognition = 0x03;
      partition_size_units = partition_size_to_units capacity_bytes 9 ∷ 0 ∷ 0 ∷ 0 ∷ [];
      partition_sizes_bytes = capacity_bytes ∷ 0 ∷ 0 ∷ 0 ∷ [];
      active_partition = 0;
    }
    else r

unfoldable pub apply_medium_capacity_override : ℕ → MediumState → MediumState
apply_medium_capacity_override capacity_bytes s = if capacity_bytes == 0 then s else record {
  cartridge_capacity_bytes = some capacity_bytes;
  partition_runtime = single_partition capacity_bytes s.partition_runtime;
}

-- The position of the partition in use, among at most four.
abbrev active_index : PartitionRuntime → ℕ
active_index r = min r.active_partition (min (r.addl_partitions_defined + 1) 4 - 1)

unfoldable pub active_partition_capacity_bytes : ℕ → MediumState → ℕ
active_partition_capacity_bytes native s =
    let configured =
      byte_or_zero (active_index s.partition_runtime) s.partition_runtime.partition_sizes_bytes in
    if configured == 0 then medium_capacity_bytes_for_state native s else configured

-- FORMAT MEDIUM on the state, with the capacity that the state gives.
unfoldable pub format_state : ℕ → ℕ → ℕ → MediumState → MediumState
format_state native max_addl format s = record s {
  partition_runtime =
      (apply_format_medium_layout (medium_capacity_bytes_for_state native s) max_addl format
        s.partition_runtime).1;
}

entry_within : (i : ℕ) (xs : List ℕ) → byte_or_zero i xs ≤ sum xs
unfolding sum
entry_within i [] = omega arith
entry_within zero (x ∷ xs) = omega arith
entry_within (suc i) (x ∷ xs) = omega (arith, entry_within i xs)

configured_within :
    (native capacity : ℕ) (s : MediumState)
    → medium_capacity_bytes_for_state native s ≡ capacity
    → byte_or_zero (active_index s.partition_runtime) s.partition_runtime.partition_sizes_bytes
      ≤ capacity
    → active_partition_capacity_bytes native s ≤ capacity
unfolding active_partition_capacity_bytes
configured_within native capacity s e l = ground arith

capacity_kept :
    (native max_addl format : ℕ) (s : MediumState)
    → medium_capacity_bytes_for_state native (format_state native max_addl format s)
      ≡ medium_capacity_bytes_for_state native s
unfolding medium_capacity_bytes_for_state format_state
capacity_kept native max_addl format s = refl

-- After a successful FORMAT MEDIUM the partition in use has no more than the medium, whichever is
-- in use, if the capacity is below 2^64 - 1 and the sizes of the mode page are four.
pub active_partition_capacity_bytes_within :
    (native max_addl format : ℕ) (s : MediumState)
    → medium_capacity_bytes_for_state native s < u64_max
    → length s.partition_runtime.partition_size_units ≡ 4
    → (apply_format_medium_layout
        (medium_capacity_bytes_for_state native s)
        max_addl
        format
        s.partition_runtime).0
      ≡ ok tt
    → active_partition_capacity_bytes native (format_state native max_addl format s)
      ≤ medium_capacity_bytes_for_state native s
active_partition_capacity_bytes_within native max_addl format s c n h =
    let capacity = medium_capacity_bytes_for_state native s in
    let after = (apply_format_medium_layout capacity max_addl format s.partition_runtime).1 in
    let whole =
      apply_format_medium_layout_full capacity max_addl format s.partition_runtime c n h in
    let part = entry_within (active_index after) after.partition_sizes_bytes in
    let inside : byte_or_zero (active_index after) after.partition_sizes_bytes ≤ capacity =
      omega (arith, whole, part) in
    configured_within native capacity (format_state native max_addl format s)
      (capacity_kept native max_addl format s) (unfold format_state in inside)
