-- ===== src/Drive/Partitions/Examples.antt =====
-- Runs of FORMAT MEDIUM: data-plane/src/iscsi/cdb_drive.rs.
use holo.Prelude.{ℕ, ◌*◌, ◌≤◌, ◌≡◌, refl, some, List, [], ◌∷◌, arith}
use holo.Drive.Partitions.{PartitionRuntime, apply_format_medium_layout}
use holo.Drive.Partitions.Sums.{sum}
use holo.Drive.Partitions.Layout.{apply_format_medium_layout_full}
use holo.Drive.Partitions.Capacity.{
  MediumState, medium_capacity_bytes_for_state, active_partition_capacity_bytes, format_state,
  active_partition_capacity_bytes_within,
}

-- Two partitions in units of 10^9 bytes, the second of which takes what the first leaves.
abbrev two_partitions : PartitionRuntime
two_partitions = record {
  partition_units = 9;
  addl_partitions_defined = 1;
  fdp = 0x3C;
  medium_fmt_recognition = 3;
  partition_size_units = 37 ∷ 65535 ∷ 0 ∷ 0 ∷ [];
  partition_sizes_bytes = 107374182400 ∷ 0 ∷ 0 ∷ 0 ∷ [];
  active_partition = 0;
}

apply_format_medium_layout_full_example :
    sum (apply_format_medium_layout 107374182400 3 1 two_partitions).1.partition_sizes_bytes
    ≡ 107374182400
unfolding apply_format_medium_layout holo.Drive.Partitions.initialized
    holo.Drive.Partitions.validate_partition_definition holo.Drive.Partitions.partition_unit_bytes
    holo.Drive.Partitions.tally holo.Prelude.saturating_add holo.Drive.Partitions.saturating_mul
    holo.Drive.Partitions.format_sizes holo.Drive.Partitions.unit_layout
    holo.Drive.Partitions.fill_up holo.Drive.Partitions.sized_total
    holo.Drive.Partitions.sized_bytes holo.Drive.Partitions.fill_index
apply_format_medium_layout_full_example =
    apply_format_medium_layout_full 107374182400 3 1 two_partitions (omega arith) refl refl

abbrev known_medium : MediumState
known_medium = record {
  cartridge_capacity_bytes = some 107374182400;
  partition_runtime = two_partitions;
}

active_partition_capacity_bytes_within_example :
    active_partition_capacity_bytes 0 (format_state 0 3 1 known_medium)
    ≤ medium_capacity_bytes_for_state 0 known_medium
unfolding medium_capacity_bytes_for_state apply_format_medium_layout
    holo.Drive.Partitions.initialized holo.Drive.Partitions.validate_partition_definition
    holo.Drive.Partitions.partition_unit_bytes holo.Drive.Partitions.tally
    holo.Prelude.saturating_add holo.Drive.Partitions.saturating_mul
    holo.Drive.Partitions.format_sizes holo.Drive.Partitions.unit_layout
    holo.Drive.Partitions.fill_up holo.Drive.Partitions.sized_total
    holo.Drive.Partitions.sized_bytes holo.Drive.Partitions.fill_index
active_partition_capacity_bytes_within_example =
    active_partition_capacity_bytes_within 0 3 1 known_medium (omega arith) refl refl
