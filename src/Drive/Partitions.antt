-- ===== src/Drive/Partitions.antt =====
-- The partitions of a medium: data-plane/src/iscsi/cdb_drive.rs. The capacity of the medium and the
-- number of further partitions that the drive's profile allows are arguments; the four entries of
-- the arrays are lists.
pub mod Sums
pub mod Layout
pub mod Capacity
mod Examples
use Prim.Native.Nat.{zero, suc}
use holo.Prelude.{
  ℕ, ◌+◌, ◌-◌, ◌*◌, ◌/◌, ◌%◌, ◌^◌, min, ltb, leb, ◌==◌, Bool, true, false, not, ◌&&◌, ◌||◌, Option,
  none, some, List, [], ◌∷◌, ◌++◌, map, length, get_elem?, take, drop, is_some, if◌then◌else◌,
  saturating_add, u64_max,
}
use holo.Prelude.Bytes.{of_be}
use holo.Prelude.Outcome.{Result, ok, err, and_then, ensure, ok_or}
use holo.Drive.{byte_or_zero}

-- `Result<T, ()>`.
abbrev pub Checked : Type 0 → Type 0
Checked A = Result (Unit {0}) A

pub record PartitionRuntime : Type 0 where
  pub partition_units : ℕ
  pub addl_partitions_defined : ℕ
  pub fdp : ℕ
  pub medium_fmt_recognition : ℕ
  pub partition_size_units : List ℕ
  pub partition_sizes_bytes : List ℕ
  pub active_partition : ℕ

-- `u64::saturating_mul`.
unfoldable pub saturating_mul : ℕ → ℕ → ℕ
saturating_mul a b = min (a * b) u64_max

unfoldable pub normalized_partition_units : ℕ → ℕ
normalized_partition_units raw_units =
    let units = raw_units % 16 in if ltb units 9 then 9 else units

unfoldable pub partition_unit_bytes : ℕ → Option ℕ
partition_unit_bytes units =
    if ltb units 9
    then none
    else if ltb 12 (units - 9)
    then none
    else some (1024 * 1024 * 1024 * 2 ^ (units - 9))

abbrev units_rounded : ℕ → ℕ → ℕ
units_rounded size_bytes unit_size =
    min (saturating_add size_bytes (unit_size - 1) / unit_size) 65535

unfoldable pub partition_size_to_units : ℕ → ℕ → ℕ
partition_size_to_units size_bytes units = elim (partition_unit_bytes units) [
  | none ↦ 0
  | some unit_size ↦ if size_bytes == 0 then 0 else units_rounded size_bytes unit_size
]

-- The first two-byte numbers, and zeros up to four.
unfoldable pub size_entries : ℕ → ℕ → List ℕ → List ℕ
size_entries zero count bytes = []
size_entries (suc more) zero bytes = 0 ∷ size_entries more 0 bytes
size_entries (suc more) (suc count) bytes =
    of_be (take 2 bytes) ∷ size_entries more count (drop 2 bytes)

unfoldable pub parse_partition_sizes : List ℕ → ℕ → Checked (List ℕ)
parse_partition_sizes page addl_partitions_defined =
    let count = addl_partitions_defined + 1 in
    and_then (ensure (leb count 4) tt) λ _.
      and_then (ensure (leb (8 + count * 2) (length page)) tt)
        λ _. ok (size_entries 4 count (drop 8 page))

-- `raw == u16::MAX`: the partition takes what is left.
abbrev pub fills : ℕ → Bool
fills raw = raw == 65535

-- The loop of `validate_partition_definition`: whether one fills, and the total of the others.
unfoldable pub tally : ℕ → ℕ → Bool → ℕ → List ℕ → Checked (Bool × ℕ)
tally unit_size idx seen total [] = ok (seen, total)
tally unit_size idx seen total (raw ∷ sizes) =
    let filling =
      and_then (ensure (not (seen || ltb 1 idx)) tt)
        λ _. tally unit_size (idx + 1) true total sizes in
    let sized =
      tally unit_size (idx + 1) seen (saturating_add total (saturating_mul unit_size raw)) sizes in
    if fills raw then filling else sized

abbrev fits : ℕ → Bool × ℕ → Bool
fits capacity (true, total) = ltb total capacity
fits capacity (false, total) = leb total capacity

abbrev unit_checked : ℕ → ℕ → ℕ → List ℕ → Checked (Unit {0})
unit_checked capacity units addl sizes =
    and_then (ok_or (partition_unit_bytes units) tt) λ unit_size.
      and_then (tally unit_size 0 false 0 (take (addl + 1) sizes))
        λ found. ensure (fits capacity found) tt

unfoldable pub validate_partition_definition : ℕ → ℕ → ℕ → ℕ → List ℕ → Checked (Unit {0})
validate_partition_definition capacity max_addl units addl sizes =
    and_then (ensure (leb addl max_addl) tt) λ _.
      and_then (ensure (units == 0 || leb 9 units) tt) λ _.
        and_then (ensure (not (units == 0 && ltb 1 addl)) tt)
          λ _. if units == 0 then ok tt else unit_checked capacity units addl sizes

unfoldable pub apply_medium_partition_mode_page :
    ℕ → ℕ → List ℕ → PartitionRuntime → Checked PartitionRuntime
apply_medium_partition_mode_page capacity max_addl page r =
    let addl = byte_or_zero 3 page in
    let fdp = byte_or_zero 4 page in
    let units = byte_or_zero 6 page % 16 in
    and_then (ensure (leb 8 (length page)) tt) λ _.
      and_then (parse_partition_sizes page addl) λ sizes.
        and_then (ensure (fdp / 8 % 4 == 3) tt) λ _.
          and_then (validate_partition_definition capacity max_addl units addl sizes) λ _.
            ok (record r {
              partition_units = if units == 0 then 0 else normalized_partition_units units;
              addl_partitions_defined = addl;
              fdp = fdp;
              medium_fmt_recognition = byte_or_zero 5 page;
              partition_size_units = sizes;
            })

-- The loop of `apply_format_medium_layout`: the bytes of the sized partitions, their total, and the
-- last partition that fills.
unfoldable pub sized_bytes : ℕ → List ℕ → List ℕ
sized_bytes unit_size [] = []
sized_bytes unit_size (raw ∷ sizes) =
    (if fills raw then 0 else saturating_mul unit_size raw) ∷ sized_bytes unit_size sizes

unfoldable pub sized_total : ℕ → List ℕ → ℕ
sized_total total [] = total
sized_total total (bytes ∷ rest) = sized_total (saturating_add total bytes) rest

unfoldable pub fill_index : ℕ → Option ℕ → List ℕ → Option ℕ
fill_index idx last [] = last
fill_index idx last (raw ∷ sizes) =
    fill_index (idx + 1) (if fills raw then some idx else last) sizes

unfoldable pub set_at : ℕ → ℕ → List ℕ → List ℕ
set_at i x [] = []
set_at zero x (y ∷ ys) = x ∷ ys
set_at (suc i) x (y ∷ ys) = y ∷ set_at i x ys

-- What is left over goes to the first partition.
unfoldable pub add_to_first : ℕ → List ℕ → List ℕ
add_to_first slack [] = []
add_to_first slack (x ∷ xs) = saturating_add x slack ∷ xs

unfoldable pub fill_up : ℕ → ℕ → Option ℕ → List ℕ → Checked (List ℕ)
fill_up capacity total (some idx) bytes =
    and_then (ensure (ltb total capacity) tt) λ _. ok (set_at idx (capacity - total) bytes)
fill_up capacity total none bytes =
    and_then (ensure (leb total capacity) tt)
      λ _. ok (if ltb total capacity then add_to_first (capacity - total) bytes else bytes)

unfoldable pub unit_layout : ℕ → ℕ → List ℕ → Checked (List ℕ)
unit_layout capacity units sizes = and_then (ok_or (partition_unit_bytes units) tt) λ unit_size.
    let bytes = sized_bytes unit_size sizes in
    fill_up capacity (sized_total 0 bytes) (fill_index 0 none sizes) bytes

-- The percentage of the first partition.
abbrev pub percentage : List ℕ → ℕ
percentage [] = 50
percentage (p0 ∷ _) = if p0 == 0 || ltb 100 p0 then 50 else p0

abbrev pub split_at : ℕ → ℕ → List ℕ
split_at capacity percent =
    let first = saturating_mul capacity percent / 100 in first ∷ (capacity - first) ∷ []

-- The bytes of the partitions that a format other than 0 makes.
unfoldable pub format_sizes : ℕ → PartitionRuntime → Checked (List ℕ)
format_sizes capacity r =
    let units = r.partition_units % 16 in
    let sizes = take (r.addl_partitions_defined + 1) r.partition_size_units in
    if r.fdp / 128 % 2 == 1
    then ok (split_at capacity 95)
    else if not (units == 0)
    then unit_layout capacity units sizes
    else if r.addl_partitions_defined == 0
    then ok (capacity ∷ [])
    else ok (split_at capacity (percentage sizes))

-- Zeros up to four entries.
unfoldable pub padded : ℕ → List ℕ → List ℕ
padded zero xs = []
padded (suc n) [] = 0 ∷ padded n []
padded (suc n) (x ∷ xs) = x ∷ padded n xs

unfoldable pub units_of : ℕ → ℕ → List ℕ → List ℕ
units_of units count bytes =
    padded 4 (map (λ b. partition_size_to_units b units) (take count bytes))

unfoldable pub formatted : ℕ → PartitionRuntime → List ℕ → PartitionRuntime
formatted addl r bytes =
    let units = normalized_partition_units r.partition_units in
    record r {
      partition_units = units;
      addl_partitions_defined = addl;
      partition_sizes_bytes = padded 4 bytes;
      partition_size_units = units_of units (addl + 1) (padded 4 bytes);
    }

abbrev pub whole : ℕ → PartitionRuntime → PartitionRuntime
whole capacity r = record r {
  partition_units = 9;
  addl_partitions_defined = 0;
  partition_size_units = partition_size_to_units capacity 9 ∷ 0 ∷ 0 ∷ 0 ∷ [];
  partition_sizes_bytes = capacity ∷ 0 ∷ 0 ∷ 0 ∷ [];
}

-- `ensure_partition_runtime_initialized`.
unfoldable pub initialized : ℕ → PartitionRuntime → PartitionRuntime
initialized capacity r =
    let first = byte_or_zero 0 r.partition_sizes_bytes in
    if first == 0
    then record (whole capacity r) {
      fdp = 0x9C;
      medium_fmt_recognition = 0x03;
      active_partition = 0;
    }
    else r

abbrev pub format_as : ℕ → ℕ → PartitionRuntime → Checked PartitionRuntime
format_as capacity max_addl r =
    and_then
      (validate_partition_definition capacity max_addl (r.partition_units % 16)
        r.addl_partitions_defined r.partition_size_units)
      λ _. and_then (ensure (not (r.fdp / 32 % 8 == 0)) tt) λ _.
        and_then (format_sizes capacity r) λ bytes.
          ok (formatted (if r.fdp / 128 % 2 == 1 then 1 else r.addl_partitions_defined) r bytes)

abbrev pub keep :
    PartitionRuntime → Checked PartitionRuntime → Checked (Unit {0}) × PartitionRuntime
keep r (ok r') = (ok tt, r')
keep r (err e) = (err e, r)

-- `apply_format_medium_layout`, with the partitions after it.
unfoldable pub apply_format_medium_layout :
    ℕ → ℕ → ℕ → PartitionRuntime → Checked (Unit {0}) × PartitionRuntime
apply_format_medium_layout capacity max_addl format r =
    let ready = initialized capacity r in
    if format == 0
    then (ok tt, whole capacity ready)
    else keep ready (format_as capacity max_addl ready)
