-- ===== src/Tape/Medium.antt =====
-- What is recorded, how much fits, and READ POSITION: data-plane/src/scsi_tape/command_chain.rs.
use holo.Prelude.{
  ℕ, ◌+◌, ◌-◌, min, max, ltb, leb, ◌==◌, Bool, false, Option, none, some, List, [], ◌∷◌, length,
  get_elem?, retain, if◌then◌else◌, saturating_add, u32_max,
}
use holo.Prelude.OrdMap.{insert, contains_key, nat_keys}
use holo.Prelude.Outcome.{Result, ok, lift, gets, modify, ◌>>=◌, ◌>>◌, ensure, and_then}
use holo.Scsi.Error.{TapeError, invalid_argument, volume_overflow}
use holo.Tape.{TapeState, variable, fixed, Command, ensure_loaded, minimum, unwrap_or}

-- The new start is put in its place among the ascending starts, and only once.
unfoldable pub insert_start : ℕ → List ℕ → List ℕ
insert_start x [] = x ∷ []
insert_start x (y ∷ ys) =
    let rest = insert_start x ys in
    if x == y then y ∷ ys else if ltb x y then x ∷ y ∷ ys else y ∷ rest

unfoldable pub record_block : ℕ → ℕ → TapeState → TapeState
record_block start length s =
    if contains_key start s.block_lengths
    then record s { block_lengths = insert start length s.block_lengths }
    else record s {
      block_lengths = insert start length s.block_lengths;
      block_starts = insert_start start s.block_starts;
    }

abbrev active_index : TapeState → ℕ
active_index s = min s.active_partition (min (s.addl_partitions_defined + 1) 4 - 1)

abbrev configured_size : TapeState → ℕ
configured_size s = unwrap_or 0 (get_elem? s.partition_sizes_bytes (active_index s))

abbrev limit_of : Option ℕ → ℕ → Option ℕ
limit_of (some capacity) configured =
    if configured == 0 then some capacity else some (min capacity configured)
limit_of none configured = if configured == 0 then none else some configured

unfoldable pub active_partition_capacity_limit : TapeState → Option ℕ
active_partition_capacity_limit s = limit_of s.cartridge_capacity_bytes (configured_size s)

unfoldable pub ensure_capacity_available : TapeState → ℕ → Result TapeError (Unit {0})
ensure_capacity_available s bytes_to_advance = elim (active_partition_capacity_limit s) [
  | none ↦ ok tt
  | some limit ↦
      ensure (leb (saturating_add s.current_position bytes_to_advance) limit) volume_overflow
]

unfoldable pub early_warning_active : TapeState → Bool
early_warning_active s =
    if configured_size s == 0
    then false
    else leb (configured_size s - max s.early_warning_window 1) s.current_position

pub record PositionReport : Type 0 where
  pub current_position : ℕ
  pub eod_position : ℕ
  pub file_number : ℕ
  pub filemark_count : ℕ
  pub next_filemark : Option ℕ
  pub early_warning : Bool

unfoldable pub read_position : TapeState → Result TapeError PositionReport
read_position s = and_then (ensure_loaded s) λ _.
    and_then (ensure (leb (length s.filemarks) u32_max) invalid_argument) λ _. ok (record {
      current_position = s.current_position;
      eod_position = s.eod_position;
      file_number = length (retain (λ mark. ltb mark s.current_position) s.filemarks);
      filemark_count = length s.filemarks;
      next_filemark = minimum (retain (λ mark. leb s.current_position mark) s.filemarks);
      early_warning = early_warning_active s;
    })

unfoldable pub set_block_mode_fixed : ℕ → Command (Unit {0})
set_block_mode_fixed block_size = do
  loaded? ← gets ensure_loaded
  lift loaded?
  lift (ensure (ltb 0 block_size) invalid_argument)
  modify (λ s. record s { mode = fixed; fixed_block_size = block_size })

unfoldable pub set_block_mode_variable : Command (Unit {0})
set_block_mode_variable = do
  loaded? ← gets ensure_loaded
  lift loaded?
  modify (λ s. record s { mode = variable; fixed_block_size = 0 })
