-- ===== src/Tape.antt =====
-- Where the tape stands and how it moves: data-plane/src/scsi_tape/command_chain.rs, with the fields
-- of `TapeState` (data-plane/src/scsi_tape/state.rs) that these functions read or write. The cache
-- of read-ahead jobs, which every motion drops, is outside the model: no field depends on it.
pub mod Motion
pub mod Medium
pub mod Blocks
mod Examples
use Prim.Native.Nat.{zero, suc}
use holo.Prelude.{
  ℕ, ◌+◌, ◌-◌, ◌*◌, ◌%◌, min, max, ltb, leb, ◌==◌, Bool, true, false, not, ◌&&◌, ◌||◌, Option, none,
  some, List, [], ◌∷◌, ◌++◌, length, get_elem?, find, retain, any, if◌then◌else◌, saturating_add,
  u32_max, is_some,
}
use holo.Prelude.OrdMap.{Map, get, insert, contains_key, nat_keys}
use holo.Prelude.Outcome.{
  Result, ok, err, Exec, pure, lift, gets, modify, ◌>>=◌, ◌>>◌, ok_or, ensure, and_then,
}
use holo.Scsi.Error.{
  TapeError, not_ready, not_found, out_of_range, invalid_argument, volume_overflow,
  recovery_required, worm_write_protected,
}

pub data MountState : Type 0 where
  empty loaded busy error : MountState

pub data BlockMode : Type 0 where
  variable fixed : BlockMode

pub record TapeState : Type 0 where
  pub mount_state : MountState
  pub current_position : ℕ
  pub eod_position : ℕ
  pub filemarks : List ℕ
  pub block_starts : List ℕ
  pub block_lengths : Map ℕ ℕ
  pub requires_recovery : Bool
  pub early_warning_window : ℕ
  pub mode : BlockMode
  pub fixed_block_size : ℕ
  pub space_ops : ℕ
  pub is_worm_media : Bool
  pub addl_partitions_defined : ℕ
  pub active_partition : ℕ
  pub partition_sizes_bytes : List ℕ
  pub cartridge_capacity_bytes : Option ℕ

abbrev pub Command : Type 0 → Type 0
Command A = Exec TapeError TapeState A

abbrev is_empty_drive : MountState → Bool
is_empty_drive empty = true
is_empty_drive _ = false

abbrev pub is_variable : BlockMode → Bool
is_variable variable = true
is_variable fixed = false

unfoldable pub ensure_loaded : TapeState → Result TapeError (Unit {0})
ensure_loaded s = ensure (not (is_empty_drive s.mount_state)) not_ready

-- `points.iter().copied().find(|point| *point > current)`.
unfoldable pub next_point : List ℕ → ℕ → Option ℕ
next_point points current = find (λ point. ltb current point) points

-- The last point below the current one: `.rev().find(..)` and `.rposition(..)`.
unfoldable pub previous_point : List ℕ → ℕ → Option ℕ
previous_point [] current = none
previous_point (p ∷ points) current =
    let later = previous_point points current in
    if is_some later then later else if ltb p current then some p else none

unfoldable pub insert_point : ℕ → List ℕ → List ℕ
insert_point x [] = x ∷ []
insert_point x (y ∷ ys) = let rest = insert_point x ys in if leb x y then x ∷ y ∷ ys else y ∷ rest

unfoldable pub sorted_points : List ℕ → List ℕ
sorted_points [] = []
sorted_points (x ∷ xs) = insert_point x (sorted_points xs)

-- `Iterator::min`.
unfoldable pub minimum : List ℕ → Option ℕ
minimum [] = none
minimum (x ∷ xs) = elim (minimum xs) [ none ↦ some x | some m ↦ some (min x m) ]

abbrev pub unwrap_or : ℕ → Option ℕ → ℕ
unwrap_or d none = d
unwrap_or d (some x) = x

unfoldable pub position_after_filemark : TapeState → ℕ → ℕ
position_after_filemark s mark =
    unwrap_or s.eod_position
      (minimum (retain (λ p. ltb mark p) (s.block_starts ++ s.filemarks ++ s.eod_position ∷ [])))

pub data SpaceBranch : Type 0 where
  blocks filemarks end_of_data : SpaceBranch

-- The count of SPACE: `negsuc n` is -(n + 1).
pub data ℤ : Type 0 where
  pos negsuc : ℕ → ℤ

-- `for _ in 0..count { position = step(position)?; }`.
unfoldable pub repeat : ℕ → (ℕ → Result TapeError ℕ) → ℕ → Result TapeError ℕ
repeat zero step position = ok position
repeat (suc count) step position = and_then (step position) λ next. repeat count step next

abbrev has_none : List ℕ → Bool
has_none [] = true
has_none (_ ∷ _) = false

-- Where SPACE ends, or its error; a count of 0 stays.
unfoldable pub space_blocks : TapeState → ℤ → Result TapeError ℕ
space_blocks s (pos zero) = ok s.current_position
space_blocks s (pos (suc n)) = and_then (ensure (not (has_none s.block_starts)) not_found) λ _.
    repeat (suc n) (λ position. ok_or (next_point s.block_starts position) not_found)
      s.current_position
space_blocks s (negsuc n) = and_then (ensure (not (has_none s.block_starts)) out_of_range) λ _.
    repeat (suc n) (λ position. ok_or (previous_point s.block_starts position) out_of_range)
      s.current_position

-- Over the first mark that is not before the position.
unfoldable pub forward_filemark : TapeState → ℕ → Result TapeError ℕ
forward_filemark s position =
    and_then (ok_or (find (λ mark. leb position mark) (sorted_points s.filemarks)) out_of_range)
      λ mark. ok (position_after_filemark s mark)

unfoldable pub backward_filemark : TapeState → ℕ → Result TapeError ℕ
backward_filemark s position =
    ok_or (previous_point (sorted_points s.filemarks) position) out_of_range

unfoldable pub space_filemarks : TapeState → ℤ → Result TapeError ℕ
space_filemarks s (pos zero) = ok s.current_position
space_filemarks s (pos (suc n)) =
    and_then (ensure (not (has_none s.filemarks)) out_of_range)
      λ _. repeat (suc n) (forward_filemark s) s.current_position
space_filemarks s (negsuc n) =
    and_then (ensure (not (has_none s.filemarks)) out_of_range)
      λ _. repeat (suc n) (backward_filemark s) s.current_position

unfoldable pub space_end_of_data : TapeState → ℤ → Result TapeError ℕ
space_end_of_data s (pos zero) = ok s.eod_position
space_end_of_data s (pos (suc zero)) = ok s.eod_position
space_end_of_data s (pos (suc (suc n))) = err out_of_range
space_end_of_data s (negsuc zero) = ok 0
space_end_of_data s (negsuc (suc n)) = err out_of_range

unfoldable pub space_target : TapeState → SpaceBranch → ℤ → Result TapeError ℕ
space_target s blocks count = space_blocks s count
space_target s filemarks count = space_filemarks s count
space_target s end_of_data count = space_end_of_data s count

unfoldable pub space : SpaceBranch → ℤ → Command (Unit {0})
space branch count = do
  loaded? ← gets ensure_loaded
  lift loaded?
  modify (λ s. record s { space_ops = saturating_add s.space_ops 1 })
  target ← gets (λ s. space_target s branch count)
  position ← lift target
  modify (λ s. record s { current_position = position })

unfoldable pub is_addressable_position : TapeState → ℕ → Bool
is_addressable_position s target =
    if ltb s.eod_position target
    then false
    else if is_variable s.mode
    then true
    else if target == 0
        || (target == s.eod_position
            || (contains_key target s.block_lengths || any (λ mark. mark == target) s.filemarks))
    then true
    else if ltb 0 s.fixed_block_size
    then target % s.fixed_block_size == 0
    else false

unfoldable pub locate : ℕ → Command (Unit {0})
locate target = do
  loaded? ← gets ensure_loaded
  lift loaded?
  eod ← gets (λ s. s.eod_position)
  lift (ensure (leb target eod) out_of_range)
  addressable ← gets (λ s. is_addressable_position s target)
  lift (ensure addressable out_of_range)
  modify (λ s. record s { current_position = target })
