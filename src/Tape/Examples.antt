-- ===== src/Tape/Examples.antt =====
-- A tape of two blocks with a filemark behind the first, and the theorems at it.
use holo.Prelude.{◌≡◌, refl, false, none, [], ◌∷◌, any, find, retain, arith}
use holo.Prelude.OrdMap.{get, contains_key, nat_keys}
use holo.Prelude.Outcome.{◌>>=◌}
use holo.Tape.{
  TapeState, loaded, fixed, filemarks, pos, space, space_target, space_filemarks, repeat,
  forward_filemark, sorted_points, insert_point, position_after_filemark, minimum, ensure_loaded,
}
use holo.Tape.Motion.{IsTape, space-IsTape}
use holo.Tape.Blocks.{IsIndexed}

abbrev tape : TapeState
tape = record {
  mount_state = loaded;
  current_position = 0;
  eod_position = 24;
  filemarks = 8 ∷ [];
  block_starts = 0 ∷ 16 ∷ [];
  block_lengths = (0, 8) ∷ (16, 8) ∷ [];
  requires_recovery = false;
  early_warning_window = 8;
  mode = fixed;
  fixed_block_size = 8;
  space_ops = 0;
  is_worm_media = false;
  addl_partitions_defined = 0;
  active_partition = 0;
  partition_sizes_bytes = 0 ∷ 0 ∷ 0 ∷ 0 ∷ [];
  cartridge_capacity_bytes = none;
}

tape-IsTape : IsTape tape
tape-IsTape = (omega arith, ((omega arith, tt), (omega arith, (omega arith, tt))))

tape-IsIndexed : IsIndexed tape
unfolding any contains_key get
tape-IsIndexed = (((omega arith, tt), (tt, tt)), λ p. ground arith)

over_the_mark : (space filemarks (pos 1) tape).1.current_position ≡ 16
unfolding space space_target space_filemarks repeat forward_filemark sorted_points insert_point
    position_after_filemark minimum ensure_loaded find retain ◌>>=◌
over_the_mark = refl

space-IsTape_example : IsTape (space filemarks (pos 1) tape).1
space-IsTape_example = space-IsTape filemarks (pos 1) tape tape-IsTape
