-- ===== src/Scsi/Sense.antt =====
-- The sense data that reports an error: data-plane/src/scsi_tape/sense.rs. The contexts that share
-- their name with an error are called after it, with `_context`.
use holo.Prelude.{ℕ, Bool, true, false}
use holo.Storage.Error.{StorageError, space_exhausted, space_admission}
use holo.Scsi.Error.{
  TapeError, invalid_transition, invalid_profile, unsupported_vpd_page, unsupported_mode_page,
  unsupported_log_page, not_ready, recovery_required, access_denied, unsupported, invalid_argument,
  fixed_block_size_mismatch, filemark_detected, not_found, out_of_range, volume_overflow,
  retention_blocked, worm_write_protected, reservation_conflict, invalid_reservation_key,
  invalid_reservation_release, unauthorized, storage, physical_write_admission,
  physical_filemark_admission,
}

pub data SenseContext : Type 0 where
  not_ready_context recovery_context illegal_request blank_check_eod overflow_context : SenseContext
  access_context data_protect medium_error conflict_context : SenseContext
  invalid_persistent_release : SenseContext

pub record SenseFrame : Type 0 where
  pub status : ℕ
  pub sense_key : ℕ
  pub asc : ℕ
  pub ascq : ℕ
  pub end_of_medium : Bool
  pub information_valid : Bool
  pub information : ℕ

unfoldable pub sense_for_context : SenseContext → SenseFrame
sense_for_context not_ready_context = record {
  status = 0x02;
  sense_key = 0x02;
  asc = 0x3A;
  ascq = 0x00;
  end_of_medium = false;
  information_valid = false;
  information = 0;
}
sense_for_context recovery_context = record {
  status = 0x02;
  sense_key = 0x02;
  asc = 0x04;
  ascq = 0x00;
  end_of_medium = false;
  information_valid = false;
  information = 0;
}
sense_for_context illegal_request = record {
  status = 0x02;
  sense_key = 0x05;
  asc = 0x24;
  ascq = 0x00;
  end_of_medium = false;
  information_valid = false;
  information = 0;
}
sense_for_context blank_check_eod = record {
  status = 0x02;
  sense_key = 0x08;
  asc = 0x00;
  ascq = 0x05;
  end_of_medium = false;
  information_valid = true;
  information = 1;
}
sense_for_context overflow_context = record {
  status = 0x02;
  sense_key = 0x0D;
  asc = 0x00;
  ascq = 0x00;
  end_of_medium = true;
  information_valid = false;
  information = 0;
}
sense_for_context access_context = record {
  status = 0x02;
  sense_key = 0x07;
  asc = 0x27;
  ascq = 0x00;
  end_of_medium = false;
  information_valid = false;
  information = 0;
}
sense_for_context data_protect = record {
  status = 0x02;
  sense_key = 0x07;
  asc = 0x30;
  ascq = 0x0C;
  end_of_medium = false;
  information_valid = false;
  information = 0;
}
sense_for_context medium_error = record {
  status = 0x02;
  sense_key = 0x03;
  asc = 0x11;
  ascq = 0x00;
  end_of_medium = false;
  information_valid = false;
  information = 0;
}
sense_for_context conflict_context = record {
  status = 0x18;
  sense_key = 0x0B;
  asc = 0x18;
  ascq = 0x02;
  end_of_medium = false;
  information_valid = false;
  information = 0;
}
sense_for_context invalid_persistent_release = record {
  status = 0x02;
  sense_key = 0x05;
  asc = 0x26;
  ascq = 0x04;
  end_of_medium = false;
  information_valid = false;
  information = 0;
}

-- MEDIUM ERROR, with no more room for what was to be written.
abbrev no_room : Bool → ℕ → SenseFrame
no_room information_valid information = record {
  status = 0x02;
  sense_key = 0x03;
  asc = 0x0C;
  ascq = 0x00;
  end_of_medium = false;
  information_valid = information_valid;
  information = information;
}

unfoldable pub sense_for_storage : StorageError → SenseFrame
sense_for_storage space_exhausted = no_room false 0
sense_for_storage (space_admission _) = no_room false 0
sense_for_storage _ = sense_for_context medium_error

unfoldable pub resolve_sense_for_error : TapeError → SenseFrame
resolve_sense_for_error unauthorized = sense_for_context access_context
resolve_sense_for_error access_denied = sense_for_context access_context
resolve_sense_for_error worm_write_protected = sense_for_context data_protect
resolve_sense_for_error reservation_conflict = sense_for_context conflict_context
resolve_sense_for_error invalid_reservation_release = sense_for_context invalid_persistent_release
resolve_sense_for_error invalid_reservation_key = sense_for_context illegal_request
resolve_sense_for_error not_ready = sense_for_context not_ready_context
resolve_sense_for_error recovery_required = sense_for_context recovery_context
resolve_sense_for_error volume_overflow = sense_for_context overflow_context
resolve_sense_for_error (physical_write_admission requested_units _) = no_room true requested_units
resolve_sense_for_error (physical_filemark_admission _) = no_room false 0
resolve_sense_for_error (unsupported_vpd_page _) = sense_for_context illegal_request
resolve_sense_for_error (unsupported_mode_page _) = sense_for_context illegal_request
resolve_sense_for_error (unsupported_log_page _) = sense_for_context illegal_request
resolve_sense_for_error invalid_profile = sense_for_context illegal_request
resolve_sense_for_error invalid_argument = sense_for_context illegal_request
resolve_sense_for_error (fixed_block_size_mismatch _ _) = sense_for_context illegal_request
resolve_sense_for_error out_of_range = sense_for_context illegal_request
resolve_sense_for_error invalid_transition = sense_for_context illegal_request
resolve_sense_for_error retention_blocked = sense_for_context illegal_request
resolve_sense_for_error unsupported = sense_for_context illegal_request
resolve_sense_for_error (storage e) = sense_for_storage e
resolve_sense_for_error not_found = sense_for_context blank_check_eod
resolve_sense_for_error (filemark_detected residue _) = record {
  status = 0x02;
  sense_key = 0x00;
  asc = 0x00;
  ascq = 0x01;
  end_of_medium = false;
  information_valid = true;
  information = residue;
}
