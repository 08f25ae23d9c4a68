-- ===== src/Scsi/Error.antt =====
-- `TapeError` (data-plane/src/scsi_tape/error.rs). The texts of the messages are left out.
use holo.Prelude.{ℕ, List}
use holo.Storage.Error.{StorageError}

pub data TapeError : Type 0 where
  invalid_transition invalid_profile : TapeError
  unsupported_vpd_page unsupported_mode_page unsupported_log_page : ℕ → TapeError
  not_ready recovery_required access_denied unsupported invalid_argument : TapeError
  fixed_block_size_mismatch : ℕ → ℕ → TapeError
  filemark_detected : ℕ → List ℕ → TapeError
  not_found out_of_range volume_overflow retention_blocked worm_write_protected : TapeError
  reservation_conflict invalid_reservation_key invalid_reservation_release : TapeError
  unauthorized : TapeError
  storage : StorageError → TapeError
  physical_write_admission : ℕ → StorageError → TapeError
  physical_filemark_admission : StorageError → TapeError
