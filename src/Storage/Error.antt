-- ===== src/Storage/Error.antt =====
-- `SpaceGuardError` (space_guard.rs) and `StorageError` (metadata.rs). The texts of the messages
-- are left out: the program only prints them.
use holo.Prelude.{ℕ}

pub data SpaceGuardError : Type 0 where
  busy unknown_capacity : SpaceGuardError
  insufficient_space : ℕ → ℕ → SpaceGuardError
  arithmetic_overflow invalid_allocation_unit io : SpaceGuardError

pub data StorageError : Type 0 where
  io space_exhausted : StorageError
  space_admission : SpaceGuardError → StorageError
  corrupt : StorageError
  version_mismatch : ℕ → ℕ → StorageError
  not_found conflict metadata_budget_exceeded cancelled internal : StorageError
