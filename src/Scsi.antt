-- ===== src/Scsi.antt =====
-- Errors of the tape commands and the sense data that reports them.
pub mod Error
pub mod Sense
