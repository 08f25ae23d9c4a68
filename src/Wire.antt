-- ===== src/Wire.antt =====
-- The frames between the TCMU handler and the data plane: data-plane/src/iscsi/cdb_wire.rs.
-- A writer is the list of the bytes that it is given; a reader is the list of the bytes left.
pub mod Reader
pub mod RoundTrip
pub mod Packet
mod Examples
use holo.Prelude.{
  ℕ, ◌+◌, ◌*◌, ltb, leb, ◌==◌, Bool, true, false, not, ◌||◌, Option, none, some, List, [], ◌∷◌,
  ◌++◌, length, trim, is_empty, if◌then◌else◌,
}
use holo.Prelude.OrdMap.{Text}
use holo.Prelude.Bytes.{be_bytes, of_be}
use holo.Prelude.Utf8.{as_bytes, from_utf8}
use holo.Prelude.Outcome.{Result, ok, err, Exec, pure, lift, ◌>>=◌, ◌>>◌, ok_or, ensure, and_then}
use Reader.{IoError, invalid_input, invalid_data, Read, read_exact, read_byte}

abbrev pub scsi_status_good : ℕ
scsi_status_good = 0x00

abbrev pub scsi_status_check_condition : ℕ
scsi_status_check_condition = 0x02

abbrev pub scsi_status_busy : ℕ
scsi_status_busy = 0x08

abbrev pub max_sense_len : ℕ
max_sense_len = 252

abbrev pub max_data_len : ℕ
max_data_len = 16777216

abbrev extended_request_marker : ℕ
extended_request_marker = 0xff

abbrev extended_request_version : ℕ
extended_request_version = 0x01

abbrev pub max_initiator_len : ℕ
max_initiator_len = 255

pub record CdbPacketHeader : Type 0 where
  pub cdb : List ℕ
  pub data_len : ℕ
  pub initiator : Option Text

pub record CdbPacket : Type 0 where
  pub cdb : List ℕ
  pub payload : List ℕ
  pub initiator : Option Text

-- `matches!(cdb_len, 6 | 10 | 12 | 16)`.
abbrev pub is_cdb_length : ℕ → Bool
is_cdb_length n = n == 6 || n == 10 || n == 12 || n == 16

-- `.map(str::trim).filter(|value| !value.is_empty())`.
unfoldable pub named_initiator : Option Text → Option Text
named_initiator none = none
named_initiator (some text) = if is_empty (trim text) then none else some (trim text)

plain_frame : List ℕ → List ℕ → List ℕ
plain_frame cdb payload = length cdb ∷ (cdb ++ (be_bytes 4 (length payload) ++ payload))

encode_frame : CdbPacket → Option Text → Result IoError (List ℕ)
encode_frame p none = ok (plain_frame p.cdb p.payload)
encode_frame p (some initiator) =
    and_then (ensure (leb (length (as_bytes initiator)) max_initiator_len) invalid_input) (λ _. ok (
      extended_request_marker
      ∷ extended_request_version
      ∷ length (as_bytes initiator)
      ∷ (as_bytes initiator ++ plain_frame p.cdb p.payload)))

-- `CdbPacket::encode`.
pub encode : CdbPacket → Result IoError (List ℕ)
unfolding encode_frame plain_frame named_initiator
encode p = and_then (ensure (is_cdb_length (length p.cdb)) invalid_input) λ _.
    and_then (ensure (leb (length p.payload) max_data_len) invalid_input)
      λ _. encode_frame p (named_initiator p.initiator)

-- The initiator field of an extended frame: its length and its bytes.
read_initiator : Read (Option Text)
read_initiator = do
  initiator_len ← read_byte
  if initiator_len == 0 then pure none else do
    bytes ← read_exact initiator_len
    value ← lift (ok_or (from_utf8 bytes) invalid_data)
    pure (named_initiator (some value))

-- Behind the length byte: the version, the initiator and the real length byte, if it is the marker.
read_extension : ℕ → Read (ℕ × Option Text)
unfolding read_initiator
read_extension first =
    if first == extended_request_marker
    then (do
      version ← read_byte
      lift (ensure (version == extended_request_version) invalid_data)
      initiator ← read_initiator
      cdb_len ← read_byte
      pure (cdb_len, initiator))
    else pure (first, none)

-- `CdbPacket::decode_header`.
pub decode_header : Read CdbPacketHeader
unfolding read_extension
decode_header = do
  first ← read_byte
  extension ← read_extension first
  lift (ensure (is_cdb_length extension.0) invalid_data)
  cdb ← read_exact extension.0
  data_len_buf ← read_exact 4
  lift (ensure (leb (of_be data_len_buf) max_data_len) invalid_data)
  pure (record { cdb = cdb; data_len = of_be data_len_buf; initiator = extension.1 })

-- `CdbPacket::decode`.
pub decode : Read CdbPacket
decode = do
  header ← decode_header
  payload ← read_exact header.data_len
  pure (record { cdb = header.cdb; payload = payload; initiator = header.initiator })

pub record CdbResponse : Type 0 where
  pub sense : List ℕ
  pub reply : List ℕ
  pub status : ℕ

unfoldable pub good : List ℕ → CdbResponse
good reply = record { sense = []; reply = reply; status = scsi_status_good }

unfoldable pub check_condition : List ℕ → CdbResponse
check_condition sense = record { sense = sense; reply = []; status = scsi_status_check_condition }

pub busy : CdbResponse
busy = record { sense = []; reply = []; status = scsi_status_busy }

-- `CdbResponse::encode`.
pub encode_response : CdbResponse → Result IoError (List ℕ)
encode_response r = and_then (ensure (leb (length r.sense) max_sense_len) invalid_input) λ _.
    and_then (ensure (leb (length r.reply) max_data_len) invalid_input) λ _.
      ok (length r.sense ∷ (r.sense ++ (be_bytes 4 (length r.reply) ++ (r.reply ++ r.status ∷ []))))

-- `CdbResponse::decode`.
pub decode_response : Read CdbResponse
decode_response = do
  sense_len ← read_byte
  sense ← read_exact sense_len
  reply_len_buf ← read_exact 4
  lift (ensure (leb (of_be reply_len_buf) max_data_len) invalid_data)
  reply ← read_exact (of_be reply_len_buf)
  status ← read_byte
  pure (record { sense = sense; reply = reply; status = status })
