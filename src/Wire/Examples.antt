-- ===== src/Wire/Examples.antt =====
-- Frames with an initiator and with sense data, written and read back.
use holo.Prelude.{ℕ, ◌≡◌, refl, some, List, [], ◌∷◌, ◌++◌, trim, All, arith, inl}
use holo.Prelude.OrdMap.{Text}
use holo.Prelude.Outcome.{ok}
use holo.Prelude.Bytes.{be_bytes}
use holo.Prelude.Utf8.{as_bytes, IsScalar}
use holo.Wire.{named_initiator, CdbPacket, encode, encode_frame, plain_frame, decode}
use holo.Wire.Packet.{decode-encode}

abbrev write_command : CdbPacket
write_command = record {
  cdb = 0x0a ∷ 0x00 ∷ 0x00 ∷ 0x00 ∷ 0x02 ∷ 0x00 ∷ [];
  payload = 7 ∷ 8 ∷ [];
  initiator = some (32 ∷ 105 ∷ 113 ∷ []);
}

abbrev write_frame : List ℕ
write_frame =
    0xff ∷ 0x01 ∷ 2 ∷ 105 ∷ 113 ∷ 6 ∷ 0x0a ∷ 0x00 ∷ 0x00 ∷ 0x00 ∷ 0x02 ∷ 0x00 ∷ 0 ∷ 0 ∷ 0 ∷ 2 ∷ 7
    ∷ 8 ∷ []

write_frame_written : encode write_command ≡ ok write_frame
unfolding encode encode_frame plain_frame named_initiator trim as_bytes be_bytes
write_frame_written = refl

letters : (t : Text) → named_initiator (some (32 ∷ 105 ∷ 113 ∷ [])) ≡ some t → All IsScalar t
unfolding named_initiator trim
letters t h =
    let e : t ≡ 105 ∷ 113 ∷ [] = ground arith in rw (e) (inl (omega arith), (inl (omega arith), tt))

decode-encode_example :
    decode (write_frame ++ 1 ∷ 2 ∷ [])
    ≡ (ok (record write_command { initiator = some (105 ∷ 113 ∷ []) }), 1 ∷ 2 ∷ [])
unfolding named_initiator trim
decode-encode_example =
    decode-encode write_command write_frame (1 ∷ 2 ∷ []) letters write_frame_written
