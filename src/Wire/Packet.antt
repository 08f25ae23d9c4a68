-- ===== src/Wire/Packet.antt =====
-- Reading a request frame back, plain or with an initiator: data-plane/src/iscsi/cdb_wire.rs.
use mathlib.Core.List.{append_assoc}
use holo.Prelude.{
  ℕ, ◌≤◌, ◌≡◌, refl, ap, ◌∙◌, leb, leb→le, le→leb, ◌==◌, true, false, Option, none, some, List, [],
  ◌∷◌, ◌++◌, length, trim, trim-trim, is_empty, arith, All, Bool-cases, inl, inr,
}
use holo.Prelude.OrdMap.{Text}
use holo.Prelude.Bytes.{be_bytes, of_be-be_bytes, length-be_bytes}
use holo.Prelude.Utf8.{as_bytes, from_utf8-as_bytes, IsScalar}
use holo.Prelude.Outcome.{ok, ◌>>=◌}
use holo.Wire.Reader.{read_byte, read_exact-append}
use holo.Wire.{
  max_data_len, max_initiator_len, is_cdb_length, named_initiator, CdbPacket, encode, encode_frame,
  plain_frame, decode, decode_header, read_extension, read_initiator,
}

named_twice : (i : Option Text) → named_initiator (named_initiator i) ≡ named_initiator i
unfolding named_initiator
named_twice none = refl
named_twice (some t) = elim (Bool-cases (is_empty (trim t))) [
  | inl e ↦ rw e
  | inr e ↦ rw (e, trim-trim t, e)
]

cdb_length_no_marker : (n : ℕ) → is_cdb_length n ≡ true → (n == 255) ≡ false
cdb_length_no_marker n h = ground arith

as_bytes_not_empty : (t : Text) → is_empty t ≡ false → (length (as_bytes t) == 0) ≡ false
unfolding as_bytes
as_bytes_not_empty [] h = ground arith
as_bytes_not_empty (c ∷ t) h = ground arith

read_named :
    (t : Text) (rest : List ℕ)
    → All IsScalar t
    → is_empty t ≡ false
    → read_initiator (length (as_bytes t) ∷ (as_bytes t ++ rest))
      ≡ (ok (named_initiator (some t)), rest)
unfolding read_initiator read_byte ◌>>=◌
read_named t rest v n = rw (
  as_bytes_not_empty t n,
  read_exact-append (length (as_bytes t)) (as_bytes t) rest refl,
  from_utf8-as_bytes t v,
)

-- The CDB and the payload behind the length byte and the initiator.
tail_frame : List ℕ → List ℕ → List ℕ → List ℕ
tail_frame cdb payload rest = cdb ++ (be_bytes 4 (length payload) ++ (payload ++ rest))

module _ (cdb payload rest : List ℕ) (good_length : is_cdb_length (length cdb) ≡ true)
    (fits : length payload ≤ max_data_len) where
  read_plain :
      decode (length cdb ∷ tail_frame cdb payload rest)
      ≡ (ok (record { cdb = cdb; payload = payload; initiator = none }), rest)
  unfolding decode decode_header read_byte tail_frame ◌>>=◌
  read_plain = rw (
    cdb_length_no_marker (length cdb) good_length,
    good_length,
    read_exact-append (length cdb) cdb _ refl,
    read_exact-append 4 (be_bytes 4 (length payload)) _ (length-be_bytes 4 (length payload)),
    of_be-be_bytes 4 (length payload) (omega arith),
    le→leb _ _ fits,
    read_exact-append (length payload) payload rest refl,
  )

  read_extended :
      (t : Text)
      → All IsScalar t
      → is_empty t ≡ false
      → decode (
          0xff
          ∷ 0x01
          ∷ length (as_bytes t)
          ∷ (as_bytes t ++ length cdb ∷ tail_frame cdb payload rest))
        ≡ (ok (record { cdb = cdb; payload = payload; initiator = named_initiator (some t) }), rest)
  unfolding decode decode_header read_extension read_byte tail_frame ◌>>=◌
  read_extended t v n = rw (
    read_named t (length cdb ∷ tail_frame cdb payload rest) v n,
    good_length,
    read_exact-append (length cdb) cdb _ refl,
    read_exact-append 4 (be_bytes 4 (length payload)) _ (length-be_bytes 4 (length payload)),
    of_be-be_bytes 4 (length payload) (omega arith),
    le→leb _ _ fits,
    read_exact-append (length payload) payload rest refl,
  )

named_not_empty : (i : Option Text) (t : Text) → named_initiator i ≡ some t → is_empty t ≡ false
unfolding named_initiator
named_not_empty none t h = ground arith
named_not_empty (some u) t h = elim (Bool-cases (is_empty (trim u))) [
  | inl e ↦ ground arith
  | inr e ↦ ground arith
]

extended_frame : CdbPacket → Text → List ℕ → List ℕ
extended_frame p t rest =
    0xff
    ∷ 0x01
    ∷ length (as_bytes t)
    ∷ (as_bytes t ++ length p.cdb ∷ tail_frame p.cdb p.payload rest)

tail_frame-append :
    (cdb payload rest : List ℕ)
    → (cdb ++ (be_bytes 4 (length payload) ++ payload)) ++ rest ≡ tail_frame cdb payload rest
unfolding tail_frame
tail_frame-append cdb payload rest = simp append_assoc

extended_frame-append :
    (p : CdbPacket) (t : Text) (rest : List ℕ)
    → (0xff ∷ 0x01 ∷ length (as_bytes t) ∷ (as_bytes t ++ plain_frame p.cdb p.payload)) ++ rest
      ≡ extended_frame p t rest
unfolding extended_frame plain_frame tail_frame
extended_frame-append p t rest = simp append_assoc

decode_frame :
    (p : CdbPacket) (i : Option Text) (bytes rest : List ℕ)
    → is_cdb_length (length p.cdb) ≡ true
    → length p.payload ≤ max_data_len
    → ((t : Text) → i ≡ some t → All IsScalar t × (is_empty t ≡ false))
    → encode_frame p i ≡ ok bytes
    → decode (bytes ++ rest) ≡ (ok (record p { initiator = named_initiator i }), rest)
unfolding encode_frame plain_frame extended_frame named_initiator
decode_frame p none bytes rest l f v h =
    let e : bytes ≡ plain_frame p.cdb p.payload = ground arith in
    rw (e, tail_frame-append p.cdb p.payload rest) (read_plain p.cdb p.payload rest l f)
decode_frame p (some t) bytes rest l f v h =
    elim (Bool-cases (leb (length (as_bytes t)) max_initiator_len)) [
      | inl d ↦
          let frame =
            0xff ∷ 0x01 ∷ length (as_bytes t) ∷ (as_bytes t ++ plain_frame p.cdb p.payload) in
          let e : bytes ≡ frame = ground arith in
          rw (e, extended_frame-append p t rest)
            (read_extended p.cdb p.payload rest l f t (v t refl).0 (v t refl).1)
      | inr d ↦ ground arith
    ]

-- A packet that encodes is decoded to itself with its initiator trimmed (none if that is empty),
-- and exactly its bytes are consumed, if the trimmed initiator consists of Unicode scalar values.
pub decode-encode :
    (p : CdbPacket) (bytes rest : List ℕ)
    → ((t : Text) → named_initiator p.initiator ≡ some t → All IsScalar t)
    → encode p ≡ ok bytes
    → decode (bytes ++ rest) ≡ (ok (record p { initiator = named_initiator p.initiator }), rest)
unfolding encode
decode-encode p bytes rest v h =
    let l : is_cdb_length (length p.cdb) ≡ true = ground arith in
    let f : leb (length p.payload) max_data_len ≡ true = ground arith in
    let e : encode_frame p (named_initiator p.initiator) ≡ ok bytes = ground arith in
    let back =
      decode_frame p (named_initiator p.initiator) bytes rest l (leb→le _ _ f)
        (λ t n. (v t n, named_not_empty p.initiator t n)) e in
    back ∙ ap (λ i. (ok (record p { initiator = i }), rest)) (named_twice p.initiator)
