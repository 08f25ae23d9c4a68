-- ===== src/Storage/Segment/Written.antt =====
-- What is read from a segment file after a write and an append:
-- data-plane/src/storage/segment.rs.
use holo.Prelude.{
  ℕ, ◌+◌, ◌<◌, ◌≡◌, refl, sym, ap, ◌∙◌, leb, ◌==◌, true, false, List, ◌++◌, length, length-append,
  saturating_add, arith, if◌then◌else◌,
}
use holo.Prelude.Outcome.{ok}
use holo.Storage.Segment.{
  SegmentKind, kind_to_u16, SegmentHeader, storage_layout_magic, Crc, integrity32, new_header,
  validate, decode_segment_file_bytes, segment_bytes, grown_header,
}
use holo.Storage.Segment.Header.{IsHeader, IsCrc, payload_behind, segment_size, header_set_back}

-- The header is that of the payload.
pub record Describes (crc : Crc) (h : SegmentHeader) (payload : List ℕ) : Type 0 where
  pub well_formed : IsHeader h
  pub measured : h.payload_len ≡ length payload
  pub summed : h.checksum ≡ integrity32 crc payload

module _ (crc : Crc) (law : IsCrc crc) where
  validated :
      (h : SegmentHeader) (payload : List ℕ)
      → Describes crc h payload
      → validate crc h payload ≡ ok tt
  unfolding validate
  validated h payload d =
      let known : (h.magic == storage_layout_magic) ≡ true =
        ground (arith, d.well_formed.magic_known) in
      let current : (h.version == 2) ≡ true = ground (arith, d.well_formed.current) in
      let other : (h.version == 1) ≡ false = ground (arith, d.well_formed.current) in
      let long : (h.payload_len == length payload) ≡ true = ground (arith, d.measured) in
      let sum : (h.checksum == integrity32 crc payload) ≡ true = ground (arith, d.summed) in
      rw (known, current, long, other, sum)

  pub segment_back :
      (h : SegmentHeader) (payload : List ℕ)
      → Describes crc h payload
      → decode_segment_file_bytes crc h.kind (segment_bytes crc h payload) ≡ ok (h, payload)
  unfolding decode_segment_file_bytes
  segment_back h payload d =
      let size = segment_size crc law h d.well_formed payload in
      let some_header : leb 36 (length (segment_bytes crc h payload)) ≡ true =
        ground (arith, size) in
      let both : leb 96 (length (segment_bytes crc h payload)) ≡ true = ground (arith, size) in
      let same : (kind_to_u16 h.kind == kind_to_u16 h.kind) ≡ true = ground arith in
      rw (
        some_header,
        header_set_back crc law h d.well_formed payload,
        same,
        both,
        payload_behind crc law h d.well_formed payload,
        validated h payload d,
      )

  pub new_header-Describes :
      (kind : SegmentKind) (segment_id sequence : ℕ) (payload : List ℕ)
      → segment_id < 18446744073709551616
      → sequence < 18446744073709551616
      → length payload < 18446744073709551616
      → Describes crc (new_header crc kind segment_id sequence payload) payload
  unfolding new_header integrity32
  new_header-Describes kind segment_id sequence payload i s n = record {
    well_formed = record {
      magic_known = refl;
      current = refl;
      id_bound = i;
      sequence_bound = s;
      len_bound = n;
      checksum_bound = law.bounded 0 payload;
    };
    measured = refl;
    summed = refl;
  }

  pub grown_header-Describes :
      (h : SegmentHeader) (payload appended : List ℕ)
      → Describes crc h payload
      → (h.checksum == 0) ≡ false
      → length payload + length appended < 18446744073709551616
      → Describes crc (grown_header crc h appended) (payload ++ appended)
  unfolding grown_header integrity32 saturating_add
  grown_header-Describes h payload appended d z n =
      let current : (h.version == 2) ≡ true = ground (arith, d.well_formed.current) in
      let next : (if h.checksum == 0
            then 0
            else if h.version == 2
            then crc.extend h.checksum appended
            else holo.Storage.Checksum.checksum_from h.checksum appended)
          ≡ crc.extend h.checksum appended =
        rw (z, current) in
      record {
        well_formed = record {
          magic_known = d.well_formed.magic_known;
          current = d.well_formed.current;
          id_bound = d.well_formed.id_bound;
          sequence_bound = omega arith;
          len_bound = omega arith;
          checksum_bound = omega (arith, next, law.bounded h.checksum appended);
        };
        measured = omega (arith, d.measured, length-append payload appended);
        summed =
            next
            ∙ ap (λ c. crc.extend c appended) d.summed
            ∙ sym (law.continued 0 payload appended);
      }
