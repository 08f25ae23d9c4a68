-- ===== src/Storage/Segment/Appended.antt =====
-- What is read from a segment file after an append: data-plane/src/storage/segment.rs.
use mathlib.Core.List.{append-nil}
use holo.Prelude.{
  ℕ, zero, suc, ◌+◌, ◌<◌, ◌≤◌, ◌≡◌, refl, ap, ◌∙◌, leb, ◌==◌, true, false, List, [], ◌∷◌, ◌++◌,
  length, take, drop, arith,
}
use holo.Prelude.Bytes.{le_bytes}
use holo.Prelude.Outcome.{ok, and_then}
use holo.Storage.MetadataFile.{starts_with}
use holo.Storage.Segment.{
  kind_to_u16, SegmentHeader, encode_header, Crc, covered, encode_v2_header_copy,
  decode_segment_file_bytes, segment_bytes, grown_header, overwrite, write_header_copies,
  append_to_segment,
}
use holo.Storage.Segment.Header.{IsCrc, payload_behind, segment_size, header_set_back}
use holo.Storage.Segment.Written.{Describes, segment_back, grown_header-Describes}

take_whole : (xs : List ℕ) → take (length xs) xs ≡ xs
take_whole [] = refl
take_whole (x ∷ xs) = ap (◌∷◌ x) (take_whole xs)

drop_beyond : (n : ℕ) (xs : List ℕ) → length xs ≤ n → drop n xs ≡ []
drop_beyond zero [] h = refl
drop_beyond zero (x ∷ xs) h = absurd (omega arith)
drop_beyond (suc n) [] h = refl
drop_beyond (suc n) (x ∷ xs) h = drop_beyond n xs (omega arith)

overwrite_end :
    (offset : ℕ) (bytes file : List ℕ)
    → offset ≡ length file
    → overwrite offset bytes file ≡ file ++ bytes
unfolding overwrite
overwrite_end offset bytes file h = rw (
  h,
  take_whole file,
  drop_beyond (length file + length bytes) file (omega arith),
  append-nil bytes,
)

pub prefix_fits :
    (prefix payload : List ℕ) → starts_with prefix payload ≡ true → length prefix ≤ length payload
unfolding starts_with
prefix_fits [] payload h = omega arith
prefix_fits (p ∷ prefix) [] h = absurd (ground arith)
prefix_fits (p ∷ prefix) (b ∷ payload) h = ground (arith, prefix_fits prefix payload)

module _ (crc : Crc) where
  segment_longer :
      (h : SegmentHeader) (payload appended : List ℕ)
      → segment_bytes crc h payload ++ appended ≡ segment_bytes crc h (payload ++ appended)
  unfolding segment_bytes encode_v2_header_copy covered encode_header le_bytes
  segment_longer h payload appended = refl

  headers_replaced :
      (h h' : SegmentHeader) (payload : List ℕ)
      → (h'.version == 2) ≡ true
      → write_header_copies crc h' (segment_bytes crc h payload) ≡ segment_bytes crc h' payload
  unfolding write_header_copies overwrite segment_bytes encode_v2_header_copy covered encode_header
      le_bytes
  headers_replaced h h' payload e = rw e

  head_read :
      (h : SegmentHeader) (payload : List ℕ)
      → take 96 (segment_bytes crc h payload) ≡ segment_bytes crc h []
  unfolding segment_bytes encode_v2_header_copy covered encode_header le_bytes
  head_read h payload = refl

module _ (crc : Crc) (law : IsCrc crc) where
  appended_bytes :
      (segment_id : ℕ) (h : SegmentHeader) (payload prefix appended : List ℕ)
      → Describes crc h payload
      → 0 < length payload
      → starts_with prefix payload ≡ true
      → append_to_segment crc h.kind segment_id prefix appended (segment_bytes crc h payload)
        ≡ ok (segment_bytes crc (grown_header crc h appended) (payload ++ appended))
  unfolding append_to_segment
  appended_bytes segment_id h payload prefix appended d n p =
      let file = segment_bytes crc h payload in
      let size = segment_size crc law h d.well_formed payload in
      let same : (kind_to_u16 h.kind == kind_to_u16 h.kind) ≡ true = ground arith in
      let some_bytes : (h.payload_len == 0) ≡ false = ground (arith, d.measured) in
      let enough : leb (96 + length prefix) (length file) ≡ true =
        ground (arith, prefix_fits prefix payload p) in
      let end : overwrite (96 + h.payload_len) appended file
          ≡ segment_bytes crc h (payload ++ appended) =
        overwrite_end (96 + h.payload_len) appended file (omega (arith, d.measured))
        ∙ segment_longer crc h payload appended in
      let current : ((grown_header crc h appended).version == 2) ≡ true =
        unfold grown_header in ground (arith, d.well_formed.current) in
      rw (
        head_read crc h payload,
        header_set_back crc law h d.well_formed [],
        same,
        some_bytes,
        enough,
        payload_behind crc law h d.well_formed payload,
        p,
        end,
        headers_replaced crc h (grown_header crc h appended) (payload ++ appended) current,
      )

  unfold_kind :
      (h : SegmentHeader) (appended payload : List ℕ)
      → decode_segment_file_bytes crc h.kind
          (segment_bytes crc (grown_header crc h appended) payload)
        ≡ decode_segment_file_bytes crc
            (grown_header crc h appended).kind
            (segment_bytes crc (grown_header crc h appended) payload)
  unfold_kind h appended payload =
      let same : h.kind ≡ (grown_header crc h appended).kind = unfold grown_header in refl in
      ap
        (λ k.
          decode_segment_file_bytes crc k (segment_bytes crc (grown_header crc h appended) payload))
        same

  -- A segment file of the current version is read as its header and payload; after an append it is
  -- read as the payload with the appended bytes behind it, under a header with the next sequence
  -- number whose length and checksum are those of the longer payload. The checksum that the crc32c
  -- package gives has 32 bits and goes on where it stopped, the payload is not empty, begins with the
  -- prefix and has not the checksum 0, and the lengths have 64 bits.
  pub append_to_segment_read :
      (segment_id : ℕ) (h : SegmentHeader) (payload prefix appended : List ℕ)
      → Describes crc h payload
      → 0 < length payload
      → starts_with prefix payload ≡ true
      → (h.checksum == 0) ≡ false
      → length payload + length appended < 18446744073709551616
      → (decode_segment_file_bytes crc h.kind (segment_bytes crc h payload) ≡ ok (h, payload))
        × ((and_then
                (append_to_segment crc h.kind segment_id prefix appended
                  (segment_bytes crc h payload))
                (decode_segment_file_bytes crc h.kind)
              ≡ ok (grown_header crc h appended, payload ++ appended))
            × Describes crc (grown_header crc h appended) (payload ++ appended))
  append_to_segment_read segment_id h payload prefix appended d n p z l =
      let grown = grown_header-Describes crc law h payload appended d z l in
      (
        segment_back crc law h payload d,
        (
          rw (appended_bytes segment_id h payload prefix appended d n p) (
              unfold_kind h appended (payload ++ appended)
              ∙ segment_back crc law (grown_header crc h appended) (payload ++ appended) grown),
          grown,
        ),
      )
