-- ===== src/Storage/Segment/Examples.antt =====
-- A segment file with a stand-in for the crc32c package: data-plane/src/storage/segment.rs.
use holo.Prelude.{ℕ, ◌+◌, ◌%◌, ◌<◌, ◌≡◌, refl, some, List, [], ◌∷◌, ◌++◌, arith}
use holo.Prelude.Outcome.{ok, and_then}
use holo.Storage.MetadataFile.{starts_with, append_segment_payload}
use holo.Storage.Segment.{
  lookup_kind, SegmentHeader, Crc, integrity32, new_header, decode_segment_file_bytes,
  segment_bytes, grown_header, append_to_segment,
}
use holo.Storage.Segment.Header.{IsCrc}
use holo.Storage.Segment.Written.{Describes, new_header-Describes}
use holo.Storage.Segment.Refines.{file_of, append_to_segment-append_segment_payload}

-- The sum of the bytes, in 32 bits.
unfoldable sum_on : ℕ → List ℕ → ℕ
sum_on acc [] = acc % 4294967296
sum_on acc (b ∷ bytes) = sum_on (acc + b) bytes

sum_on-lt : (acc : ℕ) (bytes : List ℕ) → sum_on acc bytes < 4294967296
unfolding sum_on
sum_on-lt acc [] = omega arith
sum_on-lt acc (b ∷ bytes) = sum_on-lt (acc + b) bytes

sum_on_wraps :
    (acc acc' : ℕ) (bytes : List ℕ)
    → acc % 4294967296 ≡ acc' % 4294967296
    → sum_on acc bytes ≡ sum_on acc' bytes
unfolding sum_on
sum_on_wraps acc acc' [] h = h
sum_on_wraps acc acc' (b ∷ bytes) h = sum_on_wraps (acc + b) (acc' + b) bytes (omega arith)

sum_on-append :
    (acc : ℕ) (bytes more : List ℕ) → sum_on acc (bytes ++ more) ≡ sum_on (sum_on acc bytes) more
unfolding sum_on
sum_on-append acc [] more = sum_on_wraps acc (acc % 4294967296) more (omega arith)
sum_on-append acc (b ∷ bytes) more = sum_on-append (acc + b) bytes more

abbrev adding : Crc
adding = record { extend = sum_on }

adding-IsCrc : IsCrc adding
adding-IsCrc = record { bounded = sum_on-lt; continued = sum_on-append }

abbrev log_start : List ℕ
log_start = 76 ∷ 80 ∷ 86 ∷ 50 ∷ []

abbrev header : SegmentHeader
header = new_header adding lookup_kind 3 1 (log_start ++ 7 ∷ [])

append_to_segment-append_segment_payload_example :
    (append_segment_payload log_start (8 ∷ 9 ∷ []) (some (file_of 5 header (log_start ++ 7 ∷ [])))
      ≡ ok (file_of 6 (grown_header adding header (8 ∷ 9 ∷ [])) (log_start ++ 7 ∷ 8 ∷ 9 ∷ [])))
    × ((and_then
            (append_to_segment adding header.kind 3 log_start
              (8 ∷ 9 ∷ [])
              (segment_bytes adding header (log_start ++ 7 ∷ [])))
            (decode_segment_file_bytes adding header.kind)
          ≡ ok (grown_header adding header (8 ∷ 9 ∷ []), log_start ++ 7 ∷ 8 ∷ 9 ∷ []))
        × Describes adding (grown_header adding header (8 ∷ 9 ∷ [])) (log_start ++ 7 ∷ 8 ∷ 9 ∷ []))
unfolding starts_with new_header integrity32 sum_on
append_to_segment-append_segment_payload_example =
    append_to_segment-append_segment_payload adding 3 5 header (log_start ++ 7 ∷ []) log_start
      (8 ∷ 9 ∷ []) adding-IsCrc
      (new_header-Describes adding adding-IsCrc lookup_kind 3 1 (log_start ++ 7 ∷ []) (omega arith)
        (omega arith) (omega arith))
      (omega arith) refl refl (omega arith)
