-- ===== src/Storage/Compression/Examples.antt =====
-- The codecs at a payload, with stand-ins for LZ4 and zlib that keep the bytes.
use holo.Prelude.{ℕ, ◌≡◌, refl, some, true, List, [], ◌∷◌, ◌++◌, length, take, drop, arith}
use holo.Prelude.Bytes.{le_bytes}
use holo.Prelude.Outcome.{ok}
use holo.Storage.Compression.{
  rle, Codecs, Compressed, compress_payload, decompress_payload, smaller, rle_encode, encode_run,
}
use holo.Storage.Compression.RoundTrip.{decompress_payload-compress_payload}

abbrev keeping : Codecs
keeping = record {
  lz4_compress = λ payload. le_bytes 4 (length payload) ++ payload;
  lz4_decompress = λ stored. some (drop 4 stored);
  deflate = λ payload. some payload;
  inflate = λ limit stored. some (take limit stored);
}

abbrev zeros : List ℕ
zeros = 0 ∷ 0 ∷ 0 ∷ 0 ∷ 7 ∷ []

abbrev runs : Compressed
runs = record { codec = rle; stored = 4 ∷ 0 ∷ 1 ∷ 7 ∷ []; compressed = true }

zeros_compressed : compress_payload keeping rle zeros ≡ ok runs
unfolding compress_payload smaller rle_encode encode_run
zeros_compressed = refl

same_payload :
    (payload encoded : List ℕ) (limit : ℕ)
    → keeping.deflate payload ≡ some encoded
    → keeping.inflate limit encoded ≡ some (take limit payload)
same_payload payload encoded limit e = ground arith

decompress_payload-compress_payload_example :
    decompress_payload keeping rle runs.stored 5 ≡ ok zeros
decompress_payload-compress_payload_example =
    decompress_payload-compress_payload keeping (λ payload. unfold le_bytes in refl)
      (λ payload h. (payload, refl)) same_payload rle zeros runs (omega arith) zeros_compressed
