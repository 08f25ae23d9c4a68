-- ===== src/Storage/Compression/RoundTrip.antt =====
-- Compressing against decompressing, and their lengths: data-plane/src/storage/compression.rs.
use Prim.Native.Nat.{zero, suc}
use holo.Prelude.{
  ℕ, ◌≤◌, ◌<◌, ◌≡◌, refl, ap, ◌∙◌, leb, le→leb, true, some, List, [], ◌∷◌, ◌++◌, length, take,
  arith, Option-cases, inl, inr, saturating_add,
}
use holo.Prelude.Bytes.{le_bytes, of_le, of_le-le_bytes}
use holo.Prelude.Outcome.{ok}
use holo.Storage.Compression.{
  max_decompressed_payload_len, CompressionCodec, raw, rle, lz4, zlib, Codecs, Compressed, smaller,
  compress_payload, decompress_payload, decompress, of_length, lz4_prepended_len,
}
use holo.Storage.Compression.RunLength.{rle_decode-rle_encode}

-- What is stored is never longer than the payload, on every codec.
pub compress_payload_no_longer :
    (x : Codecs) (codec : CompressionCodec) (payload : List ℕ) (r : Compressed)
    → compress_payload x codec payload ≡ ok r
    → length r.stored ≤ length payload
unfolding compress_payload smaller
compress_payload_no_longer x raw payload r e = ground arith
compress_payload_no_longer x rle payload r e = ground arith
compress_payload_no_longer x lz4 payload r e = ground arith
compress_payload_no_longer x zlib payload r e = ground arith

-- A decompression that succeeds gives exactly the announced number of bytes, at most 16 MiB,
-- whatever the stored bytes and the codecs do.
decompress_payload_bounded :
    (x : Codecs) (codec : CompressionCodec) (stored out : List ℕ) (expected_len : ℕ)
    → decompress_payload x codec stored expected_len ≡ ok out
    → (length out ≡ expected_len) × (expected_len ≤ max_decompressed_payload_len)
unfolding decompress_payload decompress of_length
decompress_payload_bounded x raw stored out n e = ground arith
decompress_payload_bounded x rle stored out n e = ground arith
decompress_payload_bounded x lz4 stored out n e = ground arith
decompress_payload_bounded x zlib stored out n e = ground arith

take_all : {A : Type 0} (n : ℕ) (xs : List A) → length xs ≤ n → take n xs ≡ xs
take_all zero [] h = refl
take_all zero (x ∷ xs) h = ground arith
take_all (suc n) [] h = refl
take_all (suc n) (x ∷ xs) h = ap (◌∷◌ x) (take_all n xs (omega arith))

module _ (x : Codecs)
    (lz4_back : (payload : List ℕ) → x.lz4_decompress (x.lz4_compress payload) ≡ some payload)
    (lz4_prepends_size : (payload : List ℕ)
      → length payload < 4294967296
      → (rest : List ℕ) × (x.lz4_compress payload ≡ le_bytes 4 (length payload) ++ rest))
    (inflate_back : (payload encoded : List ℕ) (limit : ℕ)
      → x.deflate payload ≡ some encoded
      → x.inflate limit encoded ≡ some (take limit payload)) where
  of_own_length : (payload : List ℕ) → of_length x (length payload) payload ≡ ok payload
  unfolding of_length
  of_own_length payload = ground arith

  lz4_declares :
      (payload : List ℕ)
      → length payload ≤ max_decompressed_payload_len
      → lz4_prepended_len x (x.lz4_compress payload) ≡ ok (length payload)
  unfolding lz4_prepended_len
  lz4_declares payload h =
      let (rest, e) = lz4_prepends_size payload (omega arith) in
      let long : leb 4 (length (x.lz4_compress payload)) ≡ true =
        ap (λ l. leb 4 (length l)) e ∙ unfold le_bytes in ground arith in
      let size : of_le (take 4 (x.lz4_compress payload)) ≡ length payload =
        ap (λ l. of_le (take 4 l)) e
        ∙ (unfold le_bytes in of_le-le_bytes 4 (length payload) (omega arith)) in
      rw (long, size, le→leb _ _ h)

  inflate_all :
      (payload encoded : List ℕ)
      → length payload ≤ max_decompressed_payload_len
      → x.deflate payload ≡ some encoded
      → x.inflate (saturating_add (length payload) 1) encoded ≡ some payload
  inflate_all payload encoded h e =
      inflate_back payload encoded (saturating_add (length payload) 1) e
      ∙ ap some (
          take_all (saturating_add (length payload) 1) payload
            (unfold saturating_add in omega arith))

  reads_back :
      (codec : CompressionCodec) (payload : List ℕ) (r : Compressed)
      → length payload ≤ max_decompressed_payload_len
      → compress_payload x codec payload ≡ ok r
      → decompress x r.codec r.stored (length payload) ≡ ok payload
  unfolding compress_payload smaller decompress
  reads_back raw payload r h e = ground (arith, of_own_length payload)
  reads_back rle payload r h e =
      ground (arith, of_own_length payload, rle_decode-rle_encode payload)
  reads_back lz4 payload r h e =
      ground (arith, of_own_length payload, lz4_declares payload h, lz4_back payload)
  reads_back zlib payload r h e = elim (Option-cases (x.deflate payload)) [
    | inl n ↦ ground arith
    | inr (encoded, n) ↦ ground (arith, of_own_length payload, inflate_all payload encoded h n)
  ]

  -- What is stored for a payload of at most 16 MiB is decompressed to the payload, on every codec,
  -- if LZ4 decompresses what it compressed and writes the size in front, and inflating what was
  -- deflated gives the payload, up to the number of bytes taken.
  pub decompress_payload-compress_payload :
      (codec : CompressionCodec) (payload : List ℕ) (r : Compressed)
      → length payload ≤ max_decompressed_payload_len
      → compress_payload x codec payload ≡ ok r
      → decompress_payload x r.codec r.stored (length payload) ≡ ok payload
  unfolding decompress_payload
  decompress_payload-compress_payload codec payload r h e =
      rw (le→leb _ _ h) (reads_back codec payload r h e)
