-- ===== src/Storage/Compression.antt =====
-- The codecs of a block's payload: data-plane/src/storage/compression.rs. LZ4 and zlib are other
-- packages' code, and parameters here; `usize` has 64 bits, so that no length conversion fails.
pub mod RunLength
pub mod RoundTrip
mod Examples
use Prim.Native.Nat.{zero, suc}
use holo.Prelude.{
  ℕ, ◌+◌, ◌%◌, ◌≤◌, ◌≡◌, ltb, leb, ◌==◌, Bool, true, false, not, ◌&&◌, Option, none, some, List, [],
  ◌∷◌, ◌++◌, length, take, if◌then◌else◌, saturating_add,
}
use holo.Prelude.Bytes.{of_le, le_bytes}
use holo.Prelude.Outcome.{Result, ok, err, and_then, ensure, ok_or}
use holo.Storage.Error.{StorageError, corrupt, io}

abbrev pub max_decompressed_payload_len : ℕ
max_decompressed_payload_len = 16777216

pub data CompressionCodec : Type 0 where
  raw rle lz4 zlib : CompressionCodec

-- `CompressionCodec::from_u8`.
unfoldable pub codec_from_u8 : ℕ → Result StorageError CompressionCodec
codec_from_u8 value =
    if value == 0
    then ok raw
    else if value == 1
    then ok rle
    else if value == 2
    then ok lz4
    else if value == 3
    then ok zlib
    else err corrupt

-- `codec as u8`.
unfoldable pub codec_to_u8 : CompressionCodec → ℕ
codec_to_u8 raw = 0
codec_to_u8 rle = 1
codec_to_u8 lz4 = 2
codec_to_u8 zlib = 3

-- The loop of `rle_encode` within a run of `run` bytes `b`.
unfoldable pub encode_run : ℕ → ℕ → List ℕ → List ℕ
encode_run b run [] = run % 256 ∷ b ∷ []
encode_run b run (c ∷ bytes) = elim (c == b && ltb run 255) [
  | true ↦ encode_run b (run + 1) bytes
  | false ↦ run % 256 ∷ b ∷ encode_run c 1 bytes
]

unfoldable pub rle_encode : List ℕ → List ℕ
rle_encode [] = []
rle_encode (b ∷ bytes) = encode_run b 1 bytes

-- `out.resize(out.len() + run, value)`.
unfoldable pub resize : ℕ → ℕ → List ℕ
resize zero value = []
resize (suc run) value = value ∷ resize run value

abbrev decode_step : ℕ → ℕ → Result StorageError (List ℕ) → Result StorageError (List ℕ)
decode_step run value rest =
    and_then (ensure (not (run == 0)) corrupt)
      λ _. and_then rest λ out. ok (resize run value ++ out)

-- The loop of `rle_decode`; its caller has refused an odd length.
unfoldable pub decode_runs : List ℕ → Result StorageError (List ℕ)
decode_runs [] = ok []
decode_runs (run ∷ []) = err corrupt
decode_runs (run ∷ value ∷ rest) = decode_step run value (decode_runs rest)

unfoldable pub rle_decode : List ℕ → Result StorageError (List ℕ)
rle_decode payload = and_then (ensure (length payload % 2 == 0) corrupt) λ _. decode_runs payload

-- `lz4_flex::compress_prepend_size` and `decompress_size_prepended`; a zlib encoder of the whole
-- payload, and a decoder from which at most so many bytes are taken.
pub record Codecs : Type 0 where
  pub lz4_compress : List ℕ → List ℕ
  pub lz4_decompress : List ℕ → Option (List ℕ)
  pub deflate : List ℕ → Option (List ℕ)
  pub inflate : ℕ → List ℕ → Option (List ℕ)

pub record Compressed : Type 0 where
  pub codec : CompressionCodec
  pub stored : List ℕ
  pub compressed : Bool

-- The payload itself, unless the encoded one is shorter.
unfoldable pub smaller : CompressionCodec → List ℕ → List ℕ → Compressed
smaller codec payload encoded =
    if leb (length payload) (length encoded)
    then record { codec = raw; stored = payload; compressed = false }
    else record { codec = codec; stored = encoded; compressed = true }

module _ (x : Codecs) where
  unfoldable pub compress_payload : CompressionCodec → List ℕ → Result StorageError Compressed
  compress_payload raw payload = ok (record { codec = raw; stored = payload; compressed = false })
  compress_payload rle payload = ok (smaller rle payload (rle_encode payload))
  compress_payload lz4 payload = ok (smaller lz4 payload (x.lz4_compress payload))
  compress_payload zlib payload =
      and_then (ok_or (x.deflate payload) io) λ encoded. ok (smaller zlib payload encoded)

  unfoldable pub lz4_prepended_len : List ℕ → Result StorageError ℕ
  lz4_prepended_len payload = and_then (ensure (leb 4 (length payload)) corrupt) λ _.
      and_then (ensure (leb (of_le (take 4 payload)) max_decompressed_payload_len) corrupt)
        λ _. ok (of_le (take 4 payload))

  -- What the decoders' results must measure.
  unfoldable pub of_length : ℕ → List ℕ → Result StorageError (List ℕ)
  of_length expected_len decoded =
      and_then (ensure (length decoded == expected_len) corrupt) λ _. ok decoded

  unfoldable pub decompress : CompressionCodec → List ℕ → ℕ → Result StorageError (List ℕ)
  decompress raw payload expected_len = of_length expected_len payload
  decompress rle payload expected_len =
      and_then (rle_decode payload) λ decoded. of_length expected_len decoded
  decompress lz4 payload expected_len = and_then (lz4_prepended_len payload) λ declared_len.
      and_then (ensure (declared_len == expected_len) corrupt) λ _.
        and_then (ok_or (x.lz4_decompress payload) corrupt)
          λ decoded. of_length expected_len decoded
  decompress zlib payload expected_len =
      and_then (ok_or (x.inflate (saturating_add expected_len 1) payload) io)
        λ decoded. of_length expected_len decoded

  unfoldable pub decompress_payload : CompressionCodec → List ℕ → ℕ → Result StorageError (List ℕ)
  decompress_payload codec payload expected_len =
      and_then (ensure (leb expected_len max_decompressed_payload_len) corrupt)
        λ _. decompress codec payload expected_len
