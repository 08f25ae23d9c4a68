-- ===== src/Storage/Compression/RunLength.antt =====
-- The run-length code and its inverse: data-plane/src/storage/compression.rs.
use Prim.Native.Nat.{zero, suc}
use holo.Prelude.{
  ℕ, ◌+◌, ◌%◌, ◌≤◌, ◌≡◌, refl, ap, ◌∙◌, ltb, ◌==◌, true, false, ◌&&◌, List, [], ◌∷◌, ◌++◌, length,
  arith, Bool-cases, inl, inr,
}
use holo.Prelude.Outcome.{ok}
use holo.Storage.Compression.{encode_run, rle_encode, resize, decode_runs, rle_decode}

plus_one : (n : ℕ) → n + 1 ≡ suc n
plus_one n = omega arith

resize_shift :
    (run value : ℕ) (rest : List ℕ)
    → value ∷ (resize run value ++ rest) ≡ resize run value ++ value ∷ rest
unfolding resize
resize_shift zero value rest = refl
resize_shift (suc run) value rest = ap (◌∷◌ value) (resize_shift run value rest)

resize-suc :
    (run value : ℕ) (rest : List ℕ)
    → resize (run + 1) value ++ rest ≡ resize run value ++ value ∷ rest
unfolding resize
resize-suc run value rest =
    ap (λ n. resize n value ++ rest) (plus_one run) ∙ resize_shift run value rest

encode_longer :
    (b run c : ℕ) (bytes : List ℕ)
    → (c == b && ltb run 255) ≡ true
    → encode_run b run (c ∷ bytes) ≡ encode_run b (run + 1) bytes
unfolding encode_run
encode_longer b run c bytes e = ground arith

encode_next :
    (b run c : ℕ) (bytes : List ℕ)
    → (c == b && ltb run 255) ≡ false
    → encode_run b run (c ∷ bytes) ≡ run % 256 ∷ b ∷ encode_run c 1 bytes
unfolding encode_run
encode_next b run c bytes e = ground arith

decode_next :
    (run b : ℕ) (rest out : List ℕ)
    → 1 ≤ run
    → run ≤ 255
    → decode_runs rest ≡ ok out
    → decode_runs (run % 256 ∷ b ∷ rest) ≡ ok (resize run b ++ out)
unfolding decode_runs
decode_next run b rest out h g e =
    let byte : run % 256 ≡ run = omega arith in
    let positive : (run == 0) ≡ false = ground arith in rw (e, byte, positive)

decode_runs-encode_run :
    (b run : ℕ) (bytes : List ℕ)
    → 1 ≤ run
    → run ≤ 255
    → decode_runs (encode_run b run bytes) ≡ ok (resize run b ++ bytes)
unfolding encode_run
decode_runs-encode_run b run [] h g = decode_next run b [] [] h g (unfold decode_runs in refl)
decode_runs-encode_run b run (c ∷ bytes) h g = elim (Bool-cases (c == b && ltb run 255)) [
  | inl e ↦
      let same : c ≡ b = ground arith in
      let room : run + 1 ≤ 255 = ground arith in
      ap decode_runs (encode_longer b run c bytes e)
      ∙ decode_runs-encode_run b (run + 1) bytes (omega arith) room
      ∙ rw (same) (ap ok (resize-suc run b bytes))
  | inr e ↦
      ap decode_runs (encode_next b run c bytes e)
      ∙ decode_next run b (encode_run c 1 bytes) (c ∷ bytes) h g
          (decode_runs-encode_run c 1 bytes (omega arith) (omega arith) ∙ unfold resize in refl)
]

even_pairs : (b run : ℕ) (bytes : List ℕ) → length (encode_run b run bytes) % 2 ≡ 0
unfolding encode_run
even_pairs b run [] = refl
even_pairs b run (c ∷ bytes) = elim (Bool-cases (c == b && ltb run 255)) [
  | inl e ↦ ap (λ l. length l % 2) (encode_longer b run c bytes e) ∙ even_pairs b (run + 1) bytes
  | inr e ↦
      ap (λ l. length l % 2) (encode_next b run c bytes e) ∙ omega (arith, even_pairs c 1 bytes)
]

-- What the run-length code writes for a payload is decoded to the payload.
pub rle_decode-rle_encode : (payload : List ℕ) → rle_decode (rle_encode payload) ≡ ok payload
unfolding rle_decode rle_encode
rle_decode-rle_encode [] = unfold decode_runs in refl
rle_decode-rle_encode (b ∷ bytes) =
    rw (even_pairs b 1 bytes)
      (decode_runs-encode_run b 1 bytes (omega arith) (omega arith) ∙ unfold resize in refl)
