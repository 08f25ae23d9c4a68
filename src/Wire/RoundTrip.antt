-- ===== src/Wire/RoundTrip.antt =====
-- Reading a response frame back: data-plane/src/iscsi/cdb_wire.rs.
use mathlib.Core.List.{append_assoc}
use holo.Prelude.{
  ℕ, ◌≤◌, ◌≡◌, refl, leb, leb→le, le→leb, List, [], ◌∷◌, ◌++◌, length, arith, Bool-cases, inl, inr,
}
use holo.Prelude.Bytes.{be_bytes, of_be-be_bytes, length-be_bytes}
use holo.Prelude.Outcome.{ok, ◌>>=◌}
use holo.Wire.Reader.{read_byte, read_exact-append}
use holo.Wire.{max_data_len, CdbResponse, encode_response, decode_response}

read_response :
    (r : CdbResponse) (rest : List ℕ)
    → length r.reply ≤ max_data_len
    → decode_response (
        length r.sense ∷ (r.sense ++ (be_bytes 4 (length r.reply) ++ (r.reply ++ r.status ∷ rest))))
      ≡ (ok r, rest)
unfolding decode_response read_byte ◌>>=◌
read_response r rest h = rw (
  read_exact-append (length r.sense) r.sense _ refl,
  read_exact-append 4 (be_bytes 4 (length r.reply)) _ (length-be_bytes 4 (length r.reply)),
  of_be-be_bytes 4 (length r.reply) (omega arith),
  le→leb _ _ h,
  read_exact-append (length r.reply) r.reply (r.status ∷ rest) refl,
)

response_frame : CdbResponse → List ℕ → List ℕ
response_frame r rest =
    length r.sense ∷ (r.sense ++ (be_bytes 4 (length r.reply) ++ (r.reply ++ r.status ∷ rest)))

response_frame-append :
    (r : CdbResponse) (rest : List ℕ) → response_frame r [] ++ rest ≡ response_frame r rest
unfolding response_frame
response_frame-append r rest = simp append_assoc

-- A response that encodes is decoded to itself, and exactly its bytes are consumed.
decode_response-encode_response :
    (r : CdbResponse) (bytes rest : List ℕ)
    → encode_response r ≡ ok bytes
    → decode_response (bytes ++ rest) ≡ (ok r, rest)
unfolding encode_response response_frame
decode_response-encode_response r bytes rest h =
    elim (Bool-cases (leb (length r.reply) max_data_len)) [
      | inl d ↦
          let e : bytes ≡ response_frame r [] = ground arith in
          rw (e, response_frame-append r rest) (read_response r rest (leb→le _ _ d))
      | inr d ↦ ground arith
    ]
