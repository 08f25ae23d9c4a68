-- ===== src/Storage/Reclaim/Codec.antt =====
-- Reading the reclaim file back: data-plane/src/storage/reclaim.rs.
use holo.Prelude.{
  ℕ, ◌+◌, ◌-◌, ◌/◌, ◌*◌, ◌≤◌, ◌<◌, ◌≡◌, refl, ◌∙◌, leb, le→leb, ◌==◌, Bool, true, false, List, [],
  ◌∷◌, ◌++◌, length, take, drop, All, arith,
}
use holo.Prelude.Bytes.{le_bytes, of_le, of_le-le_bytes}
use holo.Prelude.Outcome.{ok, and_then}
use holo.Storage.Reclaim.{
  ReclaimReason, superseded, truncated, compacted, reason_from_u8, reason_to_u8, ReclaimCandidate,
  bool_to_u8, encode, decode, decode_candidates, load_candidates, encode_all, persist_candidates,
  checked_count, max_maintenance_metadata_records,
}

-- Both ids are 64-bit numbers.
abbrev pub IsCandidate : ReclaimCandidate → Type 0
IsCandidate c =
    (c.candidate_id < 18446744073709551616) × (c.blk_map_record_id < 18446744073709551616)

reason_back : (r : ReclaimReason) → reason_from_u8 (reason_to_u8 r) ≡ ok r
unfolding reason_from_u8 reason_to_u8
reason_back superseded = refl
reason_back truncated = refl
reason_back compacted = refl

safe_back : (b : Bool) → (bool_to_u8 b == 1) ≡ b
unfolding bool_to_u8
safe_back true = refl
safe_back false = refl

decode-encode : (c : ReclaimCandidate) → IsCandidate c → decode (encode c) ≡ ok c
unfolding decode encode le_bytes
decode-encode c h =
    let first : of_le (take 8 (encode c)) ≡ c.candidate_id =
      of_le-le_bytes 8 c.candidate_id (omega (arith, h.0)) in
    let second : of_le (take 8 (drop 8 (encode c))) ≡ c.blk_map_record_id =
      of_le-le_bytes 8 c.blk_map_record_id (omega (arith, h.1)) in
    rw (reason_back c.reason, first, second, safe_back c.safe_to_reclaim)

take-encode : (c : ReclaimCandidate) (rest : List ℕ) → take 25 (encode c ++ rest) ≡ encode c
unfolding encode le_bytes
take-encode c rest = refl

drop-encode : (c : ReclaimCandidate) (rest : List ℕ) → drop 25 (encode c ++ rest) ≡ rest
unfolding encode le_bytes
drop-encode c rest = refl

length-encode :
    (c : ReclaimCandidate) (rest : List ℕ) → length (encode c ++ rest) ≡ 25 + length rest
unfolding encode le_bytes
length-encode c rest = omega arith

decode_candidates-encode_all :
    (cs : List ReclaimCandidate)
    → All IsCandidate cs
    → decode_candidates (length cs) (encode_all cs) ≡ ok cs
unfolding decode_candidates encode_all
decode_candidates-encode_all [] h = refl
decode_candidates-encode_all (c ∷ cs) h =
    let long : leb 25 (length (encode c ++ encode_all cs)) ≡ true =
      le→leb _ _ (omega (arith, length-encode c (encode_all cs))) in
    rw (
      drop-encode c (encode_all cs),
      decode_candidates-encode_all cs h.1,
      long,
      take-encode c (encode_all cs),
      decode-encode c h.0,
    )

length-encode_all : (cs : List ReclaimCandidate) → length (encode_all cs) ≡ 25 * length cs
unfolding encode_all
length-encode_all [] = refl
length-encode_all (c ∷ cs) = omega (arith, length-encode c (encode_all cs), length-encode_all cs)

payload_length : (cs : List ReclaimCandidate) → length (persist_candidates cs) ≡ 8 + 25 * length cs
unfolding persist_candidates le_bytes
payload_length cs = omega (arith, length-encode_all cs)

payload_count :
    (cs : List ReclaimCandidate)
    → length cs ≤ max_maintenance_metadata_records
    → of_le (take 8 (persist_candidates cs)) ≡ length cs
unfolding persist_candidates le_bytes
payload_count cs h = of_le-le_bytes 8 (length cs) (omega arith)

payload_rest : (cs : List ReclaimCandidate) → drop 8 (persist_candidates cs) ≡ encode_all cs
unfolding persist_candidates le_bytes
payload_rest cs = refl

count_back :
    (cs : List ReclaimCandidate)
    → length cs ≤ max_maintenance_metadata_records
    → checked_count (persist_candidates cs) ≡ ok (length cs)
count_back cs h =
    let long : leb 8 (length (persist_candidates cs)) ≡ true =
      le→leb _ _ (omega (arith, payload_length cs)) in
    let enough : leb (length cs) ((length (persist_candidates cs) - 8) / 25) ≡ true =
      le→leb _ _ (omega (arith, payload_length cs)) in
    rw (long, payload_count cs h, le→leb _ _ h, enough)

load_nonempty :
    (payload : List ℕ)
    → (length payload == 0) ≡ false
    → load_candidates payload
      ≡ and_then (checked_count payload) (λ count. decode_candidates count (drop 8 payload))
unfolding load_candidates
load_nonempty payload e = rw e

-- The payload written for the candidates is read back as the candidates, if there are at most 65536
-- of them and their ids are 64-bit numbers.
pub load_candidates-persist_candidates :
    (cs : List ReclaimCandidate)
    → length cs ≤ max_maintenance_metadata_records
    → All IsCandidate cs
    → load_candidates (persist_candidates cs) ≡ ok cs
load_candidates-persist_candidates cs n h =
    let nonempty : (length (persist_candidates cs) == 0) ≡ false =
      ground (arith, payload_length cs) in
    load_nonempty (persist_candidates cs) nonempty
    ∙ rw (count_back cs n, payload_rest cs) (decode_candidates-encode_all cs h)
