-- ===== src/Storage/DataBlob/Scan.antt =====
-- The scan of a log of blobs ends, and goes on over what is appended:
-- data-plane/src/storage/data_path.rs.
use Prim.Native.Nat.{zero, suc}
use holo.Prelude.{
  ℕ, ◌+◌, ◌-◌, ◌≤◌, ◌<◌, ◌≡◌, refl, sym, ap, ◌∙◌, ltb, leb, leb→le, le→leb, ◌⊎◌, Bool, true, false,
  not, Bool-cases, inl, inr, none, some, List, [], ◌∷◌, length, take, drop, arith, checked_add,
  u64_max,
}
use holo.Prelude.Outcome.{Result, ok, err, ensure, ok_or, and_then_inv, ensure_inv, ok_injective}
use holo.Storage.Error.{StorageError, corrupt, io}
use holo.Storage.DataBlob.{
  DataBlobMeta, decode_blob_meta_from_header, checked_blob_next_offset, read_exact, placed,
  scan_blob, exceeds, scan_log_blob, Scanned, push_blob, scan_from, scan_log_data_index,
}

-- What one step of the scan gives.
pub record IsStep (v2 : Bool) (payload_end offset : ℕ) (bytes : List ℕ) (m : DataBlobMeta)
    (next : ℕ) : Type 0 where
  pub decoded : DataBlobMeta
  pub long : 24 ≤ length bytes
  pub read : decode_blob_meta_from_header (take 24 bytes) ≡ ok decoded
  pub small : 24 + decoded.stored_len ≤ u64_max
  pub next_offset : next ≡ offset + (24 + decoded.stored_len)
  pub next_small : next ≤ u64_max
  pub within : next ≤ payload_end
  pub meta : m ≡ placed v2 offset decoded

checked_inv : (a b c : ℕ) → ok_or (checked_add a b) corrupt ≡ ok c → (c ≡ a + b) × (a + b ≤ u64_max)
unfolding checked_add
checked_inv a b c h = ground arith

next_inv :
    (offset stored_len payload_end next : ℕ)
    → checked_blob_next_offset offset stored_len payload_end ≡ ok next
    → (24 + stored_len ≤ u64_max)
      × ((next ≡ offset + (24 + stored_len)) × ((next ≤ u64_max) × (next ≤ payload_end)))
unfolding checked_blob_next_offset checked_add
next_inv offset stored_len payload_end next h = ground arith

scan_blob-IsStep :
    (v2 : Bool) (payload_end offset : ℕ) (bytes : List ℕ) (m : DataBlobMeta) (next : ℕ)
    → scan_blob v2 payload_end offset bytes ≡ ok (m, next)
    → IsStep v2 payload_end offset bytes m next
unfolding scan_blob read_exact
scan_blob-IsStep v2 payload_end offset bytes m next h =
    let (header, (e0, h1)) = and_then_inv (read_exact 24 bytes) _ (m, next) h in
    let (u, (e1, h2)) = and_then_inv (ensure (leb 24 (length bytes)) io) _ header e0 in
    let (d, (e2, h3)) = and_then_inv (decode_blob_meta_from_header header) _ (m, next) h1 in
    let (n, (e3, h4)) =
      and_then_inv (checked_blob_next_offset offset d.stored_len payload_end) _ (m, next) h3 in
    let (small, (same, (fits, within))) = next_inv offset d.stored_len payload_end n e3 in
    let out : DataBlobMeta × ℕ = (placed v2 offset d, n) in
    let pair : out ≡ (m, next) = ok_injective out (m, next) (ok out) refl h4 in
    let moved : n ≡ next = ap (λ (p : DataBlobMeta × ℕ). p.1) pair in
    record {
      decoded = d;
      long = leb→le _ _ (ensure_inv _ io u e1);
      read = ap decode_blob_meta_from_header (ok_injective _ _ (ok (take 24 bytes)) refl h2) ∙ e2;
      small = small;
      next_offset = sym moved ∙ same;
      next_small = omega arith;
      within = omega arith;
      meta = sym (ap (λ (p : DataBlobMeta × ℕ). p.0) pair);
    }

pub scan_log_blob-IsStep :
    (v2 : Bool) (payload_end offset : ℕ) (bytes : List ℕ) (m : DataBlobMeta) (next : ℕ)
    → scan_log_blob v2 payload_end offset bytes ≡ ok (m, next)
    → IsStep v2 payload_end offset bytes m next
unfolding scan_log_blob
scan_log_blob-IsStep v2 payload_end offset bytes m next h =
    let (u, (e, h')) =
      and_then_inv (ensure (not (exceeds offset payload_end)) corrupt) _ (m, next) h in
    scan_blob-IsStep v2 payload_end offset bytes m next h'

not_exceeding :
    (offset payload_end : ℕ)
    → offset + 24 ≤ payload_end
    → offset + 24 ≤ u64_max
    → exceeds offset payload_end ≡ false
unfolding exceeds checked_add
not_exceeding offset payload_end h n = ground arith

next_of :
    (offset stored_len payload_end next : ℕ)
    → 24 + stored_len ≤ u64_max
    → next ≡ offset + (24 + stored_len)
    → next ≤ u64_max
    → next ≤ payload_end
    → checked_blob_next_offset offset stored_len payload_end ≡ ok next
unfolding checked_blob_next_offset checked_add
next_of offset stored_len payload_end next s e n h = ground arith

-- A step, from what it gives.
pub step_of :
    (v2 : Bool) (payload_end offset : ℕ) (bytes : List ℕ) (m : DataBlobMeta) (next : ℕ)
    → IsStep v2 payload_end offset bytes m next
    → scan_log_blob v2 payload_end offset bytes ≡ ok (m, next)
unfolding scan_log_blob scan_blob read_exact
step_of v2 payload_end offset bytes m next s =
    let d = s.decoded in
    let moved = s.next_offset in
    let inside : offset + 24 ≤ payload_end = omega (arith, s.within) in
    let room : offset + 24 ≤ u64_max = omega (arith, s.next_small) in
    rw (
      not_exceeding offset payload_end inside room,
      le→leb _ _ s.long,
      s.read,
      next_of offset d.stored_len payload_end next s.small moved s.next_small s.within,
      s.meta,
    )

pub drop_no_longer : (n : ℕ) (xs : List ℕ) → length (drop n xs) ≤ length xs
drop_no_longer zero xs = omega arith
drop_no_longer (suc n) [] = omega arith
drop_no_longer (suc n) (x ∷ xs) = omega (arith, drop_no_longer n xs)

drop_shorter : (n : ℕ) (xs : List ℕ) → 0 < n → 0 < length xs → length (drop n xs) < length xs
drop_shorter zero xs h l = absurd (omega arith)
drop_shorter (suc n) [] h l = absurd (omega arith)
drop_shorter (suc n) (x ∷ xs) h l = omega (arith, drop_no_longer n xs)

-- A result, whatever it is.
Ends : Scanned → Type 0
Ends r = (x : Result StorageError (List DataBlobMeta)) × (r ≡ some x)

push_blob-Ends : (m : DataBlobMeta) (r : Scanned) → Ends r → Ends (push_blob m r)
unfolding Ends
push_blob-Ends m none h = absurd (ground arith)
push_blob-Ends m (some (ok ms)) h = (ok (m ∷ ms), refl)
push_blob-Ends m (some (err e)) h = (err e, refl)

module _ (fuel : ℕ) (v2 : Bool) (payload_end offset : ℕ) (bytes : List ℕ) where
  pub scan_stop :
      ltb offset payload_end ≡ false
      → scan_from (suc fuel) v2 payload_end offset bytes ≡ some (ok [])
  unfolding scan_from
  scan_stop h = ground (arith, h)

  pub scan_err :
      (e : StorageError)
      → ltb offset payload_end ≡ true
      → scan_log_blob v2 payload_end offset bytes ≡ err e
      → scan_from (suc fuel) v2 payload_end offset bytes ≡ some (err e)
  unfolding scan_from
  scan_err e h r = ground (arith, h, r)

  pub scan_go :
      (m : DataBlobMeta) (next : ℕ)
      → ltb offset payload_end ≡ true
      → scan_log_blob v2 payload_end offset bytes ≡ ok (m, next)
      → scan_from (suc fuel) v2 payload_end offset bytes
        ≡ push_blob m (scan_from fuel v2 payload_end next (drop (next - offset) bytes))
  unfolding scan_from
  scan_go m next h r = ground (arith, h, r)

-- A step of a scan, whatever comes of it.
pub Step-cases :
    (r : Result StorageError (DataBlobMeta × ℕ))
    → ((e : StorageError) × (r ≡ err e)) ⊎ ((m : DataBlobMeta) × ((next : ℕ) × (r ≡ ok (m, next))))
Step-cases (err e) = inl (e, refl)
Step-cases (ok (m, next)) = inr (m, (next, refl))

drop_some :
    (v2 : Bool) (payload_end offset : ℕ) (bytes : List ℕ) (m : DataBlobMeta) (next : ℕ)
    → IsStep v2 payload_end offset bytes m next
    → length (drop (next - offset) bytes) < length bytes
drop_some v2 payload_end offset bytes m next s =
    drop_shorter (next - offset) bytes (omega (arith, s.next_offset)) (omega (arith, s.long))

-- With more fuel than bytes the scan comes to an end.
scan_from-Ends :
    (fuel : ℕ) (v2 : Bool) (payload_end offset : ℕ) (bytes : List ℕ)
    → length bytes < fuel
    → Ends (scan_from fuel v2 payload_end offset bytes)
unfolding Ends
scan_from-Ends zero v2 payload_end offset bytes h = absurd (omega arith)
scan_from-Ends (suc fuel) v2 payload_end offset bytes h =
    elim (Bool-cases (ltb offset payload_end)) [
      | inr stop ↦ (ok [], scan_stop fuel v2 payload_end offset bytes stop)
      | inl more ↦ elim (Step-cases (scan_log_blob v2 payload_end offset bytes)) [
        | inl (e, r) ↦ (err e, scan_err fuel v2 payload_end offset bytes e more r)
        | inr (m, (next, r)) ↦
            let s = scan_log_blob-IsStep v2 payload_end offset bytes m next r in
            let shorter = drop_some v2 payload_end offset bytes m next s in
            let rest =
              scan_from-Ends fuel v2 payload_end next (drop (next - offset) bytes) (omega arith) in
            rw (scan_go fuel v2 payload_end offset bytes m next more r) (
              push_blob-Ends m (scan_from fuel v2 payload_end next (drop (next - offset) bytes))
                rest)
      ]
    ]

-- The scan of a log comes to an end, whatever the payload is: a list of blobs, or an error.
pub scan_log_data_index_total :
    (v2 : Bool) (payload_offset : ℕ) (payload : List ℕ)
    → (r : Result StorageError (List DataBlobMeta)) × (scan_log_data_index v2 payload_offset payload
        ≡ some r)
unfolding scan_log_data_index Ends
scan_log_data_index_total v2 payload_offset payload =
    scan_from-Ends (length payload + 1) v2 (payload_offset + length payload) (payload_offset + 4)
      (drop 4 payload) (omega (arith, drop_no_longer 4 payload))
