-- ===== src/Drive/Reserve/Report.antt =====
-- What PERSISTENT RESERVE IN reports: data-plane/src/iscsi/cdb_drive.rs.
use Prim.Native.Nat.{zero, suc}
use holo.Prelude.{
  ℕ, ◌+◌, ◌*◌, ◌%◌, ◌≤◌, ◌<◌, ◌≡◌, refl, ap, ◌∙◌, ◌==◌, true, List, [], ◌∷◌, ◌++◌, map, length,
  take, drop, All, arith,
}
use holo.Prelude.OrdMap.{Text}
use holo.Prelude.Bytes.{le_bytes, be_bytes, of_be, of_be-be_bytes}
use holo.Wire.{good}
use holo.Reservation.{ReservationState, ReservationSnapshot, snapshot}
use holo.Drive.{byte_or_zero, read_be16, truncate_reply}
use holo.Drive.Reserve.{key_bytes, persistent_reserve_read_keys, persistent_reserve_in}

-- The initiator's side: as many keys of eight bytes.
unfoldable pub keys_of : ℕ → List ℕ → List ℕ
keys_of zero bytes = []
keys_of (suc n) bytes = of_be (take 8 bytes) ∷ keys_of n (drop 8 bytes)

abbrev pub HasKey : Text × ℕ → Type 0
HasKey p = p.1 < 18446744073709551616

abbrev pub key : Text × ℕ → ℕ
key p = p.1

first_key :
    (k : ℕ) (rest : List ℕ) → k < 18446744073709551616 → of_be (take 8 (be_bytes 8 k ++ rest)) ≡ k
unfolding be_bytes le_bytes
first_key k rest h = of_be-be_bytes 8 k (omega arith)

later_keys : (k : ℕ) (rest : List ℕ) → drop 8 (be_bytes 8 k ++ rest) ≡ rest
unfolding be_bytes le_bytes
later_keys k rest = refl

key_size : (k : ℕ) (rest : List ℕ) → length (be_bytes 8 k ++ rest) ≡ 8 + length rest
unfolding be_bytes le_bytes
key_size k rest = omega arith

keys_of-key_bytes :
    (rs : List (Text × ℕ)) → All HasKey rs → keys_of (length rs) (key_bytes rs) ≡ map key rs
unfolding keys_of key_bytes
keys_of-key_bytes [] h = refl
keys_of-key_bytes ((i, k) ∷ rs) h =
    rw (first_key k (key_bytes rs) h.0, later_keys k (key_bytes rs), keys_of-key_bytes rs h.1)

length-key_bytes : (rs : List (Text × ℕ)) → length (key_bytes rs) ≡ 8 * length rs
unfolding key_bytes
length-key_bytes [] = refl
length-key_bytes ((i, k) ∷ rs) = omega (arith, key_size k (key_bytes rs), length-key_bytes rs)

keys_payload_size :
    (s : ReservationSnapshot)
    → length (persistent_reserve_read_keys s) ≡ 8 + 8 * length s.registrations
unfolding persistent_reserve_read_keys be_bytes le_bytes
keys_payload_size s = omega (arith, length-key_bytes s.registrations)

-- The generation, the length and the keys, read from the head of the payload.
generation_read :
    (s : ReservationSnapshot)
    → s.generation < 4294967296
    → of_be (take 4 (persistent_reserve_read_keys s)) ≡ s.generation
unfolding persistent_reserve_read_keys be_bytes le_bytes
generation_read s h = of_be-be_bytes 4 s.generation (omega arith)

keys_read :
    (s : ReservationSnapshot) → drop 8 (persistent_reserve_read_keys s) ≡ key_bytes s.registrations
unfolding persistent_reserve_read_keys be_bytes le_bytes
keys_read s = refl

read_keys_answer :
    (r : ReservationState) (cdb : List ℕ)
    → (byte_or_zero 1 cdb % 32 == 0) ≡ true
    → 8 + 8 * length r.registrations ≤ read_be16 cdb 7
    → persistent_reserve_in r cdb ≡ good (persistent_reserve_read_keys (snapshot r))
unfolding persistent_reserve_in truncate_reply
read_keys_answer r cdb a n =
    let size = keys_payload_size (snapshot r) in
    let same : length (snapshot r).registrations ≡ length r.registrations =
      unfold snapshot in refl in
    ground arith

-- READ KEYS with room for them answers GOOD with the generation and the key of every registration,
-- in their order, if the generation has 32 bits and the keys 64.
pub persistent_reserve_in_keys :
    (r : ReservationState) (cdb : List ℕ)
    → (byte_or_zero 1 cdb % 32 == 0) ≡ true
    → 8 + 8 * length r.registrations ≤ read_be16 cdb 7
    → r.generation < 4294967296
    → All HasKey r.registrations
    → ((persistent_reserve_in r cdb).status ≡ 0)
      × ((of_be (take 4 (persistent_reserve_in r cdb).reply) ≡ r.generation)
          × (keys_of (length r.registrations) (drop 8 (persistent_reserve_in r cdb).reply)
              ≡ map key r.registrations))
unfolding good
persistent_reserve_in_keys r cdb a n g k =
    let answered = read_keys_answer r cdb a n in
    let registered : (snapshot r).registrations ≡ r.registrations = unfold snapshot in refl in
    let numbered : (snapshot r).generation ≡ r.generation = unfold snapshot in refl in
    (
      ap (λ c. c.status) answered,
      (
        ap (λ c. of_be (take 4 c.reply)) answered
            ∙ generation_read (snapshot r) (unfold snapshot in g)
            ∙ numbered,
        ap (λ c. keys_of (length r.registrations) (drop 8 c.reply)) answered
            ∙ ap (keys_of (length r.registrations))
                (keys_read (snapshot r) ∙ ap key_bytes registered)
            ∙ keys_of-key_bytes r.registrations k,
      ),
    )
