-- ===== src/Drive/Reserve.antt =====
-- PERSISTENT RESERVE IN and OUT of a drive with a loaded cartridge: data-plane/src/iscsi/cdb_drive.rs.
pub mod Parse
pub mod Report
mod Examples
use Prim.Native.Nat.{zero, suc}
use holo.Prelude.{
  ℕ, ◌+◌, ◌*◌, ◌%◌, ltb, leb, ◌==◌, Bool, true, false, not, ◌&&◌, ◌||◌, Option, none, some, List,
  [], ◌∷◌, ◌++◌, length, get_elem?, take, drop, trim, is_empty, is_some, if◌then◌else◌,
}
use holo.Prelude.OrdMap.{Text, keq, text_keys}
use holo.Prelude.Bytes.{be_bytes}
use holo.Prelude.Utf8.{as_bytes, from_utf8}
use holo.Prelude.Outcome.{Result, ok, err, and_then, ensure, ok_or}
use holo.Scsi.Error.{TapeError}
use holo.Scsi.Sense.{resolve_sense_for_error}
use holo.Wire.{CdbResponse, good, check_condition}
use holo.Changer.{build_sense_fixed, invalid_field_in_cdb}
use holo.Reservation.{
  ReservationState, ReservationSnapshot, snapshot, Request, register, register_ignore, reserve,
  release, clear, preempt, register_move, serve,
}
use holo.Drive.{
  byte_or_zero, try_read_be16, read_be16, read_be64, unwrap_or, sense_frame_to_bytes,
  truncate_reply,
}

abbrev pub invalid_field_in_parameter_list : CdbResponse
invalid_field_in_parameter_list = check_condition (build_sense_fixed 0x05 0x26 0x00)

abbrev lower : ℕ → ℕ
lower b = if leb 65 b && leb b 90 then b + 32 else b

-- `window.eq_ignore_ascii_case(prefix)` at the start of the bytes; the prefix is in lower case.
unfoldable pub begins : List ℕ → List ℕ → Bool
begins [] bytes = true
begins (p ∷ prefix) [] = false
begins (p ∷ prefix) (b ∷ bytes) = p == lower b && begins prefix bytes

-- The bytes from the first window on that is the prefix.
unfoldable pub find_window : List ℕ → List ℕ → Option (List ℕ)
find_window prefix [] = none
find_window prefix (b ∷ bytes) =
    let later = find_window prefix bytes in
    if begins prefix (b ∷ bytes) then some (b ∷ bytes) else later

abbrev ends_name : ℕ → Bool
ends_name b = b == 0 || b == 32 || b == 10 || b == 13

unfoldable pub name_bytes : List ℕ → List ℕ
name_bytes [] = []
name_bytes (b ∷ bytes) = let rest = name_bytes bytes in if ends_name b then [] else b ∷ rest

unfoldable pub all_graphic : List ℕ → Bool
all_graphic [] = true
all_graphic (b ∷ bytes) = leb 33 b && (leb b 126 && (not (b == 92) && all_graphic bytes))

-- What one prefix settles: nothing, or the result of the whole search.
pub data Search : Type 0 where
  next : Search
  found : Option Text → Search

abbrev accept : Text → Search
accept value =
    if not (is_empty value) && all_graphic (as_bytes value) then found (some value) else next

abbrev from_candidate : List ℕ → Search
from_candidate [] = next
from_candidate (b ∷ bytes) = elim (from_utf8 (b ∷ bytes)) [
  | none ↦ found none
  | some text ↦ accept (trim text)
]

abbrev try_prefix : List ℕ → List ℕ → Search
try_prefix prefix ids = elim (find_window prefix ids) [
  | none ↦ next
  | some candidate ↦ from_candidate (name_bytes candidate)
]

abbrev or_try : Search → Search → Search
or_try next s = s
or_try (found o) s = found o

abbrev settled : Search → Option Text
settled next = none
settled (found o) = o

-- `iqn.`, `eui.` and `naa.`, in this order.
unfoldable pub parse_register_and_move_target_initiator : List ℕ → Option Text
parse_register_and_move_target_initiator params =
    let ids = drop 24 params in
    if ltb (length params) 24
    then none
    else settled (
        or_try (try_prefix (105 ∷ 113 ∷ 110 ∷ 46 ∷ []) ids) (
          or_try (try_prefix (101 ∷ 117 ∷ 105 ∷ 46 ∷ []) ids)
            (try_prefix (110 ∷ 97 ∷ 97 ∷ 46 ∷ []) ids)))

unfoldable pub register_and_move_unregister_source : List ℕ → Bool
register_and_move_unregister_source params = byte_or_zero 20 params % 2 == 1

-- The command that the service action and the parameters name.
unfoldable pub parse_request : ℕ → Text → List ℕ → Result CdbResponse Request
parse_request action initiator params =
    let key = unwrap_or (read_be64 params 0) 0 in
    let service_key = unwrap_or (read_be64 params 8) 0 in
    let moved =
      and_then
        (ok_or (parse_register_and_move_target_initiator params) invalid_field_in_parameter_list)
        λ target. ok (
          register_move initiator key service_key target
            (register_and_move_unregister_source params)) in
    if action == 0
    then ok (register initiator (if service_key == 0 then key else service_key))
    else if action == 1
    then ok (reserve initiator key)
    else if action == 2
    then ok (release initiator key)
    else if action == 3
    then ok (clear initiator key)
    else if action == 4 || action == 5
    then ok (preempt initiator key service_key)
    else if action == 6
    then ok (register_ignore initiator service_key)
    else if action == 7
    then moved
    else err invalid_field_in_cdb

-- The parameters that the CDB announces, if so many came.
unfoldable pub parameters : List ℕ → List ℕ → Result CdbResponse (List ℕ)
parameters cdb data_out = and_then (ok_or (try_read_be16 cdb 7) invalid_field_in_cdb) λ size.
    and_then (ensure (not (ltb 0 size && ltb (length data_out) size)) invalid_field_in_cdb)
      λ _. ok (take size data_out)

abbrev pub answer : Result TapeError (Unit {0}) × ReservationState → CdbResponse × ReservationState
answer (ok u, r) = (good [], r)
answer (err e, r) = (check_condition (sense_frame_to_bytes (resolve_sense_for_error e)), r)

abbrev pub run : Result CdbResponse Request → ReservationState → CdbResponse × ReservationState
run (ok c) r = answer (serve c r)
run (err response) r = (response, r)

-- `persistent_reserve_out_drive_with_context` for the context's initiator.
unfoldable pub persistent_reserve_out :
    Text → List ℕ → List ℕ → ReservationState → CdbResponse × ReservationState
persistent_reserve_out initiator cdb data_out r =
    run
      (and_then (parameters cdb data_out)
        λ params. parse_request (byte_or_zero 1 cdb % 32) initiator params)
      r

unfoldable pub key_bytes : List (Text × ℕ) → List ℕ
key_bytes [] = []
key_bytes ((initiator, key) ∷ registrations) = be_bytes 8 key ++ key_bytes registrations

unfoldable pub persistent_reserve_read_keys : ReservationSnapshot → List ℕ
persistent_reserve_read_keys s =
    be_bytes 4 s.generation
    ++ (be_bytes 4 (length s.registrations * 8) ++ key_bytes s.registrations)

abbrev active_bytes : Option ℕ → List ℕ
active_bytes none = be_bytes 4 0
active_bytes (some key) =
    be_bytes 4 16 ++ (be_bytes 8 key ++ 0 ∷ 0 ∷ 0 ∷ 0 ∷ 0x00 ∷ 0x03 ∷ 0 ∷ 0 ∷ [])

unfoldable pub persistent_reserve_read_reservation : ReservationSnapshot → List ℕ
persistent_reserve_read_reservation s = be_bytes 4 s.generation ++ active_bytes s.active_key

-- Eight bytes of the name, filled up with zeros.
unfoldable pub nexus : ℕ → List ℕ → List ℕ
nexus zero name = []
nexus (suc n) [] = 0 ∷ nexus n []
nexus (suc n) (b ∷ name) = b ∷ nexus n name

abbrev owns : Option Text → Text → ℕ
owns none initiator = 0x00
owns (some owner) initiator = if keq owner initiator then 0x03 else 0x00

unfoldable pub status_bytes : Option Text → List (Text × ℕ) → List ℕ
status_bytes owner [] = []
status_bytes owner ((initiator, key) ∷ registrations) =
    be_bytes 8 key
    ++ 0
      ∷ 0
      ∷ 0
      ∷ 0
      ∷ 0x00
      ∷ owns owner initiator
      ∷ 0x00
      ∷ 0x08
      ∷ (nexus 8 (as_bytes initiator) ++ status_bytes owner registrations)

unfoldable pub persistent_reserve_read_full_status : ReservationSnapshot → List ℕ
persistent_reserve_read_full_status s =
    be_bytes 4 s.generation
    ++ (be_bytes 4 (length s.registrations * 24) ++ status_bytes s.active_owner s.registrations)

abbrev reply : ℕ → List ℕ → CdbResponse
reply allocation_length out = good (truncate_reply out allocation_length)

unfoldable pub persistent_reserve_in : ReservationState → List ℕ → CdbResponse
persistent_reserve_in r cdb =
    let action = byte_or_zero 1 cdb % 32 in
    let size = read_be16 cdb 7 in
    let s = snapshot r in
    if size == 0
    then good []
    else if action == 0
    then reply size (persistent_reserve_read_keys s)
    else if action == 1
    then reply size (persistent_reserve_read_reservation s)
    else if action == 2
    then reply size (0 ∷ 0 ∷ 0 ∷ 8 ∷ 0 ∷ 0x80 ∷ 0 ∷ 0 ∷ [])
    else if action == 3
    then reply size (persistent_reserve_read_full_status s)
    else invalid_field_in_cdb
