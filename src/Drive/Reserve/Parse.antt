-- ===== src/Drive/Reserve/Parse.antt =====
-- What PERSISTENT RESERVE OUT does with its parameters: data-plane/src/iscsi/cdb_drive.rs.
use holo.Prelude.{
  ℕ, ◌%◌, ◌<◌, ◌≡◌, refl, sym, ap, ◌∙◌, ◌==◌, Bool, true, false, some, List, [], ◌∷◌, ◌++◌, arith,
}
use holo.Prelude.OrdMap.{Text}
use holo.Prelude.Bytes.{le_bytes, be_bytes, of_be, of_be-be_bytes}
use holo.Prelude.Outcome.{Result, ok, err, and_then}
use holo.Scsi.Error.{TapeError}
use holo.Wire.{CdbResponse, good, check_condition}
use holo.Reservation.{
  ReservationState, Request, register, register_ignore, reserve, release, clear, preempt,
  register_move, serve,
}
use holo.Reservation.Access.{serve_error_unchanged}
use holo.Drive.{byte_or_zero, read_be, try_read_be16, read_be64}
use holo.Drive.Reserve.{parse_request, parameters, answer, run, persistent_reserve_out}

-- The initiator's side: the service action and the two keys of a request.
unfoldable pub action_of : Request → ℕ
action_of (register i k) = 0
action_of (reserve i k) = 1
action_of (release i k) = 2
action_of (clear i k) = 3
action_of (preempt i k v) = 4
action_of (register_ignore i v) = 6
action_of (register_move i k v t u) = 7

unfoldable pub reservation_key_of : Request → ℕ
reservation_key_of (register i k) = 0
reservation_key_of (reserve i k) = k
reservation_key_of (release i k) = k
reservation_key_of (clear i k) = k
reservation_key_of (preempt i k v) = k
reservation_key_of (register_ignore i v) = 0
reservation_key_of (register_move i k v t u) = k

unfoldable pub service_key_of : Request → ℕ
service_key_of (register i k) = k
service_key_of (reserve i k) = 0
service_key_of (release i k) = 0
service_key_of (clear i k) = 0
service_key_of (preempt i k v) = v
service_key_of (register_ignore i v) = v
service_key_of (register_move i k v t u) = v

unfoldable pub initiator_of : Request → Text
initiator_of (register i k) = i
initiator_of (reserve i k) = i
initiator_of (release i k) = i
initiator_of (clear i k) = i
initiator_of (preempt i k v) = i
initiator_of (register_ignore i v) = i
initiator_of (register_move i k v t u) = i

-- Whether the request has no name of another initiator behind its keys.
unfoldable pub is_plain : Request → Bool
is_plain (register_move i k v t u) = false
is_plain c = true

unfoldable pub request_cdb : Request → List ℕ
request_cdb c = 0x5F ∷ action_of c ∷ 0 ∷ 0 ∷ 0 ∷ 0 ∷ 0 ∷ 0 ∷ 24 ∷ 0 ∷ []

unfoldable pub request_parameters : Request → List ℕ
request_parameters c =
    be_bytes 8 (reservation_key_of c) ++ (be_bytes 8 (service_key_of c) ++ be_bytes 8 0)

request_parameters_taken :
    (c : Request) → parameters (request_cdb c) (request_parameters c) ≡ ok (request_parameters c)
unfolding parameters request_cdb request_parameters try_read_be16 read_be of_be be_bytes le_bytes
request_parameters_taken c = refl

reservation_key_read :
    (c : Request)
    → reservation_key_of c < 18446744073709551616
    → read_be64 (request_parameters c) 0 ≡ some (reservation_key_of c)
unfolding request_parameters read_be64 read_be be_bytes le_bytes
reservation_key_read c h = ap some (of_be-be_bytes 8 (reservation_key_of c) (omega arith))

service_key_read :
    (c : Request)
    → service_key_of c < 18446744073709551616
    → read_be64 (request_parameters c) 8 ≡ some (service_key_of c)
unfolding request_parameters read_be64 read_be be_bytes le_bytes
service_key_read c h = ap some (of_be-be_bytes 8 (service_key_of c) (omega arith))

parse_by_keys :
    (c : Request) (params : List ℕ)
    → is_plain c ≡ true
    → read_be64 params 0 ≡ some (reservation_key_of c)
    → read_be64 params 8 ≡ some (service_key_of c)
    → parse_request (action_of c) (initiator_of c) params ≡ ok c
unfolding parse_request is_plain action_of initiator_of reservation_key_of service_key_of
parse_by_keys (register i k) params p e f = rw (e, f) (ground arith)
parse_by_keys (reserve i k) params p e f = rw e
parse_by_keys (release i k) params p e f = rw e
parse_by_keys (clear i k) params p e f = rw e
parse_by_keys (preempt i k v) params p e f = rw (e, f)
parse_by_keys (register_ignore i v) params p e f = rw f
parse_by_keys (register_move i k v t u) params p e f = absurd (ground arith)

action_small : (c : Request) → action_of c < 32
unfolding action_of
action_small (register i k) = omega arith
action_small (reserve i k) = omega arith
action_small (release i k) = omega arith
action_small (clear i k) = omega arith
action_small (preempt i k v) = omega arith
action_small (register_ignore i v) = omega arith
action_small (register_move i k v t u) = omega arith

service_action : (c : Request) → byte_or_zero 1 (request_cdb c) % 32 ≡ action_of c
unfolding request_cdb
service_action c = omega (arith, action_small c)

answer_refused :
    (c : Request) (r : ReservationState) (served : Result TapeError (Unit {0}) × ReservationState)
    → serve c r ≡ served
    → ((answer served).0.status == 0) ≡ false
    → (answer served).1 ≡ r
unfolding good check_condition
answer_refused c r (ok u, r') e h = absurd (ground arith)
answer_refused c r (err x, r') e h =
    sym (ap (λ p. p.1) e) ∙ serve_error_unchanged c r x (ap (λ p. p.0) e)

refused :
    (parsed : Result CdbResponse Request) (r : ReservationState)
    → ((run parsed r).0.status == 0) ≡ false
    → (run parsed r).1 ≡ r
refused (ok c) r h = answer_refused c r (serve c r) refl h
refused (err response) r h = refl

-- A reservation command that an initiator sends as a CDB with its two keys is served as exactly that
-- command, and answered by its result, if the keys have 64 bits and no other initiator is named.
pub persistent_reserve_out-request :
    (c : Request) (r : ReservationState)
    → is_plain c ≡ true
    → reservation_key_of c < 18446744073709551616
    → service_key_of c < 18446744073709551616
    → persistent_reserve_out (initiator_of c) (request_cdb c) (request_parameters c) r
      ≡ answer (serve c r)
unfolding persistent_reserve_out
persistent_reserve_out-request c r p h k =
    let parsed =
      parse_by_keys c (request_parameters c) p (reservation_key_read c h) (service_key_read c k) in
    rw (request_parameters_taken c, service_action c, parsed)

-- Whatever comes in the CDB and the parameters: a command that is not answered with GOOD leaves the
-- reservations as they were.
pub persistent_reserve_out_refused :
    (initiator : Text) (cdb data_out : List ℕ) (r : ReservationState)
    → ((persistent_reserve_out initiator cdb data_out r).0.status == 0) ≡ false
    → (persistent_reserve_out initiator cdb data_out r).1 ≡ r
persistent_reserve_out_refused initiator cdb data_out r =
    unfold persistent_reserve_out in
    refused
      (and_then (parameters cdb data_out)
        λ params. parse_request (byte_or_zero 1 cdb % 32) initiator params)
      r
