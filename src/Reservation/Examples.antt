-- ===== src/Reservation/Examples.antt =====
-- Runs of the reservation commands, and the theorems at concrete states.
use holo.Prelude.{◌≡◌, ◌≢◌, refl, some, none, List, [], ◌∷◌, arith, trim}
use holo.Prelude.OrdMap.{Text, get, insert, text_keys}
use holo.Prelude.Outcome.{ok, err, ◌>>=◌}
use holo.Scsi.Error.{reservation_conflict}
use holo.Reservation.{
  ReservationState, no_reservation, ensure_reservation_access, validate_initiator, validate_key,
  bump_generation, require_registered, set_owner, ensure_not_held, register_key, reserve_key,
  preempt_key, Request, register, reserve, serve, serve_all,
}
use holo.Reservation.Invariant.{IsCoherent, no_reservation-IsCoherent, serve_all-IsCoherent}
use holo.Reservation.Access.{reserve_key_exclusive, access_exclusive, preempt_key_effect}

abbrev alice : Text
alice = 97 ∷ []

abbrev bob : Text
bob = 98 ∷ []

abbrev both_registered : ReservationState
both_registered = record {
  generation = 2;
  registrations = (alice, 7) ∷ (bob, 9) ∷ [];
  active_owner = none;
  active_key = none;
}

abbrev held : ReservationState
held = record both_registered { generation = 3; active_owner = some alice; active_key = some 7 }

abbrev session : List Request
session = register alice 7 ∷ register bob 9 ∷ reserve alice 7 ∷ reserve bob 9 ∷ []

session_runs : serve_all session no_reservation ≡ held
unfolding serve_all serve register_key reserve_key require_registered ensure_not_held set_owner
    bump_generation validate_initiator validate_key no_reservation get insert text_keys trim ◌>>=◌
session_runs = refl

serve_all-IsCoherent_example : IsCoherent (serve_all session no_reservation)
serve_all-IsCoherent_example = serve_all-IsCoherent session no_reservation no_reservation-IsCoherent

alice_is_not_bob : alice ≢ bob
alice_is_not_bob h = ground arith

bob_is_not_alice : bob ≢ alice
bob_is_not_alice h = ground arith

reserve_key_exclusive_example :
    (ensure_reservation_access (reserve_key alice 7 both_registered).1 alice ≡ ok tt)
    × (ensure_reservation_access (reserve_key alice 7 both_registered).1 bob
        ≡ err reservation_conflict)
reserve_key_exclusive_example =
    reserve_key_exclusive both_registered alice 7 bob
      (unfold reserve_key require_registered ensure_not_held validate_initiator validate_key get
          text_keys trim ◌>>=◌ in
        refl)
      (unfold trim in refl) bob_is_not_alice

access_exclusive_example : alice ≡ alice
access_exclusive_example =
    access_exclusive held alice alice alice refl
      (unfold ensure_reservation_access ensure_not_held validate_initiator text_keys trim in refl)
      (unfold ensure_reservation_access ensure_not_held validate_initiator text_keys trim in refl)

preempt_key_effect_example :
    ((preempt_key bob 9 7 held).1.active_owner ≡ some bob)
    × (get bob (preempt_key bob 9 7 held).1.registrations ≡ some 9)
    × (alice ≢ bob
        → get alice held.registrations ≡ some 7
        → get alice (preempt_key bob 9 7 held).1.registrations ≡ none)
    × (get alice held.registrations ≢ some 7
        → get alice (preempt_key bob 9 7 held).1.registrations ≡ get alice held.registrations)
preempt_key_effect_example =
    preempt_key_effect held bob 9 7 alice (unfold text_keys in ((refl, tt), (tt, tt))) (
      unfold preempt_key require_registered validate_initiator validate_key get text_keys trim
        ◌>>=◌ in
      refl)
