-- ===== src/Reservation.antt =====
-- Persistent reservations: data-plane/src/scsi_tape/reservation.rs and the reservation commands of
-- commands_core.rs. The functions read and write the field `reservation_state` of `TapeState` only,
-- so the state here is that field.
pub mod Invariant
pub mod Access
mod Examples
use holo.Prelude.{
  ℕ, ◌==◌, Bool, false, not, ◌||◌, Option, none, some, length, List, [], ◌∷◌, trim, is_empty,
  wrapping_add32, if◌then◌else◌,
}
use holo.Prelude.OrdMap.{Text, Map, get, insert, remove, retain, keq, text_keys}
use holo.Prelude.Outcome.{
  Result, ok, Exec, lift, gets, modify, ◌>>=◌, ◌>>◌, ok_or, ensure, and_then,
}
use holo.Scsi.Error.{
  TapeError, invalid_argument, invalid_reservation_key, invalid_reservation_release,
  reservation_conflict,
}

pub record ReservationState : Type 0 where
  pub generation : ℕ
  pub registrations : Map Text ℕ
  pub active_owner : Option Text
  pub active_key : Option ℕ

-- `ReservationState::default()`.
pub no_reservation : ReservationState
no_reservation = record {
  generation = 0;
  registrations = [];
  active_owner = none;
  active_key = none;
}

abbrev pub Action : Type 0
Action = Exec TapeError ReservationState Unit

abbrev pub owned_by : Option Text → Text → Bool
owned_by none initiator = false
owned_by (some owner) initiator = keq owner initiator

validate_initiator : Text → Result TapeError (Unit {0})
validate_initiator initiator = ensure (not (is_empty (trim initiator))) invalid_argument

validate_key : ℕ → Result TapeError (Unit {0})
validate_key key = ensure (not (key == 0)) invalid_reservation_key

-- `generation.wrapping_add(1)` on a u32.
bump_generation : ReservationState → ReservationState
unfolding wrapping_add32
bump_generation r = record r { generation = wrapping_add32 r.generation 1 }

-- The lookup that reserve, preempt, move and clear share: the initiator's registered key is `key`.
require_registered : Text → ℕ → Action
require_registered initiator key = do
  registered ← gets (λ r. get initiator r.registrations)
  found ← lift (ok_or registered invalid_reservation_key)
  lift (ensure (found == key) invalid_reservation_key)

set_owner : Text → ℕ → ReservationState → ReservationState
set_owner initiator key r = record r { active_owner = some initiator; active_key = some key }

pub register_key : Text → ℕ → Action
register_key initiator key = do
  lift (validate_initiator initiator)
  lift (validate_key key)
  modify (λ r. record r { registrations = insert initiator key r.registrations })
  modify (λ r. if owned_by r.active_owner initiator then record r { active_key = some key } else r)
  modify bump_generation

pub register_ignore_existing : Text → ℕ → Action
register_ignore_existing initiator service_key = register_key initiator service_key

-- The owner check of reserve: no owner, or the initiator itself.
ensure_not_held : Text → Option Text → Result TapeError (Unit {0})
ensure_not_held initiator none = ok tt
ensure_not_held initiator (some owner) = ensure (keq owner initiator) reservation_conflict

pub reserve_key : Text → ℕ → Action
reserve_key initiator key = do
  lift (validate_initiator initiator)
  lift (validate_key key)
  require_registered initiator key
  owner ← gets (λ r. r.active_owner)
  lift (ensure_not_held initiator owner)
  modify (set_owner initiator key)
  modify bump_generation

-- The test of `retain`: which registrations a preemption leaves.
abbrev survives_preempt : Text → ℕ → Text → ℕ → Bool
survives_preempt initiator service_key owner registered =
    keq owner initiator || not (registered == service_key)

pub preempt_key : Text → ℕ → ℕ → Action
preempt_key initiator key service_key = do
  lift (validate_initiator initiator)
  lift (validate_key key)
  lift (validate_key service_key)
  require_registered initiator key
  modify (λ r. record r {
    registrations = retain (survives_preempt initiator service_key) r.registrations;
  })
  modify (set_owner initiator key)
  modify bump_generation

pub register_and_move_key : Text → ℕ → ℕ → Text → Bool → Action
register_and_move_key initiator key service_key target unregister_source = do
  lift (validate_initiator initiator)
  lift (validate_initiator target)
  lift (validate_key key)
  lift (validate_key service_key)
  lift (ensure (not (keq initiator target)) invalid_argument)
  require_registered initiator key
  owner ← gets (λ r. r.active_owner)
  lift (ensure (owned_by owner initiator) invalid_reservation_key)
  modify (λ r. record r { registrations = insert target service_key r.registrations })
  modify (λ r.
      if unregister_source
      then record r { registrations = remove initiator r.registrations }
      else r)
  modify (set_owner target service_key)
  modify bump_generation

-- `state.reservation_state.active_key != Some(key)`.
abbrev key_matches : Option ℕ → ℕ → Bool
key_matches none key = false
key_matches (some active) key = active == key

pub release_key : Text → ℕ → Action
release_key initiator key = do
  lift (validate_initiator initiator)
  lift (validate_key key)
  holder ← gets (λ r. r.active_owner)
  owner ← lift (ok_or holder invalid_reservation_release)
  lift (ensure (keq owner initiator) reservation_conflict)
  active ← gets (λ r. r.active_key)
  lift (ensure (key_matches active key) invalid_reservation_key)
  modify (λ r. record r { active_owner = none; active_key = none })
  modify bump_generation

pub clear_keys : Text → ℕ → Action
clear_keys initiator key = do
  lift (validate_initiator initiator)
  lift (validate_key key)
  require_registered initiator key
  modify (λ r. record r { registrations = []; active_owner = none; active_key = none })
  modify bump_generation

pub ensure_reservation_access : ReservationState → Text → Result TapeError (Unit {0})
ensure_reservation_access r initiator =
    and_then (validate_initiator initiator) (λ _. ensure_not_held initiator r.active_owner)

-- The reservation commands of `CoreCommand`.
pub data Request : Type 0 where
  register : Text → ℕ → Request
  register_ignore : Text → ℕ → Request
  reserve : Text → ℕ → Request
  release : Text → ℕ → Request
  clear : Text → ℕ → Request
  preempt : Text → ℕ → ℕ → Request
  register_move : Text → ℕ → ℕ → Text → Bool → Request

-- The arms of `execute` for them, on a drive with a loaded cartridge.
pub serve : Request → Action
serve (register initiator key) = register_key initiator key
serve (register_ignore initiator service_key) = register_ignore_existing initiator service_key
serve (reserve initiator key) = reserve_key initiator key
serve (release initiator key) = release_key initiator key
serve (clear initiator key) = clear_keys initiator key
serve (preempt initiator key service_key) = preempt_key initiator key service_key
serve (register_move initiator key service_key target unregister_source) =
    register_and_move_key initiator key service_key target unregister_source

-- The state after a list of requests; a refused request is reported and the next one is served.
pub serve_all : List Request → ReservationState → ReservationState
serve_all [] r = r
serve_all (c ∷ cs) r = serve_all cs (serve c r).1

pub record ReservationSnapshot : Type 0 where
  pub generation : ℕ
  pub registration_count : ℕ
  pub registrations : List (Text × ℕ)
  pub active_owner : Option Text
  pub active_key : Option ℕ

unfoldable pub snapshot : ReservationState → ReservationSnapshot
snapshot r = record {
  generation = r.generation;
  registration_count = length r.registrations;
  registrations = r.registrations;
  active_owner = r.active_owner;
  active_key = r.active_key;
}
