-- ===== src/Drive/Reserve/Examples.antt =====
-- Runs of the persistent reservation commands: data-plane/src/iscsi/cdb_drive.rs.
use holo.Prelude.{
  ℕ, ◌*◌, ◌+◌, ◌%◌, ◌==◌, ◌≤◌, ◌≡◌, refl, false, true, none, some, List, [], ◌∷◌, length, take,
  drop, map, arith, All,
}
use holo.Prelude.OrdMap.{Text}
use holo.Prelude.Bytes.{of_be}
use holo.Reservation.{ReservationState, reserve, serve}
use holo.Drive.Reserve.{answer, persistent_reserve_in, persistent_reserve_out}
use holo.Drive.Reserve.Parse.{
  action_of, initiator_of, request_cdb, request_parameters, persistent_reserve_out-request,
  persistent_reserve_out_refused,
}
use holo.Drive.Reserve.Report.{keys_of, persistent_reserve_in_keys}

abbrev host_a : Text
host_a = 97 ∷ []

abbrev host_b : Text
host_b = 98 ∷ []

abbrev two_hosts : ReservationState
two_hosts = record {
  generation = 2;
  registrations = (host_a, 17) ∷ (host_b, 300) ∷ [];
  active_owner = none;
  active_key = none;
}

persistent_reserve_out-request_example :
    persistent_reserve_out host_b
      (request_cdb (reserve host_b 300))
      (request_parameters (reserve host_b 300))
      two_hosts
    ≡ answer (serve (reserve host_b 300) two_hosts)
unfolding holo.Drive.Reserve.Parse.is_plain holo.Drive.Reserve.Parse.reservation_key_of
    holo.Drive.Reserve.Parse.service_key_of initiator_of
persistent_reserve_out-request_example =
    persistent_reserve_out-request (reserve host_b 300) two_hosts refl (omega arith) (omega arith)

-- A CDB without the length of its parameters.
abbrev short_cdb : List ℕ
short_cdb = 0x5F ∷ 1 ∷ []

persistent_reserve_out_refused_example :
    (persistent_reserve_out host_a short_cdb [] two_hosts).1 ≡ two_hosts
unfolding persistent_reserve_out holo.Drive.Reserve.parameters holo.Drive.try_read_be16
    holo.Drive.read_be holo.Wire.check_condition
persistent_reserve_out_refused_example =
    persistent_reserve_out_refused host_a short_cdb [] two_hosts refl

abbrev read_keys_cdb : List ℕ
read_keys_cdb = 0x5E ∷ 0 ∷ 0 ∷ 0 ∷ 0 ∷ 0 ∷ 0 ∷ 1 ∷ 0 ∷ 0 ∷ []

persistent_reserve_in_keys_example :
    ((persistent_reserve_in two_hosts read_keys_cdb).status ≡ 0)
    × ((of_be (take 4 (persistent_reserve_in two_hosts read_keys_cdb).reply) ≡ 2)
        × (keys_of 2 (drop 8 (persistent_reserve_in two_hosts read_keys_cdb).reply)
            ≡ 17 ∷ 300 ∷ []))
unfolding holo.Drive.read_be16 holo.Drive.try_read_be16 holo.Drive.read_be of_be
    holo.Prelude.Bytes.of_le
persistent_reserve_in_keys_example =
    persistent_reserve_in_keys two_hosts read_keys_cdb refl (omega arith) (omega arith)
      (omega arith, (omega arith, tt))
