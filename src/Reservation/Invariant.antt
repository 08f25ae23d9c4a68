-- ===== src/Reservation/Invariant.antt =====
-- The reservation state between two commands: data-plane/src/scsi_tape/reservation.rs.
use holo.Prelude.{
  [], ◌∷◌, ◌∷◌, List, Bool, ℕ, ◌≤◌, ◌≡◌, ◌≢◌, Option, none, some, arith, u32_max, wrapping_add32,
  if◌then◌else◌,
}
use holo.Prelude.OrdMap.{
  get-remove, remove-IsSorted, Text, Map, get, insert, keq_iff, text_keys, get-insert, get-retain,
  IsSorted, insert-IsSorted, retain-IsSorted,
}
use holo.Prelude.Outcome.{◌>>=◌}
use holo.Reservation.{
  register, register_ignore, reserve, release, clear, preempt, register_move, Request,
  register_ignore_existing, register_and_move_key, release_key, serve, serve_all, clear_keys,
  ReservationState, no_reservation, validate_initiator, validate_key, bump_generation,
  require_registered, set_owner, survives_preempt, owned_by, ensure_not_held, register_key,
  reserve_key, preempt_key,
}

-- An owner holds a key, which is its registered key; without an owner there is no active key.
abbrev pub HolderRegistered : Option Text → Option ℕ → Map Text ℕ → Type 0
HolderRegistered none none m = Unit {0}
HolderRegistered none (some key) m = ⊥
HolderRegistered (some owner) none m = ⊥
HolderRegistered (some owner) (some key) m = get owner m ≡ some key

pub record IsCoherent (r : ReservationState) : Type 0 where
  pub sorted : IsSorted r.registrations
  pub nonzero : (i : Text) → get i r.registrations ≢ some 0
  pub holder : HolderRegistered r.active_owner r.active_key r.registrations
  pub counted : r.generation ≤ u32_max

pub no_reservation-IsCoherent : IsCoherent no_reservation
unfolding no_reservation get
no_reservation-IsCoherent = record {
  sorted = tt;
  nonzero = λ i h. cc;
  holder = tt;
  counted = omega arith;
}

-- Registering a key follows it into the reservation of the owner.
insert-HolderRegistered :
    (o : Option Text) (k : Option ℕ) (initiator : Text) (key : ℕ) (m : Map Text ℕ)
    → HolderRegistered o k m
    → HolderRegistered o (if owned_by o initiator then some key else k) (insert initiator key m)
insert-HolderRegistered none none initiator key m h = tt
insert-HolderRegistered (some owner) (some k) initiator key m h =
    ground (arith, get-insert owner initiator key m)
insert-HolderRegistered none (some k) initiator key m h = absurd h
insert-HolderRegistered (some owner) none initiator key m h = absurd h

register_key-IsCoherent :
    (initiator : Text) (key : ℕ) (r : ReservationState)
    → IsCoherent r
    → IsCoherent (register_key initiator key r).1
unfolding register_key bump_generation wrapping_add32 validate_initiator validate_key ◌>>=◌
register_key-IsCoherent initiator key r h = record {
  sorted = ground (arith, h.sorted, insert-IsSorted initiator key r.registrations);
  nonzero = λ i. ground (arith, h.nonzero i, get-insert i initiator key r.registrations);
  holder = ground (
    arith,
    insert-HolderRegistered r.active_owner r.active_key initiator key r.registrations h.holder,
  );
  counted = ground (arith, h.counted);
}

reserve_key-IsCoherent :
    (initiator : Text) (key : ℕ) (r : ReservationState)
    → IsCoherent r
    → IsCoherent (reserve_key initiator key r).1
unfolding reserve_key require_registered set_owner ensure_not_held bump_generation wrapping_add32
    validate_initiator validate_key ◌>>=◌
reserve_key-IsCoherent initiator key r h = record {
  sorted = ground (arith, h.sorted);
  nonzero = λ i. ground (arith, h.nonzero i);
  holder = ground (arith, h.holder);
  counted = ground (arith, h.counted);
}

preempt_key-IsCoherent :
    (initiator : Text) (key service_key : ℕ) (r : ReservationState)
    → IsCoherent r
    → IsCoherent (preempt_key initiator key service_key r).1
unfolding preempt_key require_registered set_owner bump_generation wrapping_add32 validate_initiator
    validate_key ◌>>=◌
preempt_key-IsCoherent initiator key service_key r h = record {
  sorted =
      ground
        (arith, h.sorted, retain-IsSorted (survives_preempt initiator service_key) r.registrations);
  nonzero = λ i.
      ground
        (arith, h.nonzero i, get-retain i (survives_preempt initiator service_key) r.registrations);
  holder = ground (
    arith,
    h.holder,
    get-retain initiator (survives_preempt initiator service_key) r.registrations,
    keq_iff initiator initiator,
  );
  counted = ground (arith, h.counted);
}

register_and_move_key-IsCoherent :
    (initiator : Text) (key service_key : ℕ) (target : Text) (unregister : Bool)
    (r : ReservationState)
    → IsCoherent r
    → IsCoherent (register_and_move_key initiator key service_key target unregister r).1
unfolding register_and_move_key require_registered set_owner bump_generation wrapping_add32
    validate_initiator validate_key ◌>>=◌
register_and_move_key-IsCoherent initiator key service_key target unregister r h = record {
  sorted = ground (
    arith,
    h.sorted,
    insert-IsSorted target service_key r.registrations,
    remove-IsSorted initiator (insert target service_key r.registrations),
  );
  nonzero = λ i. ground (
    arith,
    h.nonzero i,
    get-insert i target service_key r.registrations,
    get-remove i initiator (insert target service_key r.registrations),
  );
  holder = ground (
    arith,
    h.holder,
    get-insert target target service_key r.registrations,
    get-remove target initiator (insert target service_key r.registrations),
    keq_iff target target,
    keq_iff initiator target,
  );
  counted = ground (arith, h.counted);
}

release_key-IsCoherent :
    (initiator : Text) (key : ℕ) (r : ReservationState)
    → IsCoherent r
    → IsCoherent (release_key initiator key r).1
unfolding release_key bump_generation wrapping_add32 validate_initiator validate_key ◌>>=◌
release_key-IsCoherent initiator key r h = record {
  sorted = ground (arith, h.sorted);
  nonzero = λ i. ground (arith, h.nonzero i);
  holder = ground (arith, h.holder);
  counted = ground (arith, h.counted);
}

clear_keys-IsCoherent :
    (initiator : Text) (key : ℕ) (r : ReservationState)
    → IsCoherent r
    → IsCoherent (clear_keys initiator key r).1
unfolding clear_keys require_registered bump_generation wrapping_add32 validate_initiator
    validate_key get ◌>>=◌
clear_keys-IsCoherent initiator key r h = record {
  sorted = ground (arith, h.sorted);
  nonzero = λ i. ground (arith, h.nonzero i);
  holder = ground (arith, h.holder);
  counted = ground (arith, h.counted);
}

serve-IsCoherent : (c : Request) (r : ReservationState) → IsCoherent r → IsCoherent (serve c r).1
unfolding serve register_ignore_existing
serve-IsCoherent (register i k) r h = register_key-IsCoherent i k r h
serve-IsCoherent (register_ignore i k) r h = register_key-IsCoherent i k r h
serve-IsCoherent (reserve i k) r h = reserve_key-IsCoherent i k r h
serve-IsCoherent (release i k) r h = release_key-IsCoherent i k r h
serve-IsCoherent (clear i k) r h = clear_keys-IsCoherent i k r h
serve-IsCoherent (preempt i k v) r h = preempt_key-IsCoherent i k v r h
serve-IsCoherent (register_move i k v t u) r h = register_and_move_key-IsCoherent i k v t u r h

-- After any list of reservation requests, accepted or refused, the registrations are in key order
-- with nonzero keys, an owner is registered with the active key, there is no active key without an
-- owner, and the generation fits 32 bits, if all this held before.
pub serve_all-IsCoherent :
    (cs : List Request) (r : ReservationState) → IsCoherent r → IsCoherent (serve_all cs r)
unfolding serve_all
serve_all-IsCoherent [] r h = h
serve_all-IsCoherent (c ∷ cs) r h = serve_all-IsCoherent cs (serve c r).1 (serve-IsCoherent c r h)
