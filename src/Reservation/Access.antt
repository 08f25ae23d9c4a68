-- ===== src/Reservation/Access.antt =====
-- Who may write, and how the reservation changes hands: data-plane/src/scsi_tape/reservation.rs.
use holo.Prelude.{
  ℕ, ◌+◌, ◌%◌, ◌≡◌, ◌≢◌, Bool, true, false, none, some, arith, trim, is_empty, wrapping_add32,
}
use holo.Prelude.OrdMap.{Text, get, keq_iff, text_keys, get-retain, IsSorted}
use holo.Prelude.Outcome.{ok, err, ◌>>=◌}
use holo.Scsi.Error.{TapeError, reservation_conflict}
use holo.Reservation.{
  ReservationState, validate_initiator, bump_generation, require_registered, set_owner,
  ensure_not_held, survives_preempt, ensure_reservation_access, register_key,
  register_ignore_existing, reserve_key, preempt_key, register_and_move_key, release_key,
  clear_keys, Request, register, register_ignore, reserve, release, clear, preempt, register_move,
  serve,
}

-- A refused request leaves the reservation state as it was, whatever the request and the reason.
pub serve_error_unchanged :
    (c : Request) (r : ReservationState) (e : TapeError) → (serve c r).0 ≡ err e → (serve c r).1 ≡ r
unfolding serve register_key register_ignore_existing reserve_key preempt_key register_and_move_key
    release_key clear_keys require_registered ensure_not_held ◌>>=◌
serve_error_unchanged (register i k) r e h = ground arith
serve_error_unchanged (register_ignore i k) r e h = ground arith
serve_error_unchanged (reserve i k) r e h = ground arith
serve_error_unchanged (release i k) r e h = ground arith
serve_error_unchanged (clear i k) r e h = ground arith
serve_error_unchanged (preempt i k v) r e h = ground arith
serve_error_unchanged (register_move i k v t u) r e h = ground arith

-- An accepted request raises the generation by one, modulo 2^32.
pub serve_generation :
    (c : Request) (r : ReservationState)
    → (serve c r).0 ≡ ok tt
    → (serve c r).1.generation ≡ (r.generation + 1) % 4294967296
unfolding serve register_key register_ignore_existing reserve_key preempt_key register_and_move_key
    release_key clear_keys require_registered ensure_not_held set_owner bump_generation
    wrapping_add32 ◌>>=◌
serve_generation (register i k) r h = ground arith
serve_generation (register_ignore i k) r h = ground arith
serve_generation (reserve i k) r h = ground arith
serve_generation (release i k) r h = ground arith
serve_generation (clear i k) r h = ground arith
serve_generation (preempt i k v) r h = ground arith
serve_generation (register_move i k v t u) r h = ground arith

-- The initiator that sends a request.
abbrev pub sender : Request → Text
sender (register i _) = i
sender (register_ignore i _) = i
sender (reserve i _) = i
sender (release i _) = i
sender (clear i _) = i
sender (preempt i _ _) = i
sender (register_move i _ _ _ _) = i

-- The requests that may take a reservation from its owner.
abbrev pub seizes : Request → Bool
seizes (clear _ _) = true
seizes (preempt _ _ _) = true
seizes _ = false

-- While a reservation is held, no request of another initiator changes the owner or its key, but
-- a preemption or a clear.
serve_owner_kept :
    (c : Request) (r : ReservationState) (owner : Text)
    → r.active_owner ≡ some owner
    → sender c ≢ owner
    → seizes c ≡ false
    → ((serve c r).1.active_owner ≡ some owner) × ((serve c r).1.active_key ≡ r.active_key)
unfolding serve register_key register_ignore_existing reserve_key preempt_key register_and_move_key
    release_key clear_keys require_registered ensure_not_held set_owner bump_generation ◌>>=◌
serve_owner_kept (register i k) r owner o n s = ground (arith, keq_iff owner i)
serve_owner_kept (register_ignore i k) r owner o n s = ground (arith, keq_iff owner i)
serve_owner_kept (reserve i k) r owner o n s = ground (arith, keq_iff owner i)
serve_owner_kept (release i k) r owner o n s = ground (arith, keq_iff owner i)
serve_owner_kept (clear i k) r owner o n s = ground arith
serve_owner_kept (preempt i k v) r owner o n s = ground arith
serve_owner_kept (register_move i k v t u) r owner o n s = ground (arith, keq_iff owner i)

abbrev pub NamesSomeone : Text → Type 0
NamesSomeone i = is_empty (trim i) ≡ false

-- After an accepted reserve the initiator has access, and every other named initiator is refused
-- with a reservation conflict.
pub reserve_key_exclusive :
    (r : ReservationState) (i : Text) (k : ℕ) (other : Text)
    → (reserve_key i k r).0 ≡ ok tt
    → NamesSomeone other
    → other ≢ i
    → (ensure_reservation_access (reserve_key i k r).1 i ≡ ok tt)
      × (ensure_reservation_access (reserve_key i k r).1 other ≡ err reservation_conflict)
unfolding reserve_key require_registered ensure_not_held set_owner bump_generation
    ensure_reservation_access validate_initiator ◌>>=◌
reserve_key_exclusive r i k other h named n =
    (ground (arith, keq_iff i i), ground (arith, keq_iff i other))

-- No two different initiators have access at once while a reservation is held.
pub access_exclusive :
    (r : ReservationState) (owner i j : Text)
    → r.active_owner ≡ some owner
    → ensure_reservation_access r i ≡ ok tt
    → ensure_reservation_access r j ≡ ok tt
    → i ≡ j
unfolding ensure_reservation_access ensure_not_held
access_exclusive r owner i j o hi hj = ground (arith, keq_iff owner i, keq_iff owner j)

-- An accepted preemption makes the initiator the owner, removes exactly the other initiators that
-- were registered with the service key, and leaves every other registration, if the registrations
-- are in key order.
pub preempt_key_effect :
    (r : ReservationState) (i : Text) (k v : ℕ) (j : Text)
    → IsSorted r.registrations
    → (preempt_key i k v r).0 ≡ ok tt
    → ((preempt_key i k v r).1.active_owner ≡ some i)
      × (get i (preempt_key i k v r).1.registrations ≡ some k)
      × (j ≢ i
          → get j r.registrations ≡ some v
          → get j (preempt_key i k v r).1.registrations ≡ none)
      × (get j r.registrations ≢ some v
          → get j (preempt_key i k v r).1.registrations ≡ get j r.registrations)
unfolding preempt_key require_registered set_owner bump_generation ◌>>=◌
preempt_key_effect r i k v j s h = (
  ground arith,
  ground (arith, get-retain i (survives_preempt i v) r.registrations s, keq_iff i i),
  λ n g. ground (arith, get-retain j (survives_preempt i v) r.registrations s, keq_iff j i),
  λ n. ground (arith, get-retain j (survives_preempt i v) r.registrations s),
)
