-- ===== src/Changer/Exchange.antt =====
-- EXCHANGE MEDIUM with a destination that does not exist: data-plane/src/iscsi/cdb_changer.rs.
use holo.Prelude.{◌==◌, ℕ, ◌≡◌, refl, true, false, none, some, arith}
use holo.Prelude.OrdMap.{Text, get, insert, get-insert, contains_key, keq, text_keys, nat_keys}
use holo.Prelude.Outcome.{err}
use holo.Changer.{
  contains_key, has_element, Changer, take_medium, take_slot, take_port, take_drive, place_medium,
  place_slot, place_port, place_drive, invalid_element_address,
}
use holo.Changer.Commands.{exchange, place_three, put, then_put}

-- Where the source and the first destination are two full slots and the second destination is no
-- element, EXCHANGE MEDIUM is refused, but the source's medium has replaced that of the first
-- destination, which is in no element it was moved to: the source is empty, and the ports and the
-- drives are as they were.
pub exchange_refused_overwrites :
    (c : Changer) (source destination_1 destination_2 : ℕ) (x y : Text)
    → get source c.slots ≡ some (some x)
    → get destination_1 c.slots ≡ some (some y)
    → (source == destination_1) ≡ false
    → has_element c destination_2 ≡ false
    → ((exchange c source destination_1 destination_2).0 ≡ err invalid_element_address)
      × ((exchange c source destination_1 destination_2).1 ≡ record c {
        slots =
            insert destination_1 (some x) (insert destination_1 none (insert source none c.slots));
      })
unfolding exchange place_three put then_put take_medium take_slot take_port take_drive place_medium
    place_slot place_port place_drive has_element contains_key
exchange_refused_overwrites c source destination_1 destination_2 x y e f n m =
    let s2 : get destination_2 c.slots ≡ none = ground arith in
    let i2 : get destination_2 c.ie_ports ≡ none = ground arith in
    let d2 : get destination_2 c.drives ≡ none = ground arith in
    let n1 : keq destination_1 source ≡ false = ground arith in
    let n2 : keq destination_2 source ≡ false = ground arith in
    let n3 : keq destination_2 destination_1 ≡ false = ground arith in
    let same : keq destination_1 destination_1 ≡ true = ground arith in
    let one = insert source none c.slots in
    let two = insert destination_1 none one in
    let three = insert destination_1 (some x) two in
    rw
      (
        e,
        get-insert destination_1 source none c.slots,
        n1,
        f,
        get-insert destination_2 destination_1 none one,
        n3,
        get-insert destination_2 source none c.slots,
        n2,
        s2,
        i2,
        d2,
        get-insert destination_1 destination_1 none one,
        same,
        get-insert destination_2 destination_1 (some x) two,
        n3,
        get-insert destination_2 destination_1 none one,
        n3,
        get-insert destination_2 source none c.slots,
        n2,
        s2,
        i2,
        d2,
      )
      (refl, refl)
