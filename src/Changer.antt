-- ===== src/Changer.antt =====
-- The medium changer's elements: data-plane/src/iscsi/cdb_changer.rs and the changer fields of
-- data-plane/src/scsi_tape/state.rs. Addresses are 16 bits wide, labels are texts.
pub mod Shared
pub mod Commands
pub mod Count
pub mod Inventory
pub mod Labels
pub mod Archive
pub mod Exchange
pub mod ExchangeDone
mod Examples
use holo.Prelude.{
  ℕ, ◌+◌, ◌*◌, leb, ltb, ◌==◌, Bool, true, false, ◌||◌, ◌&&◌, Option, none, some, List, [], ◌∷◌,
  ◌++◌, length, get_elem?, drop, if◌then◌else◌, min, saturating_add, u16_max,
}
use holo.Prelude.OrdMap.{Text, Map, get, insert, contains_key, keq, text_keys, nat_keys}
use holo.Wire.{CdbResponse, good, check_condition}

pub record Changer : Type 0 where
  pub slots : Map ℕ (Option Text)
  pub ie_ports : Map ℕ (Option Text)
  pub ie_impexp : Map ℕ Bool
  pub drives : Map ℕ (Option Text)
  pub drive_sources : Map ℕ (Option ℕ)
  pub pending_unit_attention : List (ℕ × ℕ)

pub record Medium : Type 0 where
  pub label : Text
  pub source_slot : Option ℕ

abbrev ie_start : ℕ
ie_start = 0x0300

-- `.copied().flatten()`.
abbrev pub flatten {ℓ} : {A : Type ℓ} → Option (Option A) → Option A
flatten none = none
flatten (some v) = v

-- The drives, when the address is that of no slot and no port.
take_drive : Changer → ℕ → Option (Option Text) → Option Medium × Changer
take_drive c a none = (none, c)
take_drive c a (some none) = (none, c)
take_drive c a (some (some label)) = (
  some (record { label = label; source_slot = flatten (get a c.drive_sources) }),
  record c { drives = insert a none c.drives; drive_sources = insert a none c.drive_sources },
)

take_port : Changer → ℕ → Option (Option Text) → Option Medium × Changer
unfolding take_drive
take_port c a none = take_drive c a (get a c.drives)
take_port c a (some none) = (none, c)
take_port c a (some (some label)) = (
  some (record { label = label; source_slot = some a }),
  record c { ie_ports = insert a none c.ie_ports; ie_impexp = insert a false c.ie_impexp },
)

take_slot : Changer → ℕ → Option (Option Text) → Option Medium × Changer
unfolding take_port
take_slot c a none = take_port c a (get a c.ie_ports)
take_slot c a (some none) = (none, c)
take_slot c a (some (some label)) = (
  some (record { label = label; source_slot = some a }),
  record c { slots = insert a none c.slots },
)

-- `changer_take_medium`.
unfoldable pub take_medium : Changer → ℕ → Option Medium × Changer
unfolding take_slot
take_medium c a = take_slot c a (get a c.slots)

-- A placement says whether it was done: `Result<(), ()>`.
place_drive : Changer → ℕ → Medium → Option (Option Text) → Bool × Changer
place_drive c a m none = (false, c)
place_drive c a m (some (some label)) = (false, c)
place_drive c a m (some none) = (
  true,
  record c {
    drives = insert a (some m.label) c.drives;
    drive_sources = insert a m.source_slot c.drive_sources;
  },
)

place_port : Changer → ℕ → Medium → Option (Option Text) → Bool × Changer
unfolding place_drive
place_port c a m none = place_drive c a m (get a c.drives)
place_port c a m (some (some label)) = (false, c)
place_port c a m (some none) = (
  true,
  record c { ie_ports = insert a (some m.label) c.ie_ports; ie_impexp = insert a true c.ie_impexp },
)

place_slot : Changer → ℕ → Medium → Option (Option Text) → Bool × Changer
unfolding place_port
place_slot c a m none = place_port c a m (get a c.ie_ports)
place_slot c a m (some (some label)) =
    if keq label m.label
    then (true, record c { slots = insert a (some m.label) c.slots })
    else (false, c)
place_slot c a m (some none) = (true, record c { slots = insert a (some m.label) c.slots })

-- `changer_place_medium`.
unfoldable pub place_medium : Changer → ℕ → Medium → Bool × Changer
unfolding place_slot
place_medium c a m = place_slot c a m (get a c.slots)

-- `changer_has_element`.
unfoldable pub has_element : Changer → ℕ → Bool
has_element c a = contains_key a c.slots || contains_key a c.ie_ports || contains_key a c.drives

-- `TapeState::changer_ie_count`.
abbrev pub ie_count : Changer → ℕ
ie_count c =
    let count = length c.ie_ports in
    if count == 0 then 1 else if leb count u16_max then count else u16_max

abbrev in_ie_range : Changer → ℕ → Bool
in_ie_range c a = leb ie_start a && ltb a (min (ie_start + ie_count c) u16_max)

-- `changer_ie_accessed`.
pub ie_accessed : Changer → ℕ → ℕ → Bool
ie_accessed c source destination = in_ie_range c source || in_ie_range c destination

-- `TapeState::push_unit_attention`: at most 16 are kept, the oldest is dropped.
unfoldable pub push_unit_attention : ℕ → ℕ → List (ℕ × ℕ) → List (ℕ × ℕ)
push_unit_attention asc ascq queue =
    (if leb 16 (length queue) then drop 1 queue else queue) ++ (asc, ascq) ∷ []

-- `build_sense_fixed`; the keys used are below 16.
pub build_sense_fixed : ℕ → ℕ → ℕ → List ℕ
build_sense_fixed sense_key asc ascq =
    0x70 ∷ 0 ∷ sense_key ∷ 0 ∷ 0 ∷ 0 ∷ 0 ∷ 10 ∷ 0 ∷ 0 ∷ 0 ∷ 0 ∷ asc ∷ ascq ∷ 0 ∷ 0 ∷ 0 ∷ 0 ∷ []

abbrev pub invalid_field_in_cdb : CdbResponse
invalid_field_in_cdb = check_condition (build_sense_fixed 0x05 0x24 0x00)

abbrev pub invalid_element_address : CdbResponse
invalid_element_address = check_condition (build_sense_fixed 0x05 0x21 0x01)

abbrev pub source_element_empty : CdbResponse
source_element_empty = check_condition (build_sense_fixed 0x05 0x3B 0x0E)

abbrev pub destination_element_full : CdbResponse
destination_element_full = check_condition (build_sense_fixed 0x05 0x3B 0x0D)

abbrev pub internal_target_failure : CdbResponse
internal_target_failure = check_condition (build_sense_fixed 0x04 0x44 0x00)
