-- ===== src/Changer/Commands.antt =====
-- MOVE MEDIUM and EXCHANGE MEDIUM: data-plane/src/iscsi/cdb_changer.rs.
use holo.Prelude.{
  ℕ, ◌+◌, ◌*◌, ltb, ◌==◌, Bool, true, false, not, any, ◌||◌, ◌&&◌, Option, none, some, List, [],
  ◌∷◌, ◌++◌, length, get_elem?, if◌then◌else◌, trim, is_empty, retain,
}
use holo.Prelude.OrdMap.{Text, Map, get, insert, keq, text_keys, nat_keys}
use holo.Prelude.Outcome.{Result, ok, err}
use holo.Wire.{CdbResponse, good}
use holo.Changer.{
  flatten, Changer, Medium, take_medium, place_medium, has_element, ie_accessed,
  push_unit_attention, invalid_field_in_cdb, invalid_element_address, source_element_empty,
  destination_element_full, internal_target_failure,
}
use holo.Changer.Shared.{
  print_cartridge, mount_file, File, Share, exists, write_file, read_vault, inventory_enabled,
  print_labels, print_vault,
}

-- `u16::from_be_bytes([cdb[i], cdb[i + 1]])`, used behind a test of the length.
abbrev byte : Option ℕ → ℕ
byte none = 0
byte (some b) = b

pub word : List ℕ → ℕ → ℕ
word cdb i = 256 * byte (get_elem? cdb i) + byte (get_elem? cdb (i + 1))

-- The answer when an element gave no medium.
abbrev nothing_taken : Changer → ℕ → CdbResponse
nothing_taken c a = if has_element c a then source_element_empty else invalid_element_address

-- `.values().cloned()`.
unfoldable pub values : Map ℕ (Option Text) → List (Option Text)
values [] = []
values ((a, v) ∷ m) = v ∷ values m

-- From the source to the destination, and back where the destination cannot take it.
unfoldable pub transfer : Changer → ℕ → ℕ → Result CdbResponse (Unit {0}) × Changer
transfer c source destination = taken (take_medium c source)
  where
    placed : Medium → Bool × Changer → Result CdbResponse (Unit {0}) × Changer
    placed m (true, d) = (ok tt, d)
    placed m (false, d) =
        let rolled = (place_medium d source m).1 in
        (
          err (
              if has_element rolled destination
              then destination_element_full
              else invalid_element_address),
          rolled,
        )

    taken : Option Medium × Changer → Result CdbResponse (Unit {0}) × Changer
    taken (none, d) = (err (nothing_taken d source), d)
    taken (some m, d) = placed m (place_medium d destination m)

-- The loop of `auto_archive_ie_media_to_vault` over the ports: the vault's labels and whether a port
-- was emptied, the ports and their flags.
pub record Archive : Type 0 where
  pub exported : List Text
  pub changed : Bool
  pub ports : Map ℕ (Option Text)
  pub impexp : Map ℕ Bool

unfoldable pub archive_ports : Map ℕ (Option Text) → List Text → Map ℕ Bool → Archive
archive_ports [] exported flags = record {
  exported = exported;
  changed = false;
  ports = [];
  impexp = flags;
}
archive_ports ((a, none) ∷ ports) exported flags =
    let rest = archive_ports ports exported flags in record rest { ports = (a, none) ∷ rest.ports }
archive_ports ((a, some label) ∷ ports) exported flags =
    let known = any (keq label) exported in
    let more = if known then exported else exported ++ label ∷ [] in
    let rest = archive_ports ports more (insert a false flags) in
    record rest { ports = (a, none) ∷ rest.ports; changed = true }

-- `auto_archive_ie_media_to_vault`.
unfoldable pub auto_archive : Changer → Share → Result CdbResponse (Unit {0}) × (Changer × Share)
auto_archive c s =
    let old = retain (λ label. not (is_empty (trim label))) (read_vault s.vault) in
    if inventory_enabled s
    then archived (archive_ports c.ie_ports old c.ie_impexp)
    else (ok tt, (c, s))
  where
    vault_written :
        Changer → Share → Bool × File → Result CdbResponse (Unit {0}) × (Changer × Share)
    vault_written d t (done, vault) =
        (if done then ok tt else err internal_target_failure, (d, record t { vault = vault }))

    ie_written :
        Changer → List Text → Bool × File → Result CdbResponse (Unit {0}) × (Changer × Share)
    ie_written d exported (false, ie) = (err internal_target_failure, (d, record s { ie = ie }))
    ie_written d exported (true, ie) =
        vault_written d (record s { ie = ie }) (write_file (print_vault exported) s.vault)

    archived : Archive → Result CdbResponse (Unit {0}) × (Changer × Share)
    archived a =
        let d = record c { ie_ports = a.ports; ie_impexp = a.impexp } in
        let written = ie_written d a.exported (write_file (print_labels (values a.ports)) s.ie) in
        if a.changed then written else (ok tt, (c, s))

-- `sync_changer_inventory_to_shared`, whose failed writes are only logged.
pub sync_inventory : Changer → Share → Share
sync_inventory c s =
    if s.key_is_shared || exists s.slots || exists s.ie
    then record s {
      slots = (write_file (print_labels (values c.slots)) s.slots).1;
      ie = (write_file (print_labels (values c.ie_ports)) s.ie).1;
    }
    else s

-- `sync_changer_mount_to_shared`, whose failed writes are only logged.
pub sync_mounts : Changer → Share → Share
sync_mounts c s = record s { mounts = written s.drive_bindings s.mounts }
  where
    written : List (ℕ × Text) → Map Text File → Map Text File
    written [] mounts = mounts
    written ((a, name) ∷ bindings) mounts =
        let payload = print_cartridge (flatten (get a c.drives)) in
        written bindings (insert name (write_file payload (mount_file name mounts)).1 mounts)

-- What both commands do once the media have moved.
unfoldable pub finish : Bool → Changer → Share → CdbResponse × (Changer × Share)
finish ie_touched c s = reported (auto_archive c s)
  where
    attended : Changer → Changer
    attended d = record d {
      pending_unit_attention =
          push_unit_attention 0x28 (if ie_touched then 0x01 else 0x00) d.pending_unit_attention;
    }

    reported : Result CdbResponse (Unit {0}) × (Changer × Share) → CdbResponse × (Changer × Share)
    reported (err response, (d, t)) = (response, (d, t))
    reported (ok u, (d, t)) =
        (good [], (attended d, sync_mounts (attended d) (sync_inventory (attended d) t)))

-- What MOVE MEDIUM does after its transfer.
unfoldable pub conclude_move :
    ℕ → ℕ → Share → Result CdbResponse (Unit {0}) × Changer → CdbResponse × (Changer × Share)
conclude_move source destination s (err response, d) = (response, (d, s))
conclude_move source destination s (ok u, d) = finish (ie_accessed d source destination) d s

-- `move_medium_changer`.
unfoldable pub move_medium : List ℕ → Changer → Share → CdbResponse × (Changer × Share)
move_medium cdb c s =
    let source = word cdb 4 in
    let destination = word cdb 6 in
    if ltb (length cdb) 8
    then (invalid_field_in_cdb, (c, s))
    else if source == destination
    then (good [], (c, s))
    else conclude_move source destination s (transfer c source destination)

-- A placement of a medium, if there is one, whose failure ends the command.
unfoldable pub put : ℕ → Option Medium → Changer → Result CdbResponse (Unit {0}) × Changer
put a none d = (ok tt, d)
put a (some m) d =
    let (done, e) = place_medium d a m in (if done then ok tt else err invalid_element_address, e)

unfoldable pub then_put :
    ℕ
    → Option Medium
    → Result CdbResponse (Unit {0}) × Changer
    → Result CdbResponse (Unit {0}) × Changer
then_put a m (err response, d) = (err response, d)
then_put a m (ok u, d) = put a m d

-- The three placements of EXCHANGE MEDIUM, once the three media are taken.
unfoldable pub place_three :
    ℕ
    → ℕ
    → ℕ
    → Medium
    → Option Medium
    → Option Medium
    → Changer
    → Result CdbResponse (Unit {0}) × Changer
place_three source destination_1 destination_2 m m1 m2 d =
    first_placed (place_medium d destination_1 m)
  where
    -- `let _ = changer_place_medium(..)` for a medium that may be none.
    put_back : ℕ → Option Medium → Changer → Changer
    put_back a none e = e
    put_back a (some n) e = (place_medium e a n).1

    first_placed : Bool × Changer → Result CdbResponse (Unit {0}) × Changer
    first_placed (true, e) = then_put source m2 (put destination_2 m1 e)
    first_placed (false, e) = (
      err invalid_element_address,
      put_back destination_2 m2 (put_back destination_1 m1 (place_medium e source m).1),
    )

-- `changer_take_medium` and `changer_place_medium` of EXCHANGE MEDIUM, up to the first failure.
unfoldable pub exchange : Changer → ℕ → ℕ → ℕ → Result CdbResponse (Unit {0}) × Changer
exchange c source destination_1 destination_2 = source_taken (take_medium c source)
  where
    both_taken :
        Medium → Option Medium → Option Medium × Changer → Result CdbResponse (Unit {0}) × Changer
    both_taken m m1 (m2, d) = place_three source destination_1 destination_2 m m1 m2 d

    first_taken : Medium → Option Medium × Changer → Result CdbResponse (Unit {0}) × Changer
    first_taken m (m1, d) = both_taken m m1 (take_medium d destination_2)

    source_taken : Option Medium × Changer → Result CdbResponse (Unit {0}) × Changer
    source_taken (none, d) = (err (nothing_taken d source), d)
    source_taken (some m, d) = first_taken m (take_medium d destination_1)

-- `exchange_medium_changer`.
pub exchange_medium : List ℕ → Changer → Share → CdbResponse × (Changer × Share)
exchange_medium cdb c s =
    let source = word cdb 4 in
    let destination_1 = word cdb 6 in
    let destination_2 = word cdb 8 in
    if ltb (length cdb) 10
    then (invalid_field_in_cdb, (c, s))
    else if source == destination_1 && destination_1 == destination_2
    then (good [], (c, s))
    else moved source destination_1 destination_2 (exchange c source destination_1 destination_2)
  where
    moved : ℕ → ℕ → ℕ → Result CdbResponse (Unit {0}) × Changer → CdbResponse × (Changer × Share)
    moved source destination_1 destination_2 (err response, d) = (response, (d, s))
    moved source destination_1 destination_2 (ok u, d) =
        finish (ie_accessed d source destination_1 || ie_accessed d source destination_2) d s
