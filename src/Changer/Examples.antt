-- ===== src/Changer/Examples.antt =====
-- A changer of two slots, a port and a drive, and the theorems at it.
use holo.Prelude.{◌≡◌, refl, true, false, none, some, List, [], ◌∷◌, map, arith, trim}
use holo.Prelude.OrdMap.{Text, get, insert, contains_key, keq_iff, text_keys, nat_keys}
use holo.Prelude.Outcome.{ok, err}
use holo.Changer.{place_medium, take_medium, Changer, has_element, invalid_element_address}
use holo.Changer.Shared.{
  File, Share, print_labels, print_vault, read_labels, write_file, inventory_enabled, exists,
}
use holo.Changer.Commands.{
  place_three, put, then_put, exchange, archive_ports, auto_archive, move_medium,
}
use holo.Changer.Count.{count, holds, total}
use holo.Changer.Inventory.{IsInventory, SameMedia, move_medium-SameMedia}
use holo.Changer.Labels.{kept, read_labels-write_file}
use holo.Changer.Archive.{vaulted, auto_archive-vaulted}
use holo.Changer.ExchangeDone.{exchange-SameMedia}
use holo.Changer.Exchange.{exchange_refused_overwrites}

abbrev first : Text
first = 86 ∷ 49 ∷ []

abbrev second : Text
second = 86 ∷ 50 ∷ []

abbrev library : Changer
library = record {
  slots = (0x0400, some first) ∷ (0x0401, none) ∷ [];
  ie_ports = (0x0300, some second) ∷ [];
  ie_impexp = (0x0300, true) ∷ [];
  drives = (0x0100, none) ∷ [];
  drive_sources = (0x0100, none) ∷ [];
  pending_unit_attention = [];
}

abbrev file : File
file = record { content = none; readable = true; writable = true }

abbrev alone : Share
alone = record {
  key_is_shared = false;
  slots = file;
  ie = file;
  vault = file;
  drive_bindings = [];
  mounts = [];
}

abbrev shared : Share
shared = record alone { key_is_shared = true }

library-IsInventory : IsInventory library
unfolding total count holds
library-IsInventory = (
  (((refl, tt), (tt, tt)), ((tt, tt), (tt, tt))),
  λ l. ground (arith, keq_iff first l, keq_iff second l),
)

move_medium-SameMedia_example :
    SameMedia library (move_medium (0xa5 ∷ 0 ∷ 0 ∷ 0 ∷ 4 ∷ 0 ∷ 1 ∷ 0 ∷ []) library alone).1.0
move_medium-SameMedia_example =
    move_medium-SameMedia (0xa5 ∷ 0 ∷ 0 ∷ 0 ∷ 4 ∷ 0 ∷ 1 ∷ 0 ∷ []) library alone library-IsInventory
      (unfold inventory_enabled exists in refl)

read_labels-write_file_example :
    read_labels (write_file (print_labels (some first ∷ none ∷ [])) file).1
    ≡ some (map kept (some first ∷ none ∷ []))
read_labels-write_file_example =
    read_labels-write_file (some first ∷ none ∷ []) file
      (unfold trim in ((ground arith, (ground arith, tt)), (tt, tt))) refl refl

archive_runs : (auto_archive library shared).0 ≡ ok tt
unfolding auto_archive write_file inventory_enabled archive_ports
archive_runs = refl

auto_archive-vaulted_example :
    (labels : List Text) × (((auto_archive library shared).1.1.vault.content
        ≡ some (print_vault labels))
      × (vaulted second labels ≡ true))
auto_archive-vaulted_example =
    auto_archive-vaulted library shared second (unfold inventory_enabled in refl) archive_runs
      (unfold count holds text_keys in omega arith)

abbrev full : Changer
full = record library { slots = (0x0400, some first) ∷ (0x0401, some second) ∷ [] }

exchange_refused_overwrites_example :
    ((exchange full 0x0400 0x0401 0x0500).0 ≡ err invalid_element_address)
    × ((exchange full 0x0400 0x0401 0x0500).1 ≡ record full {
      slots = insert 0x0401 (some first) (insert 0x0401 none (insert 0x0400 none full.slots));
    })
exchange_refused_overwrites_example =
    exchange_refused_overwrites full 0x0400 0x0401 0x0500 first second (unfold get in refl)
      (unfold get in refl) refl (unfold has_element contains_key get in refl)

swapped : (exchange library 0x0400 0x0300 0x0401).0 ≡ ok tt
unfolding exchange place_three put then_put take_medium place_medium get insert
swapped = refl

exchange-SameMedia_example : SameMedia library (exchange library 0x0400 0x0300 0x0401).1
exchange-SameMedia_example =
    exchange-SameMedia library 0x0400 0x0300 0x0401 library-IsInventory swapped
