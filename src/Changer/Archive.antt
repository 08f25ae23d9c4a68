-- ===== src/Changer/Archive.antt =====
-- The import/export ports and the vault: `auto_archive_ie_media_to_vault` of
-- data-plane/src/iscsi/cdb_changer.rs.
use holo.Prelude.{
  ℕ, ◌≤◌, ◌≡◌, refl, ap, ◌∙◌, Bool, true, false, not, any, ◌||◌, Option, none, some, List, [], ◌∷◌,
  ◌++◌, if◌then◌else◌, arith, Bool-cases, inl, inr, retain, trim, is_empty,
}
use holo.Prelude.OrdMap.{Text, Map, insert, keq, keq_iff, text_keys, nat_keys}
use holo.Prelude.Outcome.{ok}
use holo.Changer.{Changer}
use holo.Changer.Shared.{Share, inventory_enabled, read_vault, print_vault, write_file}
use holo.Changer.Commands.{archive_ports, auto_archive}
use holo.Changer.Count.{count, holds}

-- Whether a label is one of the vault's.
abbrev pub vaulted : Text → List Text → Bool
vaulted l exported = any (λ label. keq label l) exported

vaulted-append :
    (l : Text) (xs ys : List Text) → vaulted l (xs ++ ys) ≡ (vaulted l xs || vaulted l ys)
unfolding any
vaulted-append l [] ys = refl
vaulted-append l (x ∷ xs) ys = ground (arith, vaulted-append l xs ys)

keq_sym : (x y : Text) → keq x y ≡ keq y x
keq_sym x y = ground (arith, keq_iff x y, keq_iff y x)

known_vaulted : (l : Text) (old : List Text) → any (keq l) old ≡ vaulted l old
unfolding any
known_vaulted l [] = refl
known_vaulted l (x ∷ old) = rw (keq_sym l x, known_vaulted l old)

-- The vault's labels with one more, if it is not there yet.
abbrev with : Text → List Text → List Text
with x old = if any (keq x) old then old else old ++ x ∷ []

vaulted-with : (l x : Text) (old : List Text) → vaulted l (with x old) ≡ (vaulted l old || keq x l)
unfolding any
vaulted-with l x old = elim (Bool-cases (any (keq x) old)) [
  | inl e ↦ rw (e) (ground (arith, known_vaulted x old, keq_iff x l, known x))
  | inr e ↦ rw (e, vaulted-append l old (x ∷ [])) (ground arith)
]
  where
    known : (y : Text) → y ≡ l → any (keq y) old ≡ vaulted l old
    known y h = rw h (known_vaulted l old)

archive_ports_empty :
    (l : Text) (ports : Map ℕ (Option Text)) (old : List Text) (flags : Map ℕ Bool)
    → count l (archive_ports ports old flags).ports ≡ 0
unfolding archive_ports count holds
archive_ports_empty l [] old flags = refl
archive_ports_empty l ((a, none) ∷ ports) old flags =
    ground (arith, archive_ports_empty l ports old flags)
archive_ports_empty l ((a, some x) ∷ ports) old flags =
    ground (arith, archive_ports_empty l ports (with x old) (insert a false flags))

archive_ports_keeps :
    (l : Text) (ports : Map ℕ (Option Text)) (old : List Text) (flags : Map ℕ Bool)
    → vaulted l old ≡ true
    → vaulted l (archive_ports ports old flags).exported ≡ true
unfolding archive_ports
archive_ports_keeps l [] old flags v = v
archive_ports_keeps l ((a, none) ∷ ports) old flags v = archive_ports_keeps l ports old flags v
archive_ports_keeps l ((a, some x) ∷ ports) old flags v =
    archive_ports_keeps l ports (with x old) (insert a false flags)
      (vaulted-with l x old ∙ ap (λ b. b || keq x l) v)

archive_ports_unchanged :
    (l : Text) (ports : Map ℕ (Option Text)) (old : List Text) (flags : Map ℕ Bool)
    → (archive_ports ports old flags).changed ≡ false
    → count l ports ≡ 0
unfolding archive_ports count holds
archive_ports_unchanged l [] old flags v = refl
archive_ports_unchanged l ((a, none) ∷ ports) old flags v =
    ground (arith, archive_ports_unchanged l ports old flags v)
archive_ports_unchanged l ((a, some x) ∷ ports) old flags v = ground arith

archive_ports-vaulted :
    (l : Text) (ports : Map ℕ (Option Text)) (old : List Text) (flags : Map ℕ Bool)
    → 1 ≤ count l ports
    → vaulted l (archive_ports ports old flags).exported ≡ true
unfolding archive_ports count holds
archive_ports-vaulted l [] old flags h = ground arith
archive_ports-vaulted l ((a, none) ∷ ports) old flags h =
    archive_ports-vaulted l ports old flags (ground arith)
archive_ports-vaulted l ((a, some x) ∷ ports) old flags h = elim (Bool-cases (keq x l)) [
  | inl e ↦
      archive_ports_keeps l ports (with x old) (insert a false flags)
        (vaulted-with l x old ∙ ground arith)
  | inr e ↦ archive_ports-vaulted l ports (with x old) (insert a false flags) (ground arith)
]

-- The vault's labels before the ports are archived.
old_labels : Share → List Text
old_labels s = retain (λ label. not (is_empty (trim label))) (read_vault s.vault)

-- An auto-archive that answers well where the inventory is shared leaves no label in a port and the
-- slots and drives as they were.
auto_archive_empty :
    (c : Changer) (s : Share) (l : Text)
    → inventory_enabled s ≡ true
    → (auto_archive c s).0 ≡ ok tt
    → (count l (auto_archive c s).1.0.ie_ports ≡ 0)
      × ((auto_archive c s).1.0.slots ≡ c.slots)
      × ((auto_archive c s).1.0.drives ≡ c.drives)
unfolding auto_archive write_file old_labels
auto_archive_empty c s l e o = ground (
  arith,
  archive_ports_empty l c.ie_ports (old_labels s) c.ie_impexp,
  archive_ports_unchanged l c.ie_ports (old_labels s) c.ie_impexp,
)

-- A label that is in a port is, after an auto-archive that answers well where the inventory is
-- shared, one of the labels whose list is the vault's file.
pub auto_archive-vaulted :
    (c : Changer) (s : Share) (l : Text)
    → inventory_enabled s ≡ true
    → (auto_archive c s).0 ≡ ok tt
    → 1 ≤ count l c.ie_ports
    → (labels : List Text) × (((auto_archive c s).1.1.vault.content ≡ some (print_vault labels))
        × (vaulted l labels ≡ true))
unfolding auto_archive write_file old_labels
auto_archive-vaulted c s l e o h =
    let a = archive_ports c.ie_ports (old_labels s) c.ie_impexp in
    (
      a.exported,
      (
        ground (arith, archive_ports_unchanged l c.ie_ports (old_labels s) c.ie_impexp),
        archive_ports-vaulted l c.ie_ports (old_labels s) c.ie_impexp h,
      ),
    )
