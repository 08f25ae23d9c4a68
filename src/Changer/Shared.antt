-- ===== src/Changer/Shared.antt =====
-- The files that the changer processes share: data-plane/src/iscsi/cdb_server.rs. A file is its text
-- with what the operating system lets the process do; a refused write changes nothing, as the text
-- goes to a temporary file first, which is then renamed.
use holo.Prelude.{
  ℕ, ◌==◌, Bool, true, false, ◌||◌, Option, none, some, List, [], ◌∷◌, ◌++◌, map, if◌then◌else◌,
  trim, is_empty, is_some,
}
use holo.Prelude.OrdMap.{Text, Map, get, text_keys, nat_keys, keq}

pub record File : Type 0 where
  pub content : Option Text
  pub readable : Bool
  pub writable : Bool

pub record Share : Type 0 where
  -- Whether the media state key has the separator of a library and a drive.
  pub key_is_shared : Bool
  pub slots : File
  pub ie : File
  pub vault : File
  -- Each drive's address and its own state file (`changer_drive_state_bindings`), and these files.
  pub drive_bindings : List (ℕ × Text)
  pub mounts : Map Text File

unfoldable pub exists : File → Bool
exists f = is_some f.content

-- Whether the write was done, and the file after it.
unfoldable pub write_file : Text → File → Bool × File
write_file text f = if f.writable then (true, record f { content = some text }) else (false, f)

abbrev on_first_line : ℕ → List Text → List Text
on_first_line c [] = (c ∷ []) ∷ []
on_first_line c (line ∷ lines) = (c ∷ line) ∷ lines

-- `str::lines`, but for a carriage return at a line's end, which the readers trim away.
unfoldable pub lines : Text → List Text
lines [] = []
lines (c ∷ text) = let rest = lines text in if c == 10 then [] ∷ rest else on_first_line c rest

abbrev pub dash : Text
dash = 45 ∷ []

abbrev pub is_blank : Text → Bool
is_blank label = is_empty label || keq label dash

-- A line of `read_shared_changer_slots` and `read_shared_changer_ie`.
unfoldable pub parse_label : Text → Option Text
parse_label line = if is_blank (trim line) then none else some (trim line)

unfoldable pub parse_labels : Text → List (Option Text)
parse_labels text = map parse_label (lines text)

-- `read_shared_changer_slots` and `read_shared_changer_ie`: nothing of an unreadable file is used.
unfoldable pub read_labels : File → Option (List (Option Text))
read_labels f = let parsed = map_content f.content in if f.readable then parsed else none
  where
    map_content : Option Text → Option (List (Option Text))
    map_content none = none
    map_content (some text) = some (parse_labels text)

-- `.flatten()` on the labels.
unfoldable pub labels : List (Option Text) → List Text
labels [] = []
labels (none ∷ entries) = labels entries
labels (some label ∷ entries) = label ∷ labels entries

-- What `write_shared_changer_slots` and `write_shared_changer_ie` write for an element.
unfoldable pub print_label : Option Text → Text
print_label none = dash ++ 10 ∷ []
print_label (some label) = if is_empty (trim label) then dash ++ 10 ∷ [] else trim label ++ 10 ∷ []

unfoldable pub print_labels : List (Option Text) → Text
print_labels [] = []
print_labels (entry ∷ entries) = print_label entry ++ print_labels entries

-- The text of `write_shared_changer_vault`.
unfoldable pub print_vault : List Text → Text
print_vault [] = []
print_vault (label ∷ rest) =
    (if is_empty (trim label) then [] else trim label ++ 10 ∷ []) ++ print_vault rest

-- `read_shared_changer_vault`, where an unreadable or missing file has no labels.
pub read_vault : File → List Text
read_vault f = elim (read_labels f) [ none ↦ [] | some entries ↦ labels entries ]

-- `shared_changer_inventory_enabled`.
unfoldable pub inventory_enabled : Share → Bool
inventory_enabled s = s.key_is_shared || exists s.slots || exists s.ie || exists s.vault

-- A state file that does not exist yet can be written.
pub mount_file : Text → Map Text File → File
mount_file name mounts = elim (get name mounts) [
  | none ↦ record { content = none; readable = true; writable = true }
  | some f ↦ f
]

-- The text of `write_shared_loaded_cartridge`: `cartridge=` and the trimmed label.
pub print_cartridge : Option Text → Text
print_cartridge none = 99 ∷ 97 ∷ 114 ∷ 116 ∷ 114 ∷ 105 ∷ 100 ∷ 103 ∷ 101 ∷ 61 ∷ 10 ∷ []
print_cartridge (some label) =
    (99 ∷ 97 ∷ 114 ∷ 116 ∷ 114 ∷ 105 ∷ 100 ∷ 103 ∷ 101 ∷ 61 ∷ []) ++ trim label ++ 10 ∷ []
