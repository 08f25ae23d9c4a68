-- ===== src/Changer/Labels.antt =====
-- The inventory files read back: data-plane/src/iscsi/cdb_server.rs.
use mathlib.Core.List.{append_assoc}
use holo.Prelude.{
  ◌≡◌, ◌≢◌, refl, ap, ◌∙◌, true, Option, none, some, List, [], ◌∷◌, ◌++◌, map, arith, All, trim,
  trim-trim, is_empty, Bool-cases, inl, inr,
}
use holo.Prelude.OrdMap.{Text, text_keys}
use holo.Changer.Shared.{
  File, lines, dash, parse_label, parse_labels, print_label, print_labels, read_labels, write_file,
}

-- The label has one line.
abbrev pub IsOneLine : Option Text → Type 0
IsOneLine none = Unit {0}
IsOneLine (some label) = All (λ c. c ≢ 10) (trim label)

lines-append : (x rest : Text) → All (λ c. c ≢ 10) x → lines (x ++ 10 ∷ rest) ≡ x ∷ lines rest
unfolding lines
lines-append [] rest a = refl
lines-append (c ∷ x) rest (n, a) = rw (lines-append x rest a) (ground arith)

dash_line : (rest : Text) → lines (print_label none ++ rest) ≡ dash ∷ lines rest
unfolding lines print_label
dash_line rest = refl

-- A label is read back trimmed, and not at all if it is blank or a dash.
abbrev pub kept : Option Text → Option Text
kept none = none
kept (some label) = parse_label label

parse_label-dash : parse_label dash ≡ none
unfolding parse_label trim text_keys
parse_label-dash = refl

parse_label-trim : (label : Text) → parse_label (trim label) ≡ parse_label label
unfolding parse_label
parse_label-trim label = rw (trim-trim label)

parse_label_blank : (label : Text) → is_empty (trim label) ≡ true → parse_label label ≡ none
unfolding parse_label
parse_label_blank label e = rw e

parse-print :
    (entry : Option Text) (rest : Text)
    → IsOneLine entry
    → parse_labels (print_label entry ++ rest) ≡ kept entry ∷ parse_labels rest
unfolding parse_labels print_label lines
parse-print none rest a = rw parse_label-dash
parse-print (some label) rest a = elim (Bool-cases (is_empty (trim label))) [
  | inl e ↦ rw (e, parse_label-dash, parse_label_blank label e)
  | inr e ↦ rw (
    e,
    append_assoc (trim label) (10 ∷ []) rest,
    lines-append (trim label) rest a,
    parse_label-trim label,
  )
]

print_labels-parse :
    (entries : List (Option Text))
    → All IsOneLine entries
    → parse_labels (print_labels entries) ≡ map kept entries
unfolding print_labels parse_labels lines
print_labels-parse [] a = refl
print_labels-parse (entry ∷ entries) a =
    parse-print entry (print_labels entries) a.0
    ∙ ap (λ r. kept entry ∷ r) (print_labels-parse entries a.1)

-- What is written to a slots or import/export file that can be written and read is read back: an
-- entry for each element, its label trimmed, or none where the label is blank or a lone dash, if no
-- trimmed label has a line feed.
pub read_labels-write_file :
    (entries : List (Option Text)) (f : File)
    → All IsOneLine entries
    → f.writable ≡ true
    → f.readable ≡ true
    → read_labels (write_file (print_labels entries) f).1 ≡ some (map kept entries)
unfolding read_labels write_file
read_labels-write_file entries f a w r = rw (w, r, print_labels-parse entries a)
