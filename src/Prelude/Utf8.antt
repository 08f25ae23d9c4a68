-- ===== src/Prelude/Utf8.antt =====
-- The UTF-8 bytes of a text (`str::as_bytes`) and `String::from_utf8`, which accepts exactly the
-- well-formed byte strings: no stray continuation, no overlong form, no surrogate, at most 0x10ffff.
use Prim.Native.Nat.{ℕ, zero, suc, ◌+◌, ◌-◌, ◌*◌, ◌/◌, ◌%◌, ◌≤◌, ◌<◌}
use mathlib.Core.Path.{◌≡◌, refl, ap, ◌∙◌}
use mathlib.Core.Logic.{◌⊎◌, inl, inr}
use mathlib.Core.Bool.{Bool, ◌&&◌, ◌||◌}
use mathlib.Core.Option.{Option, none, some}
use mathlib.Core.List.{List, [], ◌∷◌, ◌++◌}
use native.Mathlib.Omega.{arith}
use holo.Prelude.Tests.{ltb, leb, if◌then◌else◌, Bool-cases}
use holo.Prelude.Lists.{All}
use holo.Prelude.OrdMap.{Text}

abbrev pub IsScalar : ℕ → Type 0
IsScalar c = (c < 0xd800) ⊎ ((0xe000 ≤ c) × (c < 0x110000))

abbrev pub is_scalar : ℕ → Bool
is_scalar c = ltb c 0xd800 || leb 0xe000 c && ltb c 0x110000

char_bytes : ℕ → List ℕ
char_bytes c =
    if ltb c 0x80
    then c ∷ []
    else if ltb c 0x800
    then (0xc0 + c / 64) ∷ (0x80 + c % 64) ∷ []
    else if ltb c 0x10000
    then (0xe0 + c / 4096) ∷ (0x80 + c / 64 % 64) ∷ (0x80 + c % 64) ∷ []
    else (0xf0 + c / 262144) ∷ (0x80 + c / 4096 % 64) ∷ (0x80 + c / 64 % 64) ∷ (0x80 + c % 64) ∷ []

unfoldable pub as_bytes : Text → List ℕ
unfolding char_bytes
as_bytes [] = []
as_bytes (c ∷ s) = char_bytes c ++ as_bytes s

abbrev put : ℕ → Option Text → Option Text
put c none = none
put c (some s) = some (c ∷ s)

abbrev is_continuation : ℕ → Bool
is_continuation b = leb 0x80 b && leb b 0xbf

-- `more` continuation bytes are due, `acc` has the bits read, and `least` is the smallest code
-- point that needs so many bytes.
scan : ℕ → ℕ → ℕ → List ℕ → Option Text
scan zero acc least [] = some []
scan (suc more) acc least [] = none
scan zero acc least (b ∷ bs) =
    let one = put b (scan 0 0 0 bs) in
    let two = scan 1 (b - 0xc0) 0x80 bs in
    let three = scan 2 (b - 0xe0) 0x800 bs in
    let four = scan 3 (b - 0xf0) 0x10000 bs in
    if ltb b 0x80
    then one
    else if leb 0xc2 b && leb b 0xdf
    then two
    else if leb 0xe0 b && leb b 0xef
    then three
    else if leb 0xf0 b && leb b 0xf4
    then four
    else none
scan (suc zero) acc least (b ∷ bs) =
    let c = acc * 64 + (b - 0x80) in
    let rest = put c (scan 0 0 0 bs) in
    if is_continuation b && leb least c && is_scalar c then rest else none
scan (suc (suc more)) acc least (b ∷ bs) =
    let rest = scan (suc more) (acc * 64 + (b - 0x80)) least bs in
    if is_continuation b then rest else none

unfoldable pub from_utf8 : List ℕ → Option Text
unfolding scan
from_utf8 bs = scan 0 0 0 bs

scan_lead :
    (b : ℕ) (bs : List ℕ) → 0xf0 ≤ b → b ≤ 0xf4 → scan 0 0 0 (b ∷ bs) ≡ scan 3 (b - 0xf0) 0x10000 bs
unfolding scan
scan_lead b bs h k = ground arith

scan_more :
    (more acc least x a : ℕ) (bs : List ℕ)
    → x < 64
    → a ≡ acc * 64 + x
    → scan (suc (suc more)) acc least ((0x80 + x) ∷ bs) ≡ scan (suc more) a least bs
unfolding scan
scan_more more acc least x a bs h e = rw e (ground arith)

scan_last :
    (acc least x c : ℕ) (bs : List ℕ)
    → x < 64
    → c ≡ acc * 64 + x
    → least ≤ c
    → IsScalar c
    → scan 1 acc least ((0x80 + x) ∷ bs) ≡ put c (scan 0 0 0 bs)
unfolding scan
scan_last acc least x c bs h e l v =
    let f : acc * 64 + (0x80 + x - 0x80) ≡ c = omega arith in rw (f, scan) (ground arith)

scan_four :
    (c : ℕ) (rest : List ℕ)
    → 0x10000 ≤ c
    → c < 0x110000
    → scan 0 0 0 (
        (0xf0 + c / 262144)
        ∷ (0x80 + c / 4096 % 64)
        ∷ (0x80 + c / 64 % 64)
        ∷ (0x80 + c % 64)
        ∷ rest)
      ≡ put c (scan 0 0 0 rest)
scan_four c rest h k =
    scan_lead (0xf0 + c / 262144) _ (omega arith) (omega arith)
    ∙ scan_more 1 (0xf0 + c / 262144 - 0xf0) 0x10000 (c / 4096 % 64) (c / 4096) _ (omega arith)
        (omega arith)
    ∙ scan_more 0 (c / 4096) 0x10000 (c / 64 % 64) (c / 64) _ (omega arith) (omega arith)
    ∙ scan_last (c / 64) 0x10000 (c % 64) c rest (omega arith) (omega arith) (omega arith)
        (inr (omega arith, k))

scan_char :
    (c : ℕ) (rest : List ℕ)
    → IsScalar c
    → scan 0 0 0 (char_bytes c ++ rest) ≡ put c (scan 0 0 0 rest)
unfolding char_bytes scan
scan_char c rest h = elim (Bool-cases (ltb c 0x80)) [
  | inl a ↦ rw a (ground arith)
  | inr a ↦ rw a (elim (Bool-cases (ltb c 0x800)) [
    | inl b ↦ rw b (ground arith)
    | inr b ↦ rw b (elim (Bool-cases (ltb c 0x10000)) [
      | inl d ↦ rw d (ground arith)
      | inr d ↦ rw d (scan_four c rest (ground arith) (ground arith))
    ])
  ])
]

pub from_utf8-as_bytes : (s : Text) → All IsScalar s → from_utf8 (as_bytes s) ≡ some s
unfolding from_utf8 as_bytes
from_utf8-as_bytes [] h = refl
from_utf8-as_bytes (c ∷ s) h = scan_char c (as_bytes s) h.0 ∙ ap (put c) (from_utf8-as_bytes s h.1)
