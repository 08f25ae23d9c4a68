-- ===== src/Prelude/Text.antt =====
-- `str::trim` on texts given as lists of code points.
use Prim.Native.Nat.{ℕ, ◌≤◌}
use mathlib.Core.Bool.{Bool, true, false, ◌&&◌, ◌||◌}
use mathlib.Core.Path.{◌≡◌, refl, ap, ◌∙◌, sym}
use mathlib.Core.Logic.{inl, inr}
use mathlib.Core.List.{List, [], ◌∷◌, ◌++◌, reverse, reverse-append, reverse-reverse}
use native.Mathlib.Omega.{arith}
use holo.Prelude.Lists.{length}
use holo.Prelude.Tests.{Bool-cases, leb, ◌==◌, if◌then◌else◌}
use holo.Prelude.OrdMap.{Text}

-- `char::is_whitespace`: the code points with the property White_Space.
abbrev pub is_whitespace : ℕ → Bool
is_whitespace c =
    leb 9 c && leb c 13
    || c == 32
    || c == 0x85
    || c == 0xa0
    || c == 0x1680
    || leb 0x2000 c && leb c 0x200a
    || c == 0x2028
    || c == 0x2029
    || c == 0x202f
    || c == 0x205f
    || c == 0x3000

unfoldable pub trim_start : Text → Text
trim_start [] = []
trim_start (c ∷ s) = if is_whitespace c then trim_start s else c ∷ s

unfoldable pub trim : Text → Text
unfolding trim_start
trim s = reverse (trim_start (reverse (trim_start s)))

abbrev pub is_empty {ℓ} : {A : Type ℓ} → List A → Bool
is_empty [] = true
is_empty (_ ∷ _) = false

-- Trimming is idempotent.
trim_start_fixed : (s : Text) → trim_start (trim_start s) ≡ trim_start s
unfolding trim_start
trim_start_fixed [] = refl
trim_start_fixed (c ∷ s) = ground (arith, trim_start_fixed s)

trim_start_split : (s : Text) → (w : Text) × (w ++ trim_start s ≡ s)
unfolding trim_start
trim_start_split [] = ([], refl)
trim_start_split (c ∷ s) = elim (Bool-cases (is_whitespace c)) [
  | inl e ↦ let (w, p) = trim_start_split s in (c ∷ w, rw (e, p))
  | inr e ↦ ([], rw e)
]

length-trim_start : (s : Text) → length (trim_start s) ≤ length s
unfolding trim_start
length-trim_start [] = omega arith
length-trim_start (c ∷ s) = ground (arith, length-trim_start s)

head_kept : (c : ℕ) (s : Text) → trim_start (c ∷ s) ≡ c ∷ s → is_whitespace c ≡ false
unfolding trim_start
head_kept c s h = elim (Bool-cases (is_whitespace c)) [
  | inl e ↦ absurd (omega (arith, ap length (rw e at h), length-trim_start s))
  | inr e ↦ e
]

prefix_fixed : (u w v : Text) → u ++ w ≡ v → trim_start v ≡ v → trim_start u ≡ u
unfolding trim_start
prefix_fixed [] w v p f = refl
prefix_fixed (c ∷ u) w v p f = rw (head_kept c (u ++ w) (ap trim_start p ∙ f ∙ sym p))

trim_front : (s : Text) → trim_start (trim s) ≡ trim s
unfolding trim
trim_front s =
    let a = trim_start s in
    let (w, p) = trim_start_split (reverse a) in
    prefix_fixed (trim s) (reverse w) a
      (sym (reverse-append w (trim_start (reverse a))) ∙ ap reverse p ∙ reverse-reverse a)
      (trim_start_fixed s)

pub trim-trim : (s : Text) → trim (trim s) ≡ trim s
unfolding trim
trim-trim s =
    ap (λ t. reverse (trim_start (reverse t))) (trim_front s)
    ∙ unfold trim in
      ap (λ t. reverse (trim_start t)) (reverse-reverse (trim_start (reverse (trim_start s))))
      ∙ ap reverse (trim_start_fixed (reverse (trim_start s)))
