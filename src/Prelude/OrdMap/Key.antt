-- ===== src/Prelude/OrdMap/Key.antt =====
-- The bound `K: Ord` on the keys of a map, with the laws of `cmp`, for numbers and for texts.
use Prim.Native.Nat.{ℕ, compare, Ordering}
use Prim.Native.Nat.Ordering.{lt, eq, gt}
use mathlib.Core.Path.{◌≡◌, refl}
use mathlib.Core.Logic.{◌↔◌}
use mathlib.Core.Bool.{Bool, true, false}
use mathlib.Core.List.{List, [], ◌∷◌}
use native.Mathlib.Omega.{arith}

pub record KeyOrder {ℓ} (K : Type ℓ) : Type ℓ where
  pub cmp : K → K → Ordering
  pub lt_trans : (i j k : K) → cmp i j ≡ lt → cmp j k ≡ lt → cmp i k ≡ lt
  pub lt_of_gt : (j k : K) → cmp j k ≡ gt → cmp k j ≡ lt
  pub eq_of_cmp : (j k : K) → cmp j k ≡ eq → j ≡ k
  pub cmp_refl : (k : K) → cmp k k ≡ eq

-- Key equality as a test.
abbrev pub keq {ℓ} : {K : Type ℓ} ⦃o : KeyOrder K⦄ → K → K → Bool
keq ⦃o⦄ a b = elim (o.cmp a b) [ eq ↦ true | _ ↦ false ]

pub keq_iff {ℓ} : {K : Type ℓ} ⦃o : KeyOrder K⦄ (a b : K) → (keq a b ≡ true) ↔ (a ≡ b)
keq_iff ⦃o⦄ a b = (ground (arith, o.eq_of_cmp a b), ground (arith, o.cmp_refl a))

pub nat_refl : (a : ℕ) → compare a a ≡ eq
nat_refl a = ground arith

pub nat_eq : (a b : ℕ) → compare a b ≡ eq → a ≡ b
nat_eq a b h = ground arith

pub nat_gt : (a b : ℕ) → compare a b ≡ gt → compare b a ≡ lt
nat_gt a b h = ground arith

pub nat_lt_trans : (a b c : ℕ) → compare a b ≡ lt → compare b c ≡ lt → compare a c ≡ lt
nat_lt_trans a b c p q = ground arith

instance abbrev pub nat_keys : KeyOrder ℕ
nat_keys = record {
  cmp = compare;
  cmp_refl = nat_refl;
  eq_of_cmp = nat_eq;
  lt_of_gt = nat_gt;
  lt_trans = nat_lt_trans;
}

-- A text is the list of its code points; Rust orders `String` by its UTF-8 bytes, which is the
-- order of the code points.
abbrev pub Text : Type 0
Text = List ℕ

-- The order of the first code points, or that of the rests where they are equal.
abbrev or_else : Ordering → Ordering → Ordering
or_else lt rest = lt
or_else gt rest = gt
or_else eq rest = rest

abbrev text_cmp : Text → Text → Ordering
text_cmp [] [] = eq
text_cmp [] (y ∷ ys) = lt
text_cmp (x ∷ xs) [] = gt
text_cmp (x ∷ xs) (y ∷ ys) = or_else (compare x y) (text_cmp xs ys)

pub text_refl : (a : Text) → text_cmp a a ≡ eq
text_refl [] = refl
text_refl (x ∷ xs) = ground (arith, text_refl xs)

pub text_eq : (a b : Text) → text_cmp a b ≡ eq → a ≡ b
text_eq [] [] h = refl
text_eq [] (y ∷ ys) h = ground arith
text_eq (x ∷ xs) [] h = ground arith
text_eq (x ∷ xs) (y ∷ ys) h = ground (arith, text_eq xs ys)

pub text_gt : (a b : Text) → text_cmp a b ≡ gt → text_cmp b a ≡ lt
text_gt [] [] h = ground arith
text_gt [] (y ∷ ys) h = ground arith
text_gt (x ∷ xs) [] h = refl
text_gt (x ∷ xs) (y ∷ ys) h = ground (arith, text_gt xs ys)

pub text_trans : (a b c : Text) → text_cmp a b ≡ lt → text_cmp b c ≡ lt → text_cmp a c ≡ lt
text_trans [] [] c p q = ground arith
text_trans [] (y ∷ ys) [] p q = ground arith
text_trans [] (y ∷ ys) (z ∷ zs) p q = refl
text_trans (x ∷ xs) [] c p q = ground arith
text_trans (x ∷ xs) (y ∷ ys) [] p q = ground arith
text_trans (x ∷ xs) (y ∷ ys) (z ∷ zs) p q = ground (arith, text_trans xs ys zs)

instance unfoldable pub text_keys : KeyOrder Text
text_keys = record {
  cmp = text_cmp;
  cmp_refl = text_refl;
  eq_of_cmp = text_eq;
  lt_of_gt = text_gt;
  lt_trans = text_trans;
}
