-- ===== src/Drive/Partitions/Sums.antt =====
-- The sizes of the partitions that a format makes: data-plane/src/iscsi/cdb_drive.rs.
use Prim.Native.Nat.{zero, suc}
use mathlib.Core.Path.{subst}
use native.Mathlib.Nat.{mul-le-mul_left}
use holo.Prelude.{
  ℕ, ◌+◌, ◌-◌, ◌≤◌, ◌<◌, ◌≡◌, refl, sym, ap, ◌∙◌, min, ltb, leb, true, false, Option, none, some,
  List, [], ◌∷◌, length, get_elem?, take, arith, if◌then◌else◌, Bool-cases, inl, inr, ◌⊎◌,
  saturating_add, u64_max,
}
use holo.Prelude.Outcome.{ok, ensure, ok_or, and_then_inv, ensure_inv, ok_injective}
use holo.Drive.Partitions.{
  percentage, split_at, saturating_mul, fills, sized_bytes, sized_total, fill_index, set_at,
  add_to_first, fill_up, unit_layout, partition_unit_bytes, padded,
}

unfoldable pub sum : List ℕ → ℕ
sum [] = 0
sum (x ∷ xs) = x + sum xs

sized_total-le : (total : ℕ) (bytes : List ℕ) → total ≤ u64_max → total ≤ sized_total total bytes
unfolding sized_total saturating_add
sized_total-le total [] h = omega arith
sized_total-le total (b ∷ bytes) h =
    omega (arith, sized_total-le (min (total + b) u64_max) bytes (omega arith))

-- Below the largest number the saturating total is exact.
sized_total_exact :
    (total : ℕ) (bytes : List ℕ)
    → sized_total total bytes < u64_max
    → sized_total total bytes ≡ total + sum bytes
unfolding sized_total sum saturating_add
sized_total_exact total [] h = omega arith
sized_total_exact total (b ∷ bytes) h = omega (
  arith,
  sized_total_exact (min (total + b) u64_max) bytes h,
  sized_total-le (min (total + b) u64_max) bytes (omega arith),
)

sum-set_at : (i x : ℕ) (xs : List ℕ) → get_elem? xs i ≡ some 0 → sum (set_at i x xs) ≡ x + sum xs
unfolding sum set_at
sum-set_at i x [] h = absurd (ground arith)
sum-set_at zero x (y ∷ xs) h = ground arith
sum-set_at (suc i) x (y ∷ xs) h = omega (arith, sum-set_at i x xs h)

chosen :
    (raw k j : ℕ) (last : Option ℕ)
    → fills raw ≡ true
    → (if fills raw then some k else last) ≡ some j
    → j ≡ k
chosen raw k j last f h = ground arith

passed_on :
    (raw k j : ℕ) (last : Option ℕ)
    → fills raw ≡ false
    → (if fills raw then some k else last) ≡ some j
    → last ≡ some j
passed_on raw k j last f h = ground arith

-- The partition that fills has no size of its own.
fill_index_zero :
    (unit k : ℕ) (last : Option ℕ) (sizes : List ℕ) (j : ℕ)
    → fill_index k last sizes ≡ some j
    → (last ≡ some j) ⊎ ((i : ℕ) × ((j ≡ k + i) × (get_elem? (sized_bytes unit sizes) i ≡ some 0)))
unfolding fill_index sized_bytes
fill_index_zero unit k last [] j h = inl h
fill_index_zero unit k last (raw ∷ sizes) j h =
    elim (fill_index_zero unit (k + 1) (if fills raw then some k else last) sizes j h) [
      | inl e ↦ elim (Bool-cases (fills raw)) [
        | inl f ↦ inr (0, (chosen raw k j last f e ∙ omega arith, ground arith))
        | inr f ↦ inl (passed_on raw k j last f e)
      ]
      | inr (i, (e, g)) ↦ inr (suc i, (omega arith, g))
    ]

sum-add_to_first :
    (slack x : ℕ) (xs : List ℕ)
    → x + slack < u64_max
    → sum (add_to_first slack (x ∷ xs)) ≡ slack + sum (x ∷ xs)
unfolding add_to_first sum saturating_add
sum-add_to_first slack x xs h = omega arith

pub sum-padded : (n : ℕ) (xs : List ℕ) → length xs ≤ n → sum (padded n xs) ≡ sum xs
unfolding padded sum
sum-padded zero [] h = refl
sum-padded zero (x ∷ xs) h = absurd (omega arith)
sum-padded (suc n) [] h = omega (arith, sum-padded n [] (omega arith))
sum-padded (suc n) (x ∷ xs) h = omega (arith, sum-padded n xs (omega arith))

slack_sum :
    (capacity total x : ℕ) (xs : List ℕ)
    → capacity < u64_max
    → total ≡ sum (x ∷ xs)
    → total ≤ capacity
    → sum (if ltb total capacity then add_to_first (capacity - total) (x ∷ xs) else x ∷ xs)
      ≡ capacity
slack_sum capacity total x xs c e l = elim (Bool-cases (ltb total capacity)) [
  | inl b ↦
      let part : x ≤ sum (x ∷ xs) = unfold sum in omega arith in
      rw b (sum-add_to_first (capacity - total) x xs (ground arith) ∙ ground arith)
  | inr b ↦ rw b (ground arith)
]

filled_sum :
    (capacity total : ℕ) (idx : Option ℕ) (bytes result : List ℕ)
    → capacity < u64_max
    → total ≡ sized_total 0 bytes
    → ((i : ℕ) → idx ≡ some i → get_elem? bytes i ≡ some 0)
    → 0 < length bytes
    → fill_up capacity total idx bytes ≡ ok result
    → sum result ≡ capacity
unfolding fill_up
filled_sum capacity total (some i) bytes result c e z n h =
    let (u, (less, h1)) = and_then_inv (ensure (ltb total capacity) tt) _ result h in
    let below = ensure_inv (ltb total capacity) tt u less in
    let made =
      ok_injective (set_at i (capacity - total) bytes) result
        (ok (set_at i (capacity - total) bytes)) refl h1 in
    let exact = sized_total_exact 0 bytes in
    ap sum (sym made) ∙ sum-set_at i (capacity - total) bytes (z i refl) ∙ ground arith
filled_sum capacity total none [] result c e z n h = absurd (omega arith)
filled_sum capacity total none (x ∷ xs) result c e z n h =
    let (u, (less, h1)) = and_then_inv (ensure (leb total capacity) tt) _ result h in
    let below = ensure_inv (leb total capacity) tt u less in
    let exact = sized_total_exact 0 (x ∷ xs) in
    let made =
      ok_injective _ result
        (ok (if ltb total capacity then add_to_first (capacity - total) (x ∷ xs) else x ∷ xs)) refl
        h1 in
    ap sum (sym made) ∙ slack_sum capacity total x xs c (e ∙ ground arith) (ground arith)

pub length-sized_bytes :
    (unit : ℕ) (sizes : List ℕ) → length (sized_bytes unit sizes) ≡ length sizes
unfolding sized_bytes
length-sized_bytes unit [] = refl
length-sized_bytes unit (raw ∷ sizes) = omega (arith, length-sized_bytes unit sizes)

no_last : (i j : ℕ) (P : Type 0) → (none ≡ some j) ⊎ P → P
no_last i j P (inl e) = absurd (ground arith)
no_last i j P (inr p) = p

pub sum-unit_layout :
    (capacity units : ℕ) (sizes result : List ℕ)
    → capacity < u64_max
    → 0 < length sizes
    → unit_layout capacity units sizes ≡ ok result
    → sum result ≡ capacity
unfolding unit_layout
sum-unit_layout capacity units sizes result c n h =
    let (unit, (known, h1)) = and_then_inv (ok_or (partition_unit_bytes units) tt) _ result h in
    let bytes = sized_bytes unit sizes in
    filled_sum capacity (sized_total 0 bytes) (fill_index 0 none sizes) bytes result c refl
      (λ j e.
        let (i, (same, g)) = no_last j j _ (fill_index_zero unit 0 none sizes j e) in
        subst (λ m. get_elem? bytes m ≡ some 0) (sym (same ∙ omega arith)) g)
      (omega (arith, length-sized_bytes unit sizes)) h1

pub sum-split_at :
    (capacity percent : ℕ) → percent ≤ 100 → sum (split_at capacity percent) ≡ capacity
unfolding sum saturating_mul
sum-split_at capacity percent h = omega (arith, mul-le-mul_left capacity h)

pub percentage-le : (sizes : List ℕ) → percentage sizes ≤ 100
percentage-le [] = omega arith
percentage-le (p0 ∷ sizes) = ground arith

pub length-take : (n : ℕ) (xs : List ℕ) → length (take n xs) ≡ min n (length xs)
length-take zero xs = omega arith
length-take (suc n) [] = omega arith
length-take (suc n) (x ∷ xs) = omega (arith, length-take n xs)
