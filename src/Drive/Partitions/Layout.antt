-- ===== src/Drive/Partitions/Layout.antt =====
-- What FORMAT MEDIUM leaves: data-plane/src/iscsi/cdb_drive.rs.
use Prim.Native.Nat.{zero, suc}
use mathlib.Core.Path.{subst}
use holo.Prelude.{
  ℕ, ◌+◌, ◌-◌, ◌/◌, ◌%◌, ◌≤◌, ◌<◌, ◌≡◌, refl, sym, ap, ◌∙◌, ltb, leb, ◌==◌, Bool, true, false, not,
  Option, none, some, List, [], ◌∷◌, length, take, arith, if◌then◌else◌, u64_max,
}
use holo.Prelude.Outcome.{ok, err, ensure, ok_or, and_then_inv, ok_injective}
use holo.Drive.Partitions.Sums.{
  sum, sum-padded, length-sized_bytes, sum-unit_layout, sum-split_at, percentage-le, length-take,
}
use holo.Drive.Partitions.{
  validate_partition_definition, whole, keep, format_as, percentage, split_at, Checked,
  PartitionRuntime, sized_bytes, set_at, add_to_first, fill_up, unit_layout, partition_unit_bytes,
  format_sizes, padded, formatted, initialized, apply_format_medium_layout,
}

-- At most four partitions, of the whole capacity.
record IsWhole (capacity : ℕ) (bytes : List ℕ) : Type 0 where
  together : sum bytes ≡ capacity
  few : length bytes ≤ 4

length-set_at : (i x : ℕ) (xs : List ℕ) → length (set_at i x xs) ≡ length xs
unfolding set_at
length-set_at i x [] = refl
length-set_at zero x (y ∷ ys) = refl
length-set_at (suc i) x (y ∷ ys) = omega (arith, length-set_at i x ys)

length-add_to_first : (slack : ℕ) (xs : List ℕ) → length (add_to_first slack xs) ≡ length xs
unfolding add_to_first
length-add_to_first slack [] = refl
length-add_to_first slack (x ∷ xs) = refl

module _ {A P : Type 0} where
  -- What holds of either branch holds of a test.
  either :
      (b : Bool) (x y : Checked A) (a : A)
      → (x ≡ ok a → P)
      → (y ≡ ok a → P)
      → (if b then x else y) ≡ ok a
      → P
  either true x y a f g h = f h
  either false x y a f g h = g h

abbrev done : List ℕ → Checked (List ℕ)
done a = ok a

given : (a b : List ℕ) → done a ≡ ok b → a ≡ b
given a b h = ok_injective a b (done a) refl h

length-fill_up :
    (capacity total : ℕ) (idx : Option ℕ) (bytes result : List ℕ)
    → fill_up capacity total idx bytes ≡ ok result
    → length result ≡ length bytes
unfolding fill_up
length-fill_up capacity total (some i) bytes result h =
    let (u, (less, h1)) = and_then_inv (ensure (ltb total capacity) tt) _ result h in
    ap length (sym (given _ result h1)) ∙ length-set_at i (capacity - total) bytes
length-fill_up capacity total none bytes result h =
    let (u, (less, h1)) = and_then_inv (ensure (leb total capacity) tt) _ result h in
    ap length (sym (given _ result h1))
    ∙ ground (arith, length-add_to_first (capacity - total) bytes)

length-unit_layout :
    (capacity units : ℕ) (sizes result : List ℕ)
    → unit_layout capacity units sizes ≡ ok result
    → length result ≡ length sizes
unfolding unit_layout
length-unit_layout capacity units sizes result h =
    let (unit, (known, h1)) = and_then_inv (ok_or (partition_unit_bytes units) tt) _ result h in
    length-fill_up capacity _ _ (sized_bytes unit sizes) result h1 ∙ length-sized_bytes unit sizes

split-IsWhole :
    (capacity percent : ℕ) (result : List ℕ)
    → percent ≤ 100
    → done (split_at capacity percent) ≡ ok result
    → IsWhole capacity result
split-IsWhole capacity percent result p h =
    let made = sym (given (split_at capacity percent) result h) in
    record {
      together = ap sum made ∙ sum-split_at capacity percent p;
      few = subst (λ l. length l ≤ 4) (sym made) (omega arith);
    }

one-IsWhole :
    (capacity : ℕ) (result : List ℕ) → done (capacity ∷ []) ≡ ok result → IsWhole capacity result
unfolding sum
one-IsWhole capacity result h =
    let made = sym (given (capacity ∷ []) result h) in
    record {
      together = ap sum made ∙ omega arith;
      few = subst (λ l. length l ≤ 4) (sym made) (omega arith);
    }

format_sizes-IsWhole :
    (capacity : ℕ) (r : PartitionRuntime) (result : List ℕ)
    → capacity < u64_max
    → length r.partition_size_units ≡ 4
    → format_sizes capacity r ≡ ok result
    → IsWhole capacity result
unfolding format_sizes
format_sizes-IsWhole capacity r result c n =
    let count = r.addl_partitions_defined + 1 in
    let sizes = take count r.partition_size_units in
    let size = length-take count r.partition_size_units in
    either _ _ _ result (split-IsWhole capacity 95 result (omega arith)) (
      either _ _ _ result
        (λ h. record {
          together =
              sum-unit_layout capacity (r.partition_units % 16) sizes result c (omega arith) h;
          few = omega (arith, length-unit_layout capacity (r.partition_units % 16) sizes result h);
        })
        (either _ _ _ result (one-IsWhole capacity result)
          (split-IsWhole capacity (percentage sizes) result (percentage-le sizes))))

-- A list that holds of the whole medium does so as four entries.
padded-IsWhole :
    (capacity : ℕ) (bytes : List ℕ) → IsWhole capacity bytes → sum (padded 4 bytes) ≡ capacity
padded-IsWhole capacity bytes h = sum-padded 4 bytes h.few ∙ h.together

format_as-whole :
    (capacity max_addl : ℕ) (r r' : PartitionRuntime)
    → capacity < u64_max
    → length r.partition_size_units ≡ 4
    → format_as capacity max_addl r ≡ ok r'
    → sum r'.partition_sizes_bytes ≡ capacity
format_as-whole capacity max_addl r r' c n h =
    let (u, (valid, h1)) =
      and_then_inv
        (validate_partition_definition capacity max_addl (r.partition_units % 16)
          r.addl_partitions_defined r.partition_size_units)
        _ r' h in
    let (u', (mode, h2)) = and_then_inv (ensure (not (r.fdp / 32 % 8 == 0)) tt) _ r' h1 in
    let (bytes, (sizes, h3)) = and_then_inv (format_sizes capacity r) _ r' h2 in
    let addl = if r.fdp / 128 % 2 == 1 then 1 else r.addl_partitions_defined in
    let made = ok_injective (formatted addl r bytes) r' (ok (formatted addl r bytes)) refl h3 in
    let held : sum (formatted addl r bytes).partition_sizes_bytes ≡ capacity =
      unfold formatted in
      padded-IsWhole capacity bytes (format_sizes-IsWhole capacity r bytes c n sizes) in
    subst (λ q. sum q.partition_sizes_bytes ≡ capacity) made held

keep_ok :
    (r : PartitionRuntime) (made : Checked PartitionRuntime) (capacity : ℕ)
    → ((r' : PartitionRuntime) → made ≡ ok r' → sum r'.partition_sizes_bytes ≡ capacity)
    → (keep r made).0 ≡ ok tt
    → sum (keep r made).1.partition_sizes_bytes ≡ capacity
keep_ok r (ok r') capacity f h = f r' refl
keep_ok r (err e) capacity f h = absurd (ground arith)

initialized_sizes :
    (capacity : ℕ) (r : PartitionRuntime)
    → length r.partition_size_units ≡ 4
    → length (initialized capacity r).partition_size_units ≡ 4
unfolding initialized
initialized_sizes capacity r n = ground arith

sum-whole :
    (capacity : ℕ) (r : PartitionRuntime) → sum (whole capacity r).partition_sizes_bytes ≡ capacity
unfolding sum
sum-whole capacity r = omega arith

by_format :
    (b : Bool) (capacity : ℕ) (x y : Checked (Unit {0}) × PartitionRuntime)
    → (x.0 ≡ ok tt → sum x.1.partition_sizes_bytes ≡ capacity)
    → (y.0 ≡ ok tt → sum y.1.partition_sizes_bytes ≡ capacity)
    → (if b then x else y).0 ≡ ok tt
    → sum (if b then x else y).1.partition_sizes_bytes ≡ capacity
by_format true capacity x y f g h = f h
by_format false capacity x y f g h = g h

-- The partitions that a successful FORMAT MEDIUM leaves have together exactly the capacity of the
-- medium, whatever the format, the units, the mode and the sizes of the mode page are, if the
-- capacity is below 2^64 - 1 and the sizes are four.
pub apply_format_medium_layout_full :
    (capacity max_addl format : ℕ) (r : PartitionRuntime)
    → capacity < u64_max
    → length r.partition_size_units ≡ 4
    → (apply_format_medium_layout capacity max_addl format r).0 ≡ ok tt
    → sum (apply_format_medium_layout capacity max_addl format r).1.partition_sizes_bytes ≡ capacity
unfolding apply_format_medium_layout
apply_format_medium_layout_full capacity max_addl format r c n =
    let ready = initialized capacity r in
    by_format (format == 0) capacity _ _ (λ h. sum-whole capacity ready)
      (keep_ok ready (format_as capacity max_addl ready) capacity
        (λ r' h. format_as-whole capacity max_addl ready r' c (initialized_sizes capacity r n) h))
