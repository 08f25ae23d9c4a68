-- ===== src/Storage/BlkMap/Log/Orders.antt =====
-- Records in another order: data-plane/src/storage/blk_map.rs. A hash map gives its values in any
-- order, and the sort by the start leaves the order of equal starts.
use mathlib.Core.List.{Permᴰ}
use mathlib.Core.List.Permᴰ
use mathlib.Core.Path.{subst}
use holo.Prelude.{
  ℕ, ◌+◌, ◌≤◌, ◌≡◌, refl, ap, ◌∙◌, Bool, none, List, [], ◌∷◌, ◌++◌, find, leb, Bool-cases, inl, inr,
  arith, if◌then◌else◌,
}
use holo.Storage.BlkMap.{BlkMapRecord}
use holo.Storage.BlkMap.Log.{HashOrder, insert_after, sort_into}

-- The documented behaviour of `into_values`: every value once.
pub record IsHashOrder (into_values : HashOrder) : Type 0 where
  pub each_once : (latest : List BlkMapRecord) → Permᴰ (into_values latest) latest

moved : (r : BlkMapRecord) (xs ys : List BlkMapRecord) → Permᴰ (xs ++ r ∷ ys) (r ∷ (xs ++ ys))
moved r xs ys = Permᴰ.middle r xs ys

pub insert_after-Permᴰ :
    (r : BlkMapRecord) (xs : List BlkMapRecord) → Permᴰ (insert_after r xs) (r ∷ xs)
unfolding insert_after
insert_after-Permᴰ r [] = Permᴰ.refl (r ∷ [])
insert_after-Permᴰ r (x ∷ xs) = elim (Bool-cases (leb x.logical_start r.logical_start)) [
  | inl before ↦
      rw before (Permᴰ.trans (Permᴰ.cons refl (insert_after-Permᴰ r xs)) (Permᴰ.swap refl refl))
  | inr behind ↦ rw behind (Permᴰ.refl (r ∷ x ∷ xs))
]

pub sort_into-Permᴰ : (sorted xs : List BlkMapRecord) → Permᴰ (sort_into sorted xs) (sorted ++ xs)
unfolding sort_into
sort_into-Permᴰ sorted [] = Permᴰ.symm (Permᴰ.append-nil sorted)
sort_into-Permᴰ sorted (r ∷ xs) = Permᴰ.trans (sort_into-Permᴰ (insert_after r sorted) xs) (
    Permᴰ.trans (Permᴰ.append_right xs (insert_after-Permᴰ r sorted))
      (Permᴰ.symm (moved r sorted xs)))

-- How many records pass a test.
unfoldable pub count_of : (BlkMapRecord → Bool) → List BlkMapRecord → ℕ
count_of test [] = 0
count_of test (x ∷ xs) = let rest = count_of test xs in if test x then rest + 1 else rest

count_absent :
    (test : BlkMapRecord → Bool) (xs : List BlkMapRecord)
    → count_of test xs ≤ 0
    → find test xs ≡ none
unfolding count_of find
count_absent test [] h = refl
count_absent test (x ∷ xs) h = ground (arith, count_absent test xs, h)

-- Where one record at most passes a test, the order does not matter to who is found.
abbrev SameFound : (BlkMapRecord → Bool) → List BlkMapRecord → List BlkMapRecord → Type 0
SameFound test xs ys =
    (count_of test xs ≡ count_of test ys) × (count_of test xs ≤ 1 → find test xs ≡ find test ys)

more_found :
    (test : BlkMapRecord → Bool) (x : BlkMapRecord) (xs ys : List BlkMapRecord)
    → SameFound test xs ys
    → SameFound test (x ∷ xs) (x ∷ ys)
unfolding count_of find
more_found test x xs ys (n, same) = elim (Bool-cases (test x)) [
  | inl passes ↦ rw passes (ap (λ k. k + 1) n, λ h. refl)
  | inr fails ↦ rw fails (n, same)
]

swap_found :
    (test : BlkMapRecord → Bool) (x y : BlkMapRecord) (xs : List BlkMapRecord)
    → SameFound test (x ∷ y ∷ xs) (y ∷ x ∷ xs)
unfolding count_of find
swap_found test x y xs = elim (Bool-cases (test x)) [
  | inl passes ↦ elim (Bool-cases (test y)) [
    | inl both ↦ rw (passes, both) (refl, λ h. absurd (omega (arith, h)))
    | inr fails ↦ rw (passes, fails) (refl, λ h. refl)
  ]
  | inr fails ↦ elim (Bool-cases (test y)) [
    | inl passes ↦ rw (passes, fails) (refl, λ h. refl)
    | inr neither ↦ rw (fails, neither) (refl, λ h. refl)
  ]
]

pub find-Permᴰ :
    (test : BlkMapRecord → Bool) {xs ys : List BlkMapRecord} → Permᴰ xs ys → SameFound test xs ys
find-Permᴰ test Permᴰ.nil = (refl, λ h. refl)
find-Permᴰ test (Permᴰ.cons {a} {b} {l₁} {l₂} e p) =
    subst (λ y. SameFound test (a ∷ l₁) (y ∷ l₂)) e (more_found test a l₁ l₂ (find-Permᴰ test p))
find-Permᴰ test (Permᴰ.swap {a} {b} {a'} {b'} {l} e f) =
    subst (λ y. SameFound test (a ∷ b ∷ l) (a' ∷ y ∷ l)) e
      (subst (λ y. SameFound test (a ∷ b ∷ l) (y ∷ a ∷ l)) f (swap_found test a b l))
find-Permᴰ test (Permᴰ.trans p q) =
    let (n, left) = find-Permᴰ test p in
    let (k, right) = find-Permᴰ test q in (n ∙ k, λ h. left h ∙ right (omega (arith, h, n)))

pub joined-Permᴰ :
    (r : BlkMapRecord) (xs m : List BlkMapRecord)
    → Permᴰ xs m
    → Permᴰ (insert_after r xs) (m ++ r ∷ [])
joined-Permᴰ r xs m p =
    Permᴰ.trans (insert_after-Permᴰ r xs)
      (Permᴰ.trans (Permᴰ.cons refl p) (Permᴰ.append_comm (r ∷ []) m))
