-- ===== src/Prelude/OrdMap/Sorted.antt =====
-- Ascending keys, as the type `BTreeMap` has them.
use Prim.Native.Nat.Ordering.{lt}
use mathlib.Core.Path.{◌≡◌, refl}
use mathlib.Core.Bool.{Bool}
use mathlib.Core.Option.{Option, none, some}
use mathlib.Core.List.{[], ◌∷◌}
use native.Mathlib.Omega.{arith}
use holo.Prelude.Tests.{if◌then◌else◌}
use holo.Prelude.OrdMap.Key.{KeyOrder}
use holo.Prelude.OrdMap.Ops.{Map, get, insert, remove, retain}

abbrev pub keep_if {ℓ} : {V : Type ℓ} → (V → Bool) → Option V → Option V
keep_if p none = none
keep_if p (some v) = if p v then some v else none

module _ {ℓ κ} {K : Type ℓ} {V : Type κ} ⦃o : KeyOrder K⦄ where
  abbrev pub Above : K → Map K V → Type 0
  Above k [] = Unit {0}
  Above k ((j, w) ∷ m) = (o.cmp k j ≡ lt) × Above k m

  abbrev pub IsSorted : Map K V → Type 0
  IsSorted [] = Unit {0}
  IsSorted ((j, w) ∷ m) = Above j m × IsSorted m

  pub Above-trans : (i k : K) (m : Map K V) → o.cmp i k ≡ lt → Above k m → Above i m
  Above-trans i k [] h a = tt
  Above-trans i k ((j, w) ∷ m) h a = (o.lt_trans i k j h a.0, Above-trans i k m h a.1)

  insert-Above :
      (i k : K) (v : V) (m : Map K V) → o.cmp i k ≡ lt → Above i m → Above i (insert k v m)
  unfolding insert
  insert-Above i k v [] h a = (h, tt)
  insert-Above i k v ((j, w) ∷ m) h a = ground (arith, insert-Above i k v m h a.1)

  pub insert-IsSorted : (k : K) (v : V) (m : Map K V) → IsSorted m → IsSorted (insert k v m)
  unfolding insert
  insert-IsSorted k v [] h = (tt, tt)
  insert-IsSorted k v ((j, w) ∷ m) h = ground (
    arith,
    insert-IsSorted k v m h.1,
    insert-Above j k v m,
    Above-trans k j m,
    o.eq_of_cmp k j,
    o.lt_of_gt k j,
  )

  remove-Above : (i k : K) (m : Map K V) → Above i m → Above i (remove k m)
  unfolding remove
  remove-Above i k [] a = tt
  remove-Above i k ((j, w) ∷ m) a = ground (arith, remove-Above i k m a.1)

  pub remove-IsSorted : (k : K) (m : Map K V) → IsSorted m → IsSorted (remove k m)
  unfolding remove
  remove-IsSorted k [] h = tt
  remove-IsSorted k ((j, w) ∷ m) h = ground (arith, remove-IsSorted k m h.1, remove-Above j k m h.0)

  retain-Above : (i : K) (p : K → V → Bool) (m : Map K V) → Above i m → Above i (retain p m)
  unfolding retain
  retain-Above i p [] a = tt
  retain-Above i p ((j, w) ∷ m) a = ground (arith, retain-Above i p m a.1)

  pub retain-IsSorted : (p : K → V → Bool) (m : Map K V) → IsSorted m → IsSorted (retain p m)
  unfolding retain
  retain-IsSorted p [] h = tt
  retain-IsSorted p ((j, w) ∷ m) h = ground (arith, retain-IsSorted p m h.1, retain-Above j p m h.0)

  pub get-Above : (k : K) (m : Map K V) → Above k m → get k m ≡ none
  unfolding get
  get-Above k [] a = refl
  get-Above k ((j, w) ∷ m) a = ground (arith, get-Above k m a.1)

  pub get-retain :
      (k : K) (p : K → V → Bool) (m : Map K V)
      → IsSorted m
      → get k (retain p m) ≡ keep_if (p k) (get k m)
  unfolding get retain
  get-retain k p [] h = refl
  get-retain k p ((j, w) ∷ m) h = ground (
    arith,
    get-retain k p m h.1,
    o.eq_of_cmp k j,
    get-Above j (retain p m) (retain-Above j p m h.0),
  )
