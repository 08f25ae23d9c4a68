-- ===== src/Prelude/OrdMap/Laws.antt =====
-- What a map reads after each operation.
use mathlib.Core.Path.{◌≡◌, refl}
use mathlib.Core.Option.{none, some}
use mathlib.Core.List.{[], ◌∷◌}
use native.Mathlib.Omega.{arith}
use holo.Prelude.Tests.{if◌then◌else◌}
use holo.Prelude.OrdMap.Key.{KeyOrder, keq}
use holo.Prelude.OrdMap.Ops.{Map, get, insert, remove}

module _ {ℓ κ} {K : Type ℓ} {V : Type κ} ⦃o : KeyOrder K⦄ where
  pub get-insert :
      (j k : K) (v : V) (m : Map K V) → get j (insert k v m) ≡ (if keq j k then some v else get j m)
  unfolding get insert
  get-insert j k v [] = refl
  get-insert j k v ((i, w) ∷ m) =
      ground
        (arith, get-insert j k v m, o.eq_of_cmp j i, o.eq_of_cmp j k, o.eq_of_cmp k i, o.cmp_refl i)

  pub get-remove :
      (j k : K) (m : Map K V) → get j (remove k m) ≡ (if keq k j then none else get j m)
  unfolding get remove
  get-remove j k [] = ground arith
  get-remove j k ((i, w) ∷ m) =
      ground
        (arith, get-remove j k m, o.eq_of_cmp j i, o.eq_of_cmp k i, o.eq_of_cmp k j, o.cmp_refl i)
