-- ===== src/Prelude/Outcome.antt =====
-- Fallible code: Rust's `Result`, and methods on `&mut self` that may fail. What was written before
-- the error stays written, so the state comes back beside the error too.
use mathlib.Core.Path.{◌≡◌, refl, sym, ap, ◌∙◌}
use native.Mathlib.Omega.{arith}
use mathlib.Core.Bool.{Bool, true, false}
use mathlib.Core.Option.{Option, none, some}

pub data Result {ℓ κ} (E : Type ℓ) (A : Type κ) : Type (ℓ ⊔ κ) where
  ok : A → Result E A
  err : E → Result E A

abbrev pub Exec {ℓ} : Type ℓ → Type ℓ → Type ℓ → Type ℓ
Exec E S A = S → Result E A × S

-- `Option::ok_or`.
abbrev pub ok_or {ℓ κ} : {E : Type ℓ} {A : Type κ} → Option A → E → Result E A
ok_or none e = err e
ok_or (some a) e = ok a

-- `if !b { return Err(e) }`.
abbrev pub ensure {ℓ} : {E : Type ℓ} → Bool → E → Result E (Unit {0})
ensure true e = ok tt
ensure false e = err e

-- `?` on plain results.
abbrev pub and_then {ℓ κ λ'} :
    {E : Type ℓ} {A : Type κ} {B : Type λ'} → Result E A → (A → Result E B) → Result E B
and_then (ok a) f = f a
and_then (err e) f = err e

module _ {E A : Type 0} where
  value_or : A → Result E A → A
  value_or d (ok a) = a
  value_or d (err e) = d

  pub ok_injective : (a b : A) (r : Result E A) → r ≡ ok a → r ≡ ok b → a ≡ b
  unfolding value_or
  ok_injective a b r h h' = ap (value_or a) (sym h ∙ h')

module _ {E A B : Type 0} where
  -- What a chain that succeeds went through.
  pub and_then_inv :
      (r : Result E A) (f : A → Result E B) (b : B)
      → and_then r f ≡ ok b
      → (a : A) × ((r ≡ ok a) × (f a ≡ ok b))
  and_then_inv (ok a) f b h = (a, (refl, h))
  and_then_inv (err e) f b h = absurd (ground arith)

  pub and_then_ok :
      (r : Result E A) (f g : A → Result E B) (b b' : B)
      → and_then r f ≡ ok b
      → ((a : A) → f a ≡ ok b → g a ≡ ok b')
      → and_then r g ≡ ok b'
  and_then_ok (ok a) f g b b' h k = k a h
  and_then_ok (err e) f g b b' h k = absurd (ground arith)

pub ensure_inv : {E : Type 0} (b : Bool) (e : E) (u : Unit {0}) → ensure b e ≡ ok u → b ≡ true
ensure_inv true e u h = refl
ensure_inv false e u h = absurd (ground arith)

module _ {ℓ} {E S A : Type ℓ} where
  unfoldable pub pure : A → Exec E S A
  pure a s = (ok a, s)

  unfoldable pub lift : Result E A → Exec E S A
  lift r s = (r, s)

  unfoldable pub gets : (S → A) → Exec E S A
  gets f s = (ok (f s), s)

module _ {ℓ} {E S : Type ℓ} where
  unfoldable pub modify : (S → S) → Exec E S (Unit {ℓ})
  modify f s = (ok tt, f s)

module _ {ℓ} {E S A B : Type ℓ} where
  abbrev continue : Result E A → (A → Exec E S B) → Exec E S B
  continue (ok a) f s = f a s
  continue (err e) f s = (err e, s)

  infixl 10 ◌>>=◌ ◌>>◌
  -- Opening this opens the actions above too.
  unfoldable pub ◌>>=◌ : Exec E S A → (A → Exec E S B) → Exec E S B
  unfolding pure lift gets modify
  ◌>>=◌ m f s = let (r, s') = m s in continue r f s'

  abbrev pub ◌>>◌ : Exec E S A → Exec E S B → Exec E S B
  m >> n = m >>= λ _. n

  -- After an action that succeeds.
  pub bind_ok :
      (m : Exec E S A) (f : A → Exec E S B) (s s' : S) (a : A)
      → m s ≡ (ok a, s')
      → (m >>= f) s ≡ f a s'
  unfolding ◌>>=◌
  bind_ok m f s s' a h = rw h

  pub bind_err :
      (m : Exec E S A) (f : A → Exec E S B) (s s' : S) (e : E)
      → m s ≡ (err e, s')
      → (m >>= f) s ≡ (err e, s')
  unfolding ◌>>=◌
  bind_err m f s s' e h = rw h
