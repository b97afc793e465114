-- ===== src/Prelude/Effects.antt =====
-- Go functions that change state and may return an error: the state that was reached comes back
-- beside the error too. The errors of the API server are told apart as `apierrors` does.
use mathlib.Core.Bool.{Bool, true, false}
use mathlib.Core.List.{List, [], ◌∷◌}
use kubepark.Prelude.Text.{Text}

pub data Error : Type 0 where
  not_found already_exists : Error
  other : Text → Error

pub data Result (A : Type 0) : Type 0 where
  ok : A → Result A
  err : Error → Result A

abbrev pub Exec : Type 0 → Type 0 → Type 0
Exec S A = S → Result A × S

-- client.IgnoreNotFound, and the test `err != nil && !apierrors.IsNotFound(err)`
abbrev pub dismiss_not_found : Result (Unit {0}) → Result (Unit {0})
dismiss_not_found (err not_found) = ok tt
dismiss_not_found r = r

-- client.IgnoreAlreadyExists, and the test `err != nil && !apierrors.IsAlreadyExists(err)`
abbrev pub dismiss_already_exists : Result (Unit {0}) → Result (Unit {0})
dismiss_already_exists (err already_exists) = ok tt
dismiss_already_exists r = r

module _ {S : Type 0} where
  unfoldable pub ignore_not_found : Exec S Unit → Exec S Unit
  ignore_not_found m s = let (r, s') = m s in (dismiss_not_found r, s')

  unfoldable pub ignore_already_exists : Exec S Unit → Exec S Unit
  ignore_already_exists m s = let (r, s') = m s in (dismiss_already_exists r, s')

  unfoldable pub modify : (S → S) → Exec S Unit
  modify f s = (ok tt, f s)

module _ {S A : Type 0} where
  unfoldable pub pure : A → Exec S A
  pure a s = (ok a, s)

  unfoldable pub raise : Error → Exec S A
  raise e s = (err e, s)

  unfoldable pub gets : (S → A) → Exec S A
  gets f s = (ok (f s), s)

  -- The outcome of a call as a value, for code that looks at the error.
  unfoldable pub attempt : Exec S A → Exec S (Result A)
  attempt m s = let (r, s') = m s in (ok r, s')

module _ {S A B : Type 0} where
  abbrev pub continue : Result A → (A → Exec S B) → Exec S B
  continue (ok a) f s = f a s
  continue (err e) f s = (err e, s)

  infixl 10 ◌>>=◌
  unfoldable pub ◌>>=◌ : Exec S A → (A → Exec S B) → Exec S B
  unfolding pure raise gets attempt modify ignore_not_found ignore_already_exists
  ◌>>=◌ m f s = let (r, s') = m s in continue r f s'

infixl 10 ◌>>◌
abbrev pub ◌>>◌ : {S B : Type 0} → Exec S Unit → Exec S B → Exec S B
m >> k = m >>= λ _. k

-- A loop over a slice that returns at the first error.
unfoldable pub for_each : {S A : Type 0} → List A → (A → Exec S Unit) → Exec S Unit
unfolding ◌>>=◌ pure
for_each [] body = pure tt
for_each (x ∷ xs) body = body x >> for_each xs body

module _ {S A B : Type 0} where
  abbrev pub found_step : Result A → (A → Exec S B) → Exec S B → Exec S B
  found_step (ok a) found missing s = found a s
  found_step (err not_found) found missing s = missing s
  found_step (err e) found missing s = (err e, s)

  -- A Get with a branch for IsNotFound, and a return of any other error.
  unfoldable pub if_found : Exec S A → (A → Exec S B) → Exec S B → Exec S B
  unfolding ◌>>=◌
  if_found m found missing s = let (r, s') = m s in found_step r found missing s'

-- A computation that may fail but changes nothing.
unfoldable pub lift : {S A : Type 0} → Result A → Exec S A
lift r s = (r, s)

-- An `if` statement without an else branch.
abbrev pub when : {S : Type 0} → Bool → Exec S Unit → Exec S Unit
when true m s = m s
when false m s = (ok tt, s)
