-- ===== src/Prelude/Keeps.antt =====
-- Invariants of effectful code, with one rule for each way to build it.
use kubepark.Prelude.Effects.{
  Error, Result, ok, err, not_found, already_exists, other, Exec, pure, raise, gets, lift, attempt,
  ignore_not_found, ignore_already_exists, when, if_found, for_each, ◌>>=◌, continue, found_step,
}
use mathlib.Core.Path.{◌≡◌, refl}
use mathlib.Core.Bool.{Bool, true, false}
use mathlib.Core.List.{List, [], ◌∷◌}
use kubepark.Prelude.Tests.{if◌then◌else◌}
use kubepark.Prelude.All.{All}

-- `m` keeps `P`, whether it returns or fails.
pub record Keeps {S A : Type 0} (P : S → Type 0) (m : Exec S A) : Type 0 where
  pub at : (s : S) → P s → P (m s).1

module _ {S : Type 0} (P : S → Type 0) where
  -- Code that leaves the state as it is.
  pub Keeps-gets : {A : Type 0} (read : S → A) → Keeps P (gets read)
  unfolding gets
  Keeps-gets read = record { at = λ state kept. kept }

  pub Keeps-lift : {A : Type 0} (outcome : Result A) → Keeps P (lift outcome)
  unfolding lift
  Keeps-lift outcome = record { at = λ state kept. kept }

  pub Keeps-pure : {A : Type 0} (value : A) → Keeps P (pure value)
  unfolding pure
  Keeps-pure value = record { at = λ state kept. kept }

  pub Keeps-raise : {A : Type 0} (error : Error) → Keeps P (raise {A = A} error)
  unfolding raise
  Keeps-raise error = record { at = λ state kept. kept }

module _ {S A : Type 0} {P : S → Type 0} where
  pub Keeps-attempt : {m : Exec S A} → Keeps P m → Keeps P (attempt m)
  unfolding attempt
  Keeps-attempt k = record { at = λ s h. k.at s h }

module _ {S : Type 0} {P : S → Type 0} where
  pub Keeps-ignore_not_found : {m : Exec S Unit} → Keeps P m → Keeps P (ignore_not_found m)
  unfolding ignore_not_found
  Keeps-ignore_not_found k = record { at = λ s h. k.at s h }

  pub Keeps-ignore_already_exists :
      {m : Exec S Unit} → Keeps P m → Keeps P (ignore_already_exists m)
  unfolding ignore_already_exists
  Keeps-ignore_already_exists k = record { at = λ s h. k.at s h }

  pub Keeps-when : (b : Bool) {m : Exec S Unit} → (b ≡ true → Keeps P m) → Keeps P (when b m)
  Keeps-when true k = record { at = (k refl).at }
  Keeps-when false k = record { at = λ s h. h }

module _ {S A B : Type 0} {P : S → Type 0} where
  continue-Keeps :
      (f : A → Exec S B) (r : Result A) (s : S)
      → ((a : A) → Keeps P (f a))
      → P s
      → P (continue r f s).1
  continue-Keeps f (ok a) s k h = (k a).at s h
  continue-Keeps f (err e) s k h = h

  pub Keeps-bind :
      {m : Exec S A} {f : A → Exec S B} → Keeps P m → ((a : A) → Keeps P (f a)) → Keeps P (m >>= f)
  unfolding ◌>>=◌
  Keeps-bind {m} {f} k kf = record { at = λ s h. continue-Keeps f (m s).0 (m s).1 kf (k.at s h) }

module _ {S A B : Type 0} {P : S → Type 0} where
  found_step-Keeps :
      (f : A → Exec S B) (n : Exec S B) (r : Result A) (s : S)
      → ((a : A) → Keeps P (f a))
      → Keeps P n
      → P s
      → P (found_step r f n s).1
  found_step-Keeps f n (ok a) s kf kn h = (kf a).at s h
  found_step-Keeps f n (err not_found) s kf kn h = kn.at s h
  found_step-Keeps f n (err already_exists) s kf kn h = h
  found_step-Keeps f n (err (other t)) s kf kn h = h

  pub Keeps-if_found :
      {m : Exec S A} {f : A → Exec S B} {n : Exec S B}
      → Keeps P m
      → ((a : A) → Keeps P (f a))
      → Keeps P n
      → Keeps P (if_found m f n)
  unfolding if_found
  Keeps-if_found {m} {f} {n} k kf kn = record {
    at = λ s h. found_step-Keeps f n (m s).0 (m s).1 kf kn (k.at s h);
  }

module _ {S A : Type 0} {P : S → Type 0} where
  pub Keeps-if :
      (test : Bool) (one other_one : Exec S A)
      → (test ≡ true → Keeps P one)
      → (test ≡ false → Keeps P other_one)
      → Keeps P (if test then one else other_one)
  Keeps-if false one other_one _ k = k refl
  Keeps-if true one other_one k _ = k refl

  pub Keeps-for_each :
      (xs : List A) (f : A → Exec S Unit) → All (λ a. Keeps P (f a)) xs → Keeps P (for_each xs f)
  unfolding for_each
  Keeps-for_each [] f h = Keeps-pure P tt
  Keeps-for_each (x ∷ xs) f (h, hs) = Keeps-bind h (λ _. Keeps-for_each xs f hs)

pub ruleset keeps_rules = (
  Keeps-pure, Keeps-raise, Keeps-gets, Keeps-lift, Keeps-attempt, Keeps-ignore_not_found,
  Keeps-ignore_already_exists, Keeps-when, Keeps-bind, Keeps-if_found, Keeps-if,
)
