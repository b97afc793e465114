-- ===== src/Prelude/Returns.antt =====
-- What a chain that returns without an error has passed through.
use kubepark.Prelude.Effects.{Result, ok, err, Exec, ◌>>=◌, continue}
use mathlib.Core.Path.{◌≡◌, refl, ap}

module _ {S A B : Type 0} where
  continue_ok :
      (f : A → Exec S B) (b : B) (r : Result A) (s : S)
      → (continue r f s).0 ≡ ok b
      → (a : A) × (r ≡ ok a) × ((f a s).0 ≡ ok b)
  continue_ok f b (ok a) s h = (a, refl, h)
  continue_ok f b (err e) s h = cc

  pub bind_ok :
      (m : Exec S A) (f : A → Exec S B) (s : S) (b : B)
      → ((m >>= f) s).0 ≡ ok b
      → (a : A) × (s' : S) × (m s ≡ (ok a, s')) × ((f a s').0 ≡ ok b)
  unfolding ◌>>=◌
  bind_ok m f s b h =
      let (a, returned, rest) = continue_ok f b (m s).0 (m s).1 h in
      (a, (m s).1, (λ i. (returned i, (m s).1)), rest)

  continue_returns :
      (f : A → Exec S B) (b : B) (t : S) (r : Result A) (s : S)
      → continue r f s ≡ (ok b, t)
      → (a : A) × (r ≡ ok a) × (f a s ≡ (ok b, t))
  continue_returns f b t (ok a) s h = (a, refl, h)
  continue_returns f b t (err e) s h = let failed = ap (λ (x : Result B × S). x.0) h in cc

  -- The same, with the state in which it ends.
  pub bind_returns :
      (m : Exec S A) (f : A → Exec S B) (s t : S) (b : B)
      → (m >>= f) s ≡ (ok b, t)
      → (a : A) × (s' : S) × (m s ≡ (ok a, s')) × (f a s' ≡ (ok b, t))
  unfolding ◌>>=◌
  bind_returns m f s t b h =
      let (a, returned, rest) = continue_returns f b t (m s).0 (m s).1 h in
      (a, (m s).1, (λ i. (returned i, (m s).1)), rest)
