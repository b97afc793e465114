-- ===== src/Prelude/Text/Cut.antt =====
-- The laws of prefixes, suffixes and strings.Cut.
use Prim.Native.Nat.{ℕ}
use mathlib.Core.Path.{◌≡◌, refl, sym, ap, ◌∙◌, ap₂, subst}
use mathlib.Core.Logic.{◌⊎◌, inl, inr}
use mathlib.Core.Option
use mathlib.Core.Option.{Option, none, some}
use mathlib.Core.List.{[], ◌∷◌, ◌++◌, reverse, reverse-append, reverse-reverse}
use native.Mathlib.Omega.{arith}
use kubepark.Prelude.Text.{Text, codes, cut_prefix, cut_suffix, cut, cut_step}

pub cut_prefix_sound : (p s r : Text) → cut_prefix p s ≡ some r → s ≡ p ++ r
unfolding cut_prefix
cut_prefix_sound [] s r h = ground arith
cut_prefix_sound (c ∷ p) [] r h = cc
cut_prefix_sound (c ∷ p) (d ∷ s) r h = ground (arith, cut_prefix_sound p s r)

pub cut_prefix-append : (p r : Text) → cut_prefix p (p ++ r) ≡ some r
unfolding cut_prefix
cut_prefix-append [] r = refl
cut_prefix-append (c ∷ p) r = ground (arith, cut_prefix-append p r)

pub cut_suffix-append : (s suffix : Text) → cut_suffix suffix (s ++ suffix) ≡ some s
unfolding cut_suffix
cut_suffix-append s suffix =
    rw (reverse-append s suffix, cut_prefix-append (reverse suffix) (reverse s), reverse-reverse)

pub cut_suffix_sound : (s suffix r : Text) → cut_suffix suffix s ≡ some r → s ≡ r ++ suffix
unfolding cut_suffix
cut_suffix_sound s suffix r h =
    let (found, matched, same) = (Option.map-eq-some_iff _ _).0 h in
    let flipped : reverse s ≡ reverse suffix ++ found = cut_prefix_sound _ _ _ matched in
    sym (reverse-reverse s)
    ∙ ap reverse flipped
    ∙ reverse-append (reverse suffix) found
    ∙ ap₂ (λ (a b : Text). a ++ b) same (reverse-reverse suffix)

-- A prefix of a text is a prefix of every longer one.
cut_prefix-none_of_append : (p s t : Text) → cut_prefix p (s ++ t) ≡ none → cut_prefix p s ≡ none
unfolding cut_prefix
cut_prefix-none_of_append [] s t h = cc
cut_prefix-none_of_append (c ∷ p) [] t h = refl
cut_prefix-none_of_append (c ∷ p) (d ∷ s) t h = ground (arith, cut_prefix-none_of_append p s t)

-- What one step of `cut` has found.
CutStep : ℕ → Option Text → Option (Text × Text) → Text → Text → Type 0
CutStep c here later a b =
    ((a ≡ []) × (here ≡ some b))
    ⊎ ((before : Text) × (here ≡ none) × (a ≡ c ∷ before) × (later ≡ some (before, b)))

cut_step-CutStep :
    (c : ℕ) (here : Option Text) (later : Option (Text × Text)) (a b : Text)
    → cut_step c here later ≡ some (a, b)
    → CutStep c here later a b
unfolding CutStep
cut_step-CutStep c (some r) later a b h = ground arith
cut_step-CutStep c none none a b h = cc
cut_step-CutStep c none (some (x, y)) a b h = inr (x, refl, ground arith, ground arith)

cut-CutStep :
    (sep : Text) (c : ℕ) (s a b : Text)
    → cut sep (c ∷ s) ≡ some (a, b)
    → CutStep c (cut_prefix sep (c ∷ s)) (cut sep s) a b
unfolding cut
cut-CutStep sep c s a b h = cut_step-CutStep c _ _ a b h

pub cut_sound : (sep s a b : Text) → cut sep s ≡ some (a, b) → s ≡ a ++ (sep ++ b)
cut_sound sep [] a b h = unfold cut in cc
cut_sound sep (c ∷ s) a b h =
    by_step (cut_sound sep s) (unfold CutStep in cut-CutStep sep c s a b h)
  where
    by_step :
        ((x y : Text) → cut sep s ≡ some (x, y) → s ≡ x ++ (sep ++ y))
        → ((a ≡ []) × (cut_prefix sep (c ∷ s) ≡ some b))
          ⊎ ((before : Text) × (cut_prefix sep (c ∷ s) ≡ none)
              × (a ≡ c ∷ before)
              × (cut sep s ≡ some (before, b)))
        → c ∷ s ≡ a ++ (sep ++ b)
    by_step _ (inl (e, here)) = rw e (cut_prefix_sound sep (c ∷ s) b here)
    by_step rest (inr (before, missed, e, later)) =
        rw e (ap (λ (t : Text). c ∷ t) (rest before b later))

pub cut-first : (sep s a b : Text) → cut sep s ≡ some (a, b) → cut sep a ≡ none
cut-first sep [] a b h = unfold cut in cc
cut-first sep (c ∷ s) a b h =
    by_step (cut-first sep s) (unfold CutStep in cut-CutStep sep c s a b h)
  where
    by_step :
        ((x y : Text) → cut sep s ≡ some (x, y) → cut sep x ≡ none)
        → ((a ≡ []) × (cut_prefix sep (c ∷ s) ≡ some b))
          ⊎ ((before : Text) × (cut_prefix sep (c ∷ s) ≡ none)
              × (a ≡ c ∷ before)
              × (cut sep s ≡ some (before, b)))
        → cut sep a ≡ none
    by_step _ (inl (e, here)) = rw e (unfold cut in refl)
    by_step first (inr (before, missed, e, later)) =
        let rest : cut sep before ≡ none = first before b later in
        let parts : s ≡ before ++ (sep ++ b) = cut_sound sep s before b later in
        let missed' : cut_prefix sep (c ∷ before) ≡ none =
          cut_prefix-none_of_append sep (c ∷ before) (sep ++ b)
            (subst (λ (t : Text). cut_prefix sep (c ∷ t) ≡ none) parts missed) in
        rw e (unfold cut in rw (missed', rest))

pub cut_dot :
    (a b : Text) → cut (codes ".") a ≡ none → cut (codes ".") (a ++ (codes "." ++ b)) ≡ some (a, b)
unfolding cut cut_prefix
cut_dot [] b h = refl
cut_dot (c ∷ []) b h = ground arith
cut_dot (c ∷ d ∷ a) b h = ground (arith, cut_dot (d ∷ a) b)

pub cut_dashes :
    (a b : Text)
    → cut (codes "--") (a ++ codes "-") ≡ none
    → cut (codes "--") (a ++ (codes "--" ++ b)) ≡ some (a, b)
unfolding cut cut_prefix
cut_dashes [] b h = refl
cut_dashes (c ∷ []) b h = ground arith
cut_dashes (c ∷ d ∷ a) b h = ground (arith, cut_dashes (d ∷ a) b)
