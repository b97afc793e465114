-- ===== src/Controller/Claims/Order.antt =====
-- The tie-break of `wins` is a strict total order on sandboxes with different identities.
use kubepark.Prelude.{◌≡◌, ◌≢◌, ◌⊎◌, inl, inr, refl, true, false, [], ◌∷◌, arith}
use kubepark.Prelude.Text.{Text}
use kubepark.Api.Sandbox.{Sandbox}
use kubepark.Controller.Claims.{text_ltb, wins}

pub text_ltb_irrefl : (s : Text) → text_ltb s s ≡ false
unfolding text_ltb
text_ltb_irrefl [] = refl
text_ltb_irrefl (c ∷ s) = ground (arith, text_ltb_irrefl s)

text_ltb_asymm : (s t : Text) → text_ltb s t ≡ true → text_ltb t s ≡ false
unfolding text_ltb
text_ltb_asymm [] [] h = cc
text_ltb_asymm [] (d ∷ t) h = refl
text_ltb_asymm (c ∷ s) [] h = cc
text_ltb_asymm (c ∷ s) (d ∷ t) h = ground (arith, text_ltb_asymm s t)

text_ltb_trans : (s t u : Text) → text_ltb s t ≡ true → text_ltb t u ≡ true → text_ltb s u ≡ true
unfolding text_ltb
text_ltb_trans [] [] u h k = cc
text_ltb_trans [] (d ∷ t) [] h k = cc
text_ltb_trans [] (d ∷ t) (e ∷ u) h k = refl
text_ltb_trans (c ∷ s) [] u h k = cc
text_ltb_trans (c ∷ s) (d ∷ t) [] h k = cc
text_ltb_trans (c ∷ s) (d ∷ t) (e ∷ u) h k = ground (arith, text_ltb_trans s t u)

text_ltb_total : (s t : Text) → text_ltb s t ≡ false → (s ≡ t) ⊎ (text_ltb t s ≡ true)
unfolding text_ltb
text_ltb_total [] [] h = inl refl
text_ltb_total [] (d ∷ t) h = cc
text_ltb_total (c ∷ s) [] h = inr refl
text_ltb_total (c ∷ s) (d ∷ t) h = ground (arith, text_ltb_total s t)

pub wins_asymm : (a b : Sandbox) → wins a b ≡ true → wins b a ≡ false
unfolding wins
wins_asymm a b h = ground (arith, text_ltb_asymm a.meta.uid b.meta.uid)

pub wins_total : (a b : Sandbox) → a.meta.uid ≢ b.meta.uid → wins a b ≡ false → wins b a ≡ true
unfolding wins
wins_total a b ne h = ground (arith, text_ltb_total a.meta.uid b.meta.uid)

pub wins_trans : (a b c : Sandbox) → wins a b ≡ true → wins b c ≡ true → wins a c ≡ true
unfolding wins
wins_trans a b c h k = ground (arith, text_ltb_trans a.meta.uid b.meta.uid c.meta.uid)
