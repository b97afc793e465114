-- ===== src/Controller/Claims/Exclusive.antt =====
-- Of the sandboxes that contend for a claim, one may use it.
use mathlib.Core.List.{Memᴰ}
use mathlib.Core.Path.{subst}
use kubepark.Prelude.{
  ◌≡◌, ◌≢◌, sym, ap, ◌∙◌, inl, inr, refl, Bool-cases, true, false, List, [], ◌∷◌, arith,
  if◌then◌else◌,
}
use kubepark.Prelude.Text.{eq_iff, Text-discrete}
use kubepark.Prelude.All.{All}
use kubepark.Api.Meta.{is_deleting}
use kubepark.Api.Sandbox.{Sandbox}
use kubepark.Controller.Claims.{first_winner, wins, gave_up}
use kubepark.Controller.Claims.Order.{wins_asymm, wins_total, wins_trans}

-- A sandbox that is neither deleted nor given up by its owner; the API server gives it a name.
pub record Contends (m : Sandbox) : Type 0 where
  pub named : m.meta.name ≢ []
  pub kept : is_deleting m.meta ≡ false
  pub wanted : gave_up m.spec.desired_state m.status.phase ≡ false

first_winner_blocked :
    (a b : Sandbox) (l : List Sandbox)
    → Memᴰ b l
    → All Contends l
    → a.meta.uid ≢ b.meta.uid
    → wins b a ≡ true
    → first_winner a l ≢ []
unfolding first_winner
first_winner_blocked a b [] m d ne w = elim m [ ]
first_winner_blocked a b (x ∷ l) (Memᴰ.head e) (d, ds) ne w =
    let other : (x.meta.uid ≡ a.meta.uid) → ⊥ = λ p. ne (sym p ∙ ap (λ s. s.meta.uid) (sym e)) in
    let beats : wins x a ≡ true = subst (λ s. wins s a ≡ true) e w in
    ground (arith, eq_iff x.meta.uid a.meta.uid, d.named, d.kept, d.wanted)
first_winner_blocked a b (x ∷ l) (Memᴰ.tail m) (d, ds) ne w =
    ground (arith, first_winner_blocked a b l m ds ne w, d.named)

first_winner_free :
    (a : Sandbox) (l : List Sandbox) → All (λ m. wins m a ≡ false) l → first_winner a l ≡ []
unfolding first_winner
first_winner_free a [] h = refl
first_winner_free a (x ∷ l) (e, hs) = ground (arith, first_winner_free a l hs)

-- Among sandboxes that contend for a claim, two that both meet no conflict in the whole list have
-- the same UID.
pub holder_unique :
    (a b : Sandbox) (l : List Sandbox)
    → All Contends l
    → Memᴰ a l
    → Memᴰ b l
    → first_winner a l ≡ []
    → first_winner b l ≡ []
    → a.meta.uid ≡ b.meta.uid
holder_unique a b l contending ma mb fa fb = elim (Text-discrete a.meta.uid b.meta.uid) [
  | yes same ↦ same
  | no other ↦ elim (Bool-cases (wins a b)) [
    | inl w ↦ absurd (first_winner_blocked b a l ma contending (λ e. other (sym e)) w fb)
    | inr w ↦ absurd (first_winner_blocked a b l mb contending other (wins_total a b other w) fa)
  ]
]

-- The sandbox that loses to no other of the list.
oldest : Sandbox → List Sandbox → Sandbox
oldest x [] = x
oldest x (y ∷ ys) = oldest (if wins y x then y else x) ys

oldest_keeps : (m x : Sandbox) (ys : List Sandbox) → wins m x ≡ false → wins m (oldest x ys) ≡ false
unfolding oldest
oldest_keeps m x [] h = h
oldest_keeps m x (y ∷ ys) h = elim (Bool-cases (wins y x)) [
  | inl w ↦ rw w (oldest_keeps m y ys (ground (arith, wins_trans m y x)))
  | inr w ↦ rw w (oldest_keeps m x ys h)
]

wins_irrefl : (x : Sandbox) → wins x x ≡ false
wins_irrefl x = ground (arith, wins_asymm x x)

loses_to_better : (x y : Sandbox) → wins y (if wins y x then y else x) ≡ false
loses_to_better x y = ground (arith, wins_irrefl y)

oldest_unbeaten : (x : Sandbox) (ys : List Sandbox) → All (λ m. wins m (oldest x ys) ≡ false) ys
unfolding oldest
oldest_unbeaten x [] = tt
oldest_unbeaten x (y ∷ ys) =
    let better = if wins y x then y else x in
    (oldest_keeps y better ys (loses_to_better x y), oldest_unbeaten better ys)

oldest-Memᴰ : (x : Sandbox) (ys : List Sandbox) → Memᴰ (oldest x ys) (x ∷ ys)
unfolding oldest
oldest-Memᴰ x [] = Memᴰ.head refl
oldest-Memᴰ x (y ∷ ys) = elim (Bool-cases (wins y x)) [
  | inl w ↦ rw w (Memᴰ.tail (oldest-Memᴰ y ys))
  | inr w ↦ rw w (skip (oldest-Memᴰ x ys))
]
  where
    skip : {o : Sandbox} → Memᴰ o (x ∷ ys) → Memᴰ o (x ∷ y ∷ ys)
    skip (Memᴰ.head e) = Memᴰ.head e
    skip (Memᴰ.tail m) = Memᴰ.tail (Memᴰ.tail m)

-- In a list of sandboxes that is not empty, some member meets no conflict in the list.
pub holder_exists :
    (x : Sandbox) (ys : List Sandbox)
    → (o : Sandbox) × Memᴰ o (x ∷ ys) × (first_winner o (x ∷ ys) ≡ [])
holder_exists x ys = (
  oldest x ys,
  oldest-Memᴰ x ys,
  first_winner_free (oldest x ys) (x ∷ ys)
      (oldest_keeps x x ys (wins_irrefl x), oldest_unbeaten x ys),
)
