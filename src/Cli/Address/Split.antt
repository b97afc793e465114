-- ===== src/Cli/Address/Split.antt =====
-- The loop from the end finds what a pass from the front finds: the last colon.
use kubepark.Prelude.{
  ℕ, zero, suc, ◌≡◌, refl, ap, ◌∙◌, Option, none, some, [], ◌∷◌, eqb, if◌then◌else◌, arith,
}
use kubepark.Prelude.Text.{Text, length}
use kubepark.Cli.Address.{get_elem?, take, drop, split_below, with_defaults, split_host_port}

-- The split of c ∷ s, from the split of s.
abbrev pub prefer_later : ℕ → Text → Option (Text × Text) → Option (Text × Text)
prefer_later c s (some (before, after)) = some (c ∷ before, after)
prefer_later c s none = if eqb c 58 then some ([], s) else none

-- The texts around the last colon.
unfoldable pub cut_last : Text → Option (Text × Text)
cut_last [] = none
cut_last (c ∷ s) = prefer_later c s (cut_last s)

split_below-cons :
    (n c : ℕ) (s : Text) → split_below (suc n) (c ∷ s) ≡ prefer_later c s (split_below n s)
unfolding split_below get_elem? take drop
split_below-cons zero c s = ground arith
split_below-cons (suc n) c s = ground (arith, split_below-cons n c s)

split_below-cut_last : (s : Text) → split_below (length s) s ≡ cut_last s
unfolding cut_last split_below
split_below-cut_last [] = refl
split_below-cut_last (c ∷ s) =
    split_below-cons (length s) c s ∙ ap (prefer_later c s) (split_below-cut_last s)

-- splitHostPort, which looks for a colon from the end, splits an address where one pass from the
-- front finds the last colon, with the same defaults.
pub split_host_port-cut_last :
    (addr : Text) → split_host_port addr ≡ with_defaults addr (cut_last addr)
unfolding split_host_port
split_host_port-cut_last addr = ap (with_defaults addr) (split_below-cut_last addr)
