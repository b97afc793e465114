-- ===== src/Cli/Address.antt =====
-- cmd/kubepark/ssh.go: the gateway's address, and the name of the target.
pub mod Split
pub mod Target
use kubepark.Prelude.{
  ℕ, zero, suc, Bool, false, Option, none, some, [], ◌∷◌, ◌++◌, eqb, if◌then◌else◌,
}
use kubepark.Prelude.Text.{Text, codes, length}

unfoldable pub get_elem? : Text → ℕ → Option ℕ
get_elem? [] i = none
get_elem? (c ∷ s) zero = some c
get_elem? (c ∷ s) (suc i) = get_elem? s i

unfoldable pub take : ℕ → Text → Text
take zero s = []
take (suc n) [] = []
take (suc n) (c ∷ s) = c ∷ take n s

unfoldable pub drop : ℕ → Text → Text
drop zero s = s
drop (suc n) [] = []
drop (suc n) (c ∷ s) = drop n s

abbrev pub is_colon : Option ℕ → Bool
is_colon none = false
is_colon (some c) = eqb c 58

-- The loop from index i - 1 down to 0.
unfoldable pub split_below : ℕ → Text → Option (Text × Text)
unfolding get_elem? take drop
split_below zero addr = none
split_below (suc i) addr =
    let rest = split_below i addr in
    if is_colon (get_elem? addr i) then some (take i addr, drop (suc i) addr) else rest

abbrev or_localhost : Text → Text
or_localhost [] = codes "localhost"
or_localhost (c ∷ cs) = c ∷ cs

abbrev pub with_defaults : Text → Option (Text × Text) → Text × Text
with_defaults addr none = (or_localhost addr, codes "2222")
with_defaults addr (some (host, port)) = (or_localhost host, port)

unfoldable pub split_host_port : Text → Text × Text
unfolding split_below
split_host_port addr = with_defaults addr (split_below (length addr) addr)

-- The argument of `kubepark ssh`, with the namespace of its flag.
abbrev pub ssh_target : Text → Text → Text
ssh_target name [] = name
ssh_target name (c ∷ cs) = name ++ (codes "." ++ (c ∷ cs))
