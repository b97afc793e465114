-- ===== src/Gateway/SshTarget/RoundTrip.antt =====
-- What parse_ssh_target accepts.
use kubepark.Prelude.{
  ◌≡◌, ◌≢◌, refl, subst, ◌⊎◌, inl, inr, Option, none, some, [], ◌∷◌, ◌++◌, ok, arith,
}
use kubepark.Prelude.Text.{Text, codes, cut, trim_space}
use kubepark.Prelude.Text.Cut.{cut_sound, cut-first, cut_dot}
use kubepark.Gateway.SshTarget.{SshTarget, parse_ssh_target, parse_trimmed, target_of}

module _ (host d : Text) (t : SshTarget) where
  -- The trimmed host names the target: with its namespace after the first dot, or alone, when
  -- the default namespace is taken.
  pub Denotes : Type 0
  Denotes =
      ((host ≡ t.sandbox ++ (codes "." ++ t.namespace)) × (cut (codes ".") t.sandbox ≡ none))
      ⊎ ((host ≡ t.sandbox) × (cut (codes ".") host ≡ none) × (t.namespace ≡ d))

  target_of-Denotes :
      (o : Option (Text × Text))
      → target_of host d o ≡ ok t
      → cut (codes ".") host ≡ o
      → host ≢ []
      → Denotes × (t.sandbox ≢ []) × (t.namespace ≢ [])
  unfolding Denotes
  target_of-Denotes none h e ne = bare d refl
    where
      bare : (d' : Text) → d ≡ d' → Denotes × (t.sandbox ≢ []) × (t.namespace ≢ [])
      bare [] p = cc
      bare (c ∷ cs) p = (inr (ground arith, e, ground arith), ground arith, ground arith)
  target_of-Denotes (some ([], b)) h e ne = cc
  target_of-Denotes (some (c ∷ cs, [])) h e ne = cc
  target_of-Denotes (some (c ∷ cs, x ∷ b)) h e ne =
      let a_is : c ∷ cs ≡ t.sandbox = ground arith in
      let b_is : x ∷ b ≡ t.namespace = ground arith in
      let named : host ≡ t.sandbox ++ (codes "." ++ t.namespace) =
        subst (λ (y : Text). host ≡ y ++ (codes "." ++ t.namespace)) a_is
          (subst (λ (y : Text). host ≡ (c ∷ cs) ++ (codes "." ++ y)) b_is (cut_sound _ _ _ _ e)) in
      let first : cut (codes ".") t.sandbox ≡ none =
        subst (λ (y : Text). cut (codes ".") y ≡ none) a_is (cut-first _ _ _ _ e) in
      (inl (named, first), ground arith, ground arith)

-- A target that is accepted has a sandbox and a namespace, and the host, trimmed, is the two
-- with a dot between them, the sandbox without one, or it is the sandbox alone, without a dot,
-- and the namespace is the default.
pub parse_ssh_target-Denotes :
    (host default_namespace : Text) (t : SshTarget)
    → parse_ssh_target host default_namespace ≡ ok t
    → Denotes (trim_space host) default_namespace t × (t.sandbox ≢ []) × (t.namespace ≢ [])
unfolding parse_ssh_target
parse_ssh_target-Denotes host d t h = by_trimmed (trim_space host) h
  where
    by_trimmed :
        (s : Text)
        → parse_trimmed s d ≡ ok t
        → Denotes s d t × (t.sandbox ≢ []) × (t.namespace ≢ [])
    by_trimmed [] h = cc
    by_trimmed (c ∷ cs) h =
        target_of-Denotes (c ∷ cs) d t (cut (codes ".") (c ∷ cs)) h refl (λ p. cc)

-- A sandbox and a namespace that are not empty are read back from the host that joins them with
-- a dot, when the sandbox has no dot and trimming leaves the host as it is.
pub parse_ssh_target-join :
    (default_namespace : Text) (t : SshTarget)
    → t.sandbox ≢ []
    → t.namespace ≢ []
    → cut (codes ".") t.sandbox ≡ none
    → trim_space (t.sandbox ++ (codes "." ++ t.namespace)) ≡ t.sandbox ++ (codes "." ++ t.namespace)
    → parse_ssh_target (t.sandbox ++ (codes "." ++ t.namespace)) default_namespace ≡ ok t
unfolding parse_ssh_target
parse_ssh_target-join d t sandbox_ne namespace_ne no_dot trimmed =
    rw trimmed (by_parts t.sandbox t.namespace sandbox_ne namespace_ne no_dot)
  where
    by_parts :
        (a b : Text)
        → a ≢ []
        → b ≢ []
        → cut (codes ".") a ≡ none
        → parse_trimmed (a ++ (codes "." ++ b)) d ≡ ok (record { sandbox = a; namespace = b })
    by_parts [] b na nb e = absurd (na refl)
    by_parts (c ∷ cs) [] na nb e = absurd (nb refl)
    by_parts (c ∷ cs) (x ∷ xs) na nb e = rw (cut_dot (c ∷ cs) (x ∷ xs) e)

-- A name without a dot is read as itself, in the default namespace.
pub parse_ssh_target-bare :
    (name default_namespace : Text)
    → name ≢ []
    → default_namespace ≢ []
    → cut (codes ".") name ≡ none
    → trim_space name ≡ name
    → parse_ssh_target name default_namespace
      ≡ ok (record { sandbox = name; namespace = default_namespace })
unfolding parse_ssh_target
parse_ssh_target-bare name d named given no_dot trimmed =
    rw trimmed (by_parts name d named given no_dot)
  where
    by_parts :
        (a b : Text)
        → a ≢ []
        → b ≢ []
        → cut (codes ".") a ≡ none
        → parse_trimmed a b ≡ ok (record { sandbox = a; namespace = b })
    by_parts [] b na nb e = absurd (na refl)
    by_parts (c ∷ cs) [] na nb e = absurd (nb refl)
    by_parts (c ∷ cs) (x ∷ xs) na nb e = rw e refl
