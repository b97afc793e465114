-- ===== src/Gateway/HttpHost/Sound.antt =====
-- What parse_label accepts.
use kubepark.Prelude.{
  ◌≡◌, ◌≢◌, refl, sym, ◌∙◌, ap, subst, Bool, true, false, Bool-cases, inl, inr, Option, none, some,
  [], ◌∷◌, ◌++◌, ◌≤◌, ltb, arith,
}
use kubepark.Prelude.Text.{Text, codes, cut, cut_suffix, trim_prefix, length, eq_iff, ◌==◌}
use kubepark.Prelude.Text.Cut.{cut_sound, cut-first, cut_suffix_sound}
use kubepark.Gateway.HttpHost.{
  HttpTarget, ambiguous, target, refused, parse_label, parse_http_host, parse_under, parse_stem,
  clean_host, split_label, split_rest, check_components, check_round_trip, dashes, label_of,
  max_label_len,
}

-- The label is the one of the target, whose parts are not empty; port and sandbox are read up to
-- the first double dash.
pub record Labels (label : Text) (t : HttpTarget) : Type 0 where
  pub named : label ≡ label_of t
  pub port_given : t.port ≢ []
  pub sandbox_given : t.sandbox ≢ []
  pub namespace_given : t.namespace ≢ []
  pub port_first : cut dashes t.port ≡ none
  pub sandbox_first : cut dashes t.sandbox ≡ none
  pub fits : length label ≤ max_label_len

module _ (label : Text) (t : HttpTarget) where
  abbrev Parts : Text → Text → Text → Type 0
  Parts a b c =
      (a ≢ [])
      × (b ≢ [])
      × (c ≢ [])
      × (t ≡ record { port = a; sandbox = b; namespace = c })
      × (label ≡ label_of t)

  check_round_trip_lem :
      (u : HttpTarget) → check_round_trip label u ≡ target t → (t ≡ u) × (label ≡ label_of t)
  check_round_trip_lem u h = same (label_of u == label) refl
    where
      same : (x : Bool) → (label_of u == label) ≡ x → (t ≡ u) × (label ≡ label_of t)
      same true e =
          let t_is_u : t ≡ u = ground arith in
          (t_is_u, sym ((eq_iff _ _).0 e) ∙ ap label_of (sym t_is_u))
      same false e = ground arith

  check_components_lem : (a b c : Text) → check_components label a b c ≡ target t → Parts a b c
  unfolding ◌==◌
  check_components_lem [] b c h = ground arith
  check_components_lem (x ∷ a) [] c h = ground arith
  check_components_lem (x ∷ a) (y ∷ b) [] h = ground arith
  check_components_lem (x ∷ a) (y ∷ b) (z ∷ c) h =
      let (same, named) = check_round_trip_lem _ h in (λ p. cc, λ p. cc, λ p. cc, same, named)

  split_rest_lem :
      (a : Text) (o : Option (Text × Text))
      → split_rest label a o ≡ target t
      → (b : Text) × (c : Text) × (o ≡ some (b, c)) × Parts a b c
  split_rest_lem a none h = cc
  split_rest_lem a (some (b, c)) h = (b, c, refl, check_components_lem a b c h)

  split_label-Labels :
      (o : Option (Text × Text))
      → split_label label o ≡ target t
      → cut dashes label ≡ o
      → length label ≤ max_label_len
      → Labels label t
  split_label-Labels none h e fits = cc
  split_label-Labels (some (a, rest)) h e fits =
      let (b, c, second, (na, nb, nc, same, named)) = split_rest_lem a _ h in
      let port_is : t.port ≡ a = ap (λ (u : HttpTarget). u.port) same in
      let sandbox_is : t.sandbox ≡ b = ap (λ (u : HttpTarget). u.sandbox) same in
      let namespace_is : t.namespace ≡ c = ap (λ (u : HttpTarget). u.namespace) same in
      record {
        named = named;
        port_given = λ p. na (sym port_is ∙ p);
        sandbox_given = λ p. nb (sym sandbox_is ∙ p);
        namespace_given = λ p. nc (sym namespace_is ∙ p);
        port_first = ap (cut dashes) port_is ∙ cut-first _ _ _ _ e;
        sandbox_first = ap (cut dashes) sandbox_is ∙ cut-first _ _ _ _ second;
        fits = fits;
      }

  pub parse_label-Labels : parse_label label ≡ target t → Labels label t
  unfolding parse_label
  parse_label-Labels h = elim (Bool-cases (ltb max_label_len (length label))) [
    | inl long ↦ cc
    | inr short ↦ split_label-Labels (cut dashes label) (ground arith) refl (ground arith)
  ]

-- A host below the base domain that names a target is, cleaned, the target's label, a dot and the
-- base domain without its leading dot; the target's three parts are not empty, port and sandbox
-- are read up to the first double dash, and the label has at most 63 bytes.
pub parse_http_host-Labels :
    (host base_domain : Text) (t : HttpTarget)
    → base_domain ≢ []
    → parse_http_host host base_domain ≡ target t
    → (clean_host host ≡ label_of t ++ (codes "." ++ trim_prefix (codes ".") base_domain))
      × Labels (label_of t) t
unfolding parse_http_host
parse_http_host-Labels host base t given h = by_base base given h
  where
    by_suffix :
        (suffix : Text) (o : Option Text)
        → cut_suffix suffix (clean_host host) ≡ o
        → parse_stem o ≡ target t
        → (clean_host host ≡ label_of t ++ suffix) × Labels (label_of t) t
    by_suffix suffix none e q = cc
    by_suffix suffix (some label) e q =
        let labels = parse_label-Labels label t q in
        subst (λ (l : Text). (clean_host host ≡ l ++ suffix) × Labels l t) labels.named
          (cut_suffix_sound _ _ _ e, labels)

    by_base :
        (b : Text)
        → b ≢ []
        → parse_under (clean_host host) b ≡ target t
        → (clean_host host ≡ label_of t ++ (codes "." ++ trim_prefix (codes ".") b))
          × Labels (label_of t) t
    by_base [] ne q = absurd (ne refl)
    by_base (c ∷ cs) ne q = by_suffix (codes "." ++ trim_prefix (codes ".") (c ∷ cs)) _ refl q

split_label-not_ambiguous :
    (label : Text) (o : Option (Text × Text))
    → cut dashes label ≡ o
    → split_label label o ≢ refused ambiguous
split_label-not_ambiguous label none e = λ h. cc
split_label-not_ambiguous label (some (a, rest)) e = by_rest (cut dashes rest) refl
  where
    by_rest :
        (o : Option (Text × Text)) → cut dashes rest ≡ o → split_rest label a o ≢ refused ambiguous
    by_rest none q = λ h. cc
    by_rest (some (b, c)) q =
        let whole : label ≡ a ++ (dashes ++ (b ++ (dashes ++ c))) =
          cut_sound _ _ _ _ e ∙ ap (λ (r : Text). a ++ (dashes ++ r)) (cut_sound _ _ _ _ q) in
        ground (arith, (eq_iff (a ++ (dashes ++ (b ++ (dashes ++ c)))) label).1 (sym whole))

-- No label is refused as ambiguous: the parts that are read always join to the label.
pub parse_label-not_ambiguous : (label : Text) → parse_label label ≢ refused ambiguous
unfolding parse_label
parse_label-not_ambiguous label = elim (Bool-cases (ltb max_label_len (length label))) [
  | inl long ↦ λ h. cc
  | inr short ↦ ground (arith, split_label-not_ambiguous label (cut dashes label) refl)
]
