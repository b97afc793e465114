-- ===== src/Gateway/HttpHost/RoundTrip.antt =====
-- The host of a target, read back.
use kubepark.Prelude.{◌≡◌, ◌≢◌, refl, ◌∙◌, ap, false, none, [], ◌∷◌, ◌++◌, ◌≤◌, ltb, arith}
use kubepark.Prelude.Text.{Text, codes, cut, trim_prefix, length, eq_refl, ◌==◌}
use kubepark.Prelude.Text.Cut.{cut_dashes, cut_suffix-append}
use kubepark.Gateway.HttpHost.{
  HttpTarget, target, parse_label, parse_http_host, parse_under, clean_host, check_components,
  dashes, label_of, max_label_len,
}

-- Port and sandbox end before the first double dash also where a dash follows them.
pub record IsReadable (t : HttpTarget) : Type 0 where
  pub port_given : t.port ≢ []
  pub sandbox_given : t.sandbox ≢ []
  pub namespace_given : t.namespace ≢ []
  pub port_first : cut dashes (t.port ++ codes "-") ≡ none
  pub sandbox_first : cut dashes (t.sandbox ++ codes "-") ≡ none
  pub fits : length (label_of t) ≤ max_label_len

check_components-given :
    (a b c : Text)
    → a ≢ []
    → b ≢ []
    → c ≢ []
    → check_components (a ++ (dashes ++ (b ++ (dashes ++ c)))) a b c
      ≡ target (record { port = a; sandbox = b; namespace = c })
check_components-given [] b c na nb nc = absurd (na refl)
check_components-given (x ∷ a) [] c na nb nc = absurd (nb refl)
check_components-given (x ∷ a) (y ∷ b) [] na nb nc = absurd (nc refl)
check_components-given (x ∷ a) (y ∷ b) (z ∷ c) na nb nc =
    unfold ◌==◌ in rw (eq_refl ((x ∷ a) ++ (dashes ++ ((y ∷ b) ++ (dashes ++ (z ∷ c))))))

parse_label-label_of : (t : HttpTarget) → IsReadable t → parse_label (label_of t) ≡ target t
unfolding parse_label
parse_label-label_of t ok =
    let short : ltb max_label_len (length (label_of t)) ≡ false = ground (arith, ok.fits) in
    rw (
      short,
      cut_dashes t.port (t.sandbox ++ (dashes ++ t.namespace)) ok.port_first,
      cut_dashes t.sandbox t.namespace ok.sandbox_first,
      check_components-given t.port t.sandbox t.namespace ok.port_given ok.sandbox_given
          ok.namespace_given,
    )

-- The host that joins a readable target's label to a base domain is read back as the target, when
-- it is clean: in lower case, without spaces around it and without a port.
pub parse_http_host-label_of :
    (base_domain : Text) (t : HttpTarget)
    → base_domain ≢ []
    → IsReadable t
    → clean_host (label_of t ++ (codes "." ++ trim_prefix (codes ".") base_domain))
      ≡ label_of t ++ (codes "." ++ trim_prefix (codes ".") base_domain)
    → parse_http_host (label_of t ++ (codes "." ++ trim_prefix (codes ".") base_domain)) base_domain
      ≡ target t
unfolding parse_http_host
parse_http_host-label_of base t given readable clean =
    ap (λ (h : Text). parse_under h base) clean ∙ by_base base given
  where
    by_base :
        (b : Text)
        → b ≢ []
        → parse_under (label_of t ++ (codes "." ++ trim_prefix (codes ".") b)) b ≡ target t
    by_base [] ne = absurd (ne refl)
    by_base (c ∷ cs) ne = rw (
      cut_suffix-append (label_of t) (codes "." ++ trim_prefix (codes ".") (c ∷ cs)),
      parse_label-label_of t readable,
    )
