-- ===== src/Tls/Names.antt =====
-- The certificate that src/modules/terminate-tls.js finds, and the route of src/modules/router-tls.js.
use fgw.Base.{
  ◌≡◌, refl, ap, ◌∙◌, true, List, [], ◌∷◌, Option, none, some, Text, txt, starts_with, ends_with,
  to_lower, lookup, text_equality, find, Bool-cases, inl, inr, find-append,
}
use fgw.Hosts.{HostTable, find_host}
use fgw.Hosts.Longest.{IsBest, find_host-IsBest}
use fgw.Tls.{
  server_name, no_names, add_sni_routes, make_sni_table, route_sni, add_certificate_name,
  add_certificate_names, add_certificates, find_certificate,
}

module _ {S : Type 0} where
  -- A table where each name of a connection is looked up by its longest postfix: the route that a
  -- TLS router selects for a server name that no route names in full is that of the longest of the
  -- wildcards that end it.
  pub route_sni-IsBest :
      (rs : List (S × Option (List Text))) (names : List Text) (s : S)
      → lookup (server_name names) (add_sni_routes no_names rs).fullnames ≡ none
      → route_sni (make_sni_table rs) names ≡ some s
      → IsBest (add_sni_routes no_names rs).postfixes (server_name names) s
  unfolding route_sni make_sni_table
  route_sni-IsBest rs names s n e =
      find_host-IsBest (add_sni_routes no_names rs).fullnames (add_sni_routes no_names rs).postfixes
        (server_name names) s n e

  abbrev Found : Text → Text × S → HostTable S → Type 0
  Found name b t = find (λ e. ends_with name e.0) t.postfixes ≡ some b

  add_certificate_name-Found :
      (name : Text) (b : Text × S) (c : S) (t : HostTable S) (n : Text)
      → Found name b t
      → Found name b (add_certificate_name c t n)
  unfolding add_certificate_name
  add_certificate_name-Found name b c t n h = elim (Bool-cases (starts_with n (txt "*"))) [
    | inl e ↦ rw e (find-append (λ x. ends_with name x.0) t.postfixes _ ∙ rw h refl)
    | inr e ↦ rw e h
  ]

  add_certificate_names-Found :
      (name : Text) (b : Text × S) (c : S) (t : HostTable S) (ns : List Text)
      → Found name b t
      → Found name b (add_certificate_names c t ns)
  unfolding add_certificate_names
  add_certificate_names-Found name b c t [] h = h
  add_certificate_names-Found name b c t (n ∷ ns) h =
      add_certificate_names-Found name b c (add_certificate_name c t n) ns
        (add_certificate_name-Found name b c t n h)

  add_certificates-Found :
      (name : Text) (b : Text × S) (t : HostTable S) (cs : List (S × (Text × List Text)))
      → Found name b t
      → Found name b (add_certificates t cs)
  unfolding add_certificates
  add_certificates-Found name b t [] h = h
  add_certificates-Found name b t ((c, (common, others)) ∷ cs) h =
      add_certificates-Found name b (add_certificate_names c t (common ∷ others)) cs
        (add_certificate_names-Found name b c t (common ∷ others) h)

  Found-first :
      (name p : Text) (c : S)
      → ends_with name (to_lower p) ≡ true
      → Found name (to_lower p, c) (add_certificate_name c no_names (b'*' ∷ p))
  unfolding add_certificate_name starts_with
  Found-first name p c h = rw h refl

  Found-value :
      (t : HostTable S) (name : Text) (b : Text × S)
      → lookup name t.fullnames ≡ none
      → Found name b t
      → find_host t name ≡ some b.1
  unfolding find_host
  Found-value t name b n h =
      ap
        (λ o. elim o [
          | some s ↦ some s
          | none ↦ elim (find (λ e. ends_with name e.0) t.postfixes) [
            | none ↦ none
            | some e ↦ some e.1
          ]
        ])
        n
      ∙ ap (λ o. elim o [ none ↦ none | some e ↦ some e.1 ]) h

  -- The certificates are not sorted: where the first certificate has a wildcard as its common name
  -- and this ends the server name, it is the one that is found for every name that is not named in
  -- full, even if a later certificate has a longer wildcard that ends the name.
  pub find_certificate-first_wildcard :
      (c : S) (p : Text) (cs : List (S × (Text × List Text))) (names : List Text)
      → ends_with (server_name names) (to_lower p) ≡ true
      → lookup (server_name names) (add_certificates no_names ((c, (b'*' ∷ p, [])) ∷ cs)).fullnames
        ≡ none
      → find_certificate (add_certificates no_names ((c, (b'*' ∷ p, [])) ∷ cs)) names ≡ some c
  unfolding find_certificate add_certificates add_certificate_names
  find_certificate-first_wildcard c p cs names h n =
      let name = server_name names in
      let first = add_certificate_name c no_names (b'*' ∷ p) in
      Found-value (add_certificates no_names ((c, (b'*' ∷ p, [])) ∷ cs)) name (to_lower p, c) n
        (add_certificates-Found name (to_lower p, c) first cs (Found-first name p c h))
