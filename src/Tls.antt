-- ===== src/Tls.antt =====
-- Tables by the server name of a TLS client: src/modules/router-tls.js, where a value is the selector
-- of a route, and src/modules/terminate-tls.js, where it is a certificate. The searches are those of
-- Hosts.
pub mod Names
use fgw.Base.{
  ℕ, ◌≡◌, Bool, true, false, List, [], ◌∷◌, ◌++◌, Option, none, some, Text, txt, starts_with,
  to_lower, drop, lookup, insert, text_equality, sort, if◌then◌else◌,
}
use fgw.Hosts.{HostTable, HostedRoute, hostnames_or_star, clean, longer, find_host}

-- `serverNames[0] || ''`, in lower case.
abbrev pub server_name : List Text → Text
server_name [] = []
server_name (s ∷ ss) = to_lower s

module _ {S : Type 0} where
  abbrev pub no_names : HostTable S
  no_names = record { fullnames = []; postfixes = [] }

  -- router-tls.js: a name of a route, with the selector made for it.
  unfoldable pub add_sni : S → HostTable S → Text → HostTable S
  add_sni r t name =
      if starts_with (clean name) (txt "*")
      then record t { postfixes = t.postfixes ++ (drop 1 (clean name), r) ∷ [] }
      else record t { fullnames = insert (clean name) r t.fullnames }

  unfoldable pub add_snis : S → HostTable S → List Text → HostTable S
  unfolding add_sni
  add_snis r t [] = t
  add_snis r t (name ∷ names) = add_snis r (add_sni r t name) names

  unfoldable pub add_sni_routes : HostTable S → List (S × Option (List Text)) → HostTable S
  unfolding add_snis
  add_sni_routes t [] = t
  add_sni_routes t ((r, names) ∷ rs) = add_sni_routes (add_snis r t (hostnames_or_star names)) rs

  -- makeRouter.
  unfoldable pub make_sni_table : List (S × Option (List Text)) → HostTable S
  unfolding add_sni_routes
  make_sni_table rs =
      let t = add_sni_routes no_names rs in record t { postfixes = sort longer t.postfixes }

  -- The function that makeRouter returns, up to the call of the selector.
  unfoldable pub route_sni : HostTable S → List Text → Option S
  unfolding find_host
  route_sni t names = find_host t (server_name names)

  -- terminate-tls.js: a name of a certificate. The postfixes stay in the order of the configuration.
  unfoldable pub add_certificate_name : S → HostTable S → Text → HostTable S
  add_certificate_name c t name =
      if starts_with name (txt "*")
      then record t { postfixes = t.postfixes ++ (to_lower (drop 1 name), c) ∷ [] }
      else record t { fullnames = insert (to_lower name) c t.fullnames }

  unfoldable pub add_certificate_names : S → HostTable S → List Text → HostTable S
  unfolding add_certificate_name
  add_certificate_names c t [] = t
  add_certificate_names c t (name ∷ names) =
      add_certificate_names c (add_certificate_name c t name) names

  -- A certificate with its common name and its alternative names.
  unfoldable pub add_certificates : HostTable S → List (S × (Text × List Text)) → HostTable S
  unfolding add_certificate_names
  add_certificates t [] = t
  add_certificates t ((c, (common, others)) ∷ cs) =
      add_certificates (add_certificate_names c t (common ∷ others)) cs

  -- findCertificate.
  unfoldable pub find_certificate : HostTable S → List Text → Option S
  unfolding find_host
  find_certificate t names = find_host t (server_name names)
