-- ===== src/Hosts.antt =====
-- Tables of host names and of the wildcards after which they end, as src/modules/router-http.js,
-- src/modules/router-tls.js and src/modules/terminate-tls.js fill and search them.
pub mod Longest
use fgw.Base.{
  ℕ, ◌≡◌, Bool, true, false, List, [], ◌∷◌, ◌++◌, map, Option, none, some, Text, txt, truthy,
  length, drop, take, starts_with, ends_with, to_lower, trim, last_index_of, lookup, insert,
  push_at, text_equality, find, sort, ltb, if◌then◌else◌,
}

pub record HostTable (S : Type 0) : Type 0 where
  pub fullnames : List (Text × S)
  pub postfixes : List (Text × S)

-- `r.spec.hostnames || ['*']`.
abbrev pub hostnames_or_star : Option (List Text) → List Text
hostnames_or_star none = txt "*" ∷ []
hostnames_or_star (some names) = names

-- `name.trim().toLowerCase()`.
abbrev pub clean : Text → Text
clean name = to_lower (trim name)

-- The comparator `b[0].length - a[0].length`.
abbrev pub longer : {S : Type 0} → Text × S → Text × S → Bool
longer b a = ltb (length a.0) (length b.0)

module _ {S : Type 0} where
  -- `fullnames[name] || postfixes.find(([postfix]) => name.endsWith(postfix))?.[1]`.
  unfoldable pub find_host : HostTable S → Text → Option S
  find_host t name = elim (lookup name t.fullnames) [
    | some s ↦ some s
    | none ↦ elim (find (λ b. ends_with name b.0) t.postfixes) [ none ↦ none | some b ↦ some b.1 ]
  ]

-- router-http.js, makeRouter: the resources of each name and of each postfix, by their references.
unfoldable pub add_host : ℕ → HostTable (List ℕ) → Text → HostTable (List ℕ)
add_host r t name =
    if starts_with (clean name) (txt "*")
    then record t { postfixes = push_at (drop 1 (clean name)) r t.postfixes }
    else record t { fullnames = push_at (clean name) r t.fullnames }

unfoldable pub add_hosts : ℕ → HostTable (List ℕ) → List Text → HostTable (List ℕ)
unfolding add_host
add_hosts r t [] = t
add_hosts r t (name ∷ names) = add_hosts r (add_host r t name) names

-- A route resource, as its reference and its `spec.hostnames`.
abbrev pub HostedRoute : Type 0
HostedRoute = ℕ × Option (List Text)

unfoldable pub add_routes : HostTable (List ℕ) → List HostedRoute → HostTable (List ℕ)
unfolding add_hosts
add_routes t [] = t
add_routes t ((r, names) ∷ rs) = add_routes (add_hosts r t (hostnames_or_star names)) rs

abbrev pub map_values : {S S' : Type 0} → (S → S') → List (Text × S) → List (Text × S')
map_values f = map λ b. (b.0, f b.1)

-- The tables of the router, with the function that makeRuleSelector makes of each list.
unfoldable pub make_host_table : {S : Type 0} → (List ℕ → S) → List HostedRoute → HostTable S
unfolding add_routes
make_host_table make_rule_selector rs =
    let t = add_routes (record { fullnames = []; postfixes = [] }) rs in
    record {
      fullnames = map_values make_rule_selector t.fullnames;
      postfixes = map_values make_rule_selector (sort longer t.postfixes);
    }

-- The host name of a request: in lower case, without what follows its last colon.
unfoldable pub host_name : Text → Text
host_name host = elim (last_index_of b':' (to_lower host)) [
  | none ↦ to_lower host
  | some i ↦ take i (to_lower host)
]

-- The router of a request with the `host` header: the selector to call, if there is one.
unfoldable pub route_host : {S : Type 0} → HostTable S → Option Text → Option S
unfolding host_name find_host
route_host t none = none
route_host t (some host) = if truthy host then find_host t (host_name host) else none
