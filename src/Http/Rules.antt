-- ===== src/Http/Rules.antt =====
-- src/modules/router-http.js, makeRuleSelector: the entries of the rules in the order of priority,
-- the tables of the fast search, and the function that selects an entry for a request.
pub mod Buckets
pub mod Selection
pub mod Laws
pub mod Preferred
pub mod Selected
pub mod Alike
use fgw.Base.{
  ℕ, suc, ◌+◌, ◌-◌, ◌≡◌, refl, Bool, true, false, not, ◌&&◌, ◌||◌, List, [], ◌∷◌, ◌++◌, map,
  flat_map, Option, none, some, Text, txt, truthy, length, take, text_eq, ends_with, text_equality,
  lookup, insert, or_empty, push_at, sort, text_lt, if◌then◌else◌,
}
use fgw.Http.{PathType, PathMatch, MethodMatch, RouteMatch, Head, has_method}
use fgw.Http.Priority.{get_match_priority}
use fgw.Http.Entries.{Entry, Rule, Vars, Platform, find_http, find_grpc}

-- `kind`, taken from the first resource.
pub data RouteKind : Type 0 where
  http_route grpc_route : RouteKind
  other : Text → RouteKind

abbrev pub empty_match : RouteMatch
empty_match = record {
  path = none;
  method = MethodMatch.absent;
  headers = none;
  query_params = none;
}

unfoldable pub entries_of_rule : Rule → List (Entry)
entries_of_rule r = elim r.matches [
  | none ↦
      record { match = empty_match; selector = r.selector; resource = r.resource; rule = r.rule }
      ∷ []
  | some ms ↦
      map (λ m. record { match = m; selector = r.selector; resource = r.resource; rule = r.rule })
        ms
]

-- `matches.forEach((a, i) => a[4] = getMatchPriority(a[0], i))`.
unfoldable pub ranked : ℕ → List (Entry) → List (Text × Entry)
ranked i [] = []
ranked i (e ∷ es) = (get_match_priority e.match i, e) ∷ ranked (suc i) es

-- The comparator puts `b` in front of `a` when its text is greater.
abbrev pub goes_before : Text × Entry → Text × Entry → Bool
goes_before b a = text_lt a.0 b.0

unfoldable pub sorted_entries : List (Rule) → List (Entry)
unfolding entries_of_rule ranked
sorted_entries rules = map (λ p. p.1) (sort goes_before (ranked 0 (flat_map entries_of_rule rules)))

-- `m.method || '*'` and `m.method` as the key of an object; an object prints as [object Object].
abbrev pub method_key : MethodMatch → Text
method_key MethodMatch.absent = txt "undefined"
method_key (MethodMatch.verb s) = s
method_key (MethodMatch.call g) = txt "[object Object]"

abbrev pub method_or_star : MethodMatch → Text
method_or_star m = if has_method m then method_key m else txt "*"

-- `pathMatches`, `methodMatches` and `slowMatches`. A list of checks is found by a pattern and a
-- method, or by a method.
pub record Tables : Type 0 where
  pub path_matches : List (Text × List (Text × List Entry))
  pub method_matches : List (Text × List Entry)
  pub slow_matches : List Entry

abbrev pub no_tables : Tables
no_tables = record { path_matches = []; method_matches = []; slow_matches = [] }

-- `((map[p] ??= {})[k] ??= []).push(e)`.
unfoldable pub push_at_path :
    Text
    → Text
    → Entry
    → List (Text × List (Text × List Entry))
    → List (Text × List (Text × List Entry))
unfolding push_at
push_at_path p k e m = insert p (push_at k e (or_empty (lookup p m))) m

-- The branches on `m.path` with its type, and on `m.method`.
unfoldable pub push_entry : Option Text → Bool → Tables → Entry → Tables
unfolding push_at push_at_path
push_entry (some p) b t e = record t {
  path_matches = push_at_path p (method_or_star e.match.method) e t.path_matches;
}
push_entry none true t e = record t {
  method_matches = push_at (method_key e.match.method) e t.method_matches;
}
push_entry none false t e = record t { slow_matches = t.slow_matches ++ e ∷ [] }

module _ (path_join : Text → Text → Text) where
  -- The pattern under which an entry stands in `pathMatches`, if it stands there.
  unfoldable pub path_key : Option PathMatch → Option Text
  path_key none = none
  path_key (some p) = elim p.type [
    | none ↦ none
    | some t ↦ elim t [
      | PathType.exact ↦ some p.value
      | PathType.path_prefix ↦ some (path_join p.value (txt "*"))
      | PathType.regular_expression ↦ none
      | PathType.other s ↦ none
    ]
  ]

  unfoldable pub add_match : Tables → Entry → Tables
  unfolding path_key push_entry
  add_match t e = push_entry (path_key e.match.path) (has_method e.match.method) t e

  unfoldable pub add_all : Tables → List Entry → Tables
  unfolding add_match
  add_all t [] = t
  add_all t (e ∷ es) = add_all (add_match t e) es

abbrev pub or_else {ℓ} : {A : Type ℓ} → Option A → Option A → Option A
or_else none b = b
or_else (some a) b = some a

abbrev pub checks_in : Text → Option (List (Text × List Entry)) → Option (List Entry)
checks_in m none = none
checks_in m (some pm) = or_else (lookup m pm) (lookup (txt "*") pm)

module _ (platform : Platform) where
  -- `pm = pathMatches.find(head.path)` and `pm[head.method] || pm['*']`.
  unfoldable pub path_checks : Tables → Head → Option (List Entry)
  path_checks t head =
      checks_in head.method (elim (platform.url_find (map (λ b. b.0) t.path_matches) head.path) [
        | none ↦ none
        | some p ↦ lookup p t.path_matches
      ])

  -- A stage of the fast search: the first check that matches, or the next stage.
  abbrev try_checks :
      Option (List Entry) → Head → Vars → (Vars → Option Entry × Vars) → Option Entry × Vars
  try_checks none head v next = next v
  try_checks (some es) head v next = elim (find_http true platform es head v).0 [
    | some e ↦ find_http true platform es head v
    | none ↦ next (find_http true platform es head v).1
  ]

  unfoldable pub select_fast : Tables → Head → Vars → Option Entry × Vars
  unfolding path_checks
  select_fast t head v = try_checks (path_checks t head) head v (λ v'.
      try_checks (lookup head.method t.method_matches) head v'
        (λ v''. find_http true platform t.slow_matches head v''))

  -- The function that makeRuleSelector returns, with USE_FAST_MATCH; `none` outside is the exception
  -- of an unknown kind.
  unfoldable pub select_rule : RouteKind → List Rule → Head → Vars → Option (Option Entry × Vars)
  unfolding sorted_entries add_all select_fast
  select_rule RouteKind.http_route rules head v =
      some (select_fast (add_all platform.path_join no_tables (sorted_entries rules)) head v)
  select_rule RouteKind.grpc_route rules head v =
      some (find_grpc true platform (sorted_entries rules) head, v)
  select_rule (RouteKind.other k) rules head v = none
