-- ===== src/Http/Entries.antt =====
-- src/modules/router-http.js, in makeRuleSelector: an entry of `matches` and its match function, with
-- makeMethodMatcher and makePathMatcher. The variables of the pipeline ($basePath, $matchedRoute and
-- $matchedRule) are passed as a record. A backend selector, a resource and a rule are references,
-- which this part of the program only passes on.
use fgw.Base.{
  ℕ, ◌-◌, Bool, true, false, not, ◌&&◌, List, [], ◌∷◌, ◌++◌, Option, none, some, Text, txt, truthy,
  length, take, text_eq, ends_with, text_equality, if◌then◌else◌,
}
use fgw.Http.{PathType, PathMatch, GrpcMethod, MethodMatch, RouteMatch, Head, has_method}
use fgw.Http.Matchers.{make_object_matcher, grpc_path_matches, passes}

-- What the program calls and does not implement: `re_test p s` is `new RegExp(p).test(s)`;
-- `url_find ps u` is the pattern of `ps` that an algo.URLRouter of them finds for `u`; `path_join` is
-- os.path.join; `search_params u` is `new URL(u).searchParams.toObject()`.
pub record Platform : Type 0 where
  pub re_test : Text → Text → Bool
  pub url_find : List Text → Text → Option Text
  pub path_join : Text → Text → Text
  pub search_params : Text → List (Text × Text)

-- One element of `matches`: the match, the backend selector of its rule, the resource, the rule.
pub record Entry : Type 0 where
  pub match : RouteMatch
  pub selector : ℕ
  pub resource : ℕ
  pub rule : ℕ

pub record Rule : Type 0 where
  pub matches : Option (List RouteMatch)
  pub selector : ℕ
  pub resource : ℕ
  pub rule : ℕ

pub record Vars : Type 0 where
  pub base_path : Option Text
  pub matched_route : Option ℕ
  pub matched_rule : Option ℕ

-- The names of a gRPC matcher whose configuration has none.
abbrev no_names : GrpcMethod
no_names = record { type = none; service = none; method = none }

-- `!matchPath || matchPath(path)`, with the writes of the call.
abbrev pub run_path : Option (Text → Vars → Bool × Vars) → Text → Vars → Bool × Vars
run_path none path v = (true, v)
run_path (some f) path v = f path v

-- `fast` is USE_FAST_MATCH.
module _ (fast : Bool) (platform : Platform) where
  open platform use {re_test, url_find, path_join, search_params}

  unfoldable pub make_method_matcher : MethodMatch → Option (Text → Bool)
  make_method_matcher m =
      if fast
      then none
      else (if has_method m
          then some (λ s. elim m [
            | MethodMatch.absent ↦ false
            | MethodMatch.verb t ↦ text_eq s t
            | MethodMatch.call g ↦ false
          ])
          else none)

  abbrev found : List Text → Text → Bool
  found ps path = elim (url_find ps path) [ none ↦ false | some p ↦ true ]

  unfoldable pub base_of : Text → Text
  base_of value =
      let cut = if ends_with value (b'/' ∷ []) then take (length value - 1) value else value in
      if truthy cut then cut else b'/' ∷ []

  exact_matcher : Text → Option (Text → Vars → Bool × Vars)
  exact_matcher value = if fast then none else some (λ path v. (found (value ∷ []) path, v))

  prefix_matcher : Text → Text → Vars → Bool × Vars
  prefix_matcher base path v =
      if fast
      then (true, record v { base_path = some base })
      else (if found (base ∷ (base ++ txt "/*") ∷ []) path
          then (true, record v { base_path = some base })
          else (false, v))

  unfoldable pub make_path_matcher : Option PathMatch → Option (Text → Vars → Bool × Vars)
  unfolding exact_matcher prefix_matcher base_of
  make_path_matcher none = none
  make_path_matcher (some p) = elim p.type [
    | none ↦ exact_matcher p.value
    | some t ↦ elim t [
      | PathType.exact ↦ exact_matcher p.value
      | PathType.path_prefix ↦ some (prefix_matcher (base_of p.value))
      | PathType.regular_expression ↦ some (λ path v. (re_test p.value path, v))
      | PathType.other s ↦ some (λ path v. (false, v))
    ]
  ]

  -- `matchFunc` of an HTTPRoute.
  unfoldable pub match_http : Entry → Head → Vars → Bool × Vars
  unfolding make_method_matcher make_path_matcher
  match_http e head v =
      if not (passes (make_method_matcher e.match.method) head.method)
      then (false, v)
      else (let (on_path, v') = run_path (make_path_matcher e.match.path) head.path v in
          if not on_path
          then (false, v')
          else (if not (passes (make_object_matcher re_test e.match.headers) head.headers)
              then (false, v')
              else (if not (
                    passes (make_object_matcher re_test e.match.query_params)
                      (search_params head.path))
                  then (false, v')
                  else (
                    true,
                    record v' { matched_route = some e.resource; matched_rule = some e.rule },
                  ))))

  -- `matchFunc` of a GRPCRoute, which writes no variable.
  unfoldable pub match_grpc : Entry → Head → Bool
  match_grpc e head =
      passes
        (elim e.match.method [
          | MethodMatch.absent ↦ none
          | MethodMatch.verb s ↦
              if truthy s then some (grpc_path_matches re_test no_names) else none
          | MethodMatch.call g ↦ some (grpc_path_matches re_test g)
        ])
        head.path
      && passes (make_object_matcher re_test e.match.headers) head.headers

  -- `checks.find(([matchFunc]) => matchFunc(head))`, with the writes of each call.
  unfoldable pub find_http : List (Entry) → Head → Vars → Option (Entry) × Vars
  find_http [] head v = (none, v)
  find_http (e ∷ es) head v =
      let rest = find_http es head (match_http e head v).1 in
      if (match_http e head v).0 then (some e, (match_http e head v).1) else rest

  unfoldable pub find_grpc : List Entry → Head → Option Entry
  find_grpc [] head = none
  find_grpc (e ∷ es) head =
      let rest = find_grpc es head in if match_grpc e head then some e else rest
