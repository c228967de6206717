-- ===== src/Pjs/Route.antt =====
-- pjs/http/route.js: the route of a request, and the limit on its body. Testing a text with a regular
-- expression, of which the patterns compile, is a parameter; the caches give what they would make.
-- The head of a request has a method and a path.
pub mod Paths
pub mod Domains
pub mod Hosts
pub mod Body
use fgw.Base.{
  ℕ, ◌+◌, Bool, true, false, not, ◌&&◌, ◌||◌, List, [], ◌∷◌, ◌++◌, map, Option, none, some, Text,
  txt, truthy, text_eq, text_equality, starts_with, ends_with, to_lower, split, drop, length,
  get_elem?, lookup, insert, find, any, all, ltb, String, if◌then◌else◌,
}

-- `parts[0]` and `s.split(c)[0]`.
abbrev pub first_text : List Text → Text
first_text [] = []
first_text (s ∷ ss) = s

abbrev pub before : ℕ → Text → Text
before c s = first_text (split c s)

abbrev pub or_empty_text : Option Text → Text
or_empty_text none = []
or_empty_text (some s) = s

-- `params[kv[0]] = kv[1]`, with `none` for a parameter without an equals sign.
abbrev add_parameter : Text → List (Text × Option Text) → List (Text × Option Text)
add_parameter p params = insert (before b'=' p) (get_elem? (split b'=' p) 1) params

unfoldable pub add_parameters : List Text → List (Text × Option Text) → List (Text × Option Text)
add_parameters [] params = params
add_parameters (p ∷ ps) params = add_parameters ps (add_parameter p params)

unfoldable pub get_parameters : Text → List (Text × Option Text)
unfolding add_parameters
get_parameters path =
    let qs = before b'#' (or_empty_text (get_elem? (split b'?' path) 1)) in
    if truthy qs then add_parameters (split b'&' qs) [] else []

-- `path.charAt(prefix.length)` is the end of the path or a slash.
abbrev pub ends_part : Text → Bool
ends_part [] = true
ends_part (c ∷ s) = text_eq (c ∷ []) (txt "/")

unfoldable pub path_prefix : (path prefix : Text) → Bool
path_prefix path prefix =
    starts_with path prefix && (ends_with prefix (txt "/") || ends_part (drop (length prefix) path))

-- A rule of Matches, with `none` for what is not set.
abbrev pub Dictionary : Type 0
Dictionary = List (Text × List (Text × Text))

pub record Head : Type 0 where
  pub method : Text
  pub path : Text
  pub headers : List (Text × Text)

pub record Rule : Type 0 where
  pub path : Option (Text × Text)
  pub headers : Dictionary
  pub methods : Option (List Text)
  pub query_params : Dictionary

pub record GrpcRule : Type 0 where
  pub headers : Dictionary
  pub type : Option Text
  pub service : Option Text
  pub method : Option Text

-- An object whose values are texts, or undefined.
abbrev pub Object : Type 0
Object = List (Text × Option Text)

abbrev pub value_of : Text → Object → Option Text
value_of k obj = elim (lookup k obj) [ none ↦ none | some v ↦ v ]

abbrev pub text_is : Option Text → Text → Bool
text_is none v = false
text_is (some s) v = text_eq s v

abbrev pub as_object : List (Text × Text) → Object
as_object = map λ kv. (kv.0, some kv.1)

abbrev pub or_any : Option Text → Option Text → Bool
or_any none part = true
or_any (some s) part = not (truthy s) || text_is part s

module _ (test : (pattern subject : Text) → Bool) where
  -- The tests of one type of a dictionary on an object.
  unfoldable pub passes : Object → Text × List (Text × Text) → Bool
  passes obj (type, dict) =
      if text_eq type (txt "Exact")
      then all (λ kv. text_is (value_of kv.0 obj) kv.1) dict
      else (if text_eq type (txt "Regex")
          then all (λ kv. test kv.1 (or_empty_text (value_of kv.0 obj))) dict
          else false)

  -- makeDictionaryMatches; a dictionary without types has no matcher and accepts any object.
  unfoldable pub dictionary_matches : Dictionary → Object → Bool
  unfolding passes
  dictionary_matches dictionary obj = all (passes obj) dictionary

  unfoldable pub match_path : Option (Text × Text) → Text → Bool
  unfolding path_prefix
  match_path none path = true
  match_path (some (type, pattern)) path =
      if text_eq type (txt "Regex")
      then test pattern path
      else (if text_eq type (txt "Exact")
          then text_eq path pattern
          else (if text_eq type (txt "Prefix")
              then path_prefix path pattern
              else not (truthy type)))

  abbrev match_method : Option (List Text) → Text → Bool
  match_method none method = true
  match_method (some methods) method = any (λ m. text_eq m method) methods

  unfoldable pub http_matches : Rule → Head → Bool
  unfolding dictionary_matches match_path get_parameters
  http_matches rule head =
      match_method rule.methods head.method
      && (match_path rule.path (before b'?' head.path)
          && (dictionary_matches rule.headers (as_object head.headers)
              && dictionary_matches rule.query_params (get_parameters head.path)))

  abbrev is_exact : Option Text → Bool
  is_exact none = false
  is_exact (some type) = text_eq type (txt "Exact")

  unfoldable pub grpc_matches : GrpcRule → Head → Bool
  unfolding dictionary_matches
  grpc_matches rule head =
      let parts = split b'/' head.path in
      dictionary_matches rule.headers (as_object head.headers)
      && (not (is_exact rule.type)
          || (starts_with head.path (txt "/grpc.reflection.")
              || (or_any rule.service (get_elem? parts 1)
                  && or_any rule.method (get_elem? parts 2))))

pub data Route : Type 0 where
  http : Rule → Route
  grpc : GrpcRule → Route

-- An entry of RouteRules: `matches` are of the kind that the type of the route says.
pub record Domain : Type 0 where
  pub route_type : Option Text
  pub http_rules : List Rule
  pub grpc_rules : List GrpcRule

abbrev type_is : String → Domain → Bool
type_is s d = elim d.route_type [ none ↦ false | some type ↦ text_eq type (txt s) ]

-- `!RouteType`.
abbrev pub has_no_type : Domain → Bool
has_no_type d = elim d.route_type [ none ↦ true | some type ↦ not (truthy type) ]

abbrev as_http : Option Rule → Option Route
as_http none = none
as_http (some r) = some (http r)

abbrev as_grpc : Option GrpcRule → Option Route
as_grpc none = none
as_grpc (some r) = some (grpc r)

module _ (test : (pattern subject : Text) → Bool) where
  -- makeRouteMatchesHandler.
  unfoldable pub find_route : Option Domain → Head → Option Route
  unfolding http_matches grpc_matches
  find_route none head = none
  find_route (some d) head =
      if has_no_type d || (type_is "HTTP" d || type_is "HTTP2" d)
      then as_http (find (λ r. http_matches test r head) d.http_rules)
      else (if type_is "GRPC" d
          then as_grpc (find (λ r. grpc_matches test r head) d.grpc_rules)
          else none)
