-- ===== src/Pjs/Rewrites.antt =====
-- pjs/filter/url-rewrite.js and pjs/filter/request-redirect.js. The path of the matched rule is
-- `prefix`, a slash where it has none; a thrown exception is `none`.
pub mod Locations
use fgw.Base.{
  ℕ, ◌+◌, Bool, true, false, not, ◌&&◌, ◌||◌, List, [], ◌∷◌, ◌++◌, map, Option, none, some, Text,
  txt, truthy, text_eq, text_equality, lookup, insert, length, drop, ltb, find, keep, to_text, zero,
  suc, ◌==◌, if◌then◌else◌,
}
use fgw.Pjs.Variables.{Objects, resolv_path}
use fgw.Pjs.Headers.{Headers, is_set, or_none}
use fgw.Pjs.Route.{before}

pub record Head : Type 0 where
  pub scheme : Option Text
  pub path : Text
  pub headers : Headers

-- `cfg.Path`: the type, and what it replaces the path by, if that is set.
pub data PathChange : Type 0 where
  prefix_match : Option Text → PathChange
  full_path : Option Text → PathChange
  no_change : PathChange

pub record Rewrite : Type 0 where
  pub path : PathChange
  pub hostname : Option Text

pub record Redirect : Type 0 where
  pub status : ℕ
  pub scheme : Option Text
  pub hostname : Option Text
  pub path : PathChange
  pub port : Option ℕ

abbrev pub is_text : Option Text → Bool
is_text none = false
is_text (some s) = truthy s

abbrev set_host : Option Text → Headers → Headers
set_host none h = h
set_host (some host) h = if truthy host then insert (txt "host") host h else h

module _ (objects : Objects) where
  unfoldable pub replace_prefix : (prefix value path : Text) → Text
  replace_prefix prefix value path =
      if ltb (length prefix) (length path)
      then resolv_path objects value ++ drop (length prefix) path
      else resolv_path objects value

  unfoldable pub replace_full : (value path : Text) → Text
  replace_full value path = resolv_path objects value ++ drop (length (before b'?' path)) path

  -- makePathHandle of request-redirect.js, with `none` where it returns no function.
  unfoldable pub make_path_handle : (prefix : Text) → PathChange → Option (Text → Text)
  unfolding replace_prefix replace_full
  make_path_handle prefix (prefix_match (some value)) = some (replace_prefix prefix value)
  make_path_handle prefix (prefix_match none) = none
  make_path_handle prefix (full_path (some value)) = some (replace_full value)
  make_path_handle prefix (full_path none) = none
  make_path_handle prefix no_change = none

  abbrev change_path : Option (Text → Text) → Option Text → Head → Head
  change_path none hostname head = head
  change_path (some f) hostname head = record head {
    path = f head.path;
    headers = set_host hostname head.headers;
  }

  -- makeHeadHandler of url-rewrite.js, with the identity where it returns no function.
  unfoldable pub rewrite_head : (prefix : Text) → Rewrite → Head → Head
  unfolding make_path_handle
  rewrite_head prefix cfg head = elim cfg.path [
    | prefix_match value ↦
        change_path (make_path_handle prefix (prefix_match value)) cfg.hostname head
    | full_path value ↦ change_path (make_path_handle prefix (full_path value)) cfg.hostname head
    | no_change ↦ record head { headers = set_host cfg.hostname head.headers }
  ]

  unfoldable pub rewrite_all : (prefix : Text) → List Rewrite → Head → Head
  unfolding rewrite_head
  rewrite_all prefix [] head = head
  rewrite_all prefix (cfg ∷ cfgs) head = rewrite_all prefix cfgs (rewrite_head prefix cfg head)

-- Whether makeHeadHandler returns a function.
abbrev pub is_rewrite : Rewrite → Bool
is_rewrite cfg = elim cfg.path [
  | prefix_match value ↦ is_set value
  | full_path value ↦ is_set value
  | no_change ↦ is_text cfg.hostname
]

abbrev pub handlers_of : List Rewrite → Option (List Rewrite)
handlers_of cfgs = elim (keep is_rewrite cfgs) [ [] ↦ none | c ∷ cs ↦ some (c ∷ cs) ]

-- makeRewriteHandler: the handlers of the service, or else those of the route.
unfoldable pub choose_rewrites : (service route : List Rewrite) → List Rewrite
choose_rewrites service route = elim (handlers_of service) [
  | none ↦ or_none (handlers_of route)
  | some cs ↦ cs
]

abbrev pub or_text : Option Text → Text → Text
or_text none other = other
or_text (some s) other = if truthy s then s else other

-- `cfg.Hostname || head.headers.host`, where the request has a host.
abbrev pub host_of : Redirect → Text → Text
host_of cfg host = or_text cfg.hostname host

abbrev pub with_port : Option ℕ → Text → Text
with_port none host = host
with_port (some zero) host = host
with_port (some (suc p)) host =
    if truthy host then before b':' host ++ b':' ∷ to_text (suc p) else host

abbrev pub scheme_of : Redirect → Head → Text
scheme_of cfg head = or_text cfg.scheme (or_text head.scheme (txt "http"))

module _ (objects : Objects) where
  abbrev redirect_by : Option (Text → Text) → Redirect → Text → Head → Option (ℕ × Text)
  redirect_by none cfg host head = none
  redirect_by (some f) cfg host head = some (
    cfg.status,
    scheme_of cfg head ++ (txt "://" ++ (with_port cfg.port (host_of cfg host) ++ f head.path)),
  )

  -- The function of makeRedirectHandler for a status that is set: the status and the Location.
  unfoldable pub redirect : (prefix : Text) → Redirect → (host : Text) → Head → Option (ℕ × Text)
  unfolding make_path_handle
  redirect prefix cfg host head =
      redirect_by (make_path_handle objects prefix cfg.path) cfg host head

-- What a request meets that a redirect may answer.
pub data Answer : Type 0 where
  pass : Answer
  reply : (status : ℕ) → (location : Text) → Answer
  thrown : Answer

abbrev as_answer : Option (ℕ × Text) → Answer
as_answer none = thrown
as_answer (some (status, location)) = reply status location

-- makeServiceRedirectHandler: the first redirect of the service, or else the first of the route.
abbrev pub first_redirect : (service route : List Redirect) → Option Redirect
first_redirect [] [] = none
first_redirect [] (cfg ∷ cfgs) = some cfg
first_redirect (cfg ∷ cfgs) route = some cfg

unfoldable pub answer_redirect :
    Objects → (prefix : Text) → (service route : List Redirect) → (host : Text) → Head → Answer
unfolding redirect
answer_redirect objects prefix service route host head = elim (first_redirect service route) [
  | none ↦ pass
  | some cfg ↦ if 0 == cfg.status then pass else as_answer (redirect objects prefix cfg host head)
]
