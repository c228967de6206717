-- ===== src/Tests/Routing.antt =====
-- Two routes behind one gateway: a search page for GET and for any method, and a prefix.
use fgw.Base.{
  ℕ, ◌<◌, ◌≡◌, refl, true, Bool, Option, List, [], ◌∷◌, ◌++◌, ◌-◌, ◌&&◌, ◌||◌, none, some, arith,
  Text, txt, text_eq, take, length, ends_with, starts_with, find, text_lt, all, Memᴰ, lookup,
  text_equality, ◌≢◌, sort, join, insert,
}
use mathlib.Core.Option
use mathlib.Core.List.{flat_map}
use fgw.Http.{PathType, PathMatch, MethodMatch, RouteMatch, Head}
use fgw.Http.Priority.{Fits, get_match_priority, less_specific, text_lt-get_match_priority}
use fgw.Http.Matchers.{make_object_matcher, value_or_empty, passes, holds, make_object_matcher_lem}
use fgw.Http.Entries.{Entry, Rule, Vars, Platform, match_grpc}
use fgw.Http.Rules.{RouteKind, add_all, entries_of_rule, sorted_entries, select_rule}
use fgw.Http.Rules.Selection.{accepts}
use fgw.Http.Rules.Laws.{candidates, select_rule-find, select_rule-star_shadowed}
use fgw.Http.Rules.Preferred.{AllFit, Outcome}
use fgw.Http.Rules.Selected.{select_rule-grpc}
use fgw.Http.Rules.Alike.{Selected, select_rule-http}
use fgw.Hosts.{HostTable, find_host}
use fgw.Hosts.Longest.{find_host-full}

abbrev covers : Text → Text → Bool
covers path p =
    text_eq p path || (ends_with p (txt "*") && starts_with path (take (length p - 1) p))

abbrev platform : Platform
platform = record {
  re_test = text_eq;
  url_find = λ ps path. find (covers path) ps;
  path_join = λ a b. a ++ b'/' ∷ b;
  search_params = λ s. [];
}

abbrev exact_search : PathMatch
exact_search = record { type = some PathType.exact; value = txt "/search" }

abbrev get_search : RouteMatch
get_search = record {
  path = some exact_search;
  method = MethodMatch.verb (txt "GET");
  headers = some (record { type = none; name = txt "X-Beta"; value = txt "1" } ∷ []);
  query_params = none;
}

abbrev any_search : RouteMatch
any_search = record {
  path = some exact_search;
  method = MethodMatch.absent;
  headers = none;
  query_params = none;
}

abbrev rules : List Rule
rules =
    record { matches = some (get_search ∷ []); selector = 1; resource = 1; rule = 1 }
    ∷ record { matches = some (any_search ∷ []); selector = 2; resource = 2; rule = 2 }
    ∷ []

abbrev entry_of : RouteMatch → ℕ → Entry
entry_of m n = record { match = m; selector = n; resource = n; rule = n }

abbrev search_head : Head
search_head = record { method = txt "GET"; path = txt "/search"; headers = [] }

abbrev no_vars : Vars
no_vars = record { base_path = none; matched_route = none; matched_rule = none }

select_rule-find_example :
    Option.map (λ r. r.0) (select_rule platform RouteKind.http_route rules search_head no_vars)
    ≡ some (find (accepts platform search_head) (candidates platform rules search_head))
select_rule-find_example = select_rule-find platform rules search_head no_vars

get_search-Fits : Fits get_search 0
get_search-Fits = record {
  path_fits = omega arith;
  headers_fit = omega arith;
  params_fit = omega arith;
  index_fits = omega arith;
}

any_search-Fits : Fits any_search 1
any_search-Fits = record {
  path_fits = omega arith;
  headers_fit = omega arith;
  params_fit = omega arith;
  index_fits = omega arith;
}

text_lt-get_match_priority_example :
    text_lt (get_match_priority any_search 1) (get_match_priority get_search 0)
    ≡ less_specific any_search 1 get_search 0
text_lt-get_match_priority_example =
    text_lt-get_match_priority any_search get_search 1 0 any_search-Fits get_search-Fits

select_rule-http_example :
    (o : Option Entry) × (Option.map
        (λ r. r.0)
        (select_rule platform RouteKind.http_route rules search_head no_vars)
      ≡ some o)
    × Selected platform rules search_head o
unfolding flat_map entries_of_rule
select_rule-http_example =
    select_rule-http platform rules search_head no_vars (get_search-Fits, (any_search-Fits, tt))

abbrev call_of : Option Text → RouteMatch
call_of method = record {
  path = none;
  method = MethodMatch.call (record { type = none; service = some (txt "Shop"); method = method });
  headers = none;
  query_params = none;
}

abbrev calls : List Rule
calls =
    record { matches = some (call_of none ∷ []); selector = 1; resource = 1; rule = 1 }
    ∷ record {
      matches = some (call_of (some (txt "Buy")) ∷ []);
      selector = 2;
      resource = 2;
      rule = 2;
    }
    ∷ []

abbrev call_head : Head
call_head = record { method = txt "POST"; path = txt "/Shop/Buy"; headers = [] }

call_of-Fits : (method : Option Text) (i : ℕ) → i < 1000000 → Fits (call_of method) i
call_of-Fits method i h = record {
  path_fits = omega arith;
  headers_fit = omega arith;
  params_fit = omega arith;
  index_fits = h;
}

calls-AllFit : AllFit calls
unfolding flat_map entries_of_rule
calls-AllFit =
    (call_of-Fits none 0 (omega arith), (call_of-Fits (some (txt "Buy")) 1 (omega arith), tt))

select_rule-grpc_example :
    (o : Option Entry) × (select_rule platform RouteKind.grpc_route calls call_head no_vars
      ≡ some (o, no_vars))
    × Outcome (λ e. match_grpc true platform e call_head) calls o
unfolding flat_map entries_of_rule
select_rule-grpc_example = select_rule-grpc platform call_head calls no_vars calls-AllFit

make_object_matcher_lem_example :
    passes (make_object_matcher text_eq get_search.headers) ((txt "x-beta", txt "1") ∷ [])
    ≡ all
        (holds text_eq ((txt "x-beta", txt "1") ∷ []))
        (record { type = none; name = txt "X-Beta"; value = txt "1" } ∷ [])
make_object_matcher_lem_example =
    make_object_matcher_lem text_eq get_search.headers ((txt "x-beta", txt "1") ∷ [])

select_rule-star_shadowed_example :
    (Option.map (λ r. r.0) (select_rule platform RouteKind.http_route rules search_head no_vars)
      ≡ some none)
    × (find (accepts platform search_head) (sorted_entries rules) ≢ none)
unfolding sorted_entries add_all sort flat_map text_lt get_match_priority join insert text_eq
    make_object_matcher value_or_empty lookup
select_rule-star_shadowed_example =
    select_rule-star_shadowed platform rules search_head no_vars (txt "/search")
      (entry_of any_search 2) (entry_of get_search 1) [] refl (Memᴰ.head refl) refl refl refl refl

abbrev posts : List (Text × ℕ)
posts = (txt ".com", 1) ∷ (txt ".example.com", 2) ∷ []

abbrev table : HostTable ℕ
table = record { fullnames = (txt "a.com", 7) ∷ []; postfixes = posts }

find_host-full_example : find_host table (txt "a.com") ≡ some 7
unfolding lookup text_eq
find_host-full_example = find_host-full table (txt "a.com") 7 refl
