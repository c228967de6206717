-- ===== src/Tests/Starting.antt =====
-- A command line with three options, certificates with wildcards, and the policies of a backend.
use fgw.Base.{
  ℕ, ◌≡◌, refl, List, [], ◌∷◌, Option, none, some, Text, txt, text_eq, text_equality, lookup,
  insert, starts_with, ends_with, split, sort, to_lower, trim, ◌==◌, if◌then◌else◌,
}
use fgw.Backends.Peers.{Validation, TlsPolicy}
use fgw.Backends.Selector.{BackendRef, make_filters, target_filters}
use fgw.Backends.Selector.OnePass.{target_filters-make_filters}
use fgw.Options.{Default, Value, State, parse_options}
use fgw.Options.Typed.{Fits, parse_options-IsTyped}
use fgw.Hosts.Longest.{IsBest}
use fgw.Tls.{add_sni_routes, no_names, make_sni_table, route_sni}
use fgw.Tls.Names.{route_sni-IsBest}

abbrev validation : Validation
validation = record { hostname = txt "a.com"; ca_certificates = none; alt_names = none }

abbrev pqc_policy : TlsPolicy
pqc_policy = record {
  target_refs = (txt "Backend", txt "b1") ∷ [];
  validation = none;
  pqc = some 1;
}

abbrev names_policy : TlsPolicy
names_policy = record {
  target_refs = (txt "Backend", txt "b2") ∷ [];
  validation = some validation;
  pqc = none;
}

abbrev policies : List TlsPolicy
policies = pqc_policy ∷ names_policy ∷ []

abbrev same_text : Text → Text
same_text s = s

-- A filter is made for http only, and puts out dubbo when it is the filter 1.
abbrev import_filter : Text → ℕ → Option (Text × Option Text)
import_filter p n =
    if text_eq p (txt "http") then some (p, if n == 1 then some (txt "dubbo") else none) else none

abbrev reference : BackendRef ℕ
reference = record { kind = []; name = txt "b1"; weight = none; filters = some (1 ∷ []) }

target_filters-make_filters_example :
    target_filters import_filter (txt "http") (some (2 ∷ [])) none (some reference)
    ≡ make_filters import_filter (txt "http") (2 ∷ 1 ∷ [])
target_filters-make_filters_example =
    target_filters-make_filters import_filter (txt "http") (some (2 ∷ [])) none (some reference)
      refl

abbrev defaults : List (Text × Default)
defaults = (txt "--max", Default.number) ∷ (txt "--debug", Default.boolean) ∷ []

abbrev shorthands : List (Text × Text)
shorthands = (txt "-m", txt "--max") ∷ (txt "-d", txt "--debug") ∷ []

-- A text that is read as a number.
abbrev parse_size : Text → Option ℕ
parse_size s = if text_eq s (txt "11") then some 2 else none

abbrev parsed : State ℕ
parsed = record {
  args = txt "run" ∷ [];
  opts = (txt "--debug", Value.flag) ∷ (txt "--max", Value.float 2) ∷ [];
  last_option = none;
}

abbrev terms : List Text
terms = txt "-d" ∷ txt "run" ∷ txt "--max=11" ∷ []

parse_options-IsTyped_example : Fits parse_size (lookup (txt "--max") defaults) (Value.float 2)
unfolding parse_options lookup text_eq starts_with split insert
parse_options-IsTyped_example =
    parse_options-IsTyped parse_size defaults shorthands (txt "fgw" ∷ terms) parsed (txt "--max")
      (Value.float 2) refl refl

abbrev sni_routes : List (ℕ × Option (List Text))
sni_routes = (1, some (txt "*.com" ∷ [])) ∷ (2, some (txt "*.a.com" ∷ txt "b.com" ∷ [])) ∷ []

route_sni-IsBest_example : IsBest (add_sni_routes no_names sni_routes).postfixes (txt "x.a.com") 2
unfolding route_sni lookup add_sni_routes starts_with to_lower trim insert text_eq make_sni_table
    sort ends_with
route_sni-IsBest_example = route_sni-IsBest sni_routes (txt "X.a.com" ∷ []) 2 refl refl

abbrev certificates : List (ℕ × (Text × List Text))
certificates = (2, (txt "*.a.com", txt "a.com" ∷ [])) ∷ []
