-- ===== src/Pjs/Matches.antt =====
-- pjs/common/health-check.js: what a service expects of the response to a probe.
pub mod Conditions
use fgw.Base.{
  ℕ, Bool, true, false, not, ◌&&◌, ◌||◌, List, [], ◌∷◌, ◌++◌, map, flat_map, Option, none, some,
  Text, truthy, text_eq, text_equality, starts_with, to_lower, lookup, any, all, ◌==◌,
  if◌then◌else◌, ◌≡◌, refl, arith, ap, ◌∙◌, sym,
}

-- The entries of Matches, and a response; `none` stands for undefined.
pub record Match : Type 0 where
  pub status_codes : Option (List ℕ)
  pub body : Option Text
  pub headers : Option (List (Text × Text))

pub record Response : Type 0 where
  pub status : Option ℕ
  pub body : Option Text
  pub headers : List (Text × Text)

-- What `match` returns: true, -1, -2, -3 and -100.
pub data Code : Type 0 where
  matched bad_status bad_body bad_header bad_matches : Code

-- `s.includes(p)`.
unfoldable pub includes : Text → Text → Bool
includes [] p = starts_with [] p
includes (c ∷ s) p = starts_with (c ∷ s) p || includes s p

abbrev pub test_or : Bool → Code → Code
test_or true code = matched
test_or false code = code

abbrev pub status_in : List ℕ → Option ℕ → Bool
status_in codes none = false
status_in codes (some s) = any (λ c. c == s) codes

abbrev pub body_includes : Text → Option Text → Bool
body_includes p none = false
body_includes p (some s) = includes s p

abbrev pub header_is : Text × Text → List (Text × Text) → Bool
header_is (k, v) headers = elim (lookup (to_lower k) headers) [
  | none ↦ false
  | some w ↦ text_eq w v
]

-- The rules of an entry, as what they return for a response.
unfoldable pub status_rule : Match → Response → List Code
status_rule m r = elim m.status_codes [
  | none ↦ []
  | some codes ↦ test_or (status_in codes r.status) bad_status ∷ []
]

unfoldable pub body_rule : Match → Response → List Code
unfolding includes
body_rule m r = elim m.body [
  | none ↦ []
  | some p ↦ if truthy p then test_or (body_includes p r.body) bad_body ∷ [] else []
]

unfoldable pub header_rules : Match → Response → List Code
header_rules m r = elim m.headers [
  | none ↦ []
  | some hs ↦ map (λ h. test_or (header_is h r.headers) bad_header) hs
]

-- `rules.length === 0` counts the list of the rules on headers as one rule.
abbrev pub no_rules : Match → Bool
no_rules m = elim m.status_codes [
  | some codes ↦ false
  | none ↦ elim m.headers [
    | some hs ↦ false
    | none ↦ elim m.body [ none ↦ true | some p ↦ not (truthy p) ]
  ]
]

unfoldable pub rules_of : Match → Response → List Code
unfolding status_rule body_rule header_rules
rules_of m r =
    if no_rules m then bad_matches ∷ [] else status_rule m r ++ (body_rule m r ++ header_rules m r)

-- The first code that is no match.
unfoldable pub first_bad : List Code → Code
first_bad [] = matched
first_bad (matched ∷ codes) = first_bad codes
first_bad (bad_status ∷ codes) = bad_status
first_bad (bad_body ∷ codes) = bad_body
first_bad (bad_header ∷ codes) = bad_header
first_bad (bad_matches ∷ codes) = bad_matches

unfoldable pub match_response : List Match → Response → Code
unfolding rules_of first_bad
match_response matches r = first_bad (flat_map (λ m. rules_of m r) matches)
