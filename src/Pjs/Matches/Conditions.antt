-- ===== src/Pjs/Matches/Conditions.antt =====
-- pjs/common/health-check.js: a response matches when every entry of Matches accepts it.
use fgw.Base.{
  ℕ, Bool, true, false, not, ◌&&◌, ◌||◌, List, [], ◌∷◌, ◌++◌, map, flat_map, Option, none, some,
  Text, truthy, all, if◌then◌else◌, ◌≡◌, refl, ap, ◌∙◌,
}
use fgw.Pjs.Matches.{
  Match, Response, Code, matched, bad_status, bad_body, bad_header, bad_matches, test_or, status_in,
  body_includes, header_is, status_rule, body_rule, header_rules, no_rules, rules_of, first_bad,
  match_response,
}

abbrev pub is_matched : Code → Bool
is_matched matched = true
is_matched bad_status = false
is_matched bad_body = false
is_matched bad_header = false
is_matched bad_matches = false

-- What an entry asks for, condition by condition; one that asks for nothing accepts nothing.
abbrev pub wants_status : Option (List ℕ) → Option ℕ → Bool
wants_status none s = true
wants_status (some codes) s = status_in codes s

abbrev pub wants_body : Option Text → Option Text → Bool
wants_body none s = true
wants_body (some p) s = not (truthy p) || body_includes p s

abbrev pub wants_headers : Option (List (Text × Text)) → List (Text × Text) → Bool
wants_headers none headers = true
wants_headers (some hs) headers = all (λ h. header_is h headers) hs

abbrev pub accepts : Response → Match → Bool
accepts r m =
    not (no_rules m)
    && (wants_status m.status_codes r.status
        && (wants_body m.body r.body && wants_headers m.headers r.headers))

first_bad-append :
    (xs ys : List Code)
    → is_matched (first_bad (xs ++ ys)) ≡ (is_matched (first_bad xs) && is_matched (first_bad ys))
unfolding first_bad
first_bad-append [] ys = refl
first_bad-append (matched ∷ xs) ys = first_bad-append xs ys
first_bad-append (bad_status ∷ xs) ys = refl
first_bad-append (bad_body ∷ xs) ys = refl
first_bad-append (bad_header ∷ xs) ys = refl
first_bad-append (bad_matches ∷ xs) ys = refl

first_bad-one :
    (b : Bool) (code : Code)
    → is_matched code ≡ false
    → is_matched (first_bad (test_or b code ∷ [])) ≡ b
unfolding first_bad
first_bad-one true code h = refl
first_bad-one false matched h = h
first_bad-one false bad_status h = refl
first_bad-one false bad_body h = refl
first_bad-one false bad_header h = refl
first_bad-one false bad_matches h = refl

status_rule_lem :
    (m : Match) (r : Response)
    → is_matched (first_bad (status_rule m r)) ≡ wants_status m.status_codes r.status
unfolding status_rule first_bad
status_rule_lem m r = of_codes m.status_codes
  where
    of_codes :
        (o : Option (List ℕ))
        → is_matched (
            first_bad (elim o [
              | none ↦ []
              | some codes ↦ test_or (status_in codes r.status) bad_status ∷ []
            ]))
          ≡ wants_status o r.status
    of_codes none = refl
    of_codes (some codes) = first_bad-one (status_in codes r.status) bad_status refl

body_rule_lem :
    (m : Match) (r : Response) → is_matched (first_bad (body_rule m r)) ≡ wants_body m.body r.body
unfolding body_rule first_bad
body_rule_lem m r = of_body m.body
  where
    of_body :
        (o : Option Text)
        → is_matched (
            first_bad (elim o [
              | none ↦ []
              | some p ↦ if truthy p then test_or (body_includes p r.body) bad_body ∷ [] else []
            ]))
          ≡ wants_body o r.body
    of_body none = refl
    of_body (some []) = refl
    of_body (some (c ∷ p)) = first_bad-one (body_includes (c ∷ p) r.body) bad_body refl

header_rules_lem :
    (m : Match) (r : Response)
    → is_matched (first_bad (header_rules m r)) ≡ wants_headers m.headers r.headers
unfolding header_rules first_bad
header_rules_lem m r = of_headers m.headers
  where
    step :
        (b c : Bool) (codes : List Code)
        → is_matched (first_bad codes) ≡ c
        → is_matched (first_bad (test_or b bad_header ∷ codes)) ≡ (b && c)
    step true c codes h = h
    step false c codes h = refl

    of_list :
        (hs : List (Text × Text))
        → is_matched (first_bad (map (λ h. test_or (header_is h r.headers) bad_header) hs))
          ≡ all (λ h. header_is h r.headers) hs
    of_list [] = refl
    of_list (h ∷ hs) = step (header_is h r.headers) _ _ (of_list hs)

    of_headers :
        (o : Option (List (Text × Text)))
        → is_matched (
            first_bad (elim o [
              | none ↦ []
              | some hs ↦ map (λ h. test_or (header_is h r.headers) bad_header) hs
            ]))
          ≡ wants_headers o r.headers
    of_headers none = refl
    of_headers (some hs) = of_list hs

rules_of_lem : (m : Match) (r : Response) → is_matched (first_bad (rules_of m r)) ≡ accepts r m
unfolding rules_of first_bad
rules_of_lem m r = of_rules (no_rules m)
  where
    of_rules :
        (b : Bool)
        → is_matched (
            first_bad (
              if b
              then bad_matches ∷ []
              else status_rule m r ++ (body_rule m r ++ header_rules m r)))
          ≡ (not b
              && (wants_status m.status_codes r.status
                  && (wants_body m.body r.body && wants_headers m.headers r.headers)))
    of_rules true = refl
    of_rules false =
        first_bad-append (status_rule m r) (body_rule m r ++ header_rules m r)
        ∙ (ap (λ b. is_matched (first_bad (status_rule m r)) && b)
              (first_bad-append (body_rule m r) (header_rules m r))
            ∙ rw (status_rule_lem m r, body_rule_lem m r, header_rules_lem m r) refl)

-- The response to a probe matches exactly when every entry of Matches asks for something and has all
-- that it asks for: a status of its list, the text in the body, and each header.
pub match_response_lem :
    (matches : List Match) (r : Response)
    → is_matched (match_response matches r) ≡ all (accepts r) matches
unfolding match_response mathlib.Core.List.flat_map
match_response_lem [] r = refl
match_response_lem (m ∷ matches) r =
    first_bad-append (rules_of m r) (flat_map (λ m'. rules_of m' r) matches)
    ∙ rw (rules_of_lem m r, match_response_lem matches r) refl
