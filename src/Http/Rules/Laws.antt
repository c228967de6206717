-- ===== src/Http/Rules/Laws.antt =====
-- src/modules/router-http.js: the entry that a router selects for a request, from the rules alone.
use fgw.Base.{
  ◌≡◌, refl, sym, ap, ◌∙◌, true, false, List, [], ◌∷◌, ◌++◌, map, Option, none, some, Text, txt,
  find, keep, Memᴰ, text_equality, lookup, or_empty, nonempty, keep-mem, find-none, All-mem,
  find-append, ◌≢◌,
}
use mathlib.Core.Option
use mathlib.Core.Bool.{false≢true}
use fgw.Http.{Head}
use fgw.Http.Entries.{Entry, Rule, Vars, Platform}
use fgw.Http.Rules.{
  RouteKind, Tables, sorted_entries, add_all, no_tables, path_checks, or_else, checks_in,
  select_rule,
}
use fgw.Http.Rules.Buckets.{under_path, under_method, is_slow, add_all-buckets}
use fgw.Http.Rules.Selection.{accepts, consulted, select_fast-find}

module _ (platform : Platform) where
  open platform use {url_find, path_join}

  abbrev pub tables_of : List Rule → Tables
  tables_of rules = add_all path_join no_tables (sorted_entries rules)

  -- The pattern that the URL router finds among those of the table.
  abbrev pub pattern_of : List Rule → Head → Option Text
  pattern_of rules head = url_find (map (λ b. b.0) (tables_of rules).path_matches) head.path

  -- The entries under a pattern: those for the method of the request and, only where there is none,
  -- those for any method.
  abbrev pub or_star : List Entry → List Entry → List Entry
  or_star [] any = any
  or_star (e ∷ es) any = e ∷ es

  abbrev pub of_pattern : List Rule → Head → Option Text → List Entry
  of_pattern rules head none = []
  of_pattern rules head (some p) =
      or_star (keep (under_path path_join p head.method) (sorted_entries rules))
        (keep (under_path path_join p (txt "*")) (sorted_entries rules))

  abbrev pub candidates : List Rule → Head → List Entry
  candidates rules head =
      of_pattern rules head (pattern_of rules head)
      ++ (keep (under_method path_join head.method) (sorted_entries rules)
          ++ keep (is_slow path_join) (sorted_entries rules))

  or_else-nonempty :
      (xs ys : List Entry) → or_empty (or_else (nonempty xs) (nonempty ys)) ≡ or_star xs ys
  or_else-nonempty [] [] = refl
  or_else-nonempty [] (y ∷ ys) = refl
  or_else-nonempty (x ∷ xs) ys = refl

  or_empty-nonempty : (xs : List Entry) → or_empty (nonempty xs) ≡ xs
  or_empty-nonempty [] = refl
  or_empty-nonempty (x ∷ xs) = refl

  checks_in_lem :
      (m : Text) (o : Option (List (Text × List Entry)))
      → checks_in m o ≡ or_else (lookup m (or_empty o)) (lookup (txt "*") (or_empty o))
  unfolding lookup
  checks_in_lem m none = refl
  checks_in_lem m (some pm) = refl

  checks_of_pattern :
      (rules : List Rule) (head : Head) (o : Option Text)
      → or_empty (
          checks_in head.method
            (elim o [ none ↦ none | some p ↦ lookup p (tables_of rules).path_matches ]))
        ≡ of_pattern rules head o
  checks_of_pattern rules head none = refl
  checks_of_pattern rules head (some p) =
      let b = (add_all-buckets path_join (sorted_entries rules)).0 in
      rw
        (
          checks_in_lem head.method (lookup p (tables_of rules).path_matches),
          b p head.method,
          b p (txt "*"),
        )
        (or_else-nonempty (keep (under_path path_join p head.method) (sorted_entries rules))
          (keep (under_path path_join p (txt "*")) (sorted_entries rules)))

  consulted_lem :
      (rules : List Rule) (head : Head)
      → consulted platform (tables_of rules) head ≡ candidates rules head
  unfolding path_checks
  consulted_lem rules head =
      let b = add_all-buckets path_join (sorted_entries rules) in
      rw
        (
          checks_of_pattern rules head (pattern_of rules head),
          b.1 head.method,
          b.2,
          or_empty-nonempty (keep (under_method path_join head.method) (sorted_entries rules)),
        )
        refl

  -- For an HTTPRoute the router returns the first entry that accepts the request among: the entries
  -- with the pattern that the URL router finds and the request's method (or, if there is none, those
  -- with that pattern and no method), then the entries without a pattern that name the method, then
  -- the entries with neither; each in the order of priority.
  pub select_rule-find :
      (rules : List Rule) (head : Head) (v : Vars)
      → Option.map (λ r. r.0) (select_rule platform RouteKind.http_route rules head v)
        ≡ some (find (accepts platform head) (candidates rules head))
  unfolding select_rule
  select_rule-find rules head v = ap some (
      select_fast-find platform (tables_of rules) head v
      ∙ ap (find (accepts platform head)) (consulted_lem rules head))

  rest_of : List Rule → Head → List Entry
  rest_of rules head =
      keep (under_method path_join head.method) (sorted_entries rules)
      ++ keep (is_slow path_join) (sorted_entries rules)

  candidates_of_named :
      (rules : List Rule) (head : Head) (p : Text) (x : Entry) (xs : List Entry)
      → pattern_of rules head ≡ some p
      → keep (under_path path_join p head.method) (sorted_entries rules) ≡ x ∷ xs
      → candidates rules head ≡ (x ∷ xs) ++ rest_of rules head
  unfolding rest_of
  candidates_of_named rules head p x xs found named =
      ap (λ o. of_pattern rules head o ++ rest_of rules head) found
      ∙ ap
          (λ l.
            or_star l (keep (under_path path_join p (txt "*")) (sorted_entries rules))
            ++ rest_of rules head)
          named

  -- An entry for any method is passed over where another entry has the same pattern and names the
  -- method of the request: if none of those accepts, and no entry without a pattern does, then the
  -- router selects nothing, although some entry, that for any method, accepts the request.
  pub select_rule-star_shadowed :
      (rules : List Rule) (head : Head) (v : Vars) (p : Text) (e x : Entry) (xs : List Entry)
      → pattern_of rules head ≡ some p
      → Memᴰ e (keep (under_path path_join p (txt "*")) (sorted_entries rules))
      → accepts platform head e ≡ true
      → keep (under_path path_join p head.method) (sorted_entries rules) ≡ x ∷ xs
      → find (accepts platform head) (x ∷ xs) ≡ none
      → find (accepts platform head) (
          keep (under_method path_join head.method) (sorted_entries rules)
          ++ keep (is_slow path_join) (sorted_entries rules))
        ≡ none
      → (Option.map (λ r. r.0) (select_rule platform RouteKind.http_route rules head v) ≡ some none)
        × (find (accepts platform head) (sorted_entries rules) ≢ none)
  unfolding rest_of
  select_rule-star_shadowed rules head v p e x xs found star ok named no_named no_other =
      let f = accepts platform head in
      let same : find f (candidates rules head) ≡ none =
        ap (find f) (candidates_of_named rules head p x xs found named)
        ∙ (find-append f (x ∷ xs) (rest_of rules head) ∙ rw no_named no_other) in
      (
        select_rule-find rules head v ∙ ap some same,
        λ h. false≢true (
            sym (
              All-mem (λ y. f y ≡ false) (sorted_entries rules) (find-none f _ h)
                (keep-mem (under_path path_join p (txt "*")) (sorted_entries rules) star).0)
            ∙ ok),
      )
