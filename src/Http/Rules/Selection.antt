-- ===== src/Http/Rules/Selection.antt =====
-- src/modules/router-http.js: which entry a list of checks selects, without the variables that the
-- match functions write, and what those variables are afterwards.
use fgw.Base.{
  ◌≡◌, refl, Bool, true, false, ◌&&◌, List, [], ◌∷◌, ◌++◌, Option, none, some, arith, Text, find,
  find-append, text_equality, lookup, or_empty, Bool-cases, inl, inr,
}
use fgw.Http.{PathType, PathMatch, Head}
use fgw.Http.Matchers.{make_object_matcher, passes}
use fgw.Http.Entries.{
  Entry, Vars, Platform, make_method_matcher, make_path_matcher, match_http, find_http, run_path,
}
use fgw.Http.Rules.{Tables, path_checks, select_fast, try_checks}

module _ (platform : Platform) where
  open platform use {re_test, search_params}

  -- What the fast search still asks of the path: the URL router has seen to exact paths and
  -- prefixes, and so a path with no type is not looked at.
  abbrev pub path_ok : Option PathMatch → Text → Bool
  path_ok none path = true
  path_ok (some p) path = elim p.type [
    | none ↦ true
    | some t ↦ elim t [
      | PathType.exact ↦ true
      | PathType.path_prefix ↦ true
      | PathType.regular_expression ↦ re_test p.value path
      | PathType.other s ↦ false
    ]
  ]

  abbrev pub accepts : Head → Entry → Bool
  accepts head e =
      path_ok e.match.path head.path
      && (passes (make_object_matcher re_test e.match.headers) head.headers
          && passes (make_object_matcher re_test e.match.query_params) (search_params head.path))

  run_path_ok :
      (p : Option PathMatch) (path : Text) (v : Vars)
      → (run_path (make_path_matcher true platform p) path v).0 ≡ path_ok p path
  unfolding make_path_matcher
  run_path_ok none path v = refl
  run_path_ok (some p) path v = of_type p.type
    where
      of_type :
          (t : Option PathType)
          → let q : PathMatch = record p { type = t } in
            (run_path (make_path_matcher true platform (some q)) path v).0 ≡ path_ok (some q) path
      of_type none = refl
      of_type (some PathType.exact) = refl
      of_type (some PathType.path_prefix) = refl
      of_type (some PathType.regular_expression) = refl
      of_type (some (PathType.other s)) = refl

  pub match_http-accepts :
      (e : Entry) (head : Head) (v : Vars) → (match_http true platform e head v).0 ≡ accepts head e
  unfolding match_http make_method_matcher
  match_http-accepts e head v = ground (arith, run_path_ok e.match.path head.path v)

  -- A match function that accepts has stored the resource and the rule of its entry.
  pub match_http-writes :
      (e : Entry) (head : Head) (v : Vars)
      → (match_http true platform e head v).0 ≡ true
      → ((match_http true platform e head v).1.matched_route ≡ some e.resource)
        × ((match_http true platform e head v).1.matched_rule ≡ some e.rule)
  unfolding match_http make_method_matcher
  match_http-writes e head v h = ground arith

  pub find_http-find :
      (es : List Entry) (head : Head) (v : Vars)
      → (find_http true platform es head v).0 ≡ find (accepts head) es
  unfolding find_http
  find_http-find [] head v = refl
  find_http-find (e ∷ es) head v =
      let ih = find_http-find es head (match_http true platform e head v).1 in
      elim (Bool-cases (accepts head e)) [
        | inl h ↦ rw (match_http-accepts e head v, h) refl
        | inr h ↦ rw (match_http-accepts e head v, h) ih
      ]

  pub find_http-writes :
      (es : List Entry) (head : Head) (v : Vars) {e : Entry}
      → (find_http true platform es head v).0 ≡ some e
      → ((find_http true platform es head v).1.matched_route ≡ some e.resource)
        × ((find_http true platform es head v).1.matched_rule ≡ some e.rule)
  unfolding find_http
  find_http-writes [] head v h = cc
  find_http-writes (e' ∷ es) head v {e} h =
      elim (Bool-cases (match_http true platform e' head v).0) [
        | inl p ↦ let q : e' ≡ e = ground arith in rw (p, ← q) (match_http-writes e' head v p)
        | inr p ↦ rw p (find_http-writes es head (match_http true platform e' head v).1 (rw p at h))
      ]

  -- The entries that the fast search goes through, in its order.
  abbrev pub consulted : Tables → Head → List Entry
  consulted t head =
      or_empty (path_checks platform t head)
      ++ (or_empty (lookup head.method t.method_matches) ++ t.slow_matches)

  try_checks-find :
      (o : Option (List Entry)) (head : Head) (v : Vars) (next : Vars → Option Entry × Vars)
      (ys : List Entry)
      → ((v' : Vars) → (next v').0 ≡ find (accepts head) ys)
      → (try_checks platform o head v next).0 ≡ find (accepts head) (or_empty o ++ ys)
  try_checks-find none head v next ys h = h v
  try_checks-find (some es) head v next ys h = ground (
    arith,
    find_http-find es head v,
    find-append (accepts head) es ys,
    h (find_http true platform es head v).1,
  )

  -- The fast search returns the first entry that accepts the request, of those under the found
  -- pattern, then of those under the method, then of the remaining ones.
  pub select_fast-find :
      (t : Tables) (head : Head) (v : Vars)
      → (select_fast platform t head v).0 ≡ find (accepts head) (consulted t head)
  unfolding select_fast
  select_fast-find t head v = try_checks-find (path_checks platform t head) head v _ _ λ v'.
      try_checks-find (lookup head.method t.method_matches) head v' _ _
        λ v''. find_http-find t.slow_matches head v''
