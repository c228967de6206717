-- ===== src/Http/Rules/Buckets.antt =====
-- src/modules/router-http.js: the tables of the fast search hold, under each pattern and method, the
-- entries that belong there, in the order of `matches`.
use fgw.Base.{
  ◌≡◌, refl, sym, ap, ◌∙◌, Bool, true, false, not, ◌&&◌, List, [], ◌∷◌, ◌++◌, Option, none, some,
  Text, text_eq, text_eq_iff, text_equality, lookup, push_at, or_empty, lookup-insert, keep,
  nonempty, extend, extend_nil, lookup-push_at, if_extend, only_if, extend-keep, keep_append,
  if◌then◌else◌, Bool-cases, inl, inr,
}
use mathlib.Core.List.{append-nil}
use fgw.Http.{has_method}
use fgw.Http.Entries.{Entry}
use fgw.Http.Rules.{
  Tables, push_at_path, path_key, push_entry, add_match, add_all, method_key, method_or_star,
  no_tables,
}

-- `o?.[p]?.[k]`.
abbrev pub lookup2 : Text → Text → List (Text × List (Text × List Entry)) → Option (List Entry)
lookup2 p k m = lookup k (or_empty (lookup p m))

lookup2-push_at_path :
    (p q k j : Text) (e : Entry) (m : List (Text × List (Text × List Entry)))
    → lookup2 q j (push_at_path p k e m)
      ≡ (if text_eq p q && text_eq k j then extend (lookup2 q j m) (e ∷ []) else lookup2 q j m)
unfolding push_at_path
lookup2-push_at_path p q k j e m =
    let t = or_empty (lookup p m) in
    elim (Bool-cases (text_eq p q)) [
      | inl h ↦
          rw (lookup-insert p q (push_at k e t) m, h)
            (rw (lookup-push_at k j e t, (text_eq_iff p q).0 h) refl)
      | inr h ↦ rw (lookup-insert p q (push_at k e t) m, h) refl
    ]

-- Where an entry stands: under a pattern and a method, under a method, or among the slow matches.
abbrev in_path : Option Text → Text → Text → Text → Bool
in_path none key p k = false
in_path (some q) key p k = text_eq q p && text_eq key k

abbrev in_method : Option Text → Bool → Text → Text → Bool
in_method none b key k = b && text_eq key k
in_method (some q) b key k = false

abbrev in_slow : Option Text → Bool → Bool
in_slow none b = not b
in_slow (some q) b = false

push_entry-paths :
    (o : Option Text) (b : Bool) (t : Tables) (e : Entry) (p k : Text)
    → lookup2 p k (push_entry o b t e).path_matches
      ≡ extend
          (lookup2 p k t.path_matches)
          (only_if (in_path o (method_or_star e.match.method) p k) e)
unfolding push_entry
push_entry-paths none true t e p k = sym (extend_nil _)
push_entry-paths none false t e p k = sym (extend_nil _)
push_entry-paths (some q) b t e p k =
    lookup2-push_at_path q p (method_or_star e.match.method) k e t.path_matches
    ∙ if_extend (text_eq q p && text_eq (method_or_star e.match.method) k) e _

push_entry-methods :
    (o : Option Text) (b : Bool) (t : Tables) (e : Entry) (k : Text)
    → lookup k (push_entry o b t e).method_matches
      ≡ extend (lookup k t.method_matches) (only_if (in_method o b (method_key e.match.method) k) e)
unfolding push_entry
push_entry-methods none true t e k =
    lookup-push_at (method_key e.match.method) k e t.method_matches
    ∙ if_extend (text_eq (method_key e.match.method) k) e _
push_entry-methods none false t e k = sym (extend_nil _)
push_entry-methods (some q) b t e k = sym (extend_nil _)

push_entry-slow :
    (o : Option Text) (b : Bool) (t : Tables) (e : Entry)
    → (push_entry o b t e).slow_matches ≡ t.slow_matches ++ only_if (in_slow o b) e
unfolding push_entry
push_entry-slow none true t e = sym (append-nil _)
push_entry-slow none false t e = refl
push_entry-slow (some q) b t e = sym (append-nil _)

module _ (path_join : Text → Text → Text) where
  abbrev pub under_path : Text → Text → Entry → Bool
  under_path p k e = in_path (path_key path_join e.match.path) (method_or_star e.match.method) p k

  abbrev pub under_method : Text → Entry → Bool
  under_method k e =
      in_method (path_key path_join e.match.path) (has_method e.match.method)
        (method_key e.match.method) k

  abbrev pub is_slow : Entry → Bool
  is_slow e = in_slow (path_key path_join e.match.path) (has_method e.match.method)

  add_all-paths :
      (t : Tables) (es : List Entry) (p k : Text)
      → lookup2 p k (add_all path_join t es).path_matches
        ≡ extend (lookup2 p k t.path_matches) (keep (under_path p k) es)
  unfolding add_all add_match
  add_all-paths t [] p k = sym (extend_nil _)
  add_all-paths t (e ∷ es) p k =
      add_all-paths (add_match path_join t e) es p k
      ∙ ap (λ o. extend o (keep (under_path p k) es)) (push_entry-paths _ _ t e p k)
      ∙ extend-keep (under_path p k) e es _

  add_all-methods :
      (t : Tables) (es : List Entry) (k : Text)
      → lookup k (add_all path_join t es).method_matches
        ≡ extend (lookup k t.method_matches) (keep (under_method k) es)
  unfolding add_all add_match
  add_all-methods t [] k = sym (extend_nil _)
  add_all-methods t (e ∷ es) k =
      add_all-methods (add_match path_join t e) es k
      ∙ ap (λ o. extend o (keep (under_method k) es)) (push_entry-methods _ _ t e k)
      ∙ extend-keep (under_method k) e es _

  add_all-slow :
      (t : Tables) (es : List Entry)
      → (add_all path_join t es).slow_matches ≡ t.slow_matches ++ keep is_slow es
  unfolding add_all add_match
  add_all-slow t [] = sym (append-nil _)
  add_all-slow t (e ∷ es) =
      add_all-slow (add_match path_join t e) es
      ∙ ap (λ xs. xs ++ keep is_slow es) (push_entry-slow _ _ t e)
      ∙ keep_append is_slow e es t.slow_matches

  -- The tables built from `matches` hold under a pattern and a method exactly the entries with that
  -- pattern and that method (or the star, for an entry without one), under a method exactly the
  -- entries without a pattern that name it, and as slow matches the entries with neither; each list
  -- is in the order of `matches`, and a list that would be empty is undefined.
  pub add_all-buckets :
      (es : List Entry)
      → ((p k : Text)
          → lookup2 p k (add_all path_join no_tables es).path_matches
            ≡ nonempty (keep (under_path p k) es))
        × ((k : Text)
            → lookup k (add_all path_join no_tables es).method_matches
              ≡ nonempty (keep (under_method k) es))
        × ((add_all path_join no_tables es).slow_matches ≡ keep is_slow es)
  unfolding lookup
  add_all-buckets es = (
    λ p k. add_all-paths no_tables es p k,
    λ k. add_all-methods no_tables es k,
    add_all-slow no_tables es,
  )
