-- ===== src/Http/Matchers.antt =====
-- src/modules/router-http.js: makeObjectMatcher, makeGRPCMethodMatcher and makePathMatcher. A matcher
-- that the source leaves undefined or null is `none`. `re_test p s` is `new RegExp(p).test(s)`.
use fgw.Base.{
  ℕ, ◌≡◌, refl, Bool, true, false, not, ◌&&◌, ◌||◌, List, [], ◌∷◌, map, Option, none, some, arith,
  Text, truthy, get_elem?, text_eq, split, starts_with, to_lower, text_equality, lookup, keep, all,
  if◌then◌else◌,
}
use fgw.Http.{MatchType, ValueMatch, GrpcMethod}

-- `o[k] || ''`.
unfoldable pub value_or_empty : Text → List (Text × Text) → Text
value_or_empty k obj = elim (lookup k obj) [ none ↦ [] | some v ↦ v ]

abbrev is_exact : ValueMatch → Bool
is_exact i = elim i.type [
  | none ↦ true
  | some t ↦ elim t [
    | MatchType.exact ↦ true
    | MatchType.regular_expression ↦ false
    | MatchType.other s ↦ false
  ]
]

abbrev is_regex : ValueMatch → Bool
is_regex i = elim i.type [
  | none ↦ false
  | some t ↦ elim t [
    | MatchType.exact ↦ false
    | MatchType.regular_expression ↦ true
    | MatchType.other s ↦ false
  ]
]

abbrev name_value : ValueMatch → Text × Text
name_value i = (to_lower i.name, i.value)

-- `!matcher || matcher(x)`.
abbrev pub passes {ℓ} : {A : Type ℓ} → Option (A → Bool) → A → Bool
passes none x = true
passes (some f) x = f x

module _ (re_test : Text → Text → Bool) where
  unfoldable pub accepts_all : List ValueMatch → List (Text × Text) → Bool
  accepts_all items obj =
      all (λ e. text_eq e.1 (value_or_empty e.0 obj)) (map name_value (keep is_exact items))
      && all (λ e. re_test e.1 (value_or_empty e.0 obj)) (map name_value (keep is_regex items))

  unfoldable pub make_object_matcher : Option (List ValueMatch) → Option (List (Text × Text) → Bool)
  unfolding accepts_all
  make_object_matcher none = none
  make_object_matcher (some []) = none
  make_object_matcher (some (i ∷ items)) = some (accepts_all (i ∷ items))

  -- What one condition asks of an object.
  abbrev pub holds : List (Text × Text) → ValueMatch → Bool
  holds obj i = elim i.type [
    | none ↦ text_eq i.value (value_or_empty (to_lower i.name) obj)
    | some t ↦ elim t [
      | MatchType.exact ↦ text_eq i.value (value_or_empty (to_lower i.name) obj)
      | MatchType.regular_expression ↦ re_test i.value (value_or_empty (to_lower i.name) obj)
      | MatchType.other s ↦ true
    ]
  ]

  accepts_all_cons :
      (t : Option MatchType) (n v : Text) (items : List ValueMatch) (obj : List (Text × Text))
      → let i : ValueMatch = record { type = t; name = n; value = v } in
        accepts_all (i ∷ items) obj ≡ holds obj i && accepts_all items obj
  unfolding accepts_all
  accepts_all_cons none n v items obj = ground arith
  accepts_all_cons (some MatchType.exact) n v items obj = ground arith
  accepts_all_cons (some MatchType.regular_expression) n v items obj = ground arith
  accepts_all_cons (some (MatchType.other s)) n v items obj = ground arith

  pub accepts_all_lem :
      (items : List ValueMatch) (obj : List (Text × Text))
      → accepts_all items obj ≡ all (holds obj) items
  accepts_all_lem [] obj = unfold accepts_all in refl
  accepts_all_lem (i ∷ items) obj =
      rw (accepts_all_cons i.type i.name i.value items obj) (rw (accepts_all_lem items obj) refl)

  -- The matcher of a list of conditions, absent or present, accepts an object exactly when each
  -- condition holds of it by itself: an exact one (also by default) compares the value under the
  -- lower-case name, missing values being empty, a regular expression tests it, and a condition of
  -- another type asks nothing.
  pub make_object_matcher_lem :
      (items : Option (List ValueMatch)) (obj : List (Text × Text))
      → passes (make_object_matcher items) obj
        ≡ elim items [ none ↦ true | some is ↦ all (holds obj) is ]
  unfolding make_object_matcher
  make_object_matcher_lem none obj = refl
  make_object_matcher_lem (some []) obj = refl
  make_object_matcher_lem (some (i ∷ items)) obj = accepts_all_lem (i ∷ items) obj

  -- `!x || x === s`, where an absent and an empty text are both falsy.
  unfoldable pub unset_or : (Text → Bool) → Option Text → Bool
  unset_or f none = true
  unset_or f (some s) = if truthy s then f s else true

  -- makeGRPCMethodMatcher: the function of the service and the method.
  unfoldable pub grpc_check : GrpcMethod → Text → Text → Bool
  unfolding unset_or
  grpc_check g s m = elim g.type [
    | none ↦ unset_or (λ t. text_eq t s) g.service && unset_or (λ t. text_eq t m) g.method
    | some ty ↦ elim ty [
      | MatchType.exact ↦
          unset_or (λ t. text_eq t s) g.service && unset_or (λ t. text_eq t m) g.method
      | MatchType.regular_expression ↦
          unset_or (λ t. re_test t s) g.service && unset_or (λ t. re_test t m) g.method
      | MatchType.other x ↦ false
    ]
  ]

  abbrev part : List Text → ℕ → Text
  part ps i = elim (get_elem? ps i) [ none ↦ [] | some s ↦ s ]

  unfoldable pub grpc_path_matches : GrpcMethod → Text → Bool
  unfolding grpc_check
  grpc_path_matches g path =
      if not (starts_with path (b'/' ∷ []))
      then false
      else (let s = split b'/' path in
          if not (truthy (part s 1)) || not (truthy (part s 2))
          then false
          else grpc_check g (part s 1) (part s 2))
