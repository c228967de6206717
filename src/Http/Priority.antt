-- ===== src/Http/Priority.antt =====
-- src/modules/router-http.js, getMatchPriority: the rank of a match as a text, and its order.
use fgw.Base.{
  ℕ, suc, ◌<◌, ◌^◌, ◌≡◌, refl, Bool, ◌&&◌, ◌||◌, List, [], ◌∷◌, ◌++◌, Option, none, some, arith,
  Text, txt, length, join, to_text, pad_start, text_lt, ltb, ◌==◌, if◌then◌else◌, text_lt-append,
  text_lt-pad_start, text_eq-pad_start, length-pad_start,
}
use fgw.Http.{PathType, PathMatch, ValueMatch, MethodMatch, RouteMatch, has_method}

-- `ranks[0]` and `ranks[1]`, by the type of the path.
unfoldable pub path_ranks : Option PathMatch → Text × Text
path_ranks none = (txt "0", txt "000")
path_ranks (some p) = elim p.type [
  | none ↦ (txt "0", txt "000")
  | some t ↦ elim t [
    | PathType.exact ↦ (txt "3", txt "000")
    | PathType.path_prefix ↦ (txt "2", pad_start 3 (to_text (length p.value)))
    | PathType.regular_expression ↦ (txt "1", pad_start 3 (to_text (length p.value)))
    | PathType.other s ↦ (txt "0", txt "000")
  ]
]

-- `items?.length || 0`.
abbrev pub count_items : Option (List ValueMatch) → ℕ
count_items none = 0
count_items (some items) = length items

unfoldable pub get_match_priority : RouteMatch → ℕ → Text
unfolding path_ranks
get_match_priority m index = join b'/' (
    (path_ranks m.path).0
    ∷ (path_ranks m.path).1
    ∷ (if has_method m.method then txt "1" else txt "0")
    ∷ pad_start 3 (to_text (count_items m.headers))
    ∷ pad_start 3 (to_text (count_items m.query_params))
    ∷ pad_start 6 (to_text index)
    ∷ [])

-- The specificity of a match as numbers: the kind of its path, the length of a prefix or an
-- expression, whether it names a method, and how many headers and parameters it names.
abbrev pub path_kind : Option PathMatch → ℕ
path_kind none = 0
path_kind (some p) = elim p.type [
  | none ↦ 0
  | some t ↦ elim t [
    | PathType.exact ↦ 3
    | PathType.path_prefix ↦ 2
    | PathType.regular_expression ↦ 1
    | PathType.other s ↦ 0
  ]
]

abbrev pub path_length : Option PathMatch → ℕ
path_length none = 0
path_length (some p) = elim p.type [
  | none ↦ 0
  | some t ↦ elim t [
    | PathType.exact ↦ 0
    | PathType.path_prefix ↦ length p.value
    | PathType.regular_expression ↦ length p.value
    | PathType.other s ↦ 0
  ]
]

abbrev pub method_count : MethodMatch → ℕ
method_count m = if has_method m then 1 else 0

-- Compares one number and, on a tie, goes on with the rest.
abbrev pub then_by : ℕ → ℕ → Bool → Bool
then_by a b rest = ltb a b || ((a == b) && rest)

-- The lexicographic order of specificity; on a tie the index decides.
abbrev pub less_specific : RouteMatch → ℕ → RouteMatch → ℕ → Bool
less_specific m i n j = then_by (path_kind m.path) (path_kind n.path) (
    then_by (path_length m.path) (path_length n.path) (
      then_by (method_count m.method) (method_count n.method) (
        then_by (count_items m.headers) (count_items n.headers)
          (then_by (count_items m.query_params) (count_items n.query_params) (ltb i j)))))

-- The sizes for which the padded fields have their width.
pub record Fits (m : RouteMatch) (i : ℕ) : Type 0 where
  pub path_fits : path_length m.path < 1000
  pub headers_fit : count_items m.headers < 1000
  pub params_fit : count_items m.query_params < 1000
  pub index_fits : i < 1000000

abbrev HasRanks : Option PathMatch → Type 0
HasRanks p =
    path_ranks p ≡ (pad_start 1 (to_text (path_kind p)), pad_start 3 (to_text (path_length p)))

path_ranks_of_type :
    (t : Option PathType) (v : Text) → HasRanks (some (record { type = t; value = v }))
unfolding path_ranks to_text pad_start
path_ranks_of_type none v = refl
path_ranks_of_type (some PathType.exact) v = refl
path_ranks_of_type (some PathType.path_prefix) v = refl
path_ranks_of_type (some PathType.regular_expression) v = refl
path_ranks_of_type (some (PathType.other s)) v = refl

path_ranks_lem : (p : Option PathMatch) → HasRanks p
unfolding path_ranks to_text pad_start
path_ranks_lem none = refl
path_ranks_lem (some p) = path_ranks_of_type p.type p.value

method_rank_lem :
    (m : MethodMatch)
    → (if has_method m then txt "1" else txt "0") ≡ pad_start 1 (to_text (method_count m))
unfolding to_text pad_start
method_rank_lem MethodMatch.absent = refl
method_rank_lem (MethodMatch.verb []) = refl
method_rank_lem (MethodMatch.verb (c ∷ s)) = refl
method_rank_lem (MethodMatch.call g) = refl

path_kind_small : (p : Option PathMatch) → path_kind p < 10
path_kind_small none = omega arith
path_kind_small (some p) = go p.type
  where
    go : (t : Option PathType) → path_kind (some (record p { type = t })) < 10
    go none = omega arith
    go (some PathType.exact) = omega arith
    go (some PathType.path_prefix) = omega arith
    go (some PathType.regular_expression) = omega arith
    go (some (PathType.other s)) = omega arith

method_count_small : (m : MethodMatch) → method_count m < 10
method_count_small m = ground arith

module _ (w a b : ℕ) (ha : a < 10 ^ suc w) (hb : b < 10 ^ suc w) (r s : Text) where
  field_lt :
      text_lt
        (pad_start (suc w) (to_text a) ++ (b'/' ∷ r))
        (pad_start (suc w) (to_text b) ++ (b'/' ∷ s))
      ≡ then_by a b (text_lt r s)
  unfolding text_lt
  field_lt =
      rw
        (text_lt-append (pad_start (suc w) (to_text a)) (pad_start (suc w) (to_text b)) (b'/' ∷ r)
          (b'/' ∷ s) (length-pad_start w a b ha hb))
        (rw (text_lt-pad_start w a b ha hb, text_eq-pad_start w a b ha hb) refl)

-- The priority text of one match is below that of another exactly when it is less specific: by the
-- kind of the path, the length of its value, the method, the headers and the parameters in this
-- order, and on a tie the match with the smaller index is below. It holds where no path or list is
-- longer than 999 and no index is above 999999, as the fields are padded to these widths.
pub text_lt-get_match_priority :
    (m n : RouteMatch) (i j : ℕ)
    → Fits m i
    → Fits n j
    → text_lt (get_match_priority m i) (get_match_priority n j) ≡ less_specific m i n j
unfolding get_match_priority join
text_lt-get_match_priority m n i j f g =
    rw
      (
        path_ranks_lem m.path,
        path_ranks_lem n.path,
        method_rank_lem m.method,
        method_rank_lem n.method,
      )
      (rw
        (field_lt 0 (path_kind m.path) (path_kind n.path) (path_kind_small m.path)
          (path_kind_small n.path) _ _)
        (rw (field_lt 2 (path_length m.path) (path_length n.path) f.path_fits g.path_fits _ _) (
          rw
            (field_lt 0 (method_count m.method) (method_count n.method)
              (method_count_small m.method) (method_count_small n.method) _ _)
            (rw
              (field_lt 2 (count_items m.headers) (count_items n.headers) f.headers_fit
                g.headers_fit _ _)
              (rw
                (field_lt 2 (count_items m.query_params) (count_items n.query_params) f.params_fit
                  g.params_fit _ _)
                (rw (text_lt-pad_start 5 i j f.index_fits g.index_fits) refl))))))
