-- ===== src/Dubbo.antt =====
-- src/modules/router-dubbo.js, makeRouter: the matches in the order of priority, the selection by the
-- fields of a request, and the cache of Selections. The cache is Pipy's, a parameter: `get` and
-- `put` are its methods; `run` is the function that makeBackendSelector returns for a rule, with the
-- state of its load balancer.
pub mod Cache
use fgw.Base.{
  ℕ, ◌≡◌, refl, Bool, true, false, not, ◌&&◌, ◌||◌, List, [], ◌∷◌, ◌++◌, map, flat_map, Option,
  none, some, arith, Text, txt, truthy, text_eq, text_lt, join, sort, ltb, ◌==◌, find,
  if◌then◌else◌, length,
}

pub data MatchKind : Type 0 where
  exact : MatchKind
  regular_expression : MatchKind
  other : MatchKind

pub record DubboMatch : Type 0 where
  pub kind : MatchKind
  pub service : Option Text
  pub version : Option Text
  pub method : Option Text
  pub signature : Option Text

-- body[1] to body[4].
pub record Body : Type 0 where
  pub service : Text
  pub version : Text
  pub method : Text
  pub signature : Text

pub data Rank : Type 0 where
  num : ℕ → Rank
  str : Text → Rank

abbrev or_empty_text : Option Text → Text
or_empty_text none = []
or_empty_text (some s) = s

-- getMatchPriority.
unfoldable pub get_match_priority : DubboMatch → List Rank
get_match_priority m = elim m.kind [
  | MatchKind.exact ↦
      Rank.num 3
      ∷ Rank.str (or_empty_text m.service)
      ∷ Rank.str (or_empty_text m.version)
      ∷ Rank.str (or_empty_text m.method)
      ∷ Rank.str (or_empty_text m.signature)
      ∷ []
  | MatchKind.regular_expression ↦
      Rank.num 1
      ∷ Rank.num (length (or_empty_text m.service))
      ∷ Rank.num (length (or_empty_text m.version))
      ∷ Rank.num (length (or_empty_text m.method))
      ∷ Rank.num (length (or_empty_text m.signature))
      ∷ []
  | MatchKind.other ↦ Rank.num 0 ∷ Rank.num 0 ∷ Rank.num 0 ∷ Rank.num 0 ∷ Rank.num 0 ∷ []
]

abbrev same_rank : Rank → Rank → Bool
same_rank (num a) (num b) = a == b
same_rank (num a) (str b) = false
same_rank (str a) (num b) = false
same_rank (str a) (str b) = text_eq a b

-- `a > b`. The ranks of two kinds differ already in the first place, which is a number, so that a
-- text is never compared with a number.
abbrev greater_rank : Rank → Rank → Bool
greater_rank (num a) (num b) = ltb b a
greater_rank (num a) (str b) = false
greater_rank (str a) (num b) = false
greater_rank (str a) (str b) = text_lt b a

-- Whether the comparator of the sort is -1: the first ranks that differ decide.
unfoldable pub ranks_before : List Rank → List Rank → Bool
ranks_before [] bs = false
ranks_before (a ∷ as') [] = false
ranks_before (a ∷ as') (b ∷ bs) =
    let rest = ranks_before as' bs in if same_rank a b then rest else greater_rank a b

module _ (re_test : Text → Text → Bool) where
  -- makeStringMatcher, with `none` for null, applied to a field: a missing matcher passes.
  unfoldable pub string_passes : MatchKind → Option Text → Text → Bool
  string_passes k none s = true
  string_passes k (some t) s =
      if truthy t
      then elim k [
        | MatchKind.exact ↦ text_eq s t
        | MatchKind.regular_expression ↦ re_test t s
        | MatchKind.other ↦ true
      ]
      else true

  -- matchFunc, without the two variables that it sets.
  unfoldable pub matches_body : DubboMatch → Body → Bool
  unfolding string_passes
  matches_body m b =
      string_passes m.kind m.service b.service
      && (string_passes m.kind m.version b.version
          && (string_passes m.kind m.method b.method
              && string_passes m.kind m.signature b.signature))

  -- A rule with its resource and its matches, if it has any.
  pub record DubboRule : Type 0 where
    pub matches : Option (List DubboMatch)
    pub name : Text
    pub resource : Text

  abbrev pub no_match : DubboMatch
  no_match = record {
    kind = MatchKind.other;
    service = none;
    version = none;
    method = none;
    signature = none;
  }

  unfoldable pub entries_of : DubboRule → List (DubboMatch × DubboRule)
  entries_of r = elim r.matches [ none ↦ (no_match, r) ∷ [] | some ms ↦ map (λ m. (m, r)) ms ]

  abbrev pub entry_before : DubboMatch × DubboRule → DubboMatch × DubboRule → Bool
  entry_before a b = ranks_before (get_match_priority a.0) (get_match_priority b.0)

  unfoldable pub sorted_matches : List DubboRule → List (DubboMatch × DubboRule)
  unfolding entries_of
  sorted_matches rules = sort entry_before (flat_map entries_of rules)

  unfoldable pub find_entry : List DubboRule → Body → Option (DubboMatch × DubboRule)
  unfolding sorted_matches matches_body
  find_entry rules b = find (λ e. matches_body e.0 b) (sorted_matches rules)

-- The four fields, and the key of the cache.
abbrev pub fields : Body → List Text
fields b = b.service ∷ b.version ∷ b.method ∷ b.signature ∷ []

unfoldable pub cache_key : Body → Text
cache_key b = join 32 (fields b)

module _ (re_test : Text → Text → Bool) {Cache Selection Balancers : Type 0}
    (get : Text → Cache → Option Selection) (put : Text → Option Selection → Cache → Cache)
    (run : DubboRule re_test → Balancers → Selection × Balancers) where
  -- The variables of the module and of the router.
  pub record State : Type 0 where
    pub cache : Cache
    pub balancers : Balancers
    pub selection : Option Selection
    pub matched : Option (DubboRule re_test)

  abbrev take_entry : Option (DubboMatch × DubboRule re_test) → State → State
  take_entry none st = record st { selection = none }
  take_entry (some e) st = record st {
    selection = some (run e.1 st.balancers).0;
    balancers = (run e.1 st.balancers).1;
    matched = some e.1;
  }

  -- The function that makeRuleSelector returns.
  unfoldable pub select : List (DubboRule re_test) → Body → State → State
  unfolding find_entry
  select rules b st = take_entry (find_entry re_test rules b) st

  abbrev keep_selection : Text → State → State
  keep_selection k st = record st { cache = put k st.selection st.cache }

  abbrev use_cached : Option Selection → Text → State → State → State
  use_cached (some v) k st fresh = record st { selection = some v }
  use_cached none k st fresh = keep_selection k fresh

  -- The function that makeRouter returns.
  unfoldable pub route : List (DubboRule re_test) → Body → State → State
  unfolding cache_key select
  route rules b st = use_cached (get (cache_key b) st.cache) (cache_key b) st (select rules b st)

  abbrev context_of : Option Selection → Option (DubboRule re_test) → Option (DubboRule re_test)
  context_of none r = none
  context_of (some v) r = r

  -- replaceMessage of handleRequest: the route and the rule that the context of the request gets.
  unfoldable pub handle :
      List (DubboRule re_test) → Body → State → Option (DubboRule re_test) × State
  unfolding route
  handle rules b st = let st' = route rules b st in (context_of st'.selection st'.matched, st')
