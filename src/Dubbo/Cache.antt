-- ===== src/Dubbo/Cache.antt =====
-- The cache of Selections of src/modules/router-dubbo.js.
use fgw.Base.{
  ◌≡◌, refl, ap, sym, ◌∙◌, Bool, List, [], ◌∷◌, Option, none, some, Text, join, split, split_first,
  split-none, index_of, All,
}
use fgw.Dubbo.{Body, fields, cache_key, DubboMatch, DubboRule, find_entry, State, handle}

abbrev pub HasNoSpace : Text → Type 0
HasNoSpace s = index_of 32 s ≡ none

split-cache_key : (b : Body) → All HasNoSpace (fields b) → split 32 (cache_key b) ≡ fields b
unfolding cache_key join
split-cache_key b (s, (v, (m, (g, u)))) =
    rw
      (
        split_first 32 b.service _ s,
        split_first 32 b.version _ v,
        split_first 32 b.method _ m,
        split-none 32 b.signature g,
      )
      refl

abbrev body_of : List Text → Body
body_of (s ∷ v ∷ m ∷ g ∷ more) = record { service = s; version = v; method = m; signature = g }
body_of ss = record { service = []; version = []; method = []; signature = [] }

-- Two requests without white space in their fields share a cached selection only if every field is
-- the same, so that the entry that was selected is the one that would be selected again.
pub find_entry-cache_key :
    (re_test : Text → Text → Bool) (rules : List (DubboRule re_test)) (a b : Body)
    → All HasNoSpace (fields a)
    → All HasNoSpace (fields b)
    → cache_key a ≡ cache_key b
    → find_entry re_test rules a ≡ find_entry re_test rules b
find_entry-cache_key re_test rules a b h k e =
    let same : fields a ≡ fields b =
      sym (split-cache_key a h) ∙ ap (split 32) e ∙ split-cache_key b k in
    let same_body : a ≡ b = ap body_of same in ap (find_entry re_test rules) same_body

module _ (re_test : Text → Text → Bool) {Cache Selection Balancers : Type 0}
    (get : Text → Cache → Option Selection) (put : Text → Option Selection → Cache → Cache)
    (run : DubboRule re_test → Balancers → Selection × Balancers) where
  hit :
      (rules : List (DubboRule re_test)) (b : Body) (v : Selection) (st : State re_test get put run)
      → get (cache_key b) st.cache ≡ some v
      → (handle re_test get put run rules b st).0 ≡ st.matched
  unfolding handle
  hit rules b v st c = rw c refl

  miss :
      (rules : List (DubboRule re_test)) (a : Body) (e : DubboMatch × DubboRule re_test)
      (st : State re_test get put run)
      → get (cache_key a) st.cache ≡ none
      → find_entry re_test rules a ≡ some e
      → (handle re_test get put run rules a st).1.matched ≡ some e.1
  unfolding handle
  miss rules a e st n f = rw (n, f) refl

  -- A request that is answered from the cache gets the route and the rule of the request before it:
  -- whatever its fields are, the rule in its context is the one that was found for the other.
  pub handle-stale :
      (rules : List (DubboRule re_test)) (a b : Body) (e : DubboMatch × DubboRule re_test)
      (v : Selection) (st : State re_test get put run)
      → get (cache_key a) st.cache ≡ none
      → find_entry re_test rules a ≡ some e
      → get (cache_key b) (handle re_test get put run rules a st).1.cache ≡ some v
      → (handle re_test get put run rules b (handle re_test get put run rules a st).1).0 ≡ some e.1
  handle-stale rules a b e v st n f c =
      hit rules b v (handle re_test get put run rules a st).1 c ∙ miss rules a e st n f
