-- ===== src/Http/Rules/Selected.antt =====
-- src/modules/router-http.js, makeRuleSelector: the entry that is selected is the most specific of
-- those that it is compared with.
use fgw.Base.{◌≡◌, refl, ap, true, List, [], ◌∷◌, Option, some, find, Bool-cases, inl, inr}
use fgw.Http.{Head}
use fgw.Http.Entries.{Entry, Rule, Vars, Platform, match_grpc, find_grpc}
use fgw.Http.Rules.{RouteKind, sorted_entries, select_rule}
use fgw.Http.Rules.Preferred.{AllFit, Outcome, find-sorted_entries}

module _ (platform : Platform) (head : Head) where
  find_grpc-find :
      (es : List Entry)
      → find_grpc true platform es head ≡ find (λ e. match_grpc true platform e head) es
  unfolding find_grpc
  find_grpc-find [] = refl
  find_grpc-find (e ∷ es) = elim (Bool-cases (match_grpc true platform e head)) [
    | inl h ↦ rw h refl
    | inr h ↦ rw h (find_grpc-find es)
  ]

  -- For a GRPCRoute a call is given to an entry that accepts it and than which no entry that accepts
  -- it is more specific, where of two alike the later one in the configuration is preferred; nothing
  -- is selected only where no entry accepts the call. It holds where no path or list of the entries is
  -- longer than 999 and there are at most 1000000 entries.
  pub select_rule-grpc :
      (rules : List Rule) (v : Vars)
      → AllFit rules
      → (o : Option Entry) × (select_rule platform RouteKind.grpc_route rules head v ≡ some (o, v))
        × Outcome (λ e. match_grpc true platform e head) rules o
  unfolding select_rule
  select_rule-grpc rules v fits = (
    find (λ e. match_grpc true platform e head) (sorted_entries rules),
    ap (λ r. some (r, v)) (find_grpc-find (sorted_entries rules)),
    find-sorted_entries (λ e. match_grpc true platform e head) rules fits,
  )
