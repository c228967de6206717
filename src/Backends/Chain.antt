-- ===== src/Backends/Chain.antt =====
-- The pipeline of a target in makeBackendSelectorForRule of src/modules/router-http.js: the timeouts,
-- the filters, the retries and the balancer. `parse_positive` is Number.parseFloat where its result
-- is positive and finite, and `none` where it is not.
use fgw.Base.{
  ℕ, Bool, true, false, not, ◌&&◌, List, [], ◌∷◌, ◌++◌, map, Option, none, some, Text, txt, text_eq,
  if◌then◌else◌,
}

pub data Stage : Type 0 where
  timeout_frontend timeout_backend : ℕ → Stage
  filter : ℕ → Stage
  retry balancer : Stage

-- `rule.timeouts`.
pub record Timeouts : Type 0 where
  pub request : Option Text
  pub backend_request : Option Text

abbrev is_empty : List ℕ → Bool
is_empty [] = true
is_empty (f ∷ fs) = false

module _ (parse_positive : Text → Option ℕ) where
  abbrev parsed : Option Text → Option ℕ
  parsed none = none
  parsed (some s) = parse_positive s

  -- timeoutFrontendPipeline and timeoutBackendPipeline.
  unfoldable pub frontend_timeout : Option Timeouts → List Stage
  frontend_timeout none = []
  frontend_timeout (some t) = elim (parsed t.request) [
    | none ↦ []
    | some n ↦ Stage.timeout_frontend n ∷ []
  ]

  unfoldable pub backend_timeout : Option Timeouts → List Stage
  backend_timeout none = []
  backend_timeout (some t) = elim (parsed t.backend_request) [
    | none ↦ []
    | some n ↦ Stage.timeout_backend n ∷ []
  ]

  -- forwarder: what stands in front of the balancer goes there by unshift.
  unfoldable pub forwarder : Option Timeouts → Bool → Bool → Text → List Stage
  unfolding backend_timeout
  forwarder timeouts has_retry has_backend protocol =
      let last = if has_backend then Stage.balancer ∷ [] else [] in
      if text_eq protocol (txt "http")
      then backend_timeout timeouts ++ ((if has_retry then Stage.retry ∷ [] else []) ++ last)
      else last

  -- The pipeline, with `none` for response500.
  unfoldable pub make_chain : Option Timeouts → Bool → Bool → List ℕ → Text → Option (List Stage)
  unfolding frontend_timeout forwarder
  make_chain timeouts has_retry has_backend filters protocol =
      if not has_backend && is_empty filters
      then none
      else some (
          frontend_timeout timeouts
          ++ (map Stage.filter filters ++ forwarder timeouts has_retry has_backend protocol))
