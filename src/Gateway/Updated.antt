-- ===== src/Gateway/Updated.antt =====
-- src/gateway.js, updateDirtyResources: what reaches the listener of a changed route.
use fgw.Base.{ℕ, ◌≡◌, Bool, true, false, List, Option, Memᴰ, ◌⊎◌}
use fgw.Gateway.{
  ParentRef, RouteKind, Route, Listener, ListenerError, Wire, Result, ok, err, Stage, make_listener,
  make_listener_key, make_router_key, find_route_resources,
}
use fgw.Gateway
use fgw.Gateway.Pending.{IsPending}
use fgw.Gateway.Update.{Effect, Outcome}
use fgw.Gateway.Made.{made}

module _ (make_filters : Wire → List ℕ → Option (List ℕ)) (routes : RouteKind → List Route) where
  module _ (gateway_filter : Option Gateway.Gateway → Bool) where
    -- What a run of updateDirtyResources does for a listener whose parent reference is pending.
    abbrev pub IsUpdated : Gateway.Gateway → Listener → List Effect → Type 0
    IsUpdated gw l effects =
        Memᴰ
          (Effect.run_router (make_router_key gw (make_listener_key l)) l
            (find_route_resources routes gw l))
          effects
        ⊎ Memᴰ (made make_filters routes (make_listener make_filters routes gw l)) effects

    module _ (throws : List Effect → Effect → Bool) where
      -- What a run leaves for a listener whose parent reference was marked: it is updated, or the run
      -- ended with an exception and the reference is still marked for the next run.
      abbrev pub IsServed : Gateway.Gateway → Listener → ParentRef → Outcome → Type 0
      IsServed gw l r o =
          ((o.thrown ≡ false) × IsUpdated gw l o.effects)
          ⊎ ((o.thrown ≡ true) × IsPending r o.lists)
