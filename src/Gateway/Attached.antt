-- ===== src/Gateway/Attached.antt =====
-- src/gateway.js: the routes that are attached to a listener when it is opened, against the listeners
-- whose routers are updated when such a route changes.
use fgw.Base.{
  ◌≡◌, refl, Bool, true, false, ◌&&◌, List, [], Option, some, truthy, text_eq, text_eq_refl, ◌==◌,
  ==_refl, if◌then◌else◌,
}
use fgw.Gateway.{ParentRef, RouteKind, Route, Listener, refers_to, has_port}
use fgw.Gateway
use fgw.Gateway.Update.{router_effect}

module _ (routes : RouteKind → List Route) (gateway_filter : Option Gateway.Gateway → Bool) where
  -- A parent reference without a kind attaches a route to a listener, but when it is dirty no router
  -- is updated for it.
  pub router_effect-kindless :
      (gateways : List Gateway.Gateway) (gw : Gateway.Gateway) (l : Listener) (r : ParentRef)
      → r.kind ≡ []
      → r.name ≡ gw.name
      → r.port ≡ some l.port
      → (refers_to gw l r ≡ true) × (router_effect routes gateway_filter gateways r ≡ [])
  unfolding refers_to router_effect text_eq
  router_effect-kindless gateways gw l r k n p = (
    rw (k, n, p, text_eq_refl gw.name) (if_same (text_eq r.section_name l.name && truthy l.name) l),
    rw k refl,
  )
    where
      if_same : (b : Bool) (l : Listener) → (if b then true else l.port == l.port) ≡ true
      if_same true l = refl
      if_same false l = ==_refl l.port
