-- ===== src/Gateway.antt =====
-- src/gateway.js: listeners, their keys, the module and the pipelines of a listener, and the routes
-- attached to it. A missing text of the configuration is the empty one, which the source treats
-- alike; a missing number is `none`.
pub mod Ports
pub mod Made
pub mod Serving
pub mod Dirty
pub mod Pending
pub mod Updated
pub mod Watcher
pub mod Update
pub mod Attached
use fgw.Base.{
  ℕ, ◌≡◌, Bool, true, false, not, ◌&&◌, ◌||◌, List, [], ◌∷◌, ◌++◌, map, flat_map, Option, none,
  some, Text, txt, truthy, text_eq, index_of, to_text, join, keep, any, if◌then◌else◌, ◌==◌,
}

pub data Protocol : Type 0 where
  http https tls tcp udp dubbo : Protocol
  other : Text → Protocol

pub data TlsMode : Type 0 where
  terminate passthrough : TlsMode
  other : Text → TlsMode

pub data Wire : Type 0 where
  tcp udp : Wire

pub record Listener : Type 0 where
  pub name : Text
  pub protocol : Protocol
  pub tls_mode : Option TlsMode
  pub address : Text
  pub port : ℕ
  pub filters : Option (List ℕ)

pub record Gateway : Type 0 where
  pub name : Text
  pub listeners : List Listener

pub record ParentRef : Type 0 where
  pub kind : Text
  pub name : Text
  pub port : Option ℕ
  pub section_name : Text

pub data RouteKind : Type 0 where
  http_route grpc_route tcp_route tls_route udp_route dubbo_route : RouteKind

-- A route as its identity and `spec.parentRefs`, where that is an array, with the names of the
-- backends of its rules.
pub record Route : Type 0 where
  pub id : ℕ
  pub parent_refs : Option (List ParentRef)
  pub backend_names : Option (List Text)

abbrev pub ListenerKey : Type 0
ListenerKey = Text × Wire

-- makeListenerKey.
unfoldable pub make_listener_key : Listener → ListenerKey
make_listener_key l =
    let address = if truthy l.address then l.address else txt "0.0.0.0" in
    let port : Text = elim (index_of b':' address) [
      | some i ↦ (b'[' ∷ address ++ txt "]:") ++ to_text l.port
      | none ↦ (address ++ txt ":") ++ to_text l.port
    ] in
    (port, elim l.protocol [ Protocol.udp ↦ Wire.udp | _ ↦ Wire.tcp ])

abbrev pub wire_text : Wire → Text
wire_text Wire.tcp = txt "tcp"
wire_text Wire.udp = txt "udp"

-- makeRouterKey.
unfoldable pub make_router_key : Gateway → ListenerKey → Text
make_router_key gw k = (join b':' (k.0 ∷ wire_text k.1 ∷ []) ++ txt ":") ++ gw.name

pub data RouteModule : Type 0 where
  router_http router_tcp router_tls router_udp router_dubbo : RouteModule

-- The exceptions of makeListener.
pub data ListenerError : Type 0 where
  unknown_tls_mode : Option TlsMode → ListenerError
  unknown_protocol : Protocol → ListenerError
  filter_failed : ListenerError

pub data Result (A : Type 0) : Type 0 where
  ok : A → Result A
  err : ListenerError → Result A

-- The first switch of makeListener: the module of the router, and whether TLS is terminated.
unfoldable pub route_module : Listener → Result (RouteModule × Bool)
route_module l = elim l.protocol [
  | Protocol.http ↦ ok (router_http, false)
  | Protocol.https ↦ ok (router_http, true)
  | Protocol.tls ↦ elim l.tls_mode [
    | none ↦ err (unknown_tls_mode none)
    | some m ↦ elim m [
      | TlsMode.terminate ↦ ok (router_tcp, true)
      | TlsMode.passthrough ↦ ok (router_tls, false)
      | TlsMode.other s ↦ err (unknown_tls_mode (some (TlsMode.other s)))
    ]
  ]
  | Protocol.tcp ↦ ok (router_tcp, false)
  | Protocol.udp ↦ ok (router_udp, false)
  | Protocol.dubbo ↦ ok (router_dubbo, false)
  | Protocol.other s ↦ err (unknown_protocol (Protocol.other s))
]

-- `routeKinds` of findRouteResources.
unfoldable pub route_kinds : Listener → List RouteKind
route_kinds l = elim l.protocol [
  | Protocol.http ↦ http_route ∷ grpc_route ∷ []
  | Protocol.https ↦ http_route ∷ grpc_route ∷ []
  | Protocol.tls ↦ elim l.tls_mode [
    | none ↦ []
    | some m ↦ elim m [
      | TlsMode.terminate ↦ tcp_route ∷ []
      | TlsMode.passthrough ↦ tls_route ∷ []
      | TlsMode.other s ↦ []
    ]
  ]
  | Protocol.tcp ↦ tcp_route ∷ []
  | Protocol.udp ↦ udp_route ∷ []
  | Protocol.dubbo ↦ dubbo_route ∷ []
  | Protocol.other s ↦ []
]

abbrev pub has_port : Option ℕ → ℕ → Bool
has_port none p = false
has_port (some q) p = q == p

-- The test of findRouteResources on one parent.
unfoldable pub refers_to : Gateway → Listener → ParentRef → Bool
refers_to gw l r =
    if truthy r.kind && not (text_eq r.kind (txt "Gateway"))
    then false
    else (if not (text_eq r.name gw.name)
        then false
        else (if text_eq r.section_name l.name && truthy l.name
            then true
            else has_port r.port l.port))

unfoldable pub is_attached : Gateway → Listener → Route → Bool
unfolding refers_to
is_attached gw l r = elim r.parent_refs [ none ↦ false | some refs ↦ any (refers_to gw l) refs ]

-- findRouteResources; `routes` is `resources.list` of a kind.
unfoldable pub find_route_resources : (RouteKind → List Route) → Gateway → Listener → List Route
unfolding route_kinds is_attached
find_route_resources routes gw l = keep (is_attached gw l) (flat_map routes (route_kinds l))

-- What stands in the pipeline of a listener, in order.
pub data Stage : Type 0 where
  filter : ℕ → Stage
  terminate_tls : Stage
  router : RouteModule → Text → List Route → Stage

-- What makeListener hands to pipy.listen, with the key that it returns. `make_filters` is
-- makeFilters, of which the exception is `none`.
unfoldable pub make_listener :
    (Wire → List ℕ → Option (List ℕ))
    → (RouteKind → List Route)
    → Gateway
    → Listener
    → Result (ListenerKey × List Stage)
unfolding make_listener_key route_module find_route_resources make_router_key
make_listener make_filters routes gw l =
    let key = make_listener_key l in
    elim (route_module l) [
      | err e ↦ err e
      | ok (m, term_tls) ↦
          (let last = router m (make_router_key gw key) (find_route_resources routes gw l) ∷ [] in
            let stages = if term_tls then terminate_tls ∷ last else last in
            elim l.filters [
              | none ↦ ok (key, stages)
              | some fs ↦ elim (make_filters key.1 fs) [
                | none ↦ err filter_failed
                | some made ↦ ok (key, map filter made ++ stages)
              ]
            ])
    ]
