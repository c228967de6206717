-- ===== src/Tests/Listeners.antt =====
-- A gateway with two listeners on one port, and routes that refer to it.
use fgw.Base.{
  ℕ, ◌≡◌, Bool, true, false, List, [], ◌∷◌, Option, none, some, txt, text_eq, index_of, to_text,
}
use fgw.Gateway.{
  Protocol, Wire, Listener, ListenerKey, ParentRef, RouteKind, Route, http_route, make_listener,
}
use fgw.Gateway
use fgw.Gateway.Dirty.{Kind, Resource, DirtyLists}
use fgw.Gateway.Watcher.{Change}
use fgw.Gateway.Update.{Effect, same_key, update_listeners, no_dirty}
use fgw.Gateway.Ports.{serves, serve_all}
use fgw.Gateway.Serving.{update_listeners-serves}

abbrev web : Listener
web = record {
  name = txt "web";
  protocol = Protocol.http;
  tls_mode = none;
  address = [];
  port = 80;
  filters = none;
}

abbrev alt : Listener
alt = record {
  name = txt "alt";
  protocol = Protocol.udp;
  tls_mode = none;
  address = [];
  port = 80;
  filters = none;
}

abbrev gateway : Gateway.Gateway
gateway = record { name = txt "gw"; listeners = web ∷ alt ∷ [] }

abbrev by_port : ParentRef
by_port = record { kind = txt "Gateway"; name = txt "gw"; port = some 80; section_name = [] }

abbrev no_kind : ParentRef
no_kind = record { kind = []; name = txt "gw"; port = some 80; section_name = [] }

abbrev no_routes : RouteKind → List Route
no_routes k = []

abbrev every : Option Gateway.Gateway → Bool
every none = false
every (some g) = true

abbrev no_filters : Wire → List ℕ → Option (List ℕ)
no_filters w fs = some fs

abbrev web_key : ListenerKey
web_key = (txt "0.0.0.0:80", Wire.tcp)

abbrev old_key : ListenerKey
old_key = (txt "0.0.0.0:8080", Wire.tcp)

abbrev resource : Kind → Resource
resource k = record {
  id = 1;
  kind = k;
  name = txt "r";
  parent_refs = some (by_port ∷ []);
  target_refs = none;
}

update_listeners-serves_example :
    (serves old_key (
        serve_all
          (update_listeners no_filters no_routes every
            (gateway ∷ [])
            (txt "gw" ∷ [])
            (old_key ∷ [])).effects
          (old_key ∷ []))
      ≡ false)
    × (serves old_key
          (update_listeners no_filters no_routes every
            (gateway ∷ [])
            (txt "gw" ∷ [])
            (old_key ∷ [])).keys
        ≡ false)
unfolding text_eq make_listener index_of to_text same_key
update_listeners-serves_example =
    update_listeners-serves no_filters no_routes every (gateway ∷ []) (txt "gw") [] (old_key ∷ [])
      old_key

abbrev create_route : Change
create_route = Change.create (resource (Kind.route http_route))

abbrev change_gateway : Change
change_gateway = Change.create (resource Kind.gateway)

-- What the two changes leave: the gateway `r` is dirty, and the router of the route still is.
abbrev both_dirty : DirtyLists
both_dirty = record no_dirty { gateways = txt "r" ∷ []; routers = by_port ∷ [] }

abbrev quiet : List Effect → Effect → Bool
quiet done e = false
