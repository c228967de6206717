-- ===== src/Gateway/Update.antt =====
-- src/gateway.js: startGateway and updateDirtyResources. What they do outside of the module (running
-- updaters, opening and closing ports) is the list of effects, in order; the listeners that are open
-- are `current`. `gateway_filter` is the argument of makeResourceWatcher.
use fgw.Base.{
  ℕ, Bool, true, false, not, ◌&&◌, List, [], ◌∷◌, ◌++◌, map, flat_map, Option, none, some, Text,
  txt, truthy, text_eq, find, keep, any, if◌then◌else◌,
}
use fgw.Gateway.{
  ParentRef, RouteKind, Route, Listener, ListenerKey, ListenerError, Result, ok, err, Stage, Wire,
  make_listener, make_listener_key, make_router_key, find_route_resources, has_port,
}
use fgw.Gateway
use fgw.Gateway.Dirty.{Kind, Resource, DirtyLists, includes}

pub data Effect : Type 0 where
  run_backend : Text → Effect
  run_router : Text → Listener → List Route → Effect
  run_policy : Kind → Text → Effect
  run_other : Option Resource → Option Resource → Effect
  start : ListenerKey → List Stage → Effect
  failed : ListenerError → Effect
  stop : ListenerKey → Effect

abbrev pub wire_eq : Wire → Wire → Bool
wire_eq Wire.tcp Wire.tcp = true
wire_eq Wire.tcp Wire.udp = false
wire_eq Wire.udp Wire.tcp = false
wire_eq Wire.udp Wire.udp = true

-- isIdentical on two listener keys.
unfoldable pub same_key : ListenerKey → ListenerKey → Bool
same_key a b = text_eq a.0 b.0 && wire_eq a.1 b.1

unfoldable pub add_key : List ListenerKey → ListenerKey → List ListenerKey
unfolding same_key
add_key keys k = if any (λ j. same_key j k) keys then keys else keys ++ k ∷ []

-- The open listeners with the effects so far.
pub record Progress : Type 0 where
  pub keys : List ListenerKey
  pub effects : List Effect

abbrev pub no_dirty : DirtyLists
no_dirty = record { gateways = []; routers = []; backends = []; policies = []; resources = [] }

-- What a run leaves: the open listeners, the dirty lists, what was done, and whether it ended with an
-- exception.
pub record Outcome : Type 0 where
  pub keys : List ListenerKey
  pub effects : List Effect
  pub lists : DirtyLists
  pub thrown : Bool

-- The listener of a dirty router: by its section, or else by its port, the first of the list.
unfoldable pub names_listener : ParentRef → Listener → Bool
names_listener r l =
    if text_eq l.name r.section_name && truthy r.section_name then true else has_port r.port l.port

module _ (routes : RouteKind → List Route) (gateway_filter : Option Gateway.Gateway → Bool) where
  unfoldable pub router_effect : List Gateway.Gateway → ParentRef → List Effect
  unfolding names_listener
  router_effect gateways r =
      if not (text_eq r.kind (txt "Gateway"))
      then []
      else (let gw = find (λ g. text_eq g.name r.name) gateways in
          if not (gateway_filter gw) then [] else elim gw [
            | none ↦ []
            | some g ↦ elim (find (names_listener r) g.listeners) [
              | none ↦ []
              | some l ↦
                  run_router (make_router_key g (make_listener_key l)) l
                    (find_route_resources routes g l)
                  ∷ []
            ]
          ])

abbrev pub is_active : (Option Gateway.Gateway → Bool) → Gateway.Gateway → Bool
is_active gateway_filter gw = truthy gw.name && gateway_filter (some gw)

unfoldable pub stops : List ListenerKey → List ListenerKey → List Effect
unfolding same_key
stops old new = map stop (keep (λ k. not (any (λ j. same_key j k) new)) old)

module _ (make_filters : Wire → List ℕ → Option (List ℕ)) (routes : RouteKind → List Route) where
  -- The body of the loop of startGateway, where `made` says that makeListener is called.
  unfoldable pub open_listener : Bool → Gateway.Gateway → Progress → Listener → Progress
  unfolding add_key
  open_listener false gw p l = record p { keys = add_key p.keys (make_listener_key l) }
  open_listener true gw p l = elim (make_listener make_filters routes gw l) [
    | ok (key, stages) ↦ record {
      keys = add_key p.keys key;
      effects = p.effects ++ start key stages ∷ [];
    }
    | err e ↦ record p { effects = p.effects ++ failed e ∷ [] }
  ]

  unfoldable pub open_all : Bool → Gateway.Gateway → Progress → List Listener → Progress
  unfolding open_listener
  open_all made gw p [] = p
  open_all made gw p (l ∷ ls) = open_all made gw (open_listener made gw p l) ls

  unfoldable pub start_gateway : Gateway.Gateway → List ListenerKey → Progress
  unfolding open_all
  start_gateway gw current = open_all true gw (record { keys = current; effects = [] }) gw.listeners

  module _ (gateway_filter : Option Gateway.Gateway → Bool) where
    unfoldable pub open_gateways : List Text → Progress → List Gateway.Gateway → Progress
    unfolding open_all
    open_gateways dirty p [] = p
    open_gateways dirty p (gw ∷ gws) =
        open_gateways dirty
          (if is_active gateway_filter gw
            then open_all (includes dirty gw.name) gw p gw.listeners
            else p)
          gws

    unfoldable pub update_listeners : List Gateway.Gateway → List Text → List ListenerKey → Progress
    unfolding open_gateways stops
    update_listeners gateways [] current = record { keys = current; effects = [] }
    update_listeners gateways (n ∷ ns) current =
        let p = open_gateways (n ∷ ns) (record { keys = []; effects = [] }) gateways in
        record p { effects = p.effects ++ stops current p.keys }

    -- `throws done e`: a callback of the updaters throws when `e` is done after `done`.
    module _ (throws : List Effect → Effect → Bool) where
      -- Effects in turn, up to one that throws; whether one did.
      unfoldable pub perform : (done todo : List Effect) → List Effect × Bool
      perform done [] = (done, false)
      perform done (e ∷ es) =
          let rest = perform (done ++ e ∷ []) es in
          if throws done e then (done ++ e ∷ [], true) else rest

      abbrev pub updater_effects : List Gateway.Gateway → DirtyLists → List Effect
      updater_effects gateways d =
          map run_backend d.backends
          ++ (flat_map (router_effect routes gateway_filter gateways) d.routers
              ++ map (λ k. run_policy k.kind k.ref_name) d.policies)

      -- After an exception the dirty lists are as before, and the rest of the run is left out: the
      -- listeners too, unless it comes from the updaters of other resources, which run last.
      unfoldable pub update_dirty_resources :
          List Gateway.Gateway → DirtyLists → List ListenerKey → Outcome
      unfolding perform router_effect update_listeners
      update_dirty_resources gateways d current =
          let first = perform [] (updater_effects gateways d) in
          let p = update_listeners gateways d.gateways current in
          let last = perform (first.0 ++ p.effects) (map (λ r. run_other r.0 r.1) d.resources) in
          if first.1
          then record { keys = current; effects = first.0; lists = d; thrown = true }
          else record {
            keys = p.keys;
            effects = last.0;
            lists = if last.1 then d else no_dirty;
            thrown = last.1;
          }
