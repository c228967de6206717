-- ===== src/Gateway/Serving.antt =====
-- src/gateway.js, updateDirtyResources: the ports that are served before and after an update, as the
-- calls of pipy.listen leave them.
use fgw.Base.{
  ℕ, ◌≡◌, refl, ap, ◌∙◌, Bool, true, false, not, ◌&&◌, ◌||◌, List, [], ◌∷◌, Option, none, some,
  Text, any, any-mem, any_of_mem, keep, Bool-cases, inl, inr, &&_iff,
}
use fgw.Gateway.{
  RouteKind, Route, Listener, ListenerKey, Wire, Result, ok, err, Stage, make_listener,
  make_listener_key,
}
use fgw.Gateway
use fgw.Gateway.Dirty.{includes}
use fgw.Gateway.Update.{
  Effect, Progress, same_key, open_listener, open_all, open_gateways, is_active, stops,
  update_listeners,
}
use fgw.Gateway.Ports.{
  same_port, serves, serve, serve_all, or_false, or_comm, or_assoc, settled, serves-add_key,
  serve_all-append, serve_all-stop, serves-gone, any-same_key,
}

module _ (make_filters : Wire → List ℕ → Option (List ℕ)) (routes : RouteKind → List Route) where
  -- The key that makeListener returns, of a gateway that is dirty, or makeListenerKey; none where
  -- makeListener throws.
  abbrev pub key_of : (is_dirty : Bool) → Gateway.Gateway → Listener → Option ListenerKey
  key_of false gw l = some (make_listener_key l)
  key_of true gw l = elim (make_listener make_filters routes gw l) [
    | ok (key, stages) ↦ some key
    | err e ↦ none
  ]

  abbrev is_key : Option ListenerKey → ListenerKey → Bool
  is_key none k = false
  is_key (some j) k = same_port j k

  module _ (k : ListenerKey) where
    -- A listener stands for the port, and a listener is made for it.
    abbrev pub wants : Bool → Gateway.Gateway → Listener → Bool
    wants is_dirty gw l = is_key (key_of is_dirty gw l) k

    abbrev pub makes : Bool → Gateway.Gateway → Listener → Bool
    makes is_dirty gw l = is_dirty && is_key (key_of is_dirty gw l) k

    open_listener-keys :
        (b : Bool) (gw : Gateway.Gateway) (p : Progress) (l : Listener)
        → serves k (open_listener make_filters routes b gw p l).keys
          ≡ serves k p.keys || wants b gw l
    unfolding open_listener
    open_listener-keys false gw p l = serves-add_key k p.keys (make_listener_key l)
    open_listener-keys true gw p l = of_result (make_listener make_filters routes gw l) refl
      where
        of_result :
            (r : Result (ListenerKey × List Stage))
            → make_listener make_filters routes gw l ≡ r
            → serves k (open_listener make_filters routes true gw p l).keys
              ≡ serves k p.keys || wants true gw l
        of_result (ok (key, stages)) e = rw (e, open_listener, key_of) (serves-add_key k p.keys key)
        of_result (err x) e = rw (e, open_listener, key_of) (or_false (serves k p.keys))

    open_listener-ports :
        (current : List ListenerKey) (b : Bool) (gw : Gateway.Gateway) (p : Progress) (l : Listener)
        → serves k (serve_all (open_listener make_filters routes b gw p l).effects current)
          ≡ serves k (serve_all p.effects current) || makes b gw l
    unfolding open_listener serve_all serve
    open_listener-ports current false gw p l = or_false (serves k (serve_all p.effects current))
    open_listener-ports current true gw p l =
        of_result (make_listener make_filters routes gw l) refl
      where
        of_result :
            (r : Result (ListenerKey × List Stage))
            → make_listener make_filters routes gw l ≡ r
            → serves k (serve_all (open_listener make_filters routes true gw p l).effects current)
              ≡ serves k (serve_all p.effects current) || makes true gw l
        of_result (ok (key, stages)) e =
            rw (e, open_listener, key_of)
              (ap (serves k) (serve_all-append p.effects (Effect.start key stages ∷ []) current)
                ∙ or_comm (same_port key k) (serves k (serve_all p.effects current)))
        of_result (err x) e =
            rw (e, open_listener, key_of)
              (ap (serves k) (serve_all-append p.effects (Effect.failed x ∷ []) current)
                ∙ or_false (serves k (serve_all p.effects current)))

  -- What each listener adds to a measure of the progress, all of them add.
  module _ (f : Progress → Bool) (g : Bool → Gateway.Gateway → Listener → Bool)
      (step : (b : Bool) (gw : Gateway.Gateway) (p : Progress) (l : Listener)
        → f (open_listener make_filters routes b gw p l) ≡ f p || g b gw l) where
    open_all-adds :
        (b : Bool) (gw : Gateway.Gateway) (p : Progress) (ls : List Listener)
        → f (open_all make_filters routes b gw p ls) ≡ f p || any (g b gw) ls
    unfolding open_all
    open_all-adds b gw p [] = or_false (f p)
    open_all-adds b gw p (l ∷ ls) =
        open_all-adds b gw (open_listener make_filters routes b gw p l) ls
        ∙ (ap (λ c. c || any (g b gw) ls) (step b gw p l)
            ∙ or_assoc (f p) (g b gw l) (any (g b gw) ls))

    module _ (gateway_filter : Option Gateway.Gateway → Bool) (dirty : List Text) where
      open_gateways-adds :
          (p : Progress) (gws : List Gateway.Gateway)
          → f (open_gateways make_filters routes gateway_filter dirty p gws)
            ≡ f p
              || any
                  (λ gw.
                    is_active gateway_filter gw && any (g (includes dirty gw.name) gw) gw.listeners)
                  gws
      unfolding open_gateways
      open_gateways-adds p [] = or_false (f p)
      open_gateways-adds p (gw ∷ gws) = elim (Bool-cases (is_active gateway_filter gw)) [
        | inl a ↦
            let b = includes dirty gw.name in
            let rest =
              any (λ x. is_active gateway_filter x && any (g (includes dirty x.name) x) x.listeners)
                gws in
            rw a (
              open_gateways-adds (open_all make_filters routes b gw p gw.listeners) gws
              ∙ (ap (λ c. c || rest) (open_all-adds b gw p gw.listeners)
                  ∙ or_assoc (f p) (any (g b gw) gw.listeners) rest))
        | inr a ↦ rw a (open_gateways-adds p gws)
      ]

  module _ (gateway_filter : Option Gateway.Gateway → Bool) (dirty : List Text) where
    -- Some listener of an active gateway has a property.
    abbrev pub some_listener :
        (Bool → Gateway.Gateway → Listener → Bool) → List Gateway.Gateway → Bool
    some_listener g gws =
        any (λ gw. is_active gateway_filter gw && any (g (includes dirty gw.name) gw) gw.listeners)
          gws

    makes-wants :
        (k : ListenerKey) (gws : List Gateway.Gateway)
        → some_listener (makes k) gws ≡ true
        → some_listener (wants k) gws ≡ true
    makes-wants k gws h =
        let (gw, m, both) = any-mem _ gws h in
        let (a, some_l) = (&&_iff _ _).0 both in
        let (l, n, made) = any-mem _ gw.listeners some_l in
        any_of_mem _ gws m ((&&_iff _ _).1 (a, any_of_mem _ gw.listeners n ((&&_iff _ _).0 made).1))

  -- When some gateway is dirty, a port is served after an update exactly when a listener for it is made,
  -- of an active gateway that is dirty, or when it was served before and some active gateway has a
  -- listener for it; a listener that makeListener throws on counts for neither. All other ports that
  -- were served are closed. The list of open listeners has the ports that active gateways have
  -- listeners for.
  pub update_listeners-serves :
      (gateway_filter : Option Gateway.Gateway → Bool) (gateways : List Gateway.Gateway) (n : Text)
      (ns : List Text) (current : List ListenerKey) (k : ListenerKey)
      → let p = update_listeners make_filters routes gateway_filter gateways (n ∷ ns) current in
        (serves k (serve_all p.effects current)
          ≡ some_listener gateway_filter (n ∷ ns) (makes k) gateways
            || (serves k current && some_listener gateway_filter (n ∷ ns) (wants k) gateways))
        × (serves k p.keys ≡ some_listener gateway_filter (n ∷ ns) (wants k) gateways)
  unfolding update_listeners stops serve_all
  update_listeners-serves gateway_filter gateways n ns current k =
      let dirty : List Text = n ∷ ns in
      let p0 : Progress = record { keys = []; effects = [] } in
      let p = open_gateways make_filters routes gateway_filter dirty p0 gateways in
      let keys : serves k p.keys ≡ some_listener gateway_filter dirty (wants k) gateways =
        open_gateways-adds (λ q. serves k q.keys) (wants k) (open_listener-keys k) gateway_filter
          dirty p0 gateways in
      let ports =
        open_gateways-adds (λ q. serves k (serve_all q.effects current)) (makes k)
          (open_listener-ports k current) gateway_filter dirty p0 gateways in
      (
        ap (serves k) (serve_all-append p.effects (stops current p.keys) current)
            ∙ (serve_all-stop k (keep (λ i. not (any (λ j. same_key j i) p.keys)) current)
                  (serve_all p.effects current)
                ∙ rw (serves-gone k current p.keys, any-same_key k p.keys, keys, ports)
                    (settled (serves k current) _ _ (makes-wants gateway_filter dirty k gateways))),
        keys,
      )
