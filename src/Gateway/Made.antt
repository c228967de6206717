-- ===== src/Gateway/Made.antt =====
-- src/gateway.js, updateDirtyResources: the listeners that are made anew.
use fgw.Base.{
  ℕ, ◌≡◌, refl, Bool, true, false, List, [], ◌∷◌, flat_map, Option, Text, if◌then◌else◌, Bool-cases,
  inl, inr, Memᴰ, mem-append_right, mem-append_left,
}
use mathlib.Core.List.{append-nil, append_assoc}
use fgw.Gateway.{
  ParentRef, RouteKind, Route, Listener, ListenerKey, ListenerError, Wire, Result, ok, err, Stage,
  make_listener, make_listener_key, make_router_key, find_route_resources, dubbo_route,
}
use fgw.Gateway
use fgw.Gateway.Dirty.{includes}
use fgw.Gateway.Update.{
  Effect, Progress, open_listener, open_all, open_gateways, is_active, update_listeners,
}

pub mem-flat_map {ℓ κ} :
    {A : Type ℓ} {B : Type κ} (f : A → List B) (xs : List A) {x : A} {y : B}
    → Memᴰ x xs
    → Memᴰ y (f x)
    → Memᴰ y (flat_map f xs)
unfolding mathlib.Core.List.flat_map
mem-flat_map f [] m n = elim m [ ]
mem-flat_map f (z ∷ xs) {x} {y} (Memᴰ.head e) n = mem-append_left (f z) (flat_map f xs) (rw (← e) n)
mem-flat_map f (z ∷ xs) (Memᴰ.tail m) n = mem-append_right (f z) (mem-flat_map f xs m n)

module _ (make_filters : Wire → List ℕ → Option (List ℕ)) (routes : RouteKind → List Route) where
  -- The effect of a call of makeListener: the start of what it returns, or its exception.
  abbrev pub made : Result (ListenerKey × List Stage) → Effect
  made (ok (key, stages)) = Effect.start key stages
  made (err e) = Effect.failed e

  module _ (x : Effect) where
    open_listener-keeps :
        (b : Bool) (gw : Gateway.Gateway) (p : Progress) (l : Listener)
        → Memᴰ x p.effects
        → Memᴰ x (open_listener make_filters routes b gw p l).effects
    unfolding open_listener
    open_listener-keeps false gw p l m = m
    open_listener-keeps true gw p l m = of_result (make_listener make_filters routes gw l) refl
      where
        of_result :
            (r : Result (ListenerKey × List Stage))
            → make_listener make_filters routes gw l ≡ r
            → Memᴰ x (open_listener make_filters routes true gw p l).effects
        of_result (ok (key, stages)) e = rw (e, open_listener) (mem-append_left p.effects _ m)
        of_result (err y) e = rw (e, open_listener) (mem-append_left p.effects _ m)

    open_all-keeps :
        (b : Bool) (gw : Gateway.Gateway) (p : Progress) (ls : List Listener)
        → Memᴰ x p.effects
        → Memᴰ x (open_all make_filters routes b gw p ls).effects
    unfolding open_all
    open_all-keeps b gw p [] m = m
    open_all-keeps b gw p (l ∷ ls) m =
        open_all-keeps b gw (open_listener make_filters routes b gw p l) ls
          (open_listener-keeps b gw p l m)

  open_listener-made :
      (gw : Gateway.Gateway) (p : Progress) (l : Listener)
      → Memᴰ
          (made (make_listener make_filters routes gw l))
          (open_listener make_filters routes true gw p l).effects
  unfolding open_listener
  open_listener-made gw p l = of_result (make_listener make_filters routes gw l) refl
    where
      of_result :
          (r : Result (ListenerKey × List Stage))
          → make_listener make_filters routes gw l ≡ r
          → Memᴰ
              (made (make_listener make_filters routes gw l))
              (open_listener make_filters routes true gw p l).effects
      of_result (ok (key, stages)) e =
          rw (e, open_listener) (mem-append_right p.effects (Memᴰ.head refl))
      of_result (err y) e = rw (e, open_listener) (mem-append_right p.effects (Memᴰ.head refl))

  open_all-made :
      (gw : Gateway.Gateway) (p : Progress) (ls : List Listener) {l : Listener}
      → Memᴰ l ls
      → Memᴰ
          (made (make_listener make_filters routes gw l))
          (open_all make_filters routes true gw p ls).effects
  unfolding open_all
  open_all-made gw p [] m = elim m [ ]
  open_all-made gw p (y ∷ ls) {l} (Memᴰ.head e) = rw e (
      open_all-keeps (made (make_listener make_filters routes gw y)) true gw
        (open_listener make_filters routes true gw p y) ls (open_listener-made gw p y))
  open_all-made gw p (y ∷ ls) (Memᴰ.tail m) =
      open_all-made gw (open_listener make_filters routes true gw p y) ls m

  module _ (gateway_filter : Option Gateway.Gateway → Bool) where
    open_gateways-keeps :
        (x : Effect) (dirty : List Text) (p : Progress) (gws : List Gateway.Gateway)
        → Memᴰ x p.effects
        → Memᴰ x (open_gateways make_filters routes gateway_filter dirty p gws).effects
    unfolding open_gateways
    open_gateways-keeps x dirty p [] m = m
    open_gateways-keeps x dirty p (gw ∷ gws) m = elim (Bool-cases (is_active gateway_filter gw)) [
      | inl a ↦
          rw (a, open_gateways)
            (open_gateways-keeps x dirty
              (open_all make_filters routes (includes dirty gw.name) gw p gw.listeners) gws
              (open_all-keeps x (includes dirty gw.name) gw p gw.listeners m))
      | inr a ↦ rw (a, open_gateways) (open_gateways-keeps x dirty p gws m)
    ]

    open_gateways-made :
        (dirty : List Text) (p : Progress) (gws : List Gateway.Gateway) {gw : Gateway.Gateway}
        {l : Listener}
        → Memᴰ gw gws
        → is_active gateway_filter gw ≡ true
        → Memᴰ l gw.listeners
        → includes dirty gw.name ≡ true
        → Memᴰ
            (made (make_listener make_filters routes gw l))
            (open_gateways make_filters routes gateway_filter dirty p gws).effects
    unfolding open_gateways
    open_gateways-made dirty p [] m a n h = elim m [ ]
    open_gateways-made dirty p (x ∷ gws) {gw} {l} (Memᴰ.head e) a n h =
        rw (← e, a, h, open_gateways)
          (open_gateways-keeps (made (make_listener make_filters routes gw l)) dirty
            (open_all make_filters routes true gw p gw.listeners) gws
            (open_all-made gw p gw.listeners n))
    open_gateways-made dirty p (x ∷ gws) (Memᴰ.tail m) a n h =
        open_gateways-made dirty
          (if is_active gateway_filter x
            then open_all make_filters routes (includes dirty x.name) x p x.listeners
            else p)
          gws m a n h

    pub update_listeners-made :
        (gateways : List Gateway.Gateway) (dirty : List Text) (current : List ListenerKey)
        (gw : Gateway.Gateway) (l : Listener)
        → Memᴰ gw gateways
        → is_active gateway_filter gw ≡ true
        → Memᴰ l gw.listeners
        → includes dirty gw.name ≡ true
        → Memᴰ
            (made (make_listener make_filters routes gw l))
            (update_listeners make_filters routes gateway_filter gateways dirty current).effects
    unfolding update_listeners
    update_listeners-made gateways [] current gw l m a n h = cc
    update_listeners-made gateways (d ∷ dirty) current gw l m a n h =
        mem-append_left
          (open_gateways make_filters routes gateway_filter (d ∷ dirty)
            (record { keys = []; effects = [] }) gateways).effects
          _ (open_gateways-made (d ∷ dirty) (record { keys = []; effects = [] }) gateways m a n h)
