-- ===== src/Gateway/Watcher.antt =====
-- src/gateway.js, onResourceChange: a new, a changed or a removed resource. The lists that it marks
-- are updated five seconds later, which is not modelled here.
use fgw.Base.{
  ℕ, or_empty, text_eq_refl, ==_refl, any_append_left, any_snoc, ◌≡◌, refl, ◌≢◌, Bool, true, ◌&&◌,
  List, [], ◌∷◌, ◌++◌, Option, none, some, arith, Text, truthy, any, if◌then◌else◌, Bool-cases, inl,
  inr, Memᴰ, flat_map, ◌⊎◌,
}
use fgw.Gateway.{
  ParentRef, RouteKind, Route, http_route, grpc_route, tcp_route, tls_route, udp_route, dubbo_route,
}
use fgw.Gateway.Dirty.{
  Kind, Resource, DirtyLists, add_dirty_gateway, add_ref, add_refs, add_dirty_routers,
  add_dirty_backend, add_dirty_routers_by_policy, add_dirty_policy, same_ref, port_eq,
}

-- A change: `newResource` and `oldResource`, of which one may be null, never both.
pub data Change : Type 0 where
  create : Resource → Change
  remove : Resource → Change
  replace : (new old : Resource) → Change

-- `res`, and `oldResource` where it is there and differs from `res`.
abbrev pub main : Change → Resource
main (create r) = r
main (remove r) = r
main (replace r o) = r

abbrev pub replaced : Change → Option Resource
replaced (create r) = none
replaced (remove r) = none
replaced (replace r o) = some o

abbrev pub new_name : Change → Text
new_name (create r) = r.name
new_name (remove r) = []
new_name (replace r o) = r.name

abbrev pub old_name : Change → Text
old_name (create r) = []
old_name (remove r) = r.name
old_name (replace r o) = o.name

abbrev pub as_pair : Change → Option Resource × Option Resource
as_pair (create r) = (some r, none)
as_pair (remove r) = (none, some r)
as_pair (replace r o) = (some r, some o)

abbrev when_named : (Text → DirtyLists → DirtyLists) → Text → DirtyLists → DirtyLists
when_named f n d = if truthy n then f n d else d

abbrev pub refs_of : Option Resource → Option (List ParentRef)
refs_of none = none
refs_of (some r) = r.parent_refs

abbrev pub by_policy_old : List Route → Option Resource → DirtyLists → Option DirtyLists
by_policy_old routes none d = some d
by_policy_old routes (some r) d = add_dirty_routers_by_policy routes r.target_refs d

abbrev pub and_then : Option DirtyLists → (DirtyLists → Option DirtyLists) → Option DirtyLists
and_then none f = none
and_then (some d) f = f d

abbrev pub policy_old : Option Resource → DirtyLists → DirtyLists
policy_old none d = d
policy_old (some r) d = add_dirty_policy r d

-- allRouteResources.
unfoldable pub all_route_resources : (RouteKind → List Route) → List Route
all_route_resources routes =
    flat_map routes (http_route ∷ grpc_route ∷ tcp_route ∷ tls_route ∷ udp_route ∷ dubbo_route ∷ [])

module _ (routes : RouteKind → List Route) where
  unfoldable pub mark_other : Change → DirtyLists → DirtyLists
  mark_other c d = record d { resources = d.resources ++ as_pair c ∷ [] }

  unfoldable pub mark_route : Change → DirtyLists → DirtyLists
  mark_route c d =
      add_dirty_routers (refs_of (replaced c)) (add_dirty_routers (main c).parent_refs d)

  unfoldable pub mark_targets : Change → DirtyLists → Option DirtyLists
  unfolding all_route_resources
  mark_targets c d =
      and_then (add_dirty_routers_by_policy (all_route_resources routes) (main c).target_refs d)
        (by_policy_old (all_route_resources routes) (replaced c))

  -- The switch on the kind; a DubboRoute has no case in it.
  unfoldable pub mark_by_kind : Kind → Change → DirtyLists → Option DirtyLists
  unfolding mark_other mark_route mark_targets
  mark_by_kind Kind.gateway c d =
      some (when_named add_dirty_gateway (old_name c) (when_named add_dirty_gateway (new_name c) d))
  mark_by_kind (Kind.route http_route) c d = some (mark_route c d)
  mark_by_kind (Kind.route grpc_route) c d = some (mark_route c d)
  mark_by_kind (Kind.route tcp_route) c d = some (mark_route c d)
  mark_by_kind (Kind.route tls_route) c d = some (mark_route c d)
  mark_by_kind (Kind.route udp_route) c d = some (mark_route c d)
  mark_by_kind (Kind.route dubbo_route) c d = some (mark_other c d)
  mark_by_kind Kind.backend_lb_policy c d = mark_targets c d
  mark_by_kind Kind.backend_tls_policy c d = mark_targets c d
  mark_by_kind Kind.health_check_policy c d =
      some (policy_old (replaced c) (add_dirty_policy (main c) d))
  mark_by_kind Kind.backend c d =
      some (when_named add_dirty_backend (old_name c) (when_named add_dirty_backend (new_name c) d))
  mark_by_kind (Kind.other s) c d = some (mark_other c d)

  unfoldable pub on_resource_change : Change → DirtyLists → Option DirtyLists
  unfolding mark_by_kind
  on_resource_change c d = mark_by_kind (main c).kind c d

  -- A reference is marked when one identical to it is in the list.
  abbrev pub IsMarked : ParentRef → DirtyLists → Type 0
  IsMarked r d = any (λ k. same_ref k r) d.routers ≡ true

  same_ref_refl : (r : ParentRef) → same_ref r r ≡ true
  unfolding same_ref
  same_ref_refl r =
      rw (text_eq_refl r.kind, text_eq_refl r.name, text_eq_refl r.section_name) (ports r.port)
    where
      ports : (p : Option ℕ) → port_eq p p && true ≡ true
      ports none = refl
      ports (some n) = ground (arith, ==_refl n)

  add_ref-keeps :
      (p : ParentRef → Bool) (refs : List ParentRef) (r : ParentRef)
      → any p refs ≡ true
      → any p (add_ref refs r) ≡ true
  unfolding add_ref
  add_ref-keeps p refs r h = ground (arith, any_append_left p refs (r ∷ []) h)

  add_ref-marks :
      (refs : List ParentRef) (r : ParentRef) → any (λ k. same_ref k r) (add_ref refs r) ≡ true
  unfolding add_ref
  add_ref-marks refs r = elim (Bool-cases (any (λ k. same_ref k r) refs)) [
    | inl h ↦ rw h h
    | inr h ↦ rw h (any_snoc (λ k. same_ref k r) refs r (same_ref_refl r))
  ]

  add_refs-keeps :
      (p : ParentRef → Bool) (refs rs : List ParentRef)
      → any p refs ≡ true
      → any p (add_refs refs rs) ≡ true
  unfolding add_refs
  add_refs-keeps p refs [] h = h
  add_refs-keeps p refs (r ∷ rs) h = add_refs-keeps p (add_ref refs r) rs (add_ref-keeps p refs r h)

  add_refs-marks :
      (refs rs : List ParentRef) {r : ParentRef}
      → Memᴰ r rs
      → any (λ k. same_ref k r) (add_refs refs rs) ≡ true
  unfolding add_refs
  add_refs-marks refs [] m = elim m [ ]
  add_refs-marks refs (x ∷ rs) {r} (Memᴰ.head e) =
      add_refs-keeps (λ k. same_ref k r) (add_ref refs x) rs (rw (← e) (add_ref-marks refs r))
  add_refs-marks refs (x ∷ rs) (Memᴰ.tail m) = add_refs-marks (add_ref refs x) rs m

  add_dirty_routers-marks :
      (o : Option (List ParentRef)) (d : DirtyLists) {r : ParentRef}
      → Memᴰ r (or_empty o)
      → IsMarked r (add_dirty_routers o d)
  unfolding add_dirty_routers
  add_dirty_routers-marks none d m = elim m [ ]
  add_dirty_routers-marks (some rs) d m = add_refs-marks d.routers rs m

  add_dirty_routers-keeps :
      (o : Option (List ParentRef)) (d : DirtyLists) (r : ParentRef)
      → IsMarked r d
      → IsMarked r (add_dirty_routers o d)
  unfolding add_dirty_routers
  add_dirty_routers-keeps none d r h = h
  add_dirty_routers-keeps (some rs) d r h = add_refs-keeps (λ k. same_ref k r) d.routers rs h

  mark_of_route :
      (k : RouteKind) (c : Change) (d : DirtyLists)
      → k ≢ dubbo_route
      → mark_by_kind (Kind.route k) c d ≡ some (mark_route c d)
  unfolding mark_by_kind
  mark_of_route http_route c d h = refl
  mark_of_route grpc_route c d h = refl
  mark_of_route tcp_route c d h = refl
  mark_of_route tls_route c d h = refl
  mark_of_route udp_route c d h = refl
  mark_of_route dubbo_route c d h = absurd (h refl)

  -- After a change of a route of any kind but DubboRoute, a parent that the new route refers to, one
  -- that the old route referred to, and one that was marked before, are all marked as dirty routers.
  pub on_resource_change-marks :
      (c : Change) (d : DirtyLists) (k : RouteKind) (r : ParentRef)
      → (main c).kind ≡ Kind.route k
      → k ≢ dubbo_route
      → Memᴰ r (or_empty (main c).parent_refs)
        ⊎ (Memᴰ r (or_empty (refs_of (replaced c))) ⊎ IsMarked r d)
      → (d' : DirtyLists) × (on_resource_change c d ≡ some d') × IsMarked r d'
  unfolding on_resource_change mark_route
  on_resource_change-marks c d k r e h m =
      let d' = add_dirty_routers (main c).parent_refs d in
      let o = refs_of (replaced c) in
      (
        add_dirty_routers o d',
        rw e (mark_of_route k c d h),
        elim m [
          | inl new ↦
              add_dirty_routers-keeps o d' r (add_dirty_routers-marks (main c).parent_refs d new)
          | inr others ↦ elim others [
            | inl old ↦ add_dirty_routers-marks o d' old
            | inr before ↦
                add_dirty_routers-keeps o d' r
                  (add_dirty_routers-keeps (main c).parent_refs d r before)
          ]
        ],
      )

  -- A DubboRoute that is created, changed or removed marks no router: only the list of other
  -- resources grows.
  pub on_resource_change-dubbo :
      (c : Change) (d : DirtyLists)
      → (main c).kind ≡ Kind.route dubbo_route
      → on_resource_change c d ≡ some (record d { resources = d.resources ++ as_pair c ∷ [] })
  unfolding on_resource_change
  on_resource_change-dubbo c d h = rw (h, mark_by_kind) refl
