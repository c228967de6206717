-- ===== src/Gateway/Pending.antt =====
-- src/gateway.js: the changes between two runs of updateDirtyResources. Each change comes with the
-- routes of the store at that time.
use fgw.Base.{
  ℕ, text_eq_iff, ◌≡◌, refl, sym, Bool, true, false, not, ◌||◌, List, [], ◌∷◌, ◌++◌, Option, none,
  some, arith, Text, txt, text_eq, truthy, any, any_snoc, any_append_left, ap, ==_iff, keep,
  mem-keep, mem-append_left, if◌then◌else◌, Bool-cases, inl, inr, Memᴰ, ◌⊎◌, &&_iff,
}
use fgw.Gateway.{
  ParentRef, RouteKind, Route, http_route, grpc_route, tcp_route, tls_route, udp_route, dubbo_route,
}
use fgw.Gateway.Dirty.{
  Kind, Resource, DirtyLists, TargetRef, add_dirty_gateway, add_ref, add_refs, add_dirty_routers,
  add_dirty_backend, add_dirty_routers_by_policy, add_dirty_policy, mark_routes, same_ref, port_eq,
  includes, uses_backend, backend_targets,
}
use fgw.Gateway.Watcher.{
  Change, mark_by_kind, on_resource_change, main, replaced, new_name, old_name, refs_of, mark_route,
  mark_targets, mark_other, and_then, by_policy_old, policy_old, all_route_resources,
}

-- Changes one after another; a thrown exception ends the series.
unfoldable pub on_resource_changes :
    List ((RouteKind → List Route) × Change) → DirtyLists → Option DirtyLists
unfolding on_resource_change
on_resource_changes [] d = some d
on_resource_changes ((routes, c) ∷ cs) d = elim (on_resource_change routes c d) [
  | none ↦ none
  | some d' ↦ on_resource_changes cs d'
]

port_eq_lem : (p q : Option ℕ) → port_eq p q ≡ true → p ≡ q
port_eq_lem none none h = refl
port_eq_lem none (some q) h = cc
port_eq_lem (some p) none h = cc
port_eq_lem (some p) (some q) h = ap some ((==_iff p q).0 h)

-- Identical keys are the same reference.
pub same_ref-eq : (a b : ParentRef) → same_ref a b ≡ true → a ≡ b
unfolding same_ref
same_ref-eq a b h =
    let h1 = (&&_iff _ _).0 h in
    let h2 = (&&_iff _ _).0 h1.1 in
    let h3 = (&&_iff _ _).0 h2.1 in
    ParentRef-eq ((text_eq_iff a.kind b.kind).0 h1.0) ((text_eq_iff a.name b.name).0 h2.0)
      (port_eq_lem a.port b.port h3.0) ((text_eq_iff a.section_name b.section_name).0 h3.1)
  where
    ParentRef-eq :
        a.kind ≡ b.kind
        → a.name ≡ b.name
        → a.port ≡ b.port
        → a.section_name ≡ b.section_name
        → a ≡ b
    ParentRef-eq k n p s = λ i. record { kind = k i; name = n i; port = p i; section_name = s i }

module _ (r : ParentRef) where
  -- A parent waits to be updated: as a router, or with its whole gateway.
  abbrev pub IsPending : DirtyLists → Type 0
  IsPending d = Memᴰ r d.routers ⊎ (includes d.gateways r.name ≡ true)

  add_dirty_gateway-IsPending :
      (n : Text) (d : DirtyLists) → IsPending d → IsPending (add_dirty_gateway n d)
  unfolding add_dirty_gateway
  add_dirty_gateway-IsPending n d h = elim (Bool-cases (includes d.gateways n)) [
    | inl old ↦ rw old h
    | inr new ↦ rw new (added h)
  ]
    where
      added :
          IsPending d
          → IsPending (record d {
            gateways = d.gateways ++ n ∷ [];
            routers =
                keep
                  (λ x. not (text_eq x.kind (txt "Gateway")) || not (text_eq x.name n))
                  d.routers;
          })
      added (inr g) = inr (any_append_left (λ m. text_eq m r.name) d.gateways (n ∷ []) g)
      added (inl m) = elim (Bool-cases (text_eq r.name n)) [
        | inl same ↦ inr (
            any_snoc (λ x. text_eq x r.name) d.gateways n
              ((text_eq_iff n r.name).1 (sym ((text_eq_iff r.name n).0 same))))
        | inr other ↦ inl (
            mem-keep (λ x. not (text_eq x.kind (txt "Gateway")) || not (text_eq x.name n)) d.routers
              m (ground (arith, other)))
      ]

  add_ref-mem : (refs : List ParentRef) (x : ParentRef) → Memᴰ r refs → Memᴰ r (add_ref refs x)
  unfolding add_ref
  add_ref-mem refs x m = elim (Bool-cases (any (λ k. same_ref k x) refs)) [
    | inl old ↦ rw old m
    | inr new ↦ rw new (mem-append_left refs (x ∷ []) m)
  ]

  add_refs-mem : (refs xs : List ParentRef) → Memᴰ r refs → Memᴰ r (add_refs refs xs)
  unfolding add_refs
  add_refs-mem refs [] m = m
  add_refs-mem refs (x ∷ xs) m = add_refs-mem (add_ref refs x) xs (add_ref-mem refs x m)

  add_dirty_routers-IsPending :
      (o : Option (List ParentRef)) (d : DirtyLists)
      → IsPending d
      → IsPending (add_dirty_routers o d)
  unfolding add_dirty_routers
  add_dirty_routers-IsPending none d h = h
  add_dirty_routers-IsPending (some refs) d (inl m) = inl (add_refs-mem d.routers refs m)
  add_dirty_routers-IsPending (some refs) d (inr g) = inr g

  add_dirty_backend-IsPending :
      (n : Text) (d : DirtyLists) → IsPending d → IsPending (add_dirty_backend n d)
  unfolding add_dirty_backend
  add_dirty_backend-IsPending n d h = elim (Bool-cases (includes d.backends n)) [
    | inl old ↦ rw old h
    | inr new ↦ rw new h
  ]

  add_dirty_policy-IsPending :
      (p : Resource) (d : DirtyLists) → IsPending d → IsPending (add_dirty_policy p d)
  unfolding add_dirty_policy
  add_dirty_policy-IsPending p d h = of_refs p.target_refs refl
    where
      of_refs : (o : Option (List TargetRef)) → p.target_refs ≡ o → IsPending (add_dirty_policy p d)
      of_refs none e = rw (e, add_dirty_policy) h
      of_refs (some refs) e = rw (e, add_dirty_policy) h

  if_IsPending :
      (b : Bool) (d e : DirtyLists) → IsPending d → IsPending e → IsPending (if b then d else e)
  if_IsPending true d e x y = x
  if_IsPending false d e x y = y

  mark_routes-IsPending :
      (names : List Text) (routes : List Route) (d : DirtyLists)
      → IsPending d
      → IsPending (mark_routes names routes d)
  unfolding mark_routes
  mark_routes-IsPending names [] d h = h
  mark_routes-IsPending names (x ∷ routes) d h =
      mark_routes-IsPending names routes
        (if uses_backend names x then add_dirty_routers x.parent_refs d else d)
        (if_IsPending (uses_backend names x) _ _ (add_dirty_routers-IsPending x.parent_refs d h) h)

  -- What a step that may throw leaves pending, when it returns.
  abbrev StillPending : Option DirtyLists → Type 0
  StillPending none = Unit
  StillPending (some d) = IsPending d

  by_policy-StillPending :
      (routes : List Route) (o : Option (List TargetRef)) (d : DirtyLists)
      → IsPending d
      → StillPending (add_dirty_routers_by_policy routes o d)
  unfolding add_dirty_routers_by_policy
  by_policy-StillPending routes none d h = tt
  by_policy-StillPending routes (some refs) d h =
      mark_routes-IsPending (backend_targets refs) routes d h

  module _ (routes : RouteKind → List Route) where
    mark_named :
        (f : Text → DirtyLists → DirtyLists) (c : Change) (d : DirtyLists)
        → ((n : Text) (e : DirtyLists) → IsPending e → IsPending (f n e))
        → IsPending d
        → let d' = if truthy (new_name c) then f (new_name c) d else d in
          IsPending (if truthy (old_name c) then f (old_name c) d' else d')
    mark_named f c d keeps h =
        let h' = if_IsPending (truthy (new_name c)) _ _ (keeps (new_name c) d h) h in
        if_IsPending (truthy (old_name c)) _ _ (keeps (old_name c) _ h') h'

    mark_route-IsPending :
        (c : Change) (d : DirtyLists) → IsPending d → IsPending (mark_route routes c d)
    unfolding mark_route
    mark_route-IsPending c d h =
        add_dirty_routers-IsPending (refs_of (replaced c)) _
          (add_dirty_routers-IsPending (main c).parent_refs d h)

    then_old :
        (rs : List Route) (c : Change) (o : Option DirtyLists)
        → StillPending o
        → StillPending (and_then o (by_policy_old rs (replaced c)))
    then_old rs c none h = tt
    then_old rs (Change.create x) (some d) h = h
    then_old rs (Change.remove x) (some d) h = h
    then_old rs (Change.replace x old) (some d) h = by_policy-StillPending rs old.target_refs d h

    mark_targets-StillPending :
        (c : Change) (d : DirtyLists) → IsPending d → StillPending (mark_targets routes c d)
    unfolding mark_targets
    mark_targets-StillPending c d h =
        let rs = all_route_resources routes in
        then_old rs c (add_dirty_routers_by_policy rs (main c).target_refs d)
          (by_policy-StillPending rs (main c).target_refs d h)

    mark_policies :
        (c : Change) (d : DirtyLists)
        → IsPending d
        → IsPending (policy_old (replaced c) (add_dirty_policy (main c) d))
    mark_policies (Change.create x) d h = add_dirty_policy-IsPending x d h
    mark_policies (Change.remove x) d h = add_dirty_policy-IsPending x d h
    mark_policies (Change.replace x old) d h =
        add_dirty_policy-IsPending old _ (add_dirty_policy-IsPending x d h)

    mark_by_kind-StillPending :
        (k : Kind) (c : Change) (d : DirtyLists)
        → IsPending d
        → StillPending (mark_by_kind routes k c d)
    unfolding mark_by_kind mark_other
    mark_by_kind-StillPending Kind.gateway c d h =
        mark_named add_dirty_gateway c d add_dirty_gateway-IsPending h
    mark_by_kind-StillPending (Kind.route http_route) c d h = mark_route-IsPending c d h
    mark_by_kind-StillPending (Kind.route grpc_route) c d h = mark_route-IsPending c d h
    mark_by_kind-StillPending (Kind.route tcp_route) c d h = mark_route-IsPending c d h
    mark_by_kind-StillPending (Kind.route tls_route) c d h = mark_route-IsPending c d h
    mark_by_kind-StillPending (Kind.route udp_route) c d h = mark_route-IsPending c d h
    mark_by_kind-StillPending (Kind.route dubbo_route) c d h = h
    mark_by_kind-StillPending Kind.backend_lb_policy c d h = mark_targets-StillPending c d h
    mark_by_kind-StillPending Kind.backend_tls_policy c d h = mark_targets-StillPending c d h
    mark_by_kind-StillPending Kind.health_check_policy c d h = mark_policies c d h
    mark_by_kind-StillPending Kind.backend c d h =
        mark_named add_dirty_backend c d add_dirty_backend-IsPending h
    mark_by_kind-StillPending (Kind.other s) c d h = h

  on_resource_changes-StillPending :
      (cs : List ((RouteKind → List Route) × Change)) (d : DirtyLists)
      → IsPending d
      → StillPending (on_resource_changes cs d)
  unfolding on_resource_changes on_resource_change
  on_resource_changes-StillPending [] d h = h
  on_resource_changes-StillPending ((routes, c) ∷ cs) d h =
      of_result (mark_by_kind routes (main c).kind c d)
        (mark_by_kind-StillPending routes (main c).kind c d h)
        (λ d' p. on_resource_changes-StillPending cs d' p)
    where
      of_result :
          (o : Option DirtyLists)
          → StillPending o
          → ((d' : DirtyLists) → IsPending d' → StillPending (on_resource_changes cs d'))
          → StillPending (elim o [ none ↦ none | some d' ↦ on_resource_changes cs d' ])
      of_result none p next = tt
      of_result (some d') p next = next d' p

  -- A parent that waits to be updated still waits after any series of changes that returns, whatever
  -- the kinds of the changed resources: it is only taken off the routers for a gateway of its name.
  pub on_resource_changes-IsPending :
      (cs : List ((RouteKind → List Route) × Change)) (d d' : DirtyLists)
      → IsPending d
      → on_resource_changes cs d ≡ some d'
      → IsPending d'
  on_resource_changes-IsPending cs d d' h e = rw e at (on_resource_changes-StillPending cs d h)
