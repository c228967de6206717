-- ===== src/Gateway/Dirty.antt =====
-- src/gateway.js, makeResourceWatcher: what a change of a resource marks as dirty. The dirty lists
-- are the variables of the module; a thrown exception is `none`.
use fgw.Base.{
  ℕ, Bool, true, false, not, ◌&&◌, ◌||◌, List, [], ◌∷◌, ◌++◌, map, Option, none, some, Text, txt,
  text_eq, keep, any, if◌then◌else◌, ◌==◌,
}
use fgw.Gateway.{ParentRef, RouteKind, Route}

pub record TargetRef : Type 0 where
  pub kind : Text
  pub name : Text

-- The kinds that the switch tells apart.
pub data Kind : Type 0 where
  gateway backend_lb_policy backend_tls_policy health_check_policy backend : Kind
  route : RouteKind → Kind
  other : Text → Kind

pub record Resource : Type 0 where
  pub id : ℕ
  pub kind : Kind
  pub name : Text
  pub parent_refs : Option (List ParentRef)
  pub target_refs : Option (List TargetRef)

-- `[kind, ref.kind, ref.name]`.
pub record PolicyKey : Type 0 where
  pub kind : Kind
  pub ref_kind : Text
  pub ref_name : Text

pub record DirtyLists : Type 0 where
  pub gateways : List Text
  pub routers : List ParentRef
  pub backends : List Text
  pub policies : List PolicyKey
  pub resources : List (Option Resource × Option Resource)

abbrev pub port_eq : Option ℕ → Option ℕ → Bool
port_eq none none = true
port_eq none (some q) = false
port_eq (some p) none = false
port_eq (some p) (some q) = p == q

-- isIdentical on the keys `[ref.kind, ref.name, ref.port, ref.sectionName]`.
unfoldable pub same_ref : ParentRef → ParentRef → Bool
same_ref a b =
    text_eq a.kind b.kind
    && (text_eq a.name b.name && (port_eq a.port b.port && text_eq a.section_name b.section_name))

-- Only a HealthCheckPolicy is ever added, so the first part of two keys is the same.
unfoldable pub same_policy : PolicyKey → PolicyKey → Bool
same_policy a b = text_eq a.ref_kind b.ref_kind && text_eq a.ref_name b.ref_name

abbrev pub includes : List Text → Text → Bool
includes names n = any (λ m. text_eq m n) names

unfoldable pub add_dirty_gateway : Text → DirtyLists → DirtyLists
add_dirty_gateway n d = if includes d.gateways n then d else record d {
  gateways = d.gateways ++ n ∷ [];
  routers = keep (λ r. not (text_eq r.kind (txt "Gateway")) || not (text_eq r.name n)) d.routers;
}

unfoldable pub add_ref : List ParentRef → ParentRef → List ParentRef
unfolding same_ref
add_ref refs r = if any (λ k. same_ref k r) refs then refs else refs ++ r ∷ []

unfoldable pub add_refs : List ParentRef → List ParentRef → List ParentRef
unfolding add_ref
add_refs refs [] = refs
add_refs refs (r ∷ rs) = add_refs (add_ref refs r) rs

unfoldable pub add_dirty_routers : Option (List ParentRef) → DirtyLists → DirtyLists
unfolding add_refs
add_dirty_routers none d = d
add_dirty_routers (some refs) d = record d { routers = add_refs d.routers refs }

unfoldable pub add_dirty_backend : Text → DirtyLists → DirtyLists
add_dirty_backend n d =
    if includes d.backends n then d else record d { backends = d.backends ++ n ∷ [] }

-- The names of `dirtyBackendNames`.
abbrev pub backend_targets : List TargetRef → List Text
backend_targets refs = map (λ r. r.name) (keep (λ r. text_eq r.kind (txt "Backend")) refs)

abbrev pub uses_backend : List Text → Route → Bool
uses_backend names r = elim r.backend_names [ none ↦ false | some bs ↦ any (includes names) bs ]

unfoldable pub mark_routes : List Text → List Route → DirtyLists → DirtyLists
unfolding add_dirty_routers
mark_routes names [] d = d
mark_routes names (r ∷ rs) d =
    mark_routes names rs (if uses_backend names r then add_dirty_routers r.parent_refs d else d)

-- addDirtyRoutersByPolicy, on `allRouteResources()`. Without `targetRefs` it throws.
unfoldable pub add_dirty_routers_by_policy :
    List Route → Option (List TargetRef) → DirtyLists → Option DirtyLists
unfolding mark_routes
add_dirty_routers_by_policy routes none d = none
add_dirty_routers_by_policy routes (some refs) d =
    some (mark_routes (backend_targets refs) routes d)

unfoldable pub add_policy_keys : Kind → List TargetRef → List PolicyKey → List PolicyKey
unfolding same_policy
add_policy_keys k [] keys = keys
add_policy_keys k (r ∷ rs) keys =
    let key : PolicyKey = record { kind = k; ref_kind = r.kind; ref_name = r.name } in
    add_policy_keys k rs (if any (λ p. same_policy p key) keys then keys else keys ++ key ∷ [])

unfoldable pub add_dirty_policy : Resource → DirtyLists → DirtyLists
unfolding add_policy_keys
add_dirty_policy p d = elim p.target_refs [
  | none ↦ d
  | some refs ↦ record d { policies = add_policy_keys p.kind refs d.policies }
]
