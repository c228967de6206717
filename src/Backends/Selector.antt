-- ===== src/Backends/Selector.antt =====
-- src/modules/backend-selector.js with makeFilters of src/utils.js. `import_filter` finds the maker of
-- a configured filter for a protocol and calls it: it returns the pipeline with the protocol that it
-- puts out, if it names one, or throws. `find_resource` is resources.find. An exception is `none`.
pub mod OnePass
use fgw.Base.{
  ℕ, ◌≡◌, refl, ap, sym, ◌∙◌, Bool, true, false, List, [], ◌∷◌, ◌++◌, map, Option, none, some, Text,
  txt, truthy, if◌then◌else◌, ◌==◌, Bool-cases, inl, inr,
}
use mathlib.Core.List.{append_assoc}

abbrev pub or_text : Text → Text → Text
or_text s t = if truthy s then s else t

abbrev pub output_or : Option Text → Text → Text
output_or none p = p
output_or (some s) p = or_text s p

pub record BackendRef (C : Type 0) : Type 0 where
  pub kind : Text
  pub name : Text
  pub weight : Option ℕ
  pub filters : Option (List C)

pub record Target (C P R : Type 0) : Type 0 where
  pub id : Option Text
  pub backend_ref : Option (BackendRef C)
  pub resource : Option R
  pub weight : ℕ
  pub filters : List P
  pub protocol : Text

-- The selector: one target, or a load balancer over several.
pub data Selector (C P R : Type 0) : Type 0 where
  single : Target C P R → Selector C P R
  balanced : List (Target C P R) → Selector C P R

-- The pipelines that were made, and `outputProtocol`.
abbrev pub Made : Type 0 → Type 0
Made P = Option (List P × Text)

abbrev pub bind : {P Q : Type 0} → Made P → (List P → Text → Made Q) → Made Q
bind none f = none
bind (some (ps, p)) f = f ps p

abbrev pub put_before : {P : Type 0} → P → Made P → Made P
put_before x none = none
put_before x (some (ps, p)) = some (x ∷ ps, p)

abbrev pub or_no_filters : {C : Type 0} → Option (List C) → List C
or_no_filters none = []
or_no_filters (some cs) = cs

abbrev pub filters_of : {C : Type 0} → Option (BackendRef C) → Option (List C)
filters_of none = none
filters_of (some r) = r.filters

abbrev weight_or_one : Option ℕ → ℕ
weight_or_one none = 1
weight_or_one (some n) = if n == 0 then 1 else n

abbrev pub made_then : {P : Type 0} → Text → Option (P × Option Text) → (Text → Made P) → Made P
made_then p none f = none
made_then p (some (x, o)) f = put_before x (f (output_or o p))

module _ {C P : Type 0} (import_filter : Text → C → Option (P × Option Text)) where
  -- makeFilters, on the configurations that are there.
  unfoldable pub make_filters : Text → List C → Made P
  make_filters p [] = some ([], p)
  make_filters p (c ∷ cs) = made_then p (import_filter p c) (λ q. make_filters q cs)

  -- The filters of a target: those of the listener, of the rule and of the reference, each made for
  -- the protocol that the ones before put out.
  unfoldable pub target_filters :
      Text → Option (List C) → Option (List C) → Option (BackendRef C) → Made P
  unfolding make_filters
  target_filters protocol listener rule ref =
      bind (make_filters protocol (or_no_filters listener)) (λ routes p.
        bind (make_filters (or_text p protocol) (or_no_filters rule)) (λ rules q.
          bind (make_filters (or_text q protocol) (or_no_filters (filters_of ref)))
            (λ backends r. some (routes ++ (rules ++ backends), or_text r protocol))))

  module _ {R : Type 0} (find_resource : Text → Text → Option R) where
    -- findBackendResource.
    unfoldable pub find_backend_resource : Option (BackendRef C) → Option R
    find_backend_resource none = none
    find_backend_resource (some r) = find_resource (or_text r.kind (txt "Backend")) r.name

    abbrev ref_name : Option (BackendRef C) → Option Text
    ref_name none = none
    ref_name (some r) = some r.name

    abbrev ref_weight : Option (BackendRef C) → Option ℕ
    ref_weight none = none
    ref_weight (some r) = r.weight

    abbrev to_target : Option (BackendRef C) → Made P → Option (Target C P R)
    to_target ref none = none
    to_target ref (some (fs, p)) = some (record {
      id = ref_name ref;
      backend_ref = ref;
      resource = find_backend_resource ref;
      weight = weight_or_one (ref_weight ref);
      filters = fs;
      protocol = p;
    })

    -- makeBackendTarget.
    unfoldable pub make_target :
        Text → Option (List C) → Option (List C) → Option (BackendRef C) → Option (Target C P R)
    unfolding target_filters find_backend_resource
    make_target protocol listener rule ref =
        to_target ref (target_filters protocol listener rule ref)

    abbrev cons_target :
        Option (Target C P R) → Option (List (Target C P R)) → Option (List (Target C P R))
    cons_target none ts = none
    cons_target (some t) none = none
    cons_target (some t) (some ts) = some (t ∷ ts)

    unfoldable pub make_targets :
        Text
        → Option (List C)
        → Option (List C)
        → List (BackendRef C)
        → Option (List (Target C P R))
    unfolding make_target
    make_targets protocol listener rule [] = some []
    make_targets protocol listener rule (r ∷ rs) =
        cons_target (make_target protocol listener rule (some r))
          (make_targets protocol listener rule rs)

    abbrev as_single : Option (Target C P R) → Option (Selector C P R)
    as_single none = none
    as_single (some t) = some (Selector.single t)

    abbrev as_balanced : Option (List (Target C P R)) → Option (Selector C P R)
    as_balanced none = none
    as_balanced (some ts) = some (Selector.balanced ts)

    -- The function of the module, for the references of a rule.
    unfoldable pub make_selector :
        Text → Option (List C) → Option (List C) → List (BackendRef C) → Option (Selector C P R)
    unfolding make_targets
    make_selector protocol listener rule [] = as_single (make_target protocol listener rule none)
    make_selector protocol listener rule (r ∷ []) =
        as_single (make_target protocol listener rule (some r))
    make_selector protocol listener rule (r ∷ s ∷ rs) =
        as_balanced (make_targets protocol listener rule (r ∷ s ∷ rs))
