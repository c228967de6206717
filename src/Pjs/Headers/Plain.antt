-- ===== src/Pjs/Headers/Plain.antt =====
-- pjs/filter/header-modifier.js: the head that variables are read from.
use fgw.Base.{
  ◌≡◌, refl, Bool, true, false, List, [], ◌∷◌, Option, none, some, text_equality, All, nonempty,
  if◌then◌else◌,
}
use fgw.Pjs.Variables.{Objects}
use fgw.Pjs.Headers.{
  Headers, Modifier, Filter, Side, of_request, or_none, is_modifier, chosen_head, modify_headers,
  type_name, inner, has_type, with_modifier, modifiers_of, handlers_of, or_handlers,
  choose_handlers, run_handlers, run_filters,
}

chosen_head-untyped :
    (cfg : Modifier) (request response : Objects)
    → cfg.type ≡ none
    → chosen_head cfg request response ≡ response
unfolding chosen_head
chosen_head-untyped cfg request response e = rw e refl

abbrev IsUntyped : Modifier → Type 0
IsUntyped m = m.type ≡ none

abbrev HasNoType : Option Modifier → Type 0
HasNoType none = Unit
HasNoType (some m) = IsUntyped m

-- The modifier in a filter does not repeat the type of the filter.
abbrev pub IsPlain : Side → Filter → Type 0
IsPlain side f = HasNoType (inner side f)

run_handlers-untyped :
    (request response : Objects) (cfgs : List Modifier) (h : Headers)
    → All IsUntyped cfgs
    → run_handlers request response cfgs h ≡ run_handlers [] response cfgs h
unfolding run_handlers
run_handlers-untyped request response [] h u = refl
run_handlers-untyped request response (cfg ∷ cfgs) h u =
    rw (chosen_head-untyped cfg request response u.0, chosen_head-untyped cfg [] response u.0)
      (run_handlers-untyped request response cfgs (modify_headers response cfg h) u.1)

modifiers_of-IsUntyped :
    (side : Side) (fs : List Filter) → All (IsPlain side) fs → All IsUntyped (modifiers_of side fs)
unfolding modifiers_of
modifiers_of-IsUntyped side [] h = tt
modifiers_of-IsUntyped side (f ∷ fs) h =
    of_type (modifiers_of side fs) (has_type (type_name side) f.type)
      (modifiers_of-IsUntyped side fs h.1)
  where
    of_kept :
        (ms : List Modifier) (b : Bool) (m : Modifier)
        → All IsUntyped ms
        → IsUntyped m
        → All IsUntyped (if b then m ∷ ms else ms)
    of_kept ms true m u v = (v, u)
    of_kept ms false m u v = u

    of_inner :
        (ms : List Modifier) (o : Option Modifier)
        → All IsUntyped ms
        → HasNoType o
        → All IsUntyped (with_modifier o ms)
    of_inner ms none u v = u
    of_inner ms (some m) u v = of_kept ms (is_modifier m) m u v

    of_type :
        (ms : List Modifier) (b : Bool)
        → All IsUntyped ms
        → All IsUntyped (if b then with_modifier (inner side f) ms else ms)
    of_type ms true u = of_inner ms (inner side f) u h.0
    of_type ms false u = u

nonempty-IsUntyped : (ms : List Modifier) → All IsUntyped ms → All IsUntyped (or_none (nonempty ms))
nonempty-IsUntyped [] u = tt
nonempty-IsUntyped (m ∷ ms) u = u

or_handlers-IsUntyped :
    (ms other : List Modifier)
    → All IsUntyped ms
    → All IsUntyped other
    → All IsUntyped (or_handlers (nonempty ms) other)
or_handlers-IsUntyped [] other u v = v
or_handlers-IsUntyped (m ∷ ms) other u v = u

choose_handlers-IsUntyped :
    (side : Side) (service route : List Filter)
    → All (IsPlain side) service
    → All (IsPlain side) route
    → All IsUntyped (choose_handlers side service route)
unfolding choose_handlers
choose_handlers-IsUntyped side service route hs hr =
    or_handlers-IsUntyped (modifiers_of side service) (or_none (handlers_of side route))
      (modifiers_of-IsUntyped side service hs)
      (nonempty-IsUntyped (modifiers_of side route) (modifiers_of-IsUntyped side route hr))

-- On a request whose filters for requests have their type beside the modifier and not in it, the head
-- of the request is never read, although variables name it: the headers afterwards are the same as if
-- that head were empty.
pub run_filters-plain :
    (request response : Objects) (service route : List Filter) (h : Headers)
    → All (IsPlain of_request) service
    → All (IsPlain of_request) route
    → run_filters of_request request response service route h
      ≡ run_filters of_request [] response service route h
unfolding run_filters
run_filters-plain request response service route h hs hr =
    run_handlers-untyped request response (choose_handlers of_request service route) h
      (choose_handlers-IsUntyped of_request service route hs hr)
