-- ===== src/Pjs/Headers.antt =====
-- pjs/filter/header-modifier.js. Header values are texts; the head that variables are read from is an
-- argument.
pub mod Plain
use fgw.Base.{
  ◌≡◌, refl, ◌∙◌, ap, Bool, true, false, ◌||◌, List, [], ◌∷◌, ◌++◌, Option, none, some, Text, txt,
  truthy, text_eq, text_eq_iff, text_equality, lookup, insert, erase, All, lookup-insert,
  lookup-erase, any, nonempty, if◌then◌else◌,
}
use fgw.Pjs.Variables.{Objects, resolv_path}

abbrev pub Headers : Type 0
Headers = List (Text × Text)

-- `RequestHeaderModifier` or `ResponseHeaderModifier` of a filter, with the `Type` in it.
pub record Modifier : Type 0 where
  pub type : Option Text
  pub set : Option (List (Text × Text))
  pub add : Option (List (Text × Text))
  pub remove : Option (List Text)

abbrev pub or_none {ℓ} : {A : Type ℓ} → Option (List A) → List A
or_none none = []
or_none (some xs) = xs

abbrev pub is_set {ℓ} : {A : Type ℓ} → Option A → Bool
is_set none = false
is_set (some x) = true

-- `msg[e.Name] ? msg[e.Name] + ',' + value : value`.
abbrev pub appended : Option Text → Text → Text
appended none value = value
appended (some old) value = if truthy old then old ++ b',' ∷ value else value

unfoldable pub remove_all : List Text → Headers → Headers
remove_all [] h = h
remove_all (name ∷ names) h = remove_all names (erase name h)

module _ (objects : Objects) where
  unfoldable pub set_all : List (Text × Text) → Headers → Headers
  set_all [] h = h
  set_all ((name, value) ∷ es) h = set_all es (insert name (resolv_path objects value) h)

  unfoldable pub add_all : List (Text × Text) → Headers → Headers
  add_all [] h = h
  add_all ((name, value) ∷ es) h =
      add_all es (insert name (appended (lookup name h) (resolv_path objects value)) h)

  -- The function that makeModifierHandler returns.
  unfoldable pub modify_headers : Modifier → Headers → Headers
  unfolding set_all add_all remove_all
  modify_headers cfg h =
      remove_all (or_none cfg.remove) (add_all (or_none cfg.add) (set_all (or_none cfg.set) h))

-- Whether makeModifierHandler returns a function at all.
abbrev pub is_modifier : Modifier → Bool
is_modifier cfg = is_set cfg.set || (is_set cfg.add || is_set cfg.remove)

-- The head that the variables are read from: `_http`.
unfoldable pub chosen_head : Modifier → (request response : Objects) → Objects
chosen_head cfg request response = elim cfg.type [
  | none ↦ response
  | some type ↦ if text_eq type (txt "RequestHeaderModifier") then request else response
]

-- An entry of Filters: its own `Type`, and the modifiers in it.
pub record Filter : Type 0 where
  pub type : Option Text
  pub request_modifier : Option Modifier
  pub response_modifier : Option Modifier

-- Whether requests or responses are modified.
pub data Side : Type 0 where
  of_request of_response : Side

abbrev pub type_name : Side → Text
type_name of_request = txt "RequestHeaderModifier"
type_name of_response = txt "ResponseHeaderModifier"

abbrev pub inner : Side → Filter → Option Modifier
inner of_request f = f.request_modifier
inner of_response f = f.response_modifier

abbrev pub has_type : Text → Option Text → Bool
has_type name none = false
has_type name (some type) = text_eq type name

abbrev pub with_modifier : Option Modifier → List Modifier → List Modifier
with_modifier none rest = rest
with_modifier (some m) rest = if is_modifier m then m ∷ rest else rest

-- The modifiers in the filters of one type for which makeModifierHandler returns a function. What is
-- passed to it is the modifier in the filter, without the type of the filter.
unfoldable pub modifiers_of : Side → List Filter → List Modifier
modifiers_of side [] = []
modifiers_of side (f ∷ fs) =
    let rest = modifiers_of side fs in
    if has_type (type_name side) f.type then with_modifier (inner side f) rest else rest

-- makeRequestModifierHandler and makeResponseModifierHandler: no handlers count as null.
abbrev pub handlers_of : Side → List Filter → Option (List Modifier)
handlers_of side filters = nonempty (modifiers_of side filters)

abbrev pub or_handlers : Option (List Modifier) → List Modifier → List Modifier
or_handlers none other = other
or_handlers (some ms) other = ms

-- requestFilterCache and responseFilterCache: the handlers of the service, or else of the route.
unfoldable pub choose_handlers : Side → (service route : List Filter) → List Modifier
unfolding modifiers_of
choose_handlers side service route =
    or_handlers (handlers_of side service) (or_none (handlers_of side route))

unfoldable pub run_handlers : (request response : Objects) → List Modifier → Headers → Headers
unfolding modify_headers chosen_head
run_handlers request response [] h = h
run_handlers request response (cfg ∷ cfgs) h =
    run_handlers request response cfgs (modify_headers (chosen_head cfg request response) cfg h)

-- The pipeline, on the headers of a request or a response.
unfoldable pub run_filters :
    Side → (request response : Objects) → (service route : List Filter) → Headers → Headers
unfolding choose_handlers run_handlers
run_filters side request response service route h =
    run_handlers request response (choose_handlers side service route) h

-- What the entries that name a header make of its value.
abbrev pub set_value : Objects → Text → List (Text × Text) → Option Text → Option Text
set_value objects n [] v = v
set_value objects n ((name, value) ∷ es) v =
    set_value objects n es (if text_eq name n then some (resolv_path objects value) else v)

abbrev pub add_value : Objects → Text → List (Text × Text) → Option Text → Option Text
add_value objects n [] v = v
add_value objects n ((name, value) ∷ es) v =
    add_value objects n es
      (if text_eq name n then some (appended v (resolv_path objects value)) else v)

abbrev pub remove_value : Text → List Text → Option Text → Option Text
remove_value n names v = if any (λ m. text_eq m n) names then none else v

lookup-set_all :
    (objects : Objects) (n : Text) (es : List (Text × Text)) (h : Headers)
    → lookup n (set_all objects es h) ≡ set_value objects n es (lookup n h)
unfolding set_all
lookup-set_all objects n [] h = refl
lookup-set_all objects n ((name, value) ∷ es) h =
    lookup-set_all objects n es (insert name (resolv_path objects value) h)
    ∙ ap (set_value objects n es) (lookup-insert name n (resolv_path objects value) h)

lookup-add_all :
    (objects : Objects) (n : Text) (es : List (Text × Text)) (h : Headers)
    → lookup n (add_all objects es h) ≡ add_value objects n es (lookup n h)
unfolding add_all
lookup-add_all objects n [] h = refl
lookup-add_all objects n ((name, value) ∷ es) h =
    let v = appended (lookup name h) (resolv_path objects value) in
    lookup-add_all objects n es (insert name v h)
    ∙ ap (add_value objects n es) (lookup-insert name n v h ∙ same_name (text_eq name n) refl)
  where
    same_name :
        (b : Bool)
        → text_eq name n ≡ b
        → (if b then some (appended (lookup name h) (resolv_path objects value)) else lookup n h)
          ≡ (if b then some (appended (lookup n h) (resolv_path objects value)) else lookup n h)
    same_name true e =
        ap (λ k. some (appended (lookup k h) (resolv_path objects value)))
          ((text_eq_iff name n).0 e)
    same_name false e = refl

lookup-remove_all :
    (n : Text) (names : List Text) (h : Headers)
    → lookup n (remove_all names h) ≡ remove_value n names (lookup n h)
unfolding remove_all
lookup-remove_all n [] h = refl
lookup-remove_all n (name ∷ names) h =
    lookup-remove_all n names (erase name h)
    ∙ (ap (remove_value n names) (lookup-erase name n h)
        ∙ either (text_eq name n) (any (λ m. text_eq m n) names) (lookup n h))
  where
    either :
        (b c : Bool) (v : Option Text)
        → (if c then none else (if b then none else v)) ≡ (if b || c then none else v)
    either true true v = refl
    either true false v = refl
    either false c v = refl

-- A modifier works on each header by itself: the last value to set, then each value to add behind a
-- comma, and nothing if the header is to be removed; a header that no entry names is left alone.
pub lookup-modify_headers :
    (objects : Objects) (cfg : Modifier) (n : Text) (h : Headers)
    → lookup n (modify_headers objects cfg h)
      ≡ remove_value n (or_none cfg.remove) (
          add_value objects n
            (or_none cfg.add)
            (set_value objects n (or_none cfg.set) (lookup n h)))
unfolding modify_headers
lookup-modify_headers objects cfg n h =
    lookup-remove_all n (or_none cfg.remove) _
    ∙ ap (remove_value n (or_none cfg.remove)) (
        lookup-add_all objects n (or_none cfg.add) _
        ∙ ap (add_value objects n (or_none cfg.add)) (lookup-set_all objects n (or_none cfg.set) h))
