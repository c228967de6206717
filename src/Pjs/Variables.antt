-- ===== src/Pjs/Variables.antt =====
-- resolvVar and resolvPath of pjs/filter/header-modifier.js, url-rewrite.js and request-redirect.js:
-- the variables in configured values. An object is its members that are texts; a member that is
-- missing, or of an object that is null, is the empty text.
use fgw.Base.{
  ℕ, ◌+◌, ◌≡◌, refl, sym, ◌∙◌, ap, false, List, [], ◌∷◌, map, Option, none, some, Text, txt, truthy,
  text_equality, starts_with, index_of, split, join, take, drop, lookup, ltb, if◌then◌else◌,
  Bool-cases, inl, inr, All, ◌==◌, ==_iff,
}

-- The objects that a variable can name, each with the texts of its members.
abbrev pub Objects : Type 0
Objects = List (Text × (Text → Text))

abbrev or_text : Text → Text → Text
or_text s other = if truthy s then s else other

abbrev member_of : Option (Text → Text) → Text → Text → Text
member_of none member value = value
member_of (some get) member value = or_text (get member) value

unfoldable pub resolv_var : Objects → Text → Text
resolv_var objects value =
    if starts_with value (txt "$")
    then elim (index_of b'_' value) [
      | none ↦ value
      | some pos ↦
          if ltb 0 pos
          then member_of (lookup (drop 1 (take pos value)) objects) (drop (pos + 1) value) value
          else value
    ]
    else value

unfoldable pub resolv_path : Objects → Text → Text
unfolding resolv_var
resolv_path objects path = join b'/' (map (resolv_var objects) (split b'/' path))

join-cons_head : (c x : ℕ) (ps : List Text) (q : Text) → join c ((x ∷ q) ∷ ps) ≡ x ∷ join c (q ∷ ps)
unfolding join
join-cons_head c x [] q = refl
join-cons_head c x (p ∷ ps) q = refl

split_nonempty : (c : ℕ) (s : Text) → (p : Text) × (ps : List Text) × (split c s ≡ p ∷ ps)
unfolding split
split_nonempty c [] = ([], [], refl)
split_nonempty c (x ∷ s) =
    let (p, ps, e) = split_nonempty c s in
    elim (Bool-cases (x == c)) [
      | inl h ↦ ([], split c s, rw h refl)
      | inr h ↦ (x ∷ p, ps, rw (h, e) refl)
    ]

-- A text that is split and joined again by the same unit is the same.
pub join-split : (c : ℕ) (s : Text) → join c (split c s) ≡ s
unfolding join split
join-split c [] = refl
join-split c (x ∷ s) =
    let (p, ps, e) = split_nonempty c s in
    let joined : join c (p ∷ ps) ≡ s = ap (join c) (sym e) ∙ join-split c s in
    elim (Bool-cases (x == c)) [
      | inl h ↦
          rw (h, e)
            (ap (λ u. u ∷ join c (p ∷ ps)) (sym ((==_iff x c).0 h)) ∙ ap (λ t. x ∷ t) joined)
      | inr h ↦ rw (h, e) (join-cons_head c x ps p ∙ ap (λ t. x ∷ t) joined)
    ]

map-resolv_var-plain :
    (objects : Objects) (parts : List Text)
    → All (λ p. starts_with p (txt "$") ≡ false) parts
    → map (resolv_var objects) parts ≡ parts
unfolding resolv_var
map-resolv_var-plain objects [] h = refl
map-resolv_var-plain objects (p ∷ parts) h = rw (h.0, map-resolv_var-plain objects parts h.1) refl

-- A value of which no segment begins with a dollar sign stands for itself.
pub resolv_path-plain :
    (objects : Objects) (path : Text)
    → All (λ p. starts_with p (txt "$") ≡ false) (split b'/' path)
    → resolv_path objects path ≡ path
unfolding resolv_path
resolv_path-plain objects path h =
    ap (join b'/') (map-resolv_var-plain objects (split b'/' path) h) ∙ join-split b'/' path
