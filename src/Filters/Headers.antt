-- ===== src/Filters/Headers.antt =====
-- src/filters/http/RequestHeaderModifier.js and ResponseHeaderModifier.js, which share their code but
-- for the message that they change.
use fgw.Base.{
  ◌≡◌, refl, ap, ◌∙◌, Bool, true, false, ◌||◌, List, [], ◌∷◌, ◌++◌, Option, none, some, Text,
  truthy, text_eq, text_eq_iff, to_lower, text_equality, lookup, insert, erase, lookup-insert,
  lookup-erase, any, if◌then◌else◌, Bool-cases, inl, inr, or_empty,
}

pub record HeaderModifier : Type 0 where
  pub set : Option (List (Text × Text))
  pub add : Option (List (Text × Text))
  pub remove : Option (List Text)

abbrev pub Headers : Type 0
Headers = List (Text × Text)

-- `headers[k]` is falsy when it is missing or empty.
abbrev pub added : Option Text → Text → Text
added none v = v
added (some u) v = if truthy u then u ++ (b',' ∷ v) else v

unfoldable pub apply_set : List (Text × Text) → Headers → Headers
apply_set [] h = h
apply_set ((k, v) ∷ s) h = apply_set s (insert (to_lower k) v h)

unfoldable pub apply_add : List (Text × Text) → Headers → Headers
apply_add [] h = h
apply_add ((k, v) ∷ s) h = apply_add s (insert (to_lower k) (added (lookup (to_lower k) h) v) h)

unfoldable pub apply_remove : List Text → Headers → Headers
apply_remove [] h = h
apply_remove (k ∷ s) h = apply_remove s (erase (to_lower k) h)

-- The handler of the message's head.
unfoldable pub modify : HeaderModifier → Headers → Headers
unfolding apply_set apply_add apply_remove
modify m h =
    apply_remove (or_empty m.remove) (apply_add (or_empty m.add) (apply_set (or_empty m.set) h))

-- ResponseHeaderModifier.js: the same on the head of a response.
unfoldable pub modify_response : HeaderModifier → Headers → Headers
unfolding modify
modify_response m h = modify m h

-- What the lists do to the value of one header, by itself.
abbrev pub set_value : Text → List (Text × Text) → Option Text → Option Text
set_value j [] o = o
set_value j ((k, v) ∷ s) o = set_value j s (if text_eq (to_lower k) j then some v else o)

abbrev pub add_value : Text → List (Text × Text) → Option Text → Option Text
add_value j [] o = o
add_value j ((k, v) ∷ s) o = add_value j s (if text_eq (to_lower k) j then some (added o v) else o)

abbrev pub remove_value : Text → List Text → Option Text → Option Text
remove_value j ks o = if any (λ k. text_eq (to_lower k) j) ks then none else o

lookup-apply_set :
    (j : Text) (s : List (Text × Text)) (h : Headers)
    → lookup j (apply_set s h) ≡ set_value j s (lookup j h)
unfolding apply_set
lookup-apply_set j [] h = refl
lookup-apply_set j ((k, v) ∷ s) h =
    lookup-apply_set j s (insert (to_lower k) v h)
    ∙ ap (set_value j s) (lookup-insert (to_lower k) j v h)

added_here :
    (j k : Text) (v : Text) (h : Headers)
    → (if text_eq (to_lower k) j then some (added (lookup (to_lower k) h) v) else lookup j h)
      ≡ (if text_eq (to_lower k) j then some (added (lookup j h) v) else lookup j h)
added_here j k v h = elim (Bool-cases (text_eq (to_lower k) j)) [
  | inl e ↦ rw ((text_eq_iff (to_lower k) j).0 e) refl
  | inr e ↦ rw e refl
]

lookup-apply_add :
    (j : Text) (s : List (Text × Text)) (h : Headers)
    → lookup j (apply_add s h) ≡ add_value j s (lookup j h)
unfolding apply_add
lookup-apply_add j [] h = refl
lookup-apply_add j ((k, v) ∷ s) h =
    lookup-apply_add j s (insert (to_lower k) (added (lookup (to_lower k) h) v) h)
    ∙ ap (add_value j s)
        (lookup-insert (to_lower k) j (added (lookup (to_lower k) h) v) h ∙ added_here j k v h)

lookup-apply_remove :
    (j : Text) (ks : List Text) (h : Headers)
    → lookup j (apply_remove ks h) ≡ remove_value j ks (lookup j h)
unfolding apply_remove
lookup-apply_remove j [] h = refl
lookup-apply_remove j (k ∷ ks) h =
    lookup-apply_remove j ks (erase (to_lower k) h)
    ∙ ap (remove_value j ks) (lookup-erase (to_lower k) j h)
    ∙ same (text_eq (to_lower k) j) (any (λ i. text_eq (to_lower i) j) ks) (lookup j h)
  where
    same :
        (b c : Bool) (o : Option Text)
        → (if c then none else (if b then none else o)) ≡ (if b || c then none else o)
    same true true o = refl
    same true false o = refl
    same false c o = refl

-- Each header is modified by itself: its value afterwards follows from its value before by the
-- entries that name it in any case, first those of `set` (the last one stays), then those of `add`
-- (joined by commas, an empty or missing value being replaced), and it is missing if `remove` names
-- it.
pub lookup-modify :
    (m : HeaderModifier) (j : Text) (h : Headers)
    → lookup j (modify m h)
      ≡ remove_value j
          (or_empty m.remove)
          (add_value j (or_empty m.add) (set_value j (or_empty m.set) (lookup j h)))
unfolding modify
lookup-modify m j h =
    let h1 = apply_set (or_empty m.set) h in
    let h2 = apply_add (or_empty m.add) h1 in
    lookup-apply_remove j (or_empty m.remove) h2
    ∙ ap (remove_value j (or_empty m.remove)) (
        lookup-apply_add j (or_empty m.add) h1
        ∙ ap (add_value j (or_empty m.add)) (lookup-apply_set j (or_empty m.set) h))
