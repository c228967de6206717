-- ===== src/Base/Buckets.antt =====
-- Objects of lists that a program fills by `(m[k] ??= []).push(v)`, and what stands in them.
use mathlib.Core.Path.{◌≡◌, refl, ap, sym}
use mathlib.Core.Logic.{inl, inr}
use mathlib.Core.Bool.{Bool, true, false}
use mathlib.Core.Option.{Option, none, some}
use mathlib.Core.List.{List, [], ◌∷◌, ◌++◌, append-nil, append_assoc}
use fgw.Base.Bools.{if◌then◌else◌, Bool-cases, keep}
use fgw.Base.Texts.{Text, text_eq, text_eq_iff}
use fgw.Base.Maps.{text_equality, lookup, insert, lookup-insert}

module _ {ℓ} {A : Type ℓ} where
  -- `o[k] ?? []`.
  abbrev pub or_empty : Option (List A) → List A
  or_empty none = []
  or_empty (some xs) = xs

  -- `(m[k] ??= []).push(v)`.
  unfoldable pub push_at : Text → A → List (Text × List A) → List (Text × List A)
  push_at k v m = insert k (or_empty (lookup k m) ++ v ∷ []) m

  -- A list that was never pushed to is undefined.
  abbrev pub nonempty : List A → Option (List A)
  nonempty [] = none
  nonempty (x ∷ xs) = some (x ∷ xs)

  abbrev pub extend : Option (List A) → List A → Option (List A)
  extend none ys = nonempty ys
  extend (some xs) ys = some (xs ++ ys)

  abbrev pub only_if : Bool → A → List A
  only_if b x = if b then x ∷ [] else []

  pub extend_nil : (o : Option (List A)) → extend o [] ≡ o
  extend_nil none = refl
  extend_nil (some xs) = ap some (append-nil xs)

  extend_cons :
      (o : Option (List A)) (x : A) (ys : List A)
      → extend (extend o (x ∷ [])) ys ≡ extend o (x ∷ ys)
  extend_cons none x ys = refl
  extend_cons (some xs) x ys = ap some (append_assoc xs (x ∷ []) ys)

  extend_lem : (o : Option (List A)) (x : A) → some (or_empty o ++ x ∷ []) ≡ extend o (x ∷ [])
  extend_lem none x = refl
  extend_lem (some xs) x = refl

  pub lookup-push_at :
      (k j : Text) (x : A) (m : List (Text × List A))
      → lookup j (push_at k x m)
        ≡ (if text_eq k j then extend (lookup j m) (x ∷ []) else lookup j m)
  unfolding push_at
  lookup-push_at k j x m = elim (Bool-cases (text_eq k j)) [
    | inl h ↦
        rw (lookup-insert k j (or_empty (lookup k m) ++ x ∷ []) m, h, (text_eq_iff k j).0 h)
          (extend_lem (lookup j m) x)
    | inr h ↦ rw (lookup-insert k j (or_empty (lookup k m) ++ x ∷ []) m, h) refl
  ]

  pub if_extend :
      (b : Bool) (x : A) (o : Option (List A))
      → (if b then extend o (x ∷ []) else o) ≡ extend o (only_if b x)
  if_extend true x o = refl
  if_extend false x o = sym (extend_nil o)

  pub extend-keep :
      (f : A → Bool) (x : A) (xs : List A) (o : Option (List A))
      → extend (extend o (only_if (f x) x)) (keep f xs) ≡ extend o (keep f (x ∷ xs))
  extend-keep f x xs o = elim (Bool-cases (f x)) [
    | inl h ↦ rw h (extend_cons o x (keep f xs))
    | inr h ↦ rw (h, extend_nil o) refl
  ]

  pub keep_append :
      (f : A → Bool) (x : A) (xs ys : List A)
      → (ys ++ only_if (f x) x) ++ keep f xs ≡ ys ++ keep f (x ∷ xs)
  keep_append f x xs ys = elim (Bool-cases (f x)) [
    | inl h ↦ rw h (append_assoc ys (x ∷ []) (keep f xs))
    | inr h ↦ rw (h, append-nil ys) refl
  ]
