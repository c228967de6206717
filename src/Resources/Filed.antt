-- ===== src/Resources/Filed.antt =====
-- src/resources.js: the resource files of a kind, when a file is written or removed.
use fgw.Base.{
  ◌≡◌, refl, sym, ap, ◌∙◌, Bool, true, false, List, [], ◌∷◌, ◌++◌, none, some, arith, Text, text_eq,
  text_eq_iff, text_equality, lookup, insert, erase, lookup-insert, lookup-erase, only_if,
  Bool-cases, inl, inr,
}
use mathlib.Core.List.{Perm, append-nil, append_assoc}
use mathlib.Core.List.Perm
use mathlib.Core.Option.{some-ne-none}

module _ {R : Type 0} (kind_of : R → Text) where
  abbrev pub of_kind : Text → R → Bool
  of_kind k r = text_eq (kind_of r) k

  -- The resources of the files that have a kind.
  abbrev pub filed : Text → List (Text × R) → List R
  filed k [] = []
  filed k ((p, r) ∷ files) = only_if (of_kind k r) r ++ filed k files

  abbrev pub HasDistinctKeys : List (Text × R) → Type 0
  HasDistinctKeys [] = Unit
  HasDistinctKeys ((p, r) ∷ m) = (lookup p m ≡ none) × HasDistinctKeys m

  text_eq_flip : (q p : Text) → text_eq q p ≡ false → text_eq p q ≡ false
  text_eq_flip q p h = ground (arith, text_eq_iff q p, text_eq_iff p q)

  swap_ifs :
      (b c : Bool) (x y : R) (zs : List R)
      → Perm (only_if b x ++ (only_if c y ++ zs)) (only_if c y ++ (only_if b x ++ zs))
  swap_ifs false c x y zs = Perm.refl _
  swap_ifs true false x y zs = Perm.refl _
  swap_ifs true true x y zs = Perm.swap y x zs

  -- Two parts in front are exchanged around a permutation of the rest.
  through :
      (b c d : Bool) (x y z : R) (us vs : List R)
      → Perm (only_if b x ++ us) (only_if c y ++ vs)
      → Perm (only_if b x ++ (only_if d z ++ us)) (only_if c y ++ (only_if d z ++ vs))
  through b c d x y z us vs h =
      Perm.trans (swap_ifs b d x z us)
        (Perm.trans (Perm.append_left (only_if d z) h) (swap_ifs d c z y vs))

  -- The values under a key that is written anew.
  pub filed-insert :
      (k p : Text) (old cur : R) (files : List (Text × R))
      → lookup p files ≡ some old
      → Perm
          (only_if (of_kind k old) old ++ filed k (insert p cur files))
          (only_if (of_kind k cur) cur ++ filed k files)
  unfolding lookup insert
  filed-insert k p old cur [] e = cc
  filed-insert k p old cur ((q, r) ∷ files) e = elim (Bool-cases (text_eq q p)) [
    | inl h ↦
        let same' : r ≡ old = ground arith in
        rw (h, same') (swap_ifs (of_kind k old) (of_kind k cur) old cur (filed k files))
    | inr h ↦ rw h (
        through (of_kind k old) (of_kind k cur) (of_kind k r) old cur r _ _
          (filed-insert k p old cur files (rw h at e)))
  ]

  pub filed-insert_new :
      (k p : Text) (cur : R) (files : List (Text × R))
      → lookup p files ≡ none
      → filed k (insert p cur files) ≡ filed k files ++ only_if (of_kind k cur) cur
  unfolding lookup insert
  filed-insert_new k p cur [] e = append-nil _
  filed-insert_new k p cur ((q, r) ∷ files) e = elim (Bool-cases (text_eq q p)) [
    | inl h ↦ let bad : some r ≡ none = ground arith in absurd (some-ne-none r bad)
    | inr h ↦ rw h (
        ap (λ l. only_if (of_kind k r) r ++ l) (filed-insert_new k p cur files (rw h at e))
        ∙ sym (append_assoc (only_if (of_kind k r) r) (filed k files) _))
  ]

  erase_absent :
      (p : Text) (files : List (Text × R)) → lookup p files ≡ none → erase p files ≡ files
  unfolding lookup erase
  erase_absent p [] e = refl
  erase_absent p ((q, r) ∷ files) e = ground (arith, erase_absent p files)

  pub filed-erase :
      (k p : Text) (old : R) (files : List (Text × R))
      → HasDistinctKeys files
      → lookup p files ≡ some old
      → Perm (only_if (of_kind k old) old ++ filed k (erase p files)) (filed k files)
  unfolding lookup erase
  filed-erase k p old [] d e = cc
  filed-erase k p old ((q, r) ∷ files) d e = elim (Bool-cases (text_eq q p)) [
    | inl h ↦
        let same' : r ≡ old = ground arith in
        let gone : lookup p files ≡ none = rw (← (text_eq_iff q p).0 h) d.0 in
        rw (h, same', erase_absent p files gone) (Perm.refl _)
    | inr h ↦ rw h (
        Perm.trans (swap_ifs (of_kind k old) (of_kind k r) old r (filed k (erase p files)))
          (Perm.append_left (only_if (of_kind k r) r) (filed-erase k p old files d.1 (rw h at e))))
  ]

  pub HasDistinctKeys-insert :
      (p : Text) (cur : R) (files : List (Text × R))
      → HasDistinctKeys files
      → HasDistinctKeys (insert p cur files)
  unfolding lookup insert
  HasDistinctKeys-insert p cur [] d = (refl, tt)
  HasDistinctKeys-insert p cur ((q, r) ∷ files) d = elim (Bool-cases (text_eq q p)) [
    | inl h ↦ rw h d
    | inr h ↦ rw h (
      lookup-insert p q cur files ∙ rw (text_eq_flip q p h) d.0,
      HasDistinctKeys-insert p cur files d.1,
    )
  ]

  pub HasDistinctKeys-erase :
      (p : Text) (files : List (Text × R)) → HasDistinctKeys files → HasDistinctKeys (erase p files)
  unfolding lookup erase
  HasDistinctKeys-erase p [] d = tt
  HasDistinctKeys-erase p ((q, r) ∷ files) d = elim (Bool-cases (text_eq q p)) [
    | inl h ↦ rw h (HasDistinctKeys-erase p files d.1)
    | inr h ↦
        rw h
          (lookup-erase p q files ∙ rw (text_eq_flip q p h) d.0, HasDistinctKeys-erase p files d.1)
  ]
