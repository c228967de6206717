-- ===== src/Resources/Mirror.antt =====
-- src/resources.js: the list of each kind mirrors the resource files of that kind.
use fgw.Base.{
  ◌≡◌, refl, sym, ap, ◌∙◌, Bool, true, false, List, [], ◌∷◌, ◌++◌, Option, none, some, arith, Text,
  truthy, text_eq, text_eq_iff, Eq, beq_refl, text_equality, lookup, insert, erase, lookup-insert,
  only_if, if◌then◌else◌, Bool-cases, inl, inr, Memᴰ,
}
use mathlib.Core.List.{
  Perm, Mem, Perm-prop, perm_middle, mem-cons_self, mem-append_right, append-nil, append_assoc,
}
use mathlib.Core.List.Perm
use mathlib.Core.Logic.{∥∥₁_elim}
use mathlib.Core.Bool.{false≢true}
use fgw.Resources.Filed.{
  of_kind, filed, HasDistinctKeys, filed-insert, filed-insert_new, filed-erase,
  HasDistinctKeys-insert, HasDistinctKeys-erase,
}
use fgw.Resources.{
  Store, KindMap, Notice, list, append_resource, remove_resource, remove_from, remove_first,
  remove_old, append_new, change_file, settle_file, or_empty_map, listed,
}

module _ {R : Type 0} ⦃same : Eq R⦄ (kind_of name_of : R → Text) where
  -- Each kind lists exactly the resources of the files of that kind, each as often.
  pub record IsMirror (s : Store R) : Type 0 where
    pub keys : HasDistinctKeys kind_of s.files
    pub lists : (k : Text) → truthy k ≡ true → Perm (list k s) (filed kind_of k s.files)

  not_kind :
      (k : Text) (r : R)
      → truthy k ≡ true
      → truthy (kind_of r) ≡ false
      → text_eq (kind_of r) k ≡ false
  not_kind k r h t = elim (Bool-cases (text_eq (kind_of r) k)) [
    | inl e ↦ absurd (false≢true (sym t ∙ (rw ((text_eq_iff (kind_of r) k).0 e) h)))
    | inr e ↦ e
  ]

  listed_lem : (o : Option (KindMap R)) → (or_empty_map kind_of name_of o).list ≡ listed o
  listed_lem none = refl
  listed_lem (some m) = refl

  list-append_resource :
      (k : Text) (r : R) (s : Store R)
      → truthy k ≡ true
      → list k (append_resource kind_of name_of r s) ≡ list k s ++ only_if (of_kind kind_of k r) r
  unfolding list append_resource
  list-append_resource k r s h =
      let m = or_empty_map kind_of name_of (lookup (kind_of r) s.resource_map) in
      elim (Bool-cases (truthy (kind_of r))) [
        | inl t ↦ elim (Bool-cases (of_kind kind_of k r)) [
          | inl e ↦
              rw
                (
                  t,
                  lookup-insert (kind_of r) k _ s.resource_map,
                  e,
                  (text_eq_iff (kind_of r) k).0 e,
                )
                (ap (λ l. l ++ r ∷ []) (listed_lem (lookup k s.resource_map)))
          | inr e ↦ rw (t, lookup-insert (kind_of r) k _ s.resource_map, e) (sym (append-nil _))
        ]
        | inr t ↦
            let e : text_eq (kind_of r) k ≡ false = not_kind k r h t in
            rw (t, e) (sym (append-nil _))
      ]

  list-remove_from :
      (k : Text) (r : R) (s : Store R) (o : Option (KindMap R))
      → lookup (kind_of r) s.resource_map ≡ o
      → list k (remove_from kind_of name_of o r s)
        ≡ (if of_kind kind_of k r then remove_first r (list k s) else list k s)
  unfolding list remove_from
  list-remove_from k r s none e = elim (Bool-cases (of_kind kind_of k r)) [
    | inl h ↦ rw (h, ← (text_eq_iff (kind_of r) k).0 h, e) refl
    | inr h ↦ rw h refl
  ]
  list-remove_from k r s (some m) e = elim (Bool-cases (of_kind kind_of k r)) [
    | inl h ↦
        rw (lookup-insert (kind_of r) k _ s.resource_map, h, ← (text_eq_iff (kind_of r) k).0 h, e)
          refl
    | inr h ↦ rw (lookup-insert (kind_of r) k _ s.resource_map, h) refl
  ]

  list-remove_resource :
      (k : Text) (r : R) (s : Store R)
      → truthy k ≡ true
      → list k (remove_resource kind_of name_of r s)
        ≡ (if of_kind kind_of k r then remove_first r (list k s) else list k s)
  unfolding remove_resource
  list-remove_resource k r s h = elim (Bool-cases (truthy (kind_of r))) [
    | inl t ↦ rw t (list-remove_from k r s (lookup (kind_of r) s.resource_map) refl)
    | inr t ↦ rw (t, not_kind k r h t) refl
  ]

  pub remove_first-perm : (r : R) (xs : List R) → Memᴰ r xs → Perm (r ∷ remove_first r xs) xs
  unfolding remove_first
  remove_first-perm r [] m = elim m [ ]
  remove_first-perm r (x ∷ xs) (Memᴰ.head e) = rw (← e, beq_refl r) (Perm.refl (r ∷ xs))
  remove_first-perm r (x ∷ xs) (Memᴰ.tail m) = elim (Bool-cases (same.beq x r)) [
    | inl h ↦ rw (h, (same.beq_iff x r).0 h) (Perm.refl (r ∷ xs))
    | inr h ↦ rw h (Perm.trans (Perm.swap x r _) (Perm.cons x (remove_first-perm r xs m)))
  ]

  pub mem_filed :
      (k p : Text) (files : List (Text × R)) {old : R}
      → lookup p files ≡ some old
      → of_kind kind_of k old ≡ true
      → Mem old (filed kind_of k files)
  unfolding lookup
  mem_filed k p [] e h = cc
  mem_filed k p ((q, r) ∷ files) {old} e h = elim (Bool-cases (text_eq q p)) [
    | inl hit ↦ let same' : r ≡ old = ground arith in rw (same', h) mem-cons_self
    | inr miss ↦
        mem-append_right (only_if (of_kind kind_of k r) r) (mem_filed k p files (rw miss at e) h)
  ]

  list-remove_old :
      (path : Text) (s : Store R) (k : Text) (old : R)
      → IsMirror s
      → truthy k ≡ true
      → lookup path s.files ≡ some old
      → Perm
          (only_if (of_kind kind_of k old) old ++ list k (remove_resource kind_of name_of old s))
          (list k s)
  list-remove_old path s k old m t e = elim (Bool-cases (of_kind kind_of k old)) [
    | inl h ↦
        rw (list-remove_resource k old s t, h)
          (∥∥₁_elim ((Perm.mem_iff (m.lists k t)).1 (mem_filed k path s.files e h)) Perm-prop
            (remove_first-perm old (list k s)))
    | inr h ↦ rw (list-remove_resource k old s t, h) (Perm.refl (list k s))
  ]

  files-remove_from :
      (o : Option (KindMap R)) (r : R) (s : Store R)
      → (remove_from kind_of name_of o r s).files ≡ s.files
  unfolding remove_from
  files-remove_from none r s = refl
  files-remove_from (some m) r s = refl

  pub files-remove_resource :
      (r : R) (s : Store R) → (remove_resource kind_of name_of r s).files ≡ s.files
  unfolding remove_resource
  files-remove_resource r s = elim (Bool-cases (truthy (kind_of r))) [
    | inl t ↦ rw t (files-remove_from (lookup (kind_of r) s.resource_map) r s)
    | inr t ↦ rw t refl
  ]

  pub files-append_resource :
      (r : R) (s : Store R) → (append_resource kind_of name_of r s).files ≡ s.files
  unfolding append_resource
  files-append_resource r s = elim (Bool-cases (truthy (kind_of r))) [
    | inl t ↦ rw t refl
    | inr t ↦ rw t refl
  ]

  cancel :
      (b : Bool) (x : R) (us vs : List R)
      → Perm (only_if b x ++ us) (only_if b x ++ vs)
      → Perm us vs
  cancel true x us vs h = Perm.cons_inv h
  cancel false x us vs h = h

  pub to_front : (b : Bool) (x : R) (us : List R) → Perm (us ++ only_if b x) (only_if b x ++ us)
  to_front true x us =
      Perm.trans (perm_middle us []) (Perm.cons x (rw (append-nil us) (Perm.refl us)))
  to_front false x us = rw (append-nil us) (Perm.refl us)

  IsMirror-of :
      (s : Store R) (files : List (Text × R))
      → HasDistinctKeys kind_of files
      → ((k : Text) → truthy k ≡ true → Perm (list k s) (filed kind_of k files))
      → IsMirror (record s { files = files })
  unfolding list
  IsMirror-of s files keys lists = record { keys = keys; lists = lists }

  replaced :
      (path : Text) (s : Store R) (k : Text) (old cur : R)
      → IsMirror s
      → truthy k ≡ true
      → lookup path s.files ≡ some old
      → let new = only_if (of_kind kind_of k cur) cur in
        Perm
          (only_if (of_kind kind_of k old) old
            ++ (list k (remove_resource kind_of name_of old s) ++ new))
          (only_if (of_kind kind_of k old) old ++ filed kind_of k (insert path cur s.files))
  replaced path s k old cur m t e =
      let b = of_kind kind_of k cur in
      rw
        (← append_assoc (only_if (of_kind kind_of k old) old)
          (list k (remove_resource kind_of name_of old s)) (only_if b cur))
        (Perm.trans
          (Perm.append_right (only_if b cur)
            (Perm.trans (list-remove_old path s k old m t e) (m.lists k t)))
          (Perm.trans (to_front b cur (filed kind_of k s.files))
            (Perm.symm (filed-insert kind_of k path old cur s.files e))))

  settle_file-IsMirror :
      (path : Text) (o d : Option R) (s : Store R)
      → IsMirror s
      → lookup path s.files ≡ o
      → IsMirror
          (settle_file kind_of name_of path o d
            (append_new kind_of name_of d (remove_old kind_of name_of o s))).0
  unfolding settle_file list insert
  settle_file-IsMirror path none none s m e = m
  settle_file-IsMirror path (some old) none s m e =
      IsMirror-of (remove_resource kind_of name_of old s) (erase path _)
        (rw (files-remove_resource old s) (HasDistinctKeys-erase kind_of path s.files m.keys))
        (λ k t. rw (files-remove_resource old s) (
          cancel (of_kind kind_of k old) old _ _ (
            Perm.trans (list-remove_old path s k old m t e) (
              Perm.trans (m.lists k t)
                (Perm.symm (filed-erase kind_of k path old s.files m.keys e))))))
  settle_file-IsMirror path none (some cur) s m e =
      IsMirror-of (append_resource kind_of name_of cur s) (insert path cur _)
        (rw (files-append_resource cur s) (HasDistinctKeys-insert kind_of path cur s.files m.keys))
        (λ k t.
          rw
            (
              files-append_resource cur s,
              list-append_resource k cur s t,
              filed-insert_new kind_of k path cur s.files e,
            )
            (Perm.append_right (only_if (of_kind kind_of k cur) cur) (m.lists k t)))
  settle_file-IsMirror path (some old) (some cur) s m e =
      let s' = remove_resource kind_of name_of old s in
      let f : (append_resource kind_of name_of cur s').files ≡ s.files =
        files-append_resource cur s' ∙ files-remove_resource old s in
      IsMirror-of (append_resource kind_of name_of cur s') (insert path cur _)
        (rw f (HasDistinctKeys-insert kind_of path cur s.files m.keys))
        (λ k t.
          rw (f, list-append_resource k cur s' t)
            (cancel (of_kind kind_of k old) old _ _ (replaced path s k old cur m t e)))

  -- A content without a kind that replaces a resource takes it out of the store, and the watcher
  -- is told of a creation only, never of the deletion.
  pub change_file-kindless :
      (path : Text) (old cur : R) (s : Store R)
      → lookup path s.files ≡ some old
      → truthy (kind_of cur) ≡ false
      → (change_file kind_of name_of path (some cur) s).1 ≡ Notice.created cur ∷ []
  unfolding change_file settle_file
  change_file-kindless path old cur s e h = rw (e, settle_file, h) refl

  -- After any change of a file each kind still lists exactly the resources of the files of that
  -- kind, each as often: what the file held before is gone, and what it holds now is there.
  pub change_file-IsMirror :
      (path : Text) (data' : Option R) (s : Store R)
      → IsMirror s
      → IsMirror (change_file kind_of name_of path data' s).0
  unfolding change_file
  change_file-IsMirror path data' s m =
      settle_file-IsMirror path (lookup path s.files) data' s m refl
