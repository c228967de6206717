-- ===== src/Resources/Replay.antt =====
-- A series of file changes as watch() of src/resources.js makes them, against a plain map from paths
-- to contents, and against a watcher that only sees the notices.
use fgw.Base.{
  ◌≡◌, refl, ap, ◌∙◌, List, [], ◌∷◌, Option, none, some, Text, text_eq, text_eq_iff, Eq,
  text_equality, lookup, lookup-insert, lookup-erase, if◌then◌else◌, Bool-cases, inl, inr,
}
use mathlib.Core.List.Perm
use fgw.Resources.{
  Store, list, remove_resource, remove_old, append_new, change_file, change_files, settle_file,
}
use fgw.Resources.Mirror.{
  IsMirror, change_file-IsMirror, files-remove_resource, files-append_resource,
}

-- The contents of the files by their paths, and a change of one.
abbrev pub write : {R : Type 0} → Text → Option R → (Text → Option R) → Text → Option R
write path data' view p = if text_eq path p then data' else view p

abbrev pub written : {R : Type 0} → List (Text × Option R) → (Text → Option R) → Text → Option R
written [] view = view
written ((path, data') ∷ changes) view = written changes (write path data' view)

module _ {R : Type 0} ⦃same : Eq R⦄ (kind_of name_of : R → Text) where
  lookup-settle_file :
      (path p : Text) (o d : Option R) (s : Store R)
      → lookup path s.files ≡ o
      → lookup p (settle_file kind_of name_of path o d s).0.files
        ≡ write path d (λ q. lookup q s.files) p
  unfolding settle_file
  lookup-settle_file path p none none s e = elim (Bool-cases (text_eq path p)) [
    | inl h ↦ rw (h, ← (text_eq_iff path p).0 h) e
    | inr h ↦ rw h refl
  ]
  lookup-settle_file path p (some old) none s e = lookup-erase path p s.files
  lookup-settle_file path p none (some cur) s e = lookup-insert path p cur s.files
  lookup-settle_file path p (some old) (some cur) s e = lookup-insert path p cur s.files

  pub files-prepared :
      (o d : Option R) (s : Store R)
      → (append_new kind_of name_of d (remove_old kind_of name_of o s)).files ≡ s.files
  files-prepared none none s = refl
  files-prepared (some old) none s = files-remove_resource kind_of name_of old s
  files-prepared none (some cur) s = files-append_resource kind_of name_of cur s
  files-prepared (some old) (some cur) s =
      files-append_resource kind_of name_of cur (remove_resource kind_of name_of old s)
      ∙ files-remove_resource kind_of name_of old s

  pub lookup-change_file :
      (path p : Text) (d : Option R) (s : Store R)
      → lookup p (change_file kind_of name_of path d s).0.files
        ≡ write path d (λ q. lookup q s.files) p
  unfolding change_file
  lookup-change_file path p d s =
      let o = lookup path s.files in
      let f = files-prepared o d s in
      let s' = append_new kind_of name_of d (remove_old kind_of name_of o s) in
      lookup-settle_file path p o d s' (ap (lookup path) f)
      ∙ ap (λ fs. write path d (λ q. lookup q fs) p) f

  written-change_files :
      (changes : List (Text × Option R)) (s : Store R) (view : Text → Option R)
      → ((p : Text) → lookup p s.files ≡ view p)
      → (p : Text)
      → lookup p (change_files kind_of name_of changes s).0.files ≡ written changes view p
  unfolding change_files
  written-change_files [] s view h p = h p
  written-change_files ((path, d) ∷ changes) s view h p =
      written-change_files changes (change_file kind_of name_of path d s).0 (write path d view)
        (λ q. lookup-change_file path q d s ∙ ap (λ x. if text_eq path q then d else x) (h q)) p

  change_files-IsMirror :
      (changes : List (Text × Option R)) (s : Store R)
      → IsMirror kind_of name_of s
      → IsMirror kind_of name_of (change_files kind_of name_of changes s).0
  unfolding change_files
  change_files-IsMirror [] s m = m
  change_files-IsMirror ((path, d) ∷ changes) s m =
      change_files-IsMirror changes (change_file kind_of name_of path d s).0
        (change_file-IsMirror kind_of name_of path d s m)

  -- A store without files and lists, changed by any series of changes, implements the plain map from
  -- paths to contents: a path gives what was last written to it, and nothing after a deletion, and
  -- each kind lists exactly the resources of the files of that kind, each as often.
  pub change_files-refines :
      (changes : List (Text × Option R))
      → let s =
          (change_files kind_of name_of changes (record { resource_map = []; files = [] })).0 in
        ((p : Text) → lookup p s.files ≡ written changes (λ q. none) p) × IsMirror kind_of name_of s
  unfolding lookup list
  change_files-refines changes =
      let empty : Store R = record { resource_map = []; files = [] } in
      (
        written-change_files changes empty (λ q. none) (λ p. refl),
        change_files-IsMirror changes empty (record { keys = tt; lists = λ k h. Perm.refl [] }),
      )
