-- ===== src/Resources/Follower.antt =====
-- A watcher of src/resources.js that only sees the notices, as onResourceChange of src/gateway.js.
use fgw.Base.{
  ◌≡◌, refl, sym, ap, Bool, true, List, [], ◌∷◌, ◌++◌, Option, none, some, Text, truthy, text_eq,
  Eq, text_equality, lookup, insert, erase, All, Bool-cases, inl, inr, subst,
}
use mathlib.Core.List.{Perm, Mem, Perm-prop}
use mathlib.Core.List.Perm
use mathlib.Core.Logic.{∥∥₁_elim}
use fgw.Resources.Filed.{
  filed, filed-insert, filed-insert_new, filed-erase, HasDistinctKeys, HasDistinctKeys-insert,
  HasDistinctKeys-erase,
}
use fgw.Resources.{
  Store, Notice, remove_first, remove_old, append_new, change_file, settle_file, change_files,
}
use fgw.Resources.Mirror.{remove_first-perm, mem_filed, to_front}
use fgw.Resources.Replay.{files-prepared, lookup-change_file}

module _ {R : Type 0} ⦃same : Eq R⦄ where
  -- What a watcher has that keeps a list of its own.
  unfoldable pub follow : List (Notice R) → List R → List R
  unfolding remove_first
  follow [] xs = xs
  follow (Notice.created r ∷ told) xs = follow told (r ∷ xs)
  follow (Notice.deleted r ∷ told) xs = follow told (remove_first r xs)
  follow (Notice.updated r old ∷ told) xs = follow told (r ∷ remove_first old xs)

  follow-append :
      (told more : List (Notice R)) (xs : List R)
      → follow (told ++ more) xs ≡ follow more (follow told xs)
  unfolding follow
  follow-append [] more xs = refl
  follow-append (Notice.created r ∷ told) more xs = follow-append told more (r ∷ xs)
  follow-append (Notice.deleted r ∷ told) more xs = follow-append told more (remove_first r xs)
  follow-append (Notice.updated r old ∷ told) more xs =
      follow-append told more (r ∷ remove_first old xs)

  -- The resources of all files.
  abbrev pub contents : List (Text × R) → List R
  contents = filed (λ r. []) []

  follow_removed :
      (path : Text) (old : R) (files : List (Text × R)) (xs : List R)
      → lookup path files ≡ some old
      → Perm xs (contents files)
      → Perm (old ∷ remove_first old xs) (contents files)
  unfolding text_eq
  follow_removed path old files xs e h =
      let there : Mem old xs =
        (Perm.mem_iff h).1 (mem_filed (λ r. []) (λ r. []) [] path files e refl) in
      ∥∥₁_elim there Perm-prop (λ m. Perm.trans (remove_first-perm (λ r. []) (λ r. []) old xs m) h)

  follow_updated :
      (path : Text) (old cur : R) (files : List (Text × R)) (xs : List R)
      → lookup path files ≡ some old
      → Perm xs (contents files)
      → Perm (cur ∷ remove_first old xs) (contents (insert path cur files))
  unfolding text_eq
  follow_updated path old cur files xs e h = Perm.cons_inv (
      Perm.trans (Perm.swap cur old (remove_first old xs)) (
        Perm.trans (Perm.cons cur (follow_removed path old files xs e h))
          (Perm.symm (filed-insert (λ r. []) [] path old cur files e))))

  follow_deleted :
      (path : Text) (old : R) (files : List (Text × R)) (xs : List R)
      → HasDistinctKeys (λ (r : R). []) files
      → lookup path files ≡ some old
      → Perm xs (contents files)
      → Perm (remove_first old xs) (contents (erase path files))
  unfolding text_eq
  follow_deleted path old files xs d e h = Perm.cons_inv (
      Perm.trans (follow_removed path old files xs e h)
        (Perm.symm (filed-erase (λ r. []) [] path old files d e)))

  follow_created :
      (path : Text) (cur : R) (files : List (Text × R)) (xs : List R)
      → lookup path files ≡ none
      → Perm xs (contents files)
      → Perm (cur ∷ xs) (contents (insert path cur files))
  unfolding text_eq
  follow_created path cur files xs e h = rw (filed-insert_new (λ r. []) [] path cur files e) (
      Perm.trans (Perm.cons cur h)
        (Perm.symm (to_front (λ r. []) (λ r. []) true cur (contents files))))

module _ {R : Type 0} ⦃same : Eq R⦄ (kind_of name_of : R → Text) where
  abbrev has_kind : Option R → Bool
  has_kind none = true
  has_kind (some r) = truthy (kind_of r)

  follow-settle_file :
      (path : Text) (o d : Option R) (s : Store R) (xs : List R)
      → HasDistinctKeys (λ (r : R). []) s.files
      → has_kind o ≡ true
      → has_kind d ≡ true
      → lookup path s.files ≡ o
      → Perm xs (contents s.files)
      → let (s', told) = settle_file kind_of name_of path o d s in
        Perm (follow told xs) (contents s'.files)
  unfolding settle_file follow
  follow-settle_file path none none s xs k a b e h = h
  follow-settle_file path (some old) none s xs k a b e h = follow_deleted path old s.files xs k e h
  follow-settle_file path none (some cur) s xs k a b e h = follow_created path cur s.files xs e h
  follow-settle_file path (some old) (some cur) s xs k a b e h =
      let updated = follow_updated path old cur s.files xs e h in
      elim (Bool-cases (text_eq (kind_of cur) (kind_of old))) [
        | inl t ↦ rw (b, t) updated
        | inr t ↦ rw (b, a, t) updated
      ]

  settle_file-HasDistinctKeys :
      (path : Text) (o d : Option R) (s : Store R)
      → HasDistinctKeys (λ (r : R). []) s.files
      → HasDistinctKeys (λ (r : R). []) (settle_file kind_of name_of path o d s).0.files
  unfolding settle_file
  settle_file-HasDistinctKeys path none none s k = k
  settle_file-HasDistinctKeys path (some old) none s k =
      HasDistinctKeys-erase (λ r. []) path s.files k
  settle_file-HasDistinctKeys path none (some cur) s k =
      HasDistinctKeys-insert (λ r. []) path cur s.files k
  settle_file-HasDistinctKeys path (some old) (some cur) s k =
      HasDistinctKeys-insert (λ r. []) path cur s.files k

  -- What a follower relies on: no path is there twice, and every resource has a kind.
  record IsKinded (s : Store R) : Type 0 where
    keys : HasDistinctKeys (λ (r : R). []) s.files
    kinds : (p : Text) → has_kind (lookup p s.files) ≡ true

  change_file-IsKinded :
      (path : Text) (d : Option R) (s : Store R)
      → has_kind d ≡ true
      → IsKinded s
      → IsKinded (change_file kind_of name_of path d s).0
  unfolding change_file
  change_file-IsKinded path d s b k =
      let o = lookup path s.files in
      let s' = append_new kind_of name_of d (remove_old kind_of name_of o s) in
      record {
        keys = settle_file-HasDistinctKeys path o d s' (
            subst (λ fs. HasDistinctKeys (λ (r : R). []) fs)
              (sym (files-prepared kind_of name_of o d s)) k.keys);
        kinds = λ p.
            rw (lookup-change_file kind_of name_of path p d s)
              (elim (Bool-cases (text_eq path p)) [ inl t ↦ rw t b | inr t ↦ rw t (k.kinds p) ]);
      }

  follow-change_file :
      (path : Text) (d : Option R) (s : Store R) (xs : List R)
      → has_kind d ≡ true
      → IsKinded s
      → Perm xs (contents s.files)
      → let (s', told) = change_file kind_of name_of path d s in
        Perm (follow told xs) (contents s'.files)
  unfolding change_file
  follow-change_file path d s xs b k h =
      let o = lookup path s.files in
      let s' = append_new kind_of name_of d (remove_old kind_of name_of o s) in
      let f = files-prepared kind_of name_of o d s in
      follow-settle_file path o d s' xs
        (subst (λ fs. HasDistinctKeys (λ (r : R). []) fs) (sym f) k.keys) (k.kinds path) b
        (ap (lookup path) f) (subst (λ fs. Perm xs (contents fs)) (sym f) h)

  follow_kinded :
      (changes : List (Text × Option R)) (s : Store R) (xs : List R)
      → All (λ c. has_kind c.1 ≡ true) changes
      → IsKinded s
      → Perm xs (contents s.files)
      → let (t, told) = change_files kind_of name_of changes s in
        Perm (follow told xs) (contents t.files)
  unfolding change_files follow
  follow_kinded [] s xs b k h = h
  follow_kinded ((path, d) ∷ changes) s xs b k h =
      let s' = (change_file kind_of name_of path d s).0 in
      let told = (change_file kind_of name_of path d s).1 in
      rw (follow-append told (change_files kind_of name_of changes s').1 xs) (
        follow_kinded changes s' (follow told xs) b.1 (change_file-IsKinded path d s b.0 k)
          (follow-change_file path d s xs b.0 k h))

  -- Where every content has a kind, the notices are enough: a watcher that starts with nothing, adds
  -- what is created, drops what is deleted and replaces what is updated, has after any series of
  -- changes exactly the resources of the files, each as often.
  pub follow-change_files :
      (changes : List (Text × Option R))
      → All (λ c. has_kind c.1 ≡ true) changes
      → let (s, told) =
          change_files kind_of name_of changes (record { resource_map = []; files = [] }) in
        Perm (follow told []) (contents s.files)
  unfolding lookup
  follow-change_files changes b =
      follow_kinded changes (record { resource_map = []; files = [] }) [] b
        (record { keys = tt; kinds = λ p. refl }) (Perm.refl [])
