-- ===== src/Tests/Store.antt =====
-- A store of two resources in two files, and the updaters of a router.
use fgw.Base.{
  true, text_eq, ℕ, ◌≡◌, refl, List, [], ◌∷◌, Option, none, some, Text, txt, Eq, text_equality,
  lookup, ◌==◌, ==_iff, or_empty,
}
use mathlib.Core.List.{Perm}
use mathlib.Core.List.Perm
use fgw.Resources.{Store, list, change_file, change_files}
use fgw.Resources.Mirror.{IsMirror, change_file-IsMirror}
use fgw.Resources.Replay.{written, change_files-refines}
use fgw.Resources.Follower.{follow, contents, follow-change_files}
use fgw.Resources.Updaters.Rejoin.{rejoin, run_updaters-rejoin}
use fgw.Resources.Updaters.{Updaters, Ran, registered, run_updaters}

-- A resource is its kind and its name; its identity is its kind here.
abbrev kind_of : Text → Text
kind_of r = r

abbrev name_of : Text → Text
name_of r = r

abbrev route : Text
route = txt "HTTPRoute"

abbrev gateway : Text
gateway = txt "Gateway"

abbrev store : Store Text
store = record {
  resource_map = (route, record { list = route ∷ []; dict = (route, route) ∷ [] }) ∷ [];
  files = (txt "a.yaml", route) ∷ [];
}

abbrev no_store : Store Text
no_store = record { resource_map = []; files = [] }

no_store-IsMirror : IsMirror kind_of name_of no_store
unfolding list lookup
no_store-IsMirror = record { keys = tt; lists = λ k h. Perm.refl [] }

abbrev one_file : Store Text
one_file = (change_file kind_of name_of (txt "a.yaml") (some route) no_store).0

change_file-IsMirror_example :
    IsMirror kind_of name_of (change_file kind_of name_of (txt "a.yaml") (some gateway) one_file).0
change_file-IsMirror_example =
    change_file-IsMirror kind_of name_of (txt "a.yaml") (some gateway) one_file
      (change_file-IsMirror kind_of name_of (txt "a.yaml") (some route) no_store no_store-IsMirror)

instance abbrev number_equality : Eq ℕ
number_equality = record { beq = ◌==◌; beq_iff = ==_iff }

abbrev watched : Updaters ℕ
watched = (route, (txt "r1", 5 ∷ 6 ∷ 7 ∷ []) ∷ []) ∷ []

-- The second of the three callbacks throws.
abbrev left : Ran ℕ
left =
    run_updaters (rejoin route (txt "r1") (λ c. true) (λ c. c == 6)) route (some (txt "r1")) watched

run_updaters-rejoin_example :
    (or_empty (registered route (txt "r1") left.updaters) ≡ 5 ∷ 6 ∷ [])
    × (left.calls ≡ 5 ∷ 6 ∷ [])
    × (left.thrown ≡ true)
    × (left.found ≡ true)
unfolding lookup text_eq
run_updaters-rejoin_example =
    run_updaters-rejoin route (txt "r1") (λ c. true) (λ c. c == 6) watched
      ((refl, (refl, tt)), ((refl, tt), (tt, tt)))

abbrev changes : List (Text × Option Text)
changes =
    (txt "a.yaml", some route)
    ∷ (txt "b.yaml", some route)
    ∷ (txt "a.yaml", some gateway)
    ∷ (txt "b.yaml", none)
    ∷ []

change_files-refines_example :
    let s = (change_files kind_of name_of changes no_store).0 in
    ((p : Text) → lookup p s.files ≡ written changes (λ q. none) p) × IsMirror kind_of name_of s
change_files-refines_example = change_files-refines kind_of name_of changes

follow-change_files_example :
    Perm
      (follow (change_files kind_of name_of changes no_store).1 [])
      (contents (change_files kind_of name_of changes no_store).0.files)
follow-change_files_example =
    follow-change_files kind_of name_of changes (refl, (refl, (refl, (refl, tt))))
