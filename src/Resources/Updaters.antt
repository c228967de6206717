-- ===== src/Resources/Updaters.antt =====
-- src/resources.js: the updaters, which are called once and have to register themselves again. A
-- callback is a reference compared by identity, and `run` is what its call does to the updaters and
-- whether it throws.
pub mod Rejoin
use mathlib.Core.List.{append-nil, append_assoc}
use fgw.Base.{
  ◌≡◌, refl, sym, ◌∙◌, ap, Bool, true, false, keep, All, arith, Bool-cases, inl, inr, List, [], ◌∷◌,
  ◌++◌, Option, none, some, Text, Eq, text_eq_refl, text_equality, lookup, insert, erase,
  lookup-insert_self, lookup-erase, any, if◌then◌else◌, or_empty,
}

abbrev pub Updaters : Type 0 → Type 0
Updaters C = List (Text × List (Text × List C))

-- What runUpdaters returns, unless a callback throws, the updaters afterwards, and the calls made in
-- their order.
pub record Ran (C : Type 0) : Type 0 where
  pub found : Bool
  pub thrown : Bool
  pub updaters : Updaters C
  pub calls : List C

-- The elements up to the first that passes a test, which is the last.
abbrev pub until {ℓ} : {A : Type ℓ} → (A → Bool) → List A → List A
until p [] = []
until p (x ∷ xs) = let rest = until p xs in x ∷ (if p x then [] else rest)

module _ {C : Type 0} ⦃same : Eq C⦄ where
  -- `updaters[kind]?.[key]`.
  abbrev pub registered : Text → Text → Updaters C → Option (List C)
  registered kind key u = lookup key (or_empty (lookup kind u))

  unfoldable pub set_updater : Text → Text → Option C → Updaters C → Updaters C
  set_updater kind key none u = insert kind (insert key [] (or_empty (lookup kind u))) u
  set_updater kind key (some cb) u = insert kind (insert key (cb ∷ []) (or_empty (lookup kind u))) u

  abbrev pub includes : C → List C → Bool
  includes cb cbs = any (λ c. same.beq c cb) cbs

  unfoldable pub add_updater : Text → Text → C → Updaters C → Updaters C
  add_updater kind key cb u =
      let cbs = or_empty (registered kind key u) in
      insert kind
        (insert key (if includes cb cbs then cbs else cbs ++ cb ∷ []) (or_empty (lookup kind u))) u

  -- `run c u` is the updaters after the call of `c`, and whether it throws.
  module _ (run : C → Updaters C → Updaters C × Bool) where
    -- `list.forEach(f => f(a, b, c))`, which ends at a callback that throws.
    unfoldable pub call_all : List C → Updaters C → Ran C
    call_all [] u = record { found = true; thrown = false; updaters = u; calls = [] }
    call_all (c ∷ cs) u =
        let rest = call_all cs (run c u).0 in
        if (run c u).1
        then record { found = true; thrown = true; updaters = (run c u).0; calls = c ∷ [] }
        else record rest { calls = c ∷ rest.calls }

    abbrev pub all_of : List (Text × List C) → List C
    all_of [] = []
    all_of ((k, cs) ∷ m) = cs ++ all_of m

    abbrev not_found : Updaters C → Ran C
    not_found u = record { found = false; thrown = false; updaters = u; calls = [] }

    -- The key is deleted before its list is called.
    unfoldable pub run_list :
        Text → Text → List (Text × List C) → Option (List C) → Updaters C → Ran C
    unfolding call_all
    run_list kind key m none u = not_found u
    run_list kind key m (some cs) u = call_all cs (insert kind (erase key m) u)

    unfoldable pub run_map : Text → Option Text → Option (List (Text × List C)) → Updaters C → Ran C
    unfolding run_list
    run_map kind key none u = not_found u
    run_map kind none (some m) u = call_all (all_of m) (erase kind u)
    run_map kind (some key) (some m) u = run_list kind key m (lookup key m) u

    -- `none` as the key is undefined. The result says whether anything was registered.
    unfoldable pub run_updaters : Text → Option Text → Updaters C → Ran C
    unfolding run_map
    run_updaters kind key u = run_map kind key (lookup kind u) u
