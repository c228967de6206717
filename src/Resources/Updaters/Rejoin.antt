-- ===== src/Resources/Updaters/Rejoin.antt =====
-- src/resources.js, runUpdaters: callbacks that register themselves again when they are called.
use mathlib.Core.List.{append-nil, append_assoc}
use fgw.Base.{
  ◌≡◌, refl, sym, ◌∙◌, ap, Bool, true, false, keep, All, arith, Bool-cases, inl, inr, List, [], ◌∷◌,
  ◌++◌, Option, none, some, Text, Eq, text_eq_refl, text_equality, lookup, insert, erase,
  lookup-insert_self, lookup-erase, any, if◌then◌else◌, or_empty,
}
use fgw.Resources.Updaters.{
  Updaters, Ran, until, registered, add_updater, includes, call_all, run_list, run_map,
  run_updaters,
}

module _ {C : Type 0} ⦃same : Eq C⦄ where
  abbrev pub is_some : Option (List C) → Bool
  is_some none = false
  is_some (some cs) = true

  registered_deleted :
      (kind key : Text) (m : List (Text × List C)) (u : Updaters C)
      → registered kind key (insert kind (erase key m) u) ≡ none
  registered_deleted kind key m u =
      rw (lookup-insert_self kind (erase key m) u, lookup-erase key key m, text_eq_refl key) refl

  -- No callback is twice in the list.
  abbrev pub AreDistinct : List C → Type 0
  AreDistinct [] = Unit
  AreDistinct (c ∷ cs) = All (λ d. same.beq c d ≡ false) cs × AreDistinct cs

  any_snoc_false :
      (c : C) (cs : List C) (d : C)
      → includes d cs ≡ false
      → same.beq c d ≡ false
      → includes d (cs ++ c ∷ []) ≡ false
  any_snoc_false c [] d h k = rw k refl
  any_snoc_false c (x ∷ cs) d h k = ground (arith, any_snoc_false c cs d)

  -- Nothing of a list is registered yet.
  abbrev AreNew : List C → List C → Type 0
  AreNew cs done = All (λ d. includes d done ≡ false) cs

  AreNew-snoc :
      (cs done : List C) (c : C)
      → AreNew cs done
      → All (λ d. same.beq c d ≡ false) cs
      → AreNew cs (done ++ c ∷ [])
  AreNew-snoc [] done c h k = tt
  AreNew-snoc (d ∷ cs) done c h k = (any_snoc_false c done d h.0 k.0, AreNew-snoc cs done c h.1 k.1)

  module _ (kind key : Text) (again throws : C → Bool) where
    -- A callback that registers itself again, or does not, and may throw.
    abbrev pub rejoin : C → Updaters C → Updaters C × Bool
    rejoin c u = (if again c then add_updater kind key c u else u, throws c)

    registered-add_updater :
        (c : C) (u : Updaters C)
        → includes c (or_empty (registered kind key u)) ≡ false
        → or_empty (registered kind key (add_updater kind key c u))
          ≡ or_empty (registered kind key u) ++ c ∷ []
    unfolding add_updater
    registered-add_updater c u h =
        let cbs = or_empty (registered kind key u) in
        rw
          (
            lookup-insert_self kind
                (insert key (if includes c cbs then cbs else cbs ++ c ∷ [])
                  (or_empty (lookup kind u)))
                u,
            lookup-insert_self key (if includes c cbs then cbs else cbs ++ c ∷ [])
                (or_empty (lookup kind u)),
            h,
          )
          refl

    registered-rejoin :
        (c : C) (u : Updaters C) (cs : List C)
        → AreNew (c ∷ cs) (or_empty (registered kind key u))
        → All (λ d. same.beq c d ≡ false) cs
        → (or_empty (registered kind key (rejoin c u).0)
            ≡ or_empty (registered kind key u) ++ keep again (c ∷ []))
          × AreNew cs (or_empty (registered kind key (rejoin c u).0))
    registered-rejoin c u cs new apart = elim (Bool-cases (again c)) [
      | inl a ↦
          rw (a, registered-add_updater c u new.0)
            (refl, AreNew-snoc cs (or_empty (registered kind key u)) c new.1 apart)
      | inr a ↦ rw a (sym (append-nil _), new.1)
    ]

    keep-cons : (c : C) (cs : List C) → keep again (c ∷ cs) ≡ keep again (c ∷ []) ++ keep again cs
    keep-cons c cs = elim (Bool-cases (again c)) [ inl a ↦ rw a refl | inr a ↦ rw a refl ]

    -- What the calls of a list leave, from what was registered before.
    record IsCalled (cs before : List C) (r : Ran C) : Type 0 where
      left : or_empty (registered kind key r.updaters) ≡ before ++ keep again (until throws cs)
      calls : r.calls ≡ until throws cs
      thrown : r.thrown ≡ any throws cs
      found : r.found ≡ true

    call_all-IsCalled :
        (cs : List C) (u : Updaters C)
        → AreNew cs (or_empty (registered kind key u))
        → AreDistinct cs
        → IsCalled cs (or_empty (registered kind key u)) (call_all rejoin cs u)
    unfolding call_all
    call_all-IsCalled [] u new apart = record {
      left = sym (append-nil _);
      calls = refl;
      thrown = refl;
      found = refl;
    }
    call_all-IsCalled (c ∷ cs) u new apart =
        let (joined, new') = registered-rejoin c u cs new apart.0 in
        let ih = call_all-IsCalled cs (rejoin c u).0 new' apart.1 in
        elim (Bool-cases (throws c)) [
          | inl t ↦ record {
            left = rw t joined;
            calls = rw t refl;
            thrown = rw t refl;
            found = rw t refl;
          }
          | inr t ↦ record {
            left = rw t (
                ih.left
                ∙ (ap (λ l. l ++ keep again (until throws cs)) joined
                    ∙ (append_assoc (or_empty (registered kind key u)) (keep again (c ∷ [])) _
                        ∙ ap (λ l. or_empty (registered kind key u) ++ l)
                            (sym (keep-cons c (until throws cs))))));
            calls = rw t (ap (λ l. c ∷ l) ih.calls);
            thrown = rw t ih.thrown;
            found = rw t ih.found;
          }
        ]

    AreNew-none : (cs : List C) → AreNew cs []
    AreNew-none [] = tt
    AreNew-none (c ∷ cs) = (refl, AreNew-none cs)

    -- A run of a key whose callbacks are distinct and do no more than register themselves again, or not,
    -- and throw, or not: they are called in the order of registration up to the first that throws, and
    -- afterwards exactly those of them that registered themselves again are registered, in this order,
    -- and none of those that were not called. The run says whether anything was registered, and throws
    -- when a callback does.
    pub run_updaters-rejoin :
        (u : Updaters C)
        → AreDistinct (or_empty (registered kind key u))
        → let cs = or_empty (registered kind key u) in
          let r = run_updaters rejoin kind (some key) u in
          (or_empty (registered kind key r.updaters) ≡ keep again (until throws cs))
          × (r.calls ≡ until throws cs)
          × (r.thrown ≡ any throws cs)
          × (r.found ≡ is_some (registered kind key u))
    unfolding run_updaters run_map run_list lookup
    run_updaters-rejoin u apart = of_map (lookup kind u) refl
      where
        Left : Option (List (Text × List C)) → Ran C → Type 0
        Left o r =
            let cs = or_empty (lookup key (or_empty o)) in
            (or_empty (registered kind key r.updaters) ≡ keep again (until throws cs))
            × (r.calls ≡ until throws cs)
            × (r.thrown ≡ any throws cs)
            × (r.found ≡ is_some (lookup key (or_empty o)))

        of_list :
            (m : List (Text × List C)) (o : Option (List C))
            → lookup kind u ≡ some m
            → lookup key m ≡ o
            → Left (some m) (run_list rejoin kind key m o u)
        of_list m none e k = rw k (
          rw (ap (λ t. or_empty (lookup key (or_empty t))) e ∙ ap or_empty k) refl,
          refl,
          refl,
          refl,
        )
        of_list m (some cs) e k =
            let cleared = registered_deleted kind key m u in
            let distinct : AreDistinct cs =
              rw (ap (λ t. or_empty (lookup key (or_empty t))) e ∙ ap or_empty k) at apart in
            let r =
              call_all-IsCalled cs (insert kind (erase key m) u) (rw cleared (AreNew-none cs))
                distinct in
            rw k (r.left ∙ rw cleared refl, r.calls, r.thrown, r.found)

        of_map :
            (o : Option (List (Text × List C)))
            → lookup kind u ≡ o
            → Left o (run_map rejoin kind (some key) o u)
        of_map none e = (ap (λ t. or_empty (lookup key (or_empty t))) e, refl, refl, refl)
        of_map (some m) e = of_list m (lookup key m) e refl
