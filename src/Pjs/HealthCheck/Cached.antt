-- ===== src/Pjs/HealthCheck/Cached.antt =====
-- pjs/common/health-check.js: the cache holds exactly the targets that are out.
use fgw.Base.{
  ◌+◌, ◌<◌, ◌≡◌, refl, sym, ◌∙◌, ap, Bool, true, false, not, ◌&&◌, List, [], ◌∷◌, Option, none,
  some, arith, Text, text_eq, text_eq_iff, text_eq_refl, text_equality, lookup, lookup-insert,
  lookup-erase, leb, if◌then◌else◌, Bool-cases, if_cases, inl, inr,
}
use fgw.Pjs.HealthCheck.{
  Settings, Target, Cache, cached, get, put, remove, Service, Changed, ok, fail, Step, on_target,
  step_of, on_each,
}

cached_if :
    (b : Bool) (x : Option Bool) (o : Option Bool)
    → cached (if b then x else o) ≡ (if b then cached x else cached o)
cached_if true x o = refl
cached_if false x o = refl

get-put : (a b : Text) (c : Cache) → get b (put a c) ≡ (if text_eq a b then true else get b c)
unfolding lookup
get-put a b none = cached_if (text_eq a b) (some true) none
get-put a b (some c) =
    ap cached (lookup-insert a b true c) ∙ cached_if (text_eq a b) (some true) (lookup b c)

get-remove :
    (a b : Text) (c : Cache) → get b (remove a c) ≡ (if text_eq a b then false else get b c)
get-remove a b none = same_false (text_eq a b)
  where
    same_false : (x : Bool) → false ≡ (if x then false else false)
    same_false true = refl
    same_false false = refl
get-remove a b (some c) = ap cached (lookup-erase a b c) ∙ cached_if (text_eq a b) none (lookup b c)

module _ (cfg : Settings) where
  -- A target is cached exactly when it is out, and one that is not has failed less often than allowed.
  pub record IsRecorded (a : Text) (t : Target) (c : Cache) : Type 0 where
    pub out : get a c ≡ not t.alive
    pub fails : t.alive ≡ true → t.error_count < cfg.max_fails

  pub record IsCurrent (s : Service) : Type 0 where
    pub recorded : (a : Text) (t : Target) → lookup a s.targets ≡ some t → IsRecorded a t s.cache

  -- A step that keeps the record of its target and leaves those of the others.
  pub record IsSound (f : Step) : Type 0 where
    pub keeps :
        (a : Text) (t : Target) (c : Cache)
        → IsRecorded a t c
        → IsRecorded a (f a t c).0 (f a t c).1.0
    pub leaves :
        (a b : Text) (t : Target) (c : Cache) → text_eq a b ≡ false → get b (f a t c).1.0 ≡ get b c

  pub ok-IsSound : 0 < cfg.max_fails → IsSound (ok cfg)
  unfolding ok
  ok-IsSound h = record {
    keeps = λ a t c r.
        if_cases (λ (x : Target × (Cache × Changed)). IsRecorded a x.0 x.1.0) t.alive
          (λ e. record { out = r.out; fails = r.fails })
          (λ e. record {
            out =
                if_cases (λ (x : Cache). get a x ≡ false) (get a c)
                  (λ g. get-remove a a c ∙ rw (text_eq_refl a) refl) (λ g. g);
            fails = λ u. h;
          });
    leaves = λ a b t c ne.
        if_cases (λ (x : Target × (Cache × Changed)). get b x.1.0 ≡ get b c) t.alive (λ e. refl)
          (λ e.
            if_cases (λ (x : Cache). get b x ≡ get b c) (get a c)
              (λ g. get-remove a b c ∙ rw ne refl) (λ g. refl));
  }

  pub fail-IsSound : IsSound (fail cfg)
  unfolding fail
  fail-IsSound = record {
    keeps = λ a t c r.
        if_cases (λ (x : Target × (Cache × Changed)). IsRecorded a x.0 x.1.0)
          (leb cfg.max_fails (t.error_count + 1) && t.alive)
          (λ e. record {
            out =
                if_cases (λ (x : Cache). get a x ≡ true) (get a c) (λ g. g)
                  (λ g. get-put a a c ∙ rw (text_eq_refl a) refl);
            fails = λ u. absurd (ground arith);
          })
          (λ e. record { out = r.out; fails = λ u. let k = r.fails u in ground arith });
    leaves = λ a b t c ne.
        if_cases (λ (x : Target × (Cache × Changed)). get b x.1.0 ≡ get b c)
          (leb cfg.max_fails (t.error_count + 1) && t.alive)
          (λ e.
            if_cases (λ (x : Cache). get b x ≡ get b c) (get a c) (λ g. refl)
              (λ g. get-put a b c ∙ rw ne refl))
          (λ e. refl);
  }

  pub on_target-IsCurrent :
      (f : Step) (a : Text) (s : Service) → IsSound f → IsCurrent s → IsCurrent (on_target f a s)
  unfolding on_target
  on_target-IsCurrent f a s sound h = of_target (lookup a s.targets) refl
    where
      moved :
          (t u : Target) (b : Text)
          → lookup a s.targets ≡ some t
          → (if text_eq a b then some (f a t s.cache).0 else lookup b s.targets) ≡ some u
          → IsRecorded b u (f a t s.cache).1.0
      moved t u b e k = elim (Bool-cases (text_eq a b)) [
        | inl hit ↦
            let new : (f a t s.cache).0 ≡ u = ground arith in
            rw (← (text_eq_iff a b).0 hit, ← new) (sound.keeps a t s.cache (h.recorded a t e))
        | inr miss ↦
            let r = h.recorded b u (rw miss at k) in
            record { out = sound.leaves a b t s.cache miss ∙ r.out; fails = r.fails }
      ]

      of_target : (o : Option Target) → lookup a s.targets ≡ o → IsCurrent (step_of f a o s)
      of_target none e = h
      of_target (some t) e = record {
        recorded = λ b u k. moved t u b e (sym (lookup-insert a b _ s.targets) ∙ k);
      }

  pub on_each-IsCurrent :
      (f : Step) (as' : List Text) (s : Service)
      → IsSound f
      → IsCurrent s
      → IsCurrent (on_each f as' s)
  unfolding on_each
  on_each-IsCurrent f [] s sound h = h
  on_each-IsCurrent f (a ∷ more) s sound h =
      on_each-IsCurrent f more (on_target f a s) sound (on_target-IsCurrent f a s sound h)

  -- What a step writes into the other fields does not matter.
  pub IsSound-after :
      (f : Step) (w : Target → Target)
      → ((t : Target) → ((w t).alive ≡ t.alive) × ((w t).error_count ≡ t.error_count))
      → IsSound f
      → IsSound (λ a t c. f a (w t) c)
  IsSound-after f w same_as sound = record {
    keeps = λ a t c r.
        let (alive, errors) = same_as t in
        sound.keeps a (w t) c (record {
          out = r.out ∙ ap not (sym alive);
          fails = λ u. let k = r.fails (sym alive ∙ u) in omega (arith, errors);
        });
    leaves = λ a b t c ne. sound.leaves a b (w t) c ne;
  }
