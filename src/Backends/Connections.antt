-- ===== src/Backends/Connections.antt =====
-- src/modules/backend.js: the connections of a backend and the counters of the backend and its targets.
-- Targets are objects: getTargets makes new ones on each update of the backend, while a connection keeps
-- the one that it was started with. An object is the number of its allocation.
use fgw.Base.{
  ℕ, ◌+◌, ◌-◌, ◌≤◌, ◌<◌, ◌≡◌, refl, ◌∙◌, Bool, true, false, List, [], ◌∷◌, ◌++◌, Option, none, some,
  arith, ltb, leb, ◌&&◌, ◌==◌, ==_iff, if◌then◌else◌, length, length-append, Bool-cases, inl, inr,
}

pub record State : Type 0 where
  -- `backend.concurrency`, and `concurrency` of each target object.
  pub concurrency : ℕ
  pub counts : ℕ → ℕ
  -- How many target objects were made, and how many of them the balancer has, the latest.
  pub made : ℕ
  pub provided : ℕ
  -- The pipelines that run, each with its `$target`.
  pub connections : List (ℕ × ℕ)

abbrev write : ℕ → ℕ → (ℕ → ℕ) → ℕ → ℕ
write target n counts t = if t == target then n else counts t

-- The targets that the balancer can give, among the objects.
abbrev pub is_provided : ℕ → State → Bool
is_provided t s = ltb t s.made && leb (s.made - s.provided) t

unfoldable pub on_start : (pipeline target : ℕ) → State → State
on_start p t s = record s {
  concurrency = s.concurrency + 1;
  counts = write t (s.counts t + 1) s.counts;
  connections = s.connections ++ (p, t) ∷ [];
}

abbrev pub target_of : ℕ → List (ℕ × ℕ) → Option ℕ
target_of p [] = none
target_of p ((q, t) ∷ cs) = if q == p then some t else target_of p cs

abbrev pub without : ℕ → List (ℕ × ℕ) → List (ℕ × ℕ)
without p [] = []
without p ((q, t) ∷ cs) = let rest = without p cs in if q == p then cs else (q, t) ∷ rest

unfoldable pub on_end : (pipeline target : ℕ) → State → State
on_end p t s = record s {
  concurrency = s.concurrency - 1;
  counts = write t (s.counts t - 1) s.counts;
  connections = without p s.connections;
}

-- An update of the backend with a number of targets.
unfoldable pub on_update : ℕ → State → State
on_update n s = record s { made = s.made + n; provided = n }

-- What can happen: a connection to a target that is provided, the end of one that runs, an update.
pub data Step : State → State → Type 0 where
  start :
      (s : State) (p t : ℕ)
      → is_provided t s ≡ true
      → target_of p s.connections ≡ none
      → Step s (on_start p t s)
  finish : (s : State) (p t : ℕ) → target_of p s.connections ≡ some t → Step s (on_end p t s)
  update : (s : State) (n : ℕ) → Step s (on_update n s)

pub data Steps : State → State → Type 0 where
  done : (s : State) → Steps s s
  more : {s t u : State} → Step s t → Steps t u → Steps s u

-- A backend that was made with a number of targets.
abbrev pub new_backend : ℕ → State
new_backend n = record {
  concurrency = 0;
  counts = λ t. 0;
  made = n;
  provided = n;
  connections = [];
}

-- The running connections of a target object.
abbrev pub running : ℕ → List (ℕ × ℕ) → ℕ
running t [] = 0
running t ((p, u) ∷ cs) = let rest = running t cs in if t == u then rest + 1 else rest

pub record IsCounted (s : State) : Type 0 where
  pub total : s.concurrency ≡ length s.connections
  pub each : (t : ℕ) → s.counts t ≡ running t s.connections
  pub fresh : (t : ℕ) → s.made ≤ t → running t s.connections ≡ 0

running_snoc :
    (t p u : ℕ) (cs : List (ℕ × ℕ))
    → running t (cs ++ (p, u) ∷ []) ≡ (if t == u then running t cs + 1 else running t cs)
running_snoc t p u [] = ground arith
running_snoc t p u ((q, v) ∷ cs) = ground (arith, running_snoc t p u cs)

if_both :
    (b c : Bool) (m n : ℕ)
    → m ≡ (if c then n + 1 else n)
    → (if b then m + 1 else m)
      ≡ (if c then (if b then n + 1 else n) + 1 else (if b then n + 1 else n))
if_both true true m n h = omega (arith, h)
if_both true false m n h = omega (arith, h)
if_both false true m n h = h
if_both false false m n h = h

running-without :
    (t p u : ℕ) (cs : List (ℕ × ℕ))
    → target_of p cs ≡ some u
    → running t cs ≡ (if t == u then running t (without p cs) + 1 else running t (without p cs))
running-without t p u [] h = cc
running-without t p u ((q, v) ∷ cs) h = elim (Bool-cases (q == p)) [
  | inl e ↦ let same : v ≡ u = ground arith in rw (e, same) refl
  | inr e ↦
      let ih = running-without t p u cs (rw e at h) in
      rw e (if_both (t == v) (t == u) (running t cs) (running t (without p cs)) ih)
]

length-without :
    (p u : ℕ) (cs : List (ℕ × ℕ)) → target_of p cs ≡ some u → length cs ≡ length (without p cs) + 1
length-without p u [] h = cc
length-without p u ((q, v) ∷ cs) h = ground (arith, length-without p u cs)

on_start-IsCounted :
    (p t : ℕ) (s : State) → is_provided t s ≡ true → IsCounted s → IsCounted (on_start p t s)
unfolding on_start
on_start-IsCounted p t s b c = record {
  total = omega (arith, c.total, length-append s.connections ((p, t) ∷ []));
  each = λ u.
      let k = c.each u in
      let k' = c.each t in ground (arith, running_snoc u p t s.connections, ==_iff u t);
  fresh = λ u h.
      let k = c.fresh u h in
      let below : t < s.made = ground arith in
      ground (arith, running_snoc u p t s.connections, ==_iff u t);
}

on_end-IsCounted :
    (p t : ℕ) (s : State)
    → target_of p s.connections ≡ some t
    → IsCounted s
    → IsCounted (on_end p t s)
unfolding on_end
on_end-IsCounted p t s h c = record {
  total = omega (arith, c.total, length-without p t s.connections h);
  each = λ u.
      let k = c.each u in
      let k' = c.each t in
      ground (
        arith,
        running-without u p t s.connections h,
        running-without t p t s.connections h,
        ==_iff u t,
      );
  fresh = λ u m. let k = c.fresh u m in ground (arith, running-without u p t s.connections h);
}

Step-IsCounted : (s t : State) → Step s t → IsCounted s → IsCounted t
unfolding on_update
Step-IsCounted _ _ (start s p t h n) c = on_start-IsCounted p t s h c
Step-IsCounted _ _ (finish s p t h) c = on_end-IsCounted p t s h c
Step-IsCounted _ _ (update s n) c = record {
  total = c.total;
  each = c.each;
  fresh = λ t h. c.fresh t (omega arith);
}

Steps-IsCounted : (s t : State) → Steps s t → IsCounted s → IsCounted t
Steps-IsCounted _ _ (done s) c = c
Steps-IsCounted _ _ (more {s} {t} {u} first rest) c =
    Steps-IsCounted t u rest (Step-IsCounted s t first c)

-- In every state that a backend reaches, its counter is the number of its running connections, and the
-- counter of each target object the number of those that were started with it, also of an object that
-- an update has replaced; an object that is not made yet has none.
pub new_backend-IsCounted : (n : ℕ) (s : State) → Steps (new_backend n) s → IsCounted s
new_backend-IsCounted n s r =
    Steps-IsCounted (new_backend n) s r
      (record { total = refl; each = λ t. refl; fresh = λ t h. refl })

-- After an update every target that the balancer is given counts no connection, whatever connections
-- to the same address are still running.
pub on_update-uncounted :
    (n m : ℕ) (s : State) (t : ℕ)
    → Steps (new_backend n) s
    → is_provided t (on_update m s) ≡ true
    → ((on_update m s).counts t ≡ 0) × ((on_update m s).concurrency ≡ length s.connections)
unfolding on_update
on_update-uncounted n m s t r h =
    let c = new_backend-IsCounted n s r in
    let made : s.made ≤ t = ground arith in (c.each t ∙ c.fresh t made, c.total)
