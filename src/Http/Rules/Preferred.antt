-- ===== src/Http/Rules/Preferred.antt =====
-- src/modules/router-http.js, makeRuleSelector: the order of the entries, and what a search in that
-- order yields.
use fgw.Base.{
  ℕ, suc, ◌≡◌, refl, sym, ap, ◌∙◌, Bool, true, false, List, [], ◌∷◌, map, flat_map, Option, none,
  some, arith, Text, text_lt, find, find-mem, find-none, All, All-mem, All-of_mem, Memᴰ, mem-map,
  subst, sort, mem-sort, mem_of_sort, sort-IsSorted, IsWeakOrder, find-IsSorted, Bool-cases, inl,
  inr,
}
use mathlib.Core.Option
use fgw.Http.Priority.{get_match_priority, less_specific, Fits, text_lt-get_match_priority}
use fgw.Http.Entries.{Entry, Rule}
use fgw.Http.Rules.{entries_of_rule, ranked, goes_before, sorted_entries}

text_lt-asym : (s t : Text) → text_lt s t ≡ true → text_lt t s ≡ false
unfolding text_lt
text_lt-asym [] [] h = refl
text_lt-asym [] (y ∷ ys) h = refl
text_lt-asym (x ∷ xs) [] h = cc
text_lt-asym (x ∷ xs) (y ∷ ys) h = ground (arith, text_lt-asym xs ys)

text_lt-join : (s t u : Text) → text_lt s t ≡ false → text_lt t u ≡ false → text_lt s u ≡ false
unfolding text_lt
text_lt-join [] [] u h k = k
text_lt-join [] (y ∷ ys) u h k = cc
text_lt-join (x ∷ xs) t [] h k = refl
text_lt-join (x ∷ xs) [] (z ∷ zs) h k = cc
text_lt-join (x ∷ xs) (y ∷ ys) (z ∷ zs) h k = ground (arith, text_lt-join xs ys zs)

goes_before-IsWeakOrder : IsWeakOrder goes_before
goes_before-IsWeakOrder = record {
  asym = λ a b. text_lt-asym b.0 a.0;
  join = λ a b c h k. text_lt-join c.0 b.0 a.0 k h;
}

-- The entries with their positions, from a first one on.
abbrev pub indexed : ℕ → List Entry → List (ℕ × Entry)
indexed i [] = []
indexed i (e ∷ es) = (i, e) ∷ indexed (suc i) es

abbrev rank_of : ℕ × Entry → Text × Entry
rank_of p = (get_match_priority p.1.match p.0, p.1)

ranked_lem : (i : ℕ) (es : List Entry) → ranked i es ≡ map rank_of (indexed i es)
unfolding ranked
ranked_lem i [] = refl
ranked_lem i (e ∷ es) = ap (λ l. rank_of (i, e) ∷ l) (ranked_lem (suc i) es)

-- The entries of the rules, in the order in which they are written.
abbrev pub all_entries : List Rule → List (ℕ × Entry)
all_entries rules = indexed 0 (flat_map entries_of_rule rules)

mem_of_map {ℓ κ} :
    {A : Type ℓ} {B : Type κ} (f : A → B) (xs : List A) {y : B}
    → Memᴰ y (map f xs)
    → (x : A) × Memᴰ x xs × (y ≡ f x)
mem_of_map f [] m = elim m [ ]
mem_of_map f (x ∷ xs) (Memᴰ.head e) = (x, Memᴰ.head refl, e)
mem_of_map f (x ∷ xs) (Memᴰ.tail m) = let (z, k, e) = mem_of_map f xs m in (z, Memᴰ.tail k, e)

-- The sizes for which the padded fields of the ranks have their width.
abbrev pub AllFit : List Rule → Type 0
AllFit rules = All (λ p. Fits p.1.match p.0) (all_entries rules)

abbrev ranked_entries : List Rule → List (Text × Entry)
ranked_entries rules = ranked 0 (flat_map entries_of_rule rules)

mem_ranked :
    (rules : List Rule) {p : ℕ × Entry}
    → Memᴰ p (all_entries rules)
    → Memᴰ (rank_of p) (sort goes_before (ranked_entries rules))
mem_ranked rules m =
    mem_of_sort goes_before _
      (rw (ranked_lem 0 (flat_map entries_of_rule rules)) (mem-map rank_of _ m))

mem_of_ranked :
    (rules : List Rule) {b : Text × Entry}
    → Memᴰ b (sort goes_before (ranked_entries rules))
    → (x : ℕ × Entry) × Memᴰ x (all_entries rules) × (b ≡ rank_of x)
mem_of_ranked rules {b} m =
    let n : Memᴰ b (ranked_entries rules) = mem-sort goes_before (ranked_entries rules) m in
    mem_of_map rank_of (all_entries rules) (rw (ranked_lem 0 (flat_map entries_of_rule rules)) at n)

module _ (test : Entry → Bool) where
  -- The entry passes the test, and no entry that passes it is more specific.
  pub record IsPreferred (rules : List Rule) (e : Entry) : Type 0 where
    pub index : ℕ
    pub listed : Memᴰ (index, e) (all_entries rules)
    pub accepted : test e ≡ true
    pub preferred :
        (p : ℕ × Entry)
        → Memᴰ p (all_entries rules)
        → test p.1 ≡ true
        → less_specific e.match index p.1.match p.0 ≡ false

  -- What a search yields: a preferred entry, or that no entry passes.
  abbrev pub Outcome : List Rule → Option Entry → Type 0
  Outcome rules none = All (λ p. test p.1 ≡ false) (all_entries rules)
  Outcome rules (some e) = IsPreferred rules e

  abbrev test_ranked : Text × Entry → Bool
  test_ranked p = test p.1

  find-second :
      (xs : List (Text × Entry))
      → find test (map (λ p. p.1) xs) ≡ Option.map (λ p. p.1) (find test_ranked xs)
  find-second [] = refl
  find-second (x ∷ xs) = elim (Bool-cases (test x.1)) [
    | inl h ↦ rw h refl
    | inr h ↦ rw h (find-second xs)
  ]

  best_of :
      (rules : List Rule) (x : ℕ × Entry)
      → AllFit rules
      → Memᴰ x (all_entries rules)
      → find test_ranked (sort goes_before (ranked_entries rules)) ≡ some (rank_of x)
      → IsPreferred rules x.1
  best_of rules x fits n e = record {
    index = x.0;
    listed = n;
    accepted = (find-mem test_ranked (sort goes_before (ranked_entries rules)) e).1;
    preferred = λ p h accepted.
        (sym (
            text_lt-get_match_priority x.1.match p.1.match x.0 p.0
              (All-mem (λ y. Fits y.1.match y.0) (all_entries rules) fits n)
              (All-mem (λ y. Fits y.1.match y.0) (all_entries rules) fits h))
          ∙ find-IsSorted goes_before goes_before-IsWeakOrder test_ranked
              (sort goes_before (ranked_entries rules)) (rank_of x)
              (sort-IsSorted goes_before goes_before-IsWeakOrder (ranked_entries rules)) e
              (mem_ranked rules h) accepted);
  }

  outcome_of :
      (rules : List Rule) (o : Option (Text × Entry))
      → AllFit rules
      → find test_ranked (sort goes_before (ranked_entries rules)) ≡ o
      → Outcome rules (Option.map (λ p. p.1) o)
  outcome_of rules none fits e =
      All-of_mem (λ p. test p.1 ≡ false) (all_entries rules)
        (λ p m.
          All-mem (λ x. test_ranked x ≡ false) _ (find-none test_ranked _ e) (mem_ranked rules m))
  outcome_of rules (some b) fits e =
      let (x, n, q) =
        mem_of_ranked rules (find-mem test_ranked (sort goes_before (ranked_entries rules)) e).0 in
      subst (λ r. IsPreferred rules r.1) (sym q) (best_of rules x fits n (e ∙ ap some q))

  -- The first entry that passes a test, in the order of priority, is one than which none that passes
  -- it is more specific, and none is found only where none passes.
  pub find-sorted_entries :
      (rules : List Rule) → AllFit rules → Outcome rules (find test (sorted_entries rules))
  unfolding sorted_entries
  find-sorted_entries rules fits =
      let sorted = sort goes_before (ranked_entries rules) in
      subst (Outcome rules) (sym (find-second sorted))
        (outcome_of rules (find test_ranked sorted) fits refl)
