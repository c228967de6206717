-- ===== src/Http/Rules/Alike.antt =====
-- src/modules/router-http.js, makeRuleSelector: what the fast search selects for an HTTPRoute, among
-- the entries that stand in the same table under the same pattern and method.
use fgw.Base.{
  ℕ, ◌≡◌, refl, sym, ◌∙◌, Bool, true, false, ◌&&◌, List, [], ◌∷◌, ◌++◌, Option, none, some, Text,
  txt, find, find-mem, find-none, keep, subst, Bool-cases, inl, inr, ◌⊎◌, All, Memᴰ, arith,
}
use mathlib.Core.Option
use fgw.Http.{Head}
use fgw.Http.Priority.{less_specific}
use fgw.Http.Entries.{Entry, Rule, Vars, Platform}
use fgw.Http.Rules.{RouteKind, path_key, sorted_entries, select_rule}
use fgw.Http.Rules.Buckets.{under_path, under_method, is_slow}
use fgw.Http.Rules.Selection.{accepts}
use fgw.Http.Rules.Laws.{candidates, pattern_of, of_pattern, or_star, select_rule-find}
use fgw.Http.Rules.Preferred.{AllFit, Outcome, IsPreferred, all_entries, find-sorted_entries}

module _ {ℓ} {A : Type ℓ} (f : A → Bool) where
  find-keep : (t : A → Bool) (xs : List A) → find f (keep t xs) ≡ find (λ x. t x && f x) xs
  find-keep t [] = refl
  find-keep t (x ∷ xs) = ground (arith, find-keep t xs)

  find_in_append :
      (xs ys : List A) {x : A}
      → find f (xs ++ ys) ≡ some x
      → (find f xs ≡ some x) ⊎ (find f ys ≡ some x)
  find_in_append [] ys h = inr h
  find_in_append (y ∷ xs) ys h = elim (Bool-cases (f y)) [
    | inl k ↦ inl (rw k (rw k at h))
    | inr k ↦ rw k (find_in_append xs ys (rw k at h))
  ]

find_in_or_star :
    (platform : Platform) (f : Entry → Bool) (xs ys : List Entry) {x : Entry}
    → find f (or_star platform xs ys) ≡ some x
    → (find f xs ≡ some x) ⊎ (find f ys ≡ some x)
find_in_or_star platform f [] ys h = inr h
find_in_or_star platform f (x ∷ xs) ys h = inl h

module _ (platform : Platform) (rules : List Rule) (head : Head) where
  -- The entries stand under the same pattern, or both under none, and have the same method.
  abbrev pub AreAlike : Entry → Entry → Type 0
  AreAlike n e =
      (path_key platform.path_join n.match.path ≡ path_key platform.path_join e.match.path)
      × (n.match.method ≡ e.match.method)

  -- The entry is among those that are searched for the request (under the pattern that is found for
  -- its path and its method, or under neither), its conditions accept the request, and no entry like
  -- it that accepts it is more specific.
  pub record IsPreferredAlike (e : Entry) : Type 0 where
    pub index : ℕ
    pub listed : Memᴰ (index, e) (all_entries rules)
    pub searched : Memᴰ e (candidates platform rules head)
    pub accepted : accepts platform head e ≡ true
    pub preferred :
        (p : ℕ × Entry)
        → Memᴰ p (all_entries rules)
        → AreAlike p.1 e
        → accepts platform head p.1 ≡ true
        → less_specific e.match index p.1.match p.0 ≡ false

  abbrev pub Selected : Option Entry → Type 0
  Selected none = All (λ e. accepts platform head e ≡ false) (candidates platform rules head)
  Selected (some e) = IsPreferredAlike e

  abbrev under : Text → Text → List Entry
  under p m = keep (under_path platform.path_join p m) (sorted_entries rules)

  abbrev for_method : List Entry
  for_method = keep (under_method platform.path_join head.method) (sorted_entries rules)

  of_keep :
      (t : Entry → Bool) {e : Entry}
      → Memᴰ e (candidates platform rules head)
      → ((n : Entry) → AreAlike n e → t n ≡ t e)
      → AllFit rules
      → find (accepts platform head) (keep t (sorted_entries rules)) ≡ some e
      → IsPreferredAlike e
  of_keep t {e} within alike fits h =
      let f = accepts platform head in
      let r : IsPreferred (λ x. t x && f x) rules e =
        subst (Outcome (λ x. t x && f x) rules) (sym (find-keep f t (sorted_entries rules)) ∙ h)
          (find-sorted_entries (λ x. t x && f x) rules fits) in
      let both : (t e ≡ true) × (f e ≡ true) =
        (ground (arith, r.accepted), ground (arith, r.accepted)) in
      record {
        index = r.index;
        listed = r.listed;
        searched = within;
        accepted = both.1;
        preferred = λ p m a k. r.preferred p m (rw (alike p.1 a, both.0, k) refl);
      }

  of_pattern_case :
      (o : Option Text) {e : Entry}
      → Memᴰ e (candidates platform rules head)
      → AllFit rules
      → find (accepts platform head) (of_pattern platform rules head o) ≡ some e
      → IsPreferredAlike e
  of_pattern_case none within fits h = cc
  of_pattern_case (some p) {e} within fits h =
      let of_under : (m : Text)
          → find (accepts platform head) (under p m) ≡ some e
          → IsPreferredAlike e =
        λ m. of_keep (under_path platform.path_join p m) within (λ n a. rw (a.0, a.1) refl) fits in
      elim (find_in_or_star platform (accepts platform head) (under p head.method)
        (under p (txt "*")) h) [ inl k ↦ of_under head.method k | inr k ↦ of_under (txt "*") k ]

  chosen_of :
      (o : Option Entry)
      → AllFit rules
      → find (accepts platform head) (candidates platform rules head) ≡ o
      → Selected o
  chosen_of none fits h = find-none _ _ h
  chosen_of (some e) fits h =
      let within = (find-mem (accepts platform head) (candidates platform rules head) h).0 in
      elim (find_in_append (accepts platform head)
        (of_pattern platform rules head (pattern_of platform rules head)) _ h) [
          | inl k ↦ of_pattern_case (pattern_of platform rules head) within fits k
          | inr k ↦ elim (find_in_append (accepts platform head) for_method _ k) [
            | inl l ↦
                of_keep (under_method platform.path_join head.method) within
                  (λ n a. rw (a.0, a.1) refl) fits l
            | inr l ↦ of_keep (is_slow platform.path_join) within (λ n a. rw (a.0, a.1) refl) fits l
          ]
        ]

  -- For an HTTPRoute a request is given to one of the entries that are searched for its path and
  -- method, which accepts it and than which no entry with the same pattern and method that accepts it is
  -- more specific, where of two alike the later one in the
  -- configuration is preferred; nothing is selected only where none of the entries that are searched
  -- accepts it. It holds where no path or list of the entries is longer than 999 and there are at most
  -- 1000000 entries.
  pub select_rule-http :
      (v : Vars)
      → AllFit rules
      → (o : Option Entry) × (Option.map
            (λ r. r.0)
            (select_rule platform RouteKind.http_route rules head v)
          ≡ some o)
        × Selected o
  select_rule-http v fits = (
    find (accepts platform head) (candidates platform rules head),
    select_rule-find platform rules head v,
    chosen_of (find (accepts platform head) (candidates platform rules head)) fits refl,
  )
