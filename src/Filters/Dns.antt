-- ===== src/Filters/Dns.antt =====
-- src/filters/udp/DNSModifier.js: the answers of the configuration and the one for a name.
use fgw.Base.{
  ◌≡◌, refl, ap, ◌∙◌, Bool, true, false, not, ◌&&◌, List, [], ◌∷◌, ◌++◌, Option, none, some, Text,
  txt, text_eq, text_equality, starts_with, ends_with, drop, lookup, insert, lookup-insert, find,
  if◌then◌else◌, Bool-cases, inl, inr, sym,
}

-- `hostnames` and `prefixes`.
pub record Answers (Answer : Type 0) : Type 0 where
  pub hostnames : List (Text × Answer)
  pub prefixes : List (Text × Answer)

module _ {Answer : Type 0} where
  unfoldable pub add_domain : Answers Answer → Text × Answer → Answers Answer
  add_domain t (name, answer) =
      if starts_with name (txt "*")
      then record t { prefixes = t.prefixes ++ (drop 1 name, answer) ∷ [] }
      else record t { hostnames = insert name answer t.hostnames }

  unfoldable pub add_domains : Answers Answer → List (Text × Answer) → Answers Answer
  unfolding add_domain
  add_domains t [] = t
  add_domains t (d ∷ ds) = add_domains (add_domain t d) ds

  abbrev pub no_answers : Answers Answer
  no_answers = record { hostnames = []; prefixes = [] }

  abbrev pub or_else : Option Answer → Option Answer → Option Answer
  or_else none b = b
  or_else (some a) b = some a

  abbrev answer_of : Option (Text × Answer) → Option Answer
  answer_of none = none
  answer_of (some e) = some e.1

  -- findAnswer.
  unfoldable pub find_answer : Answers Answer → Text → Option Answer
  find_answer t name =
      or_else (lookup name t.hostnames) (answer_of (find (λ e. ends_with name e.0) t.prefixes))

  -- The answer of the last domain that is the name itself.
  unfoldable pub last_exact : Text → List (Text × Answer) → Option Answer
  last_exact name [] = none
  last_exact name ((n, a) ∷ ds) =
      or_else (last_exact name ds)
        (if not (starts_with n (txt "*")) && text_eq n name then some a else none)

  -- The answer of the first domain that is a star before an end of the name.
  unfoldable pub first_suffix : Text → List (Text × Answer) → Option Answer
  first_suffix name [] = none
  first_suffix name ((n, a) ∷ ds) =
      let rest = first_suffix name ds in
      if starts_with n (txt "*") && ends_with name (drop 1 n) then some a else rest

  or_else_assoc : (a b c : Option Answer) → or_else (or_else a b) c ≡ or_else a (or_else b c)
  or_else_assoc none b c = refl
  or_else_assoc (some x) b c = refl

  abbrev exact_of : Text → Text → Answer → Option Answer
  exact_of name n a = if not (starts_with n (txt "*")) && text_eq n name then some a else none

  lookup-add_domain :
      (name n : Text) (a : Answer) (t : Answers Answer)
      → lookup name (add_domain t (n, a)).hostnames
        ≡ or_else (exact_of name n a) (lookup name t.hostnames)
  unfolding add_domain
  lookup-add_domain name n a t = elim (Bool-cases (starts_with n (txt "*"))) [
    | inl e ↦ rw e refl
    | inr e ↦ rw (e, lookup-insert n name a t.hostnames) (by_equal (text_eq n name))
  ]
    where
      by_equal :
          (b : Bool)
          → (if b then some a else lookup name t.hostnames)
            ≡ or_else (if b then some a else none) (lookup name t.hostnames)
      by_equal true = refl
      by_equal false = refl

  lookup-add_domains :
      (name : Text) (t : Answers Answer) (ds : List (Text × Answer))
      → lookup name (add_domains t ds).hostnames
        ≡ or_else (last_exact name ds) (lookup name t.hostnames)
  unfolding add_domains last_exact
  lookup-add_domains name t [] = refl
  lookup-add_domains name t ((n, a) ∷ ds) =
      lookup-add_domains name (add_domain t (n, a)) ds
      ∙ ap (or_else (last_exact name ds)) (lookup-add_domain name n a t)
      ∙ sym (or_else_assoc (last_exact name ds) (exact_of name n a) (lookup name t.hostnames))

  abbrev suffix_of : Text → Text → Answer → Option Answer
  suffix_of name n a = if starts_with n (txt "*") && ends_with name (drop 1 n) then some a else none

  or_else-none : (a : Option Answer) → or_else a none ≡ a
  or_else-none none = refl
  or_else-none (some x) = refl

  abbrev suffix_in : Text → Answers Answer → Option Answer
  suffix_in name t = answer_of (find (λ e. ends_with name e.0) t.prefixes)

  find_snoc :
      (p : Text × Answer → Bool) (k : Text) (a : Answer) (es : List (Text × Answer))
      → answer_of (find p (es ++ (k, a) ∷ []))
        ≡ or_else (answer_of (find p es)) (if p (k, a) then some a else none)
  find_snoc p k a [] = by_head (p (k, a))
    where
      by_head :
          (b : Bool) → answer_of (if b then some (k, a) else none) ≡ (if b then some a else none)
      by_head true = refl
      by_head false = refl
  find_snoc p k a (e ∷ es) = elim (Bool-cases (p e)) [
    | inl h ↦ rw h refl
    | inr h ↦ rw h (find_snoc p k a es)
  ]

  suffix_in-add_domain :
      (name n : Text) (a : Answer) (t : Answers Answer)
      → suffix_in name (add_domain t (n, a)) ≡ or_else (suffix_in name t) (suffix_of name n a)
  unfolding add_domain
  suffix_in-add_domain name n a t = elim (Bool-cases (starts_with n (txt "*"))) [
    | inl e ↦ rw e (find_snoc (λ e'. ends_with name e'.0) (drop 1 n) a t.prefixes)
    | inr e ↦ rw e (sym (or_else-none (suffix_in name t)))
  ]

  suffix_in-add_domains :
      (name : Text) (t : Answers Answer) (ds : List (Text × Answer))
      → suffix_in name (add_domains t ds) ≡ or_else (suffix_in name t) (first_suffix name ds)
  unfolding add_domains first_suffix
  suffix_in-add_domains name t [] = sym (or_else-none (suffix_in name t))
  suffix_in-add_domains name t ((n, a) ∷ ds) =
      suffix_in-add_domains name (add_domain t (n, a)) ds
      ∙ ap (λ x. or_else x (first_suffix name ds)) (suffix_in-add_domain name n a t)
      ∙ or_else_assoc (suffix_in name t) (suffix_of name n a) (first_suffix name ds)
      ∙ ap (or_else (suffix_in name t))
          (by_suffix (starts_with n (txt "*") && ends_with name (drop 1 n)))
    where
      by_suffix :
          (b : Bool)
          → or_else (if b then some a else none) (first_suffix name ds)
            ≡ (if b then some a else first_suffix name ds)
      by_suffix true = refl
      by_suffix false = refl

  -- The answer for a name is that of the last domain that is the name itself; where there is none,
  -- that of the first domain that is a star before an end of the name.
  pub find_answer-add_domains :
      (name : Text) (ds : List (Text × Answer))
      → find_answer (add_domains no_answers ds) name
        ≡ or_else (last_exact name ds) (first_suffix name ds)
  unfolding find_answer lookup
  find_answer-add_domains name ds =
      ap (λ x. or_else x (suffix_in name (add_domains no_answers ds)))
        (lookup-add_domains name no_answers ds ∙ or_else-none (last_exact name ds))
      ∙ ap (or_else (last_exact name ds)) (suffix_in-add_domains name no_answers ds)
