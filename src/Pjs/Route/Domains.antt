-- ===== src/Pjs/Route/Domains.antt =====
-- pjs/http/route.js: the domain of a request by its host, and the order in which hosts are tried.
use fgw.Base.{
  ◌≡◌, refl, sym, ◌∙◌, ap, Bool, true, false, not, ◌&&◌, List, [], ◌∷◌, ◌++◌, Option, none, some,
  Text, txt, truthy, text_eq, text_equality, starts_with, ends_with, to_lower, drop, lookup, insert,
  lookup-insert, find, find-append, if◌then◌else◌, Bool-cases, if_cases, inl, inr,
}
use fgw.Pjs.Route.{Head, Domain, Route, find_route, before}

-- The rules of a port by their names.
abbrev pub Rules : Type 0
Rules = List (Text × Domain)

pub record DomainTable : Type 0 where
  pub domains : List (Text × (Text × Domain))
  pub star_domains : List (Text × (Text × Domain))

abbrev pub is_star : Text → Bool
is_star name = starts_with name (txt "*")

unfoldable pub add_domain : DomainTable → Text × Domain → DomainTable
add_domain t (name, d) =
    if is_star name
    then record t { star_domains = t.star_domains ++ (drop 1 (to_lower name), (name, d)) ∷ [] }
    else record t { domains = insert (to_lower name) (name, d) t.domains }

unfoldable pub add_domains : DomainTable → Rules → DomainTable
unfolding add_domain
add_domains t [] = t
add_domains t (r ∷ rs) = add_domains (add_domain t r) rs

abbrev named : Option (Text × (Text × Domain)) → Option (Text × Domain)
named none = none
named (some r) = some r.1

abbrev pub or_star : Option (Text × Domain) → Option (Text × Domain) → Option (Text × Domain)
or_star none other = other
or_star (some d) other = some d

-- The function that makeMatchDomainHandler returns, on its tables.
unfoldable pub match_table : DomainTable → Text → Option (Text × Domain)
match_table t host =
    or_star (lookup host t.domains) (named (find (λ r. ends_with host r.0) t.star_domains))

unfoldable pub match_domain : Rules → Text → Option (Text × Domain)
unfolding match_table add_domains
match_domain rules host =
    match_table (add_domains (record { domains = []; star_domains = [] }) rules) host

pub record Routing : Type 0 where
  pub host : Option Text
  pub domain : Option (Text × Domain)
  pub route : Option Route

abbrev pub domain_of : Option (Text × Domain) → Option Domain
domain_of none = none
domain_of (some d) = some d.1

abbrev pub is_none : Option (Text × Domain) → Bool
is_none none = true
is_none (some d) = false

abbrev pub domain_in : Option Rules → Text → Option (Text × Domain)
domain_in none host = none
domain_in (some rules) host = match_domain rules (to_lower host)

abbrev pub strip_port : Option Text → Option Text
strip_port none = none
strip_port (some host) = some (before b':' host)

module _ (test : (pattern subject : Text) → Bool) where
  abbrev pub handle_in : Option Rules → Text → Head → Routing → Routing
  handle_in none host head s = s
  handle_in (some rules) host head s =
      let domain' = match_domain rules (to_lower host) in
      record {
        host = some host;
        domain = domain';
        route = find_route test (domain_of domain') head;
      }

module _ (test : (pattern subject : Text) → Bool) (port : Option Rules) where
  unfoldable pub handle_message : Option Text → Head → Routing → Routing
  handle_message none head s = s
  handle_message (some host) head s = if truthy host then handle_in test port host head s else s

  -- The head of a request, with the server name of the consumer and StripAnyHostPort.
  unfoldable pub handle_start : (host sni : Option Text) (strip : Bool) → Head → Routing → Routing
  unfolding handle_message
  handle_start host sni strip head s =
      let s1 = handle_message host head s in
      let s2 = if is_none s1.domain then handle_message sni head s1 else s1 in
      if is_none s2.domain && strip then handle_message (strip_port host) head s2 else s2

-- What a host finds in the configuration itself: the last rule that is named so in full, or else the
-- first wildcard that ends it.
abbrev pub last_named : Text → Rules → Option (Text × Domain)
last_named host [] = none
last_named host ((name, d) ∷ rs) =
    or_star (last_named host rs)
      (if not (is_star name) && text_eq (to_lower name) host then some (name, d) else none)

abbrev pub first_star : Text → Rules → Option (Text × Domain)
first_star host rules = find (λ r. is_star r.0 && ends_with host (drop 1 (to_lower r.0))) rules

pub or_star_assoc :
    (a b c : Option (Text × Domain)) → or_star (or_star a b) c ≡ or_star a (or_star b c)
or_star_assoc none b c = refl
or_star_assoc (some d) b c = refl

lookup-add_domain :
    (host name : Text) (d : Domain) (t : DomainTable)
    → lookup host (add_domain t (name, d)).domains
      ≡ or_star
          (if not (is_star name) && text_eq (to_lower name) host then some (name, d) else none)
          (lookup host t.domains)
unfolding add_domain
lookup-add_domain host name d t = elim (Bool-cases (is_star name)) [
  | inl s ↦ rw s refl
  | inr s ↦
      rw (s, lookup-insert (to_lower name) host (name, d) t.domains)
        (if_cases
          (λ x.
            x
            ≡ or_star (if text_eq (to_lower name) host then some (name, d) else none)
                (lookup host t.domains))
          (text_eq (to_lower name) host) (λ e. rw e refl) (λ e. rw e refl))
]

find-add_domain :
    (host name : Text) (d : Domain) (t : DomainTable)
    → named (find (λ r. ends_with host r.0) (add_domain t (name, d)).star_domains)
      ≡ or_star
          (named (find (λ r. ends_with host r.0) t.star_domains))
          (if is_star name && ends_with host (drop 1 (to_lower name)) then some (name, d) else none)
unfolding add_domain
find-add_domain host name d t = elim (Bool-cases (is_star name)) [
  | inl s ↦
      rw
        (
          s,
          find-append (λ r. ends_with host r.0) t.star_domains
              ((drop 1 (to_lower name), (name, d)) ∷ []),
        )
        (added (find (λ r. ends_with host r.0) t.star_domains)
          (ends_with host (drop 1 (to_lower name))))
  | inr s ↦ rw s (or_star_none _)
]
  where
    or_star_none : (o : Option (Text × Domain)) → o ≡ or_star o none
    or_star_none none = refl
    or_star_none (some x) = refl

    added :
        (o : Option (Text × (Text × Domain))) (b : Bool)
        → named (elim o [
          | none ↦ if b then some (drop 1 (to_lower name), (name, d)) else none
          | some x ↦ some x
        ])
          ≡ or_star (named o) (if b then some (name, d) else none)
    added none true = refl
    added none false = refl
    added (some x) b = refl

lookup-add_domains :
    (host : Text) (t : DomainTable) (rs : Rules)
    → lookup host (add_domains t rs).domains ≡ or_star (last_named host rs) (lookup host t.domains)
unfolding add_domains
lookup-add_domains host t [] = refl
lookup-add_domains host t ((name, d) ∷ rs) =
    lookup-add_domains host (add_domain t (name, d)) rs
    ∙ (ap (or_star (last_named host rs)) (lookup-add_domain host name d t)
        ∙ sym (or_star_assoc (last_named host rs) _ _))

or_star_if :
    (b : Bool) (r : Text × Domain) (o : Option (Text × Domain))
    → or_star (if b then some r else none) o ≡ (if b then some r else o)
or_star_if true r o = refl
or_star_if false r o = refl

find-add_domains :
    (host : Text) (t : DomainTable) (rs : Rules)
    → named (find (λ r. ends_with host r.0) (add_domains t rs).star_domains)
      ≡ or_star (named (find (λ r. ends_with host r.0) t.star_domains)) (first_star host rs)
unfolding add_domains
find-add_domains host t [] = none_last (named (find (λ r. ends_with host r.0) t.star_domains))
  where
    none_last : (o : Option (Text × Domain)) → o ≡ or_star o none
    none_last none = refl
    none_last (some x) = refl
find-add_domains host t ((name, d) ∷ rs) =
    find-add_domains host (add_domain t (name, d)) rs
    ∙ (ap (λ o. or_star o (first_star host rs)) (find-add_domain host name d t)
        ∙ (or_star_assoc (named (find (λ r. ends_with host r.0) t.star_domains)) _ _
            ∙ ap (or_star (named (find (λ r. ends_with host r.0) t.star_domains)))
                (or_star_if _ (name, d) (first_star host rs))))

-- A host in lower case is matched by the last rule named so in full, or else by the first configured
-- wildcard that ends it, however short.
pub match_domain_lem :
    (rules : Rules) (host : Text)
    → match_domain rules host ≡ or_star (last_named host rules) (first_star host rules)
unfolding match_domain match_table lookup
match_domain_lem rules host =
    let t : DomainTable = record { domains = []; star_domains = [] } in
    rw (lookup-add_domains host t rules, find-add_domains host t rules)
      (or_star_assoc (last_named host rules) none (first_star host rules))
