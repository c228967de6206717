-- ===== src/Pjs/Route/Hosts.antt =====
-- pjs/http/route.js: the hosts by which a request is matched, in the order in which they are tried.
use fgw.Base.{
  ◌≡◌, refl, sym, ◌∙◌, ap, Bool, true, false, ◌&&◌, List, [], ◌∷◌, ◌++◌, Option, none, some, Text,
  truthy, to_lower, if◌then◌else◌, if_cases,
}
use mathlib.Core.List.{append_assoc}
use fgw.Pjs.Route.{Head, Domain, find_route}
use fgw.Pjs.Route.Domains.{
  Rules, Routing, match_domain, domain_in, strip_port, domain_of, is_none, or_star, or_star_assoc,
  handle_in, handle_message, handle_start,
}

abbrev pub present : Option Text → List Text
present none = []
present (some host) = if truthy host then host ∷ [] else []

-- The hosts that a request may be matched by, in order.
abbrev pub candidates : (host sni : Option Text) (strip : Bool) → List Text
candidates host sni strip =
    present host ++ (present sni ++ (if strip then present (strip_port host) else []))

abbrev pub first_domain : Option Rules → List Text → Option (Text × Domain)
first_domain port [] = none
first_domain port (c ∷ cs) = or_star (domain_in port c) (first_domain port cs)

and_true : (b : Bool) → b ≡ (b && true)
and_true true = refl
and_true false = refl

first_domain-append :
    (port : Option Rules) (xs ys : List Text)
    → first_domain port (xs ++ ys) ≡ or_star (first_domain port xs) (first_domain port ys)
first_domain-append port [] ys = refl
first_domain-append port (x ∷ xs) ys =
    ap (or_star (domain_in port x)) (first_domain-append port xs ys)
    ∙ sym (or_star_assoc (domain_in port x) (first_domain port xs) (first_domain port ys))

module _ (test : (pattern subject : Text) → Bool) (port : Option Rules) (head : Head) where
  -- The route is the one that the domain gives.
  abbrev pub IsRouted : Routing → Type 0
  IsRouted s = s.route ≡ find_route test (domain_of s.domain) head

  handle_message-IsRouted :
      (o : Option Text) (s : Routing) → IsRouted s → IsRouted (handle_message test port o head s)
  unfolding handle_message
  handle_message-IsRouted none s h = h
  handle_message-IsRouted (some host) s h =
      if_cases IsRouted (truthy host) (λ t. in_port port) (λ t. h)
    where
      in_port : (p : Option Rules) → IsRouted (handle_in test p host head s)
      in_port none = h
      in_port (some rules) = refl

  -- A host that is tried where there was no domain gives what it is matched by.
  handle_message-domain :
      (o : Option Text) (s : Routing)
      → s.domain ≡ none
      → (handle_message test port o head s).domain ≡ first_domain port (present o)
  unfolding handle_message
  handle_message-domain none s h = h
  handle_message-domain (some host) s h = of_truthy (truthy host)
    where
      or_none : (d : Option (Text × Domain)) → d ≡ or_star d none
      or_none none = refl
      or_none (some d) = refl

      in_port :
          (p : Option Rules)
          → (handle_in test p host head s).domain ≡ or_star (domain_in p host) none
      in_port none = h
      in_port (some rules) = or_none (match_domain rules (to_lower host))

      of_truthy :
          (t : Bool)
          → (if t then handle_in test port host head s else s).domain
            ≡ first_domain port (if t then host ∷ [] else [])
      of_truthy true = in_port port
      of_truthy false = h

  unless : (b : Bool) (x y : Routing) → IsRouted x → IsRouted y → IsRouted (if b then x else y)
  unless b x y h k = if_cases IsRouted b (λ e. h) (λ e. k)

  -- One more try, where it is wanted and there is no domain yet.
  try_domain :
      (o : Option Text) (b : Bool) (s : Routing)
      → (if is_none s.domain && b then handle_message test port o head s else s).domain
        ≡ or_star s.domain (first_domain port (if b then present o else []))
  try_domain o b s = of_domain s.domain b refl
    where
      of_domain :
          (d : Option (Text × Domain)) (c : Bool)
          → s.domain ≡ d
          → (if is_none d && c then handle_message test port o head s else s).domain
            ≡ or_star d (first_domain port (if c then present o else []))
      of_domain none true e = handle_message-domain o s e
      of_domain none false e = e
      of_domain (some d) c e = e

  -- A request gets the domain of the first of its hosts that has one: its host, the server name of the
  -- consumer, and its host without the port where that is configured; and its route is the first match
  -- of this domain that accepts it, if the port has rules at all.
  pub handle_start-domain :
      (host sni : Option Text) (strip : Bool)
      → let s =
          handle_start test port host sni strip head
            (record { host = none; domain = none; route = none }) in
        (s.domain ≡ first_domain port (candidates host sni strip))
        × (s.route ≡ find_route test (domain_of s.domain) head)
  unfolding handle_start find_route
  handle_start-domain host sni strip =
      let s0 : Routing = record { host = none; domain = none; route = none } in
      let s1 = handle_message test port host head s0 in
      let s2 = if is_none s1.domain then handle_message test port sni head s1 else s1 in
      let routed1 = handle_message-IsRouted host s0 refl in
      let routed2 : IsRouted s2 = unless _ _ _ (handle_message-IsRouted sni s1 routed1) routed1 in
      let last = if strip then present (strip_port host) else [] in
      let domain2 : s2.domain ≡ first_domain port (present host ++ present sni) =
        ap (λ b. (if b then handle_message test port sni head s1 else s1).domain) (and_true _)
        ∙ try_domain sni true s1
        ∙ (ap (λ d. or_star d (first_domain port (present sni)))
              (handle_message-domain host s0 refl)
            ∙ sym (first_domain-append port (present host) (present sni))) in
      (
        try_domain (strip_port host) strip s2
            ∙ (ap (λ d. or_star d (first_domain port last)) domain2
                ∙ (sym (first_domain-append port (present host ++ present sni) last)
                    ∙ ap (first_domain port) (append_assoc (present host) (present sni) last))),
        unless _ _ _ (handle_message-IsRouted (strip_port host) s2 routed2) routed2,
      )
