-- ===== src/Pjs/Access.antt =====
-- pjs/http/access-control-domain.js, with access-control-route.js, which differs in where the lists
-- come from, and the test of pjs/common/access-control.js, which is the same. Whether a mask contains an
-- address is a parameter.
use fgw.Base.{
  ℕ, ◌≡◌, refl, ◌∙◌, ap, Bool, true, false, not, ◌&&◌, ◌||◌, List, [], ◌∷◌, ◌++◌, map, Option, none,
  some, arith, Text, truthy, text_eq, text_equality, index_of, split, trim, any, all, ltb,
  if◌then◌else◌, Bool-cases, inl, inr, ◌==◌,
}

-- AccessControlLists, with the empty list for one that is not set.
pub record Acls : Type 0 where
  pub blacklist : List Text
  pub whitelist : List Text
  pub enable_xff : Bool
  pub status : Option ℕ

pub record IpList : Type 0 where
  pub ips : List Text
  pub ranges : List Text

-- `o.indexOf('/') > 0`.
abbrev pub is_mask : Text → Bool
is_mask o = elim (index_of b'/' o) [ none ↦ false | some i ↦ ltb 0 i ]

unfoldable pub add_ip : Text → IpList → IpList
add_ip o l =
    if is_mask o
    then record l { ranges = l.ranges ++ o ∷ [] }
    else record l { ips = l.ips ++ o ∷ [] }

unfoldable pub add_ips : List Text → IpList → IpList
unfolding add_ip
add_ips [] l = l
add_ips (o ∷ os) l = add_ips os (add_ip o l)

-- `undefined` for a list without an entry.
unfoldable pub parse_ip_list : List Text → Option IpList
unfolding add_ips
parse_ip_list [] = none
parse_ip_list (o ∷ os) = some (add_ips (o ∷ os) (record { ips = []; ranges = [] }))

module _ (contains : (mask ip : Text) → Bool) where
  abbrev pub listed : Text → IpList → Bool
  listed ip l = any (λ o. text_eq o ip) l.ips || any (λ m. contains m ip) l.ranges

  abbrev is_black : Text → Option IpList → Bool
  is_black ip none = false
  is_black ip (some l) = listed ip l

  abbrev check_lists : Text → (white black : Option IpList) → Bool
  check_lists ip none black = not (is_black ip black)
  check_lists ip (some l) black = listed ip l

  unfoldable pub check_acls : Acls → Text → Bool
  unfolding parse_ip_list
  check_acls acls ip = check_lists ip (parse_ip_list acls.whitelist) (parse_ip_list acls.blacklist)

  abbrev forwarded : Acls → Option Text → Option Text
  forwarded acls none = none
  forwarded acls (some xff) = if acls.enable_xff && truthy xff then some xff else none

  abbrev pass_all : Acls → (remote : Text) → Option Text → Bool
  pass_all acls remote none = check_acls acls remote
  pass_all acls remote (some xff) = all (λ ip. check_acls acls (trim ip)) (split b',' xff)

  abbrev or_forbidden : Option ℕ → ℕ
  or_forbidden none = 403
  or_forbidden (some s) = if s == 0 then 403 else s

  -- The status that a request is refused with, or `none` where it is passed on.
  unfoldable pub on_request : Acls → (remote : Text) → (xff : Option Text) → Option ℕ
  unfolding check_acls
  on_request acls remote xff =
      if pass_all acls remote (forwarded acls xff) then none else some (or_forbidden acls.status)

  -- Whether an entry of a list stands for an address.
  abbrev pub stands_for : Text → Text → Bool
  stands_for ip o = if is_mask o then contains o ip else text_eq o ip

  -- What the code means: an address that a list lets in, or forbids.
  abbrev pub lets_in : Acls → Text → Bool
  lets_in acls ip = elim acls.whitelist [
    | [] ↦ not (any (stands_for ip) acls.blacklist)
    | o ∷ os ↦ any (stands_for ip) (o ∷ os)
  ]

  -- The addresses by which a request is judged.
  abbrev pub addresses : Acls → (remote : Text) → (xff : Option Text) → List Text
  addresses acls remote xff = elim (forwarded acls xff) [
    | none ↦ remote ∷ []
    | some s ↦ map trim (split b',' s)
  ]

  any_snoc_or :
      (p : Text → Bool) (xs : List Text) (x : Text) → any p (xs ++ x ∷ []) ≡ (any p xs || p x)
  any_snoc_or p [] x = ground arith
  any_snoc_or p (y ∷ xs) x = ground (arith, any_snoc_or p xs x)

  listed-add_ip :
      (ip o : Text) (l : IpList) → listed ip (add_ip o l) ≡ (listed ip l || stands_for ip o)
  unfolding add_ip
  listed-add_ip ip o l = elim (Bool-cases (is_mask o)) [
    | inl h ↦ rw (h, any_snoc_or (λ m. contains m ip) l.ranges o) (ground arith)
    | inr h ↦ rw (h, any_snoc_or (λ x. text_eq x ip) l.ips o) (ground arith)
  ]

  listed-add_ips :
      (ip : Text) (os : List Text) (l : IpList)
      → listed ip (add_ips os l) ≡ (listed ip l || any (stands_for ip) os)
  unfolding add_ips
  listed-add_ips ip [] l = ground arith
  listed-add_ips ip (o ∷ os) l =
      listed-add_ips ip os (add_ip o l)
      ∙ rw (listed-add_ip ip o l) (assoc (listed ip l) (stands_for ip o) (any (stands_for ip) os))
    where
      assoc : (a b c : Bool) → ((a || b) || c) ≡ (a || (b || c))
      assoc true b c = refl
      assoc false b c = refl

  check_acls_lem : (acls : Acls) (ip : Text) → check_acls acls ip ≡ lets_in acls ip
  unfolding check_acls parse_ip_list
  check_acls_lem acls ip = of_white acls.whitelist acls.blacklist
    where
      of_white :
          (ws bs : List Text)
          → check_lists ip (parse_ip_list ws) (parse_ip_list bs)
            ≡ elim ws [ [] ↦ not (any (stands_for ip) bs) | o ∷ os ↦ any (stands_for ip) (o ∷ os) ]
      of_white [] [] = refl
      of_white [] (b ∷ bs) = ap not (listed-add_ips ip (b ∷ bs) (record { ips = []; ranges = [] }))
      of_white (w ∷ ws) bs = listed-add_ips ip (w ∷ ws) (record { ips = []; ranges = [] })

  all_trimmed :
      (acls : Acls) (ips : List Text)
      → all (λ ip. check_acls acls (trim ip)) ips ≡ all (lets_in acls) (map trim ips)
  all_trimmed acls [] = refl
  all_trimmed acls (ip ∷ ips) = rw (check_acls_lem acls (trim ip), all_trimmed acls ips) refl

  -- A request is passed on exactly when each address by which it is judged is let in: the forwarded
  -- addresses where these are enabled and there, and the address of the client otherwise. Where there
  -- is a whitelist it decides alone, by an entry that is the address or a mask that contains it; or
  -- else no such entry may be in the blacklist.
  pub on_request_lem :
      (acls : Acls) (remote : Text) (xff : Option Text)
      → on_request acls remote xff ≡ (
          if all (lets_in acls) (addresses acls remote xff)
          then none
          else some (or_forbidden acls.status))
  unfolding on_request
  on_request_lem acls remote xff =
      ap (λ b. if b then none else some (or_forbidden acls.status))
        (of_forwarded (forwarded acls xff))
    where
      and_true : (b : Bool) → b ≡ (b && true)
      and_true true = refl
      and_true false = refl

      of_forwarded :
          (f : Option Text)
          → pass_all acls remote f
            ≡ all (lets_in acls) (elim f [ none ↦ remote ∷ [] | some s ↦ map trim (split b',' s) ])
      of_forwarded none = check_acls_lem acls remote ∙ and_true (lets_in acls remote)
      of_forwarded (some s) = all_trimmed acls (split b',' s)
