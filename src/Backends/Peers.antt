-- ===== src/Backends/Peers.antt =====
-- src/modules/backend-tls.js with findPolicies of src/utils.js: the TLS settings of the connections to
-- a backend. `certificate` and `private_key` make a value of Pipy's crypto from the secret with a name.
use fgw.Base.{
  ℕ, ◌≡◌, refl, Bool, true, false, not, ◌&&◌, List, map, Option, none, some, Text, text_eq, any,
  keep, find, if◌then◌else◌, Memᴰ, keep-mem, find-mem,
}

-- An entry of `subjectAltNames`; `is_uri` says that its type is URI.
pub record AltName : Type 0 where
  pub is_uri : Bool
  pub uri : Text
  pub hostname : Text

pub record Validation : Type 0 where
  pub hostname : Text
  pub ca_certificates : Option (List Text)
  pub alt_names : Option (List AltName)

pub record TlsPolicy : Type 0 where
  pub target_refs : List (Text × Text)
  pub validation : Option Validation
  pub pqc : Option ℕ

-- The certificate of a peer.
pub record Peer : Type 0 where
  pub alt_names : List Text
  pub common_name : Option Text

-- findPolicies, for a resource given by its kind and its name.
unfoldable pub refers : Text → Text → TlsPolicy → Bool
refers kind name p = any (λ r. text_eq r.0 kind && text_eq r.1 name) p.target_refs

unfoldable pub find_policies : Text → Text → List TlsPolicy → List TlsPolicy
unfolding refers
find_policies kind name ps = keep (refers kind name) ps

abbrev pub has : {A : Type 0} → Option A → Bool
has none = false
has (some a) = true

abbrev validation_of : Option TlsPolicy → Option Validation
validation_of none = none
validation_of (some p) = p.validation

abbrev pqc_of : Option TlsPolicy → Option ℕ
pqc_of none = none
pqc_of (some p) = p.pqc

-- `tlsValidationConfig` and `tlsPQC`.
unfoldable pub find_validation : List TlsPolicy → Option Validation
find_validation ps = validation_of (find (λ p. has p.validation) ps)

unfoldable pub find_pqc : List TlsPolicy → Option ℕ
find_pqc ps = pqc_of (find (λ p. has p.pqc) ps)

abbrev name_of : AltName → Text
name_of n = if n.is_uri then n.uri else n.hostname

abbrev same_name : Option Text → Text → Bool
same_name none host = false
same_name (some n) host = text_eq n host

abbrev peer_named : Option (List AltName) → Text → Peer → Bool
peer_named (some names) host peer =
    any (λ n. any (λ m. text_eq m n) (map name_of names)) peer.alt_names
peer_named none host peer = same_name peer.common_name host

-- onVerify.
unfoldable pub on_verify : Validation → Bool → Peer → Bool
on_verify v ok peer = if ok then peer_named v.alt_names v.hostname peer else false

pub record TlsConfig (C K : Type 0) : Type 0 where
  pub certificate : Option (C × K)
  pub sni : Option Text
  pub trusted : Option (List C)
  pub verify : Option Validation
  pub pqc : Option ℕ

module _ {C K : Type 0} (certificate : Text → C) (private_key : Text → K) where
  abbrev no_config : TlsConfig C K
  no_config = record { certificate = none; sni = none; trusted = none; verify = none; pqc = none }

  abbrev or_new : Option (TlsConfig C K) → TlsConfig C K
  or_new none = no_config
  or_new (some t) = t

  abbrev load_all : Option (List Text) → Option (List C)
  load_all none = none
  load_all (some names) = some (map certificate names)

  -- The client certificate, as the names of its two secrets.
  unfoldable pub with_certificate :
      Option (Text × Text) → Option (TlsConfig C K) → Option (TlsConfig C K)
  with_certificate none t = t
  with_certificate (some (crt, key)) t =
      some (record (or_new t) { certificate = some (certificate crt, private_key key) })

  unfoldable pub with_validation :
      Option Validation → Option (TlsConfig C K) → Option (TlsConfig C K)
  with_validation none t = t
  with_validation (some v) t = some (record (or_new t) {
    sni = some v.hostname;
    trusted = load_all v.ca_certificates;
    verify = some v;
  })

  -- A property that is written to null is an exception, here `none`.
  unfoldable pub with_pqc : Option ℕ → Option (TlsConfig C K) → Option (Option (TlsConfig C K))
  with_pqc none t = some t
  with_pqc (some q) none = none
  with_pqc (some q) (some t) = some (some (record t { pqc = some q }))

  -- The function of the module, with the policies that resources.list gives: an exception, null, or
  -- the settings.
  unfoldable pub make_backend_tls :
      Option (Text × Text) → Text → Text → List TlsPolicy → Option (Option (TlsConfig C K))
  unfolding find_policies find_validation find_pqc with_certificate with_validation with_pqc
  make_backend_tls crt kind name ps =
      with_pqc (find_pqc (find_policies kind name ps))
        (with_validation (find_validation (find_policies kind name ps)) (with_certificate crt none))

  by_parts :
      (crt : Option (Text × Text)) (v : Option Validation) (q : Option ℕ)
      → has (with_pqc q (with_validation v (with_certificate crt none)))
        ≡ not (not (has crt) && (not (has v) && has q))
  unfolding with_certificate with_validation with_pqc
  by_parts none none none = refl
  by_parts none none (some q) = refl
  by_parts none (some v) none = refl
  by_parts none (some v) (some q) = refl
  by_parts (some c) none none = refl
  by_parts (some c) none (some q) = refl
  by_parts (some c) (some v) none = refl
  by_parts (some c) (some v) (some q) = refl

  -- The settings of a backend are made, or there are none, except where a policy of the backend sets
  -- `pqc` while no policy of it has a validation and the gateway has no client certificate: then the
  -- module throws, so that `pqc` alone cannot be used.
  pub make_backend_tls-throws :
      (crt : Option (Text × Text)) (kind name : Text) (ps : List TlsPolicy)
      → has (make_backend_tls crt kind name ps)
        ≡ not (
            not (has crt)
            && (not (has (find_validation (find_policies kind name ps)))
                && has (find_pqc (find_policies kind name ps))))
  unfolding make_backend_tls
  make_backend_tls-throws crt kind name ps =
      by_parts crt (find_validation (find_policies kind name ps))
        (find_pqc (find_policies kind name ps))

found_validation :
    (o : Option TlsPolicy) (v : Validation)
    → validation_of o ≡ some v
    → (p : TlsPolicy) × (o ≡ some p) × (p.validation ≡ some v)
found_validation none v e = cc
found_validation (some p) v e = (p, refl, e)

-- The validation that a peer is checked against is that of a policy that refers to the backend.
pub find_validation-refers :
    (kind name : Text) (ps : List TlsPolicy) (v : Validation)
    → find_validation (find_policies kind name ps) ≡ some v
    → (p : TlsPolicy) × Memᴰ p ps × (refers kind name p ≡ true) × (p.validation ≡ some v)
unfolding find_validation find_policies
find_validation-refers kind name ps v e =
    let (p, found, same) =
      found_validation (find (λ q. has q.validation) (keep (refers kind name) ps)) v e in
    let (m, h) = find-mem (λ q. has q.validation) (keep (refers kind name) ps) found in
    let (n, k) = keep-mem (refers kind name) ps m in (p, n, k, same)
