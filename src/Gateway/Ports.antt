-- ===== src/Gateway/Ports.antt =====
-- src/gateway.js: the ports that are served, as calls of pipy.listen leave them, and the lists of open
-- listeners.
use fgw.Base.{
  ◌≡◌, refl, sym, ap, ◌∙◌, Bool, true, false, not, ◌&&◌, ◌||◌, List, [], ◌∷◌, ◌++◌, map, arith,
  text_eq, text_eq_iff, any, keep, if◌then◌else◌, Bool-cases, inl, inr, &&_iff,
}
use fgw.Gateway.{ListenerKey, Wire}
use fgw.Gateway.Update.{Effect, wire_eq, same_key, add_key}

abbrev is_tcp : Wire → Bool
is_tcp Wire.tcp = true
is_tcp Wire.udp = false

-- The same port with the same protocol.
abbrev pub same_port : ListenerKey → ListenerKey → Bool
same_port a b = text_eq a.0 b.0 && (if is_tcp a.1 then is_tcp b.1 else not (is_tcp b.1))

-- A port and protocol are served when they are in the list.
abbrev pub serves : ListenerKey → List ListenerKey → Bool
serves k ports = any (λ j. same_port j k) ports

-- What an effect does to the ports that are served.
unfoldable pub serve : Effect → List ListenerKey → List ListenerKey
serve (Effect.run_backend n) ports = ports
serve (Effect.run_router k l rs) ports = ports
serve (Effect.run_policy k n) ports = ports
serve (Effect.run_other new old) ports = ports
serve (Effect.start k stages) ports = k ∷ ports
serve (Effect.failed e) ports = ports
serve (Effect.stop k) ports = keep (λ j. not (same_port j k)) ports

unfoldable pub serve_all : List Effect → List ListenerKey → List ListenerKey
unfolding serve
serve_all [] ports = ports
serve_all (e ∷ es) ports = serve_all es (serve e ports)

wire_eq-eq : (a b : Wire) → wire_eq a b ≡ true → a ≡ b
wire_eq-eq Wire.tcp Wire.tcp h = refl
wire_eq-eq Wire.tcp Wire.udp h = cc
wire_eq-eq Wire.udp Wire.tcp h = cc
wire_eq-eq Wire.udp Wire.udp h = refl

same_key-eq : (a b : ListenerKey) → same_key a b ≡ true → a ≡ b
unfolding same_key
same_key-eq (s, u) (t, w) h =
    let (e, k) = (&&_iff (text_eq s t) (wire_eq u w)).0 h in
    ap (λ x. (x, u)) ((text_eq_iff s t).0 e) ∙ ap (λ x. (t, x)) (wire_eq-eq u w k)

same_key-same_port : (a b : ListenerKey) → same_key a b ≡ same_port a b
unfolding same_key
same_key-same_port (s, Wire.tcp) (t, Wire.tcp) = refl
same_key-same_port (s, Wire.tcp) (t, Wire.udp) = refl
same_key-same_port (s, Wire.udp) (t, Wire.tcp) = refl
same_key-same_port (s, Wire.udp) (t, Wire.udp) = refl

same_port-eq : (a b : ListenerKey) → same_port a b ≡ true → a ≡ b
same_port-eq a b h = same_key-eq a b (same_key-same_port a b ∙ h)

pub any-same_key :
    (k : ListenerKey) (ports : List ListenerKey) → any (λ j. same_key j k) ports ≡ serves k ports
any-same_key k [] = refl
any-same_key k (j ∷ ports) = rw (same_key-same_port j k, any-same_key k ports) refl

any_snoc_eq {ℓ} :
    {A : Type ℓ} (f : A → Bool) (xs : List A) (x : A) → any f (xs ++ x ∷ []) ≡ any f xs || f x
any_snoc_eq f [] x = ground arith
any_snoc_eq f (y ∷ xs) x = ground (arith, any_snoc_eq f xs x)

pub or_false : (b : Bool) → b ≡ b || false
or_false true = refl
or_false false = refl

pub or_comm : (a b : Bool) → a || b ≡ b || a
or_comm true true = refl
or_comm true false = refl
or_comm false true = refl
or_comm false false = refl

pub or_assoc : (a b c : Bool) → (a || b) || c ≡ a || (b || c)
or_assoc true b c = refl
or_assoc false b c = refl

-- What was open or is made, less what was open and is not wanted.
pub settled :
    (old made wanted : Bool)
    → (made ≡ true → wanted ≡ true)
    → (old || made) && not (old && not wanted) ≡ made || (old && wanted)
settled true true wanted h = rw (h refl) refl
settled true false true h = refl
settled true false false h = refl
settled false true wanted h = refl
settled false false wanted h = refl

pub serves-add_key :
    (k : ListenerKey) (ports : List ListenerKey) (j : ListenerKey)
    → serves k (add_key ports j) ≡ serves k ports || same_port j k
unfolding add_key
serves-add_key k ports j = elim (Bool-cases (any (λ i. same_key i j) ports)) [
  | inl h ↦ rw h (elim (Bool-cases (same_port j k)) [
    | inl s ↦
        let q : serves k ports ≡ true =
          rw (same_port-eq j k s) at (sym (any-same_key j ports) ∙ h) in
        rw q refl
    | inr s ↦ rw s (or_false (serves k ports))
  ])
  | inr h ↦ rw h (any_snoc_eq (λ i. same_port i k) ports j)
]

-- Closing a port leaves the others.
serves-keep :
    (k : ListenerKey) (ports : List ListenerKey) (j : ListenerKey)
    → serves k (keep (λ i. not (same_port i j)) ports) ≡ serves k ports && not (same_port j k)
serves-keep k [] j = refl
serves-keep k (x ∷ ports) j = elim (Bool-cases (same_port x j)) [
  | inl h ↦
      let e = same_port-eq x j h in
      let q : same_port x k ≡ same_port j k = ap (λ i. same_port i k) e in
      let ih = serves-keep k ports j in rw h (ground (arith, q, ih))
  | inr h ↦
      let apart : same_port x k ≡ true → same_port j k ≡ false = λ a.
        elim (Bool-cases (same_port j k)) [
          | inl b ↦ let q = rw (sym (same_port-eq j k b)) at a in cc
          | inr b ↦ b
        ] in
      let ih = serves-keep k ports j in
      rw h (elim (Bool-cases (same_port x k)) [ inl a ↦ rw (a, apart a) refl | inr a ↦ rw a ih ])
]

pub serve_all-append :
    (es fs : List Effect) (ports : List ListenerKey)
    → serve_all (es ++ fs) ports ≡ serve_all fs (serve_all es ports)
unfolding serve_all
serve_all-append [] fs ports = refl
serve_all-append (e ∷ es) fs ports = serve_all-append es fs (serve e ports)

pub serve_all-stop :
    (k : ListenerKey) (ks ports : List ListenerKey)
    → serves k (serve_all (map Effect.stop ks) ports) ≡ serves k ports && not (serves k ks)
unfolding serve_all serve
serve_all-stop k [] ports = and_true (serves k ports)
  where
    and_true : (b : Bool) → b ≡ b && true
    and_true true = refl
    and_true false = refl
serve_all-stop k (j ∷ ks) ports =
    serve_all-stop k ks (keep (λ i. not (same_port i j)) ports)
    ∙ (ap (λ b. b && not (serves k ks)) (serves-keep k ports j)
        ∙ either (serves k ports) (same_port j k) (serves k ks))
  where
    either : (a b c : Bool) → (a && not b) && not c ≡ a && not (b || c)
    either true true c = refl
    either true false c = refl
    either false b c = refl

-- Of the old ports those are closed that are not new.
pub serves-gone :
    (k : ListenerKey) (old new : List ListenerKey)
    → serves k (keep (λ i. not (any (λ j. same_key j i) new)) old)
      ≡ serves k old && not (any (λ j. same_key j k) new)
serves-gone k [] new = refl
serves-gone k (x ∷ old) new = elim (Bool-cases (same_port x k)) [
  | inl s ↦
      let q : any (λ j. same_key j x) new ≡ any (λ j. same_key j k) new =
        ap (λ i. any (λ j. same_key j i) new) (same_port-eq x k s) in
      let ih = serves-gone k old new in ground (arith, q, ih)
  | inr s ↦ let ih = serves-gone k old new in ground (arith, ih)
]
