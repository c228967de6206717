-- ===== src/Pjs/Route/Body.antt =====
-- pjs/http/route.js: the limit on the body of a request, whose data come in pieces. `ClientMaxBodySize`
-- of the route, of its domain and of the configuration are numbers that getNonNegativeNumber of
-- pjs/lib/utils.js has read; the limit is enforced only where it is above 0.
use fgw.Base.{
  ℕ, ◌+◌, ◌≤◌, ◌<◌, ◌≡◌, refl, Bool, true, false, ◌&&◌, List, [], ◌∷◌, ◌++◌, Option, none, some,
  arith, txt, text_eq, ltb, if◌then◌else◌, Bool-cases, if_cases, inl, inr, ap, sym, ◌∙◌,
}
use mathlib.Core.List.{append_assoc, append-nil}
use fgw.Pjs.Route.{Domain, Route}

-- clientMaxBodySizeCache.
unfoldable pub max_body_size : (route domain config : Option ℕ) → ℕ
max_body_size (some n) domain config = n
max_body_size none (some n) config = n
max_body_size none none (some n) = n
max_body_size none none none = 1000000

-- `_clientMaxBodySize`, which stays 0 unless the type of the domain is written out.
unfoldable pub client_max_body_size : Option Route → Domain → (route domain config : Option ℕ) → ℕ
unfolding max_body_size
client_max_body_size none d r s c = 0
client_max_body_size (some route) d r s c = elim d.route_type [
  | none ↦ 0
  | some type ↦ if text_eq type (txt "HTTP") then max_body_size r s c else 0
]

-- `_clientBodySize` and `_continue`, with the sizes of the pieces that were passed on.
pub record Intake : Type 0 where
  pub size : ℕ
  pub goes_on : Bool
  pub passed : List ℕ

abbrev pub new_intake : Intake
new_intake = record { size = 0; goes_on = true; passed = [] }

abbrev pub total : List ℕ → ℕ
total [] = 0
total (n ∷ ns) = n + total ns

module _ (max : ℕ) where
  unfoldable pub replace_data : Intake → ℕ → Intake
  replace_data b n =
      if ltb max (b.size + n)
      then record b { size = b.size + n; goes_on = false }
      else record b { size = b.size + n; passed = b.passed ++ n ∷ [] }

  unfoldable pub take_in : Intake → List ℕ → Intake
  unfolding replace_data
  take_in b [] = b
  take_in b (n ∷ ns) = take_in (replace_data b n) ns

  -- The pieces that reach the next filter with the message, or `none` for the status 413.
  unfoldable pub receive : List ℕ → Option (List ℕ)
  unfolding take_in
  receive ns =
      if ltb 0 max
      then (let b = take_in new_intake ns in if b.goes_on then some b.passed else none)
      else some ns

  -- Once over the limit the request is lost.
  take_in-stopped : (b : Intake) (ns : List ℕ) → b.goes_on ≡ false → (take_in b ns).goes_on ≡ false
  unfolding take_in
  take_in-stopped b [] h = h
  take_in-stopped b (n ∷ ns) h =
      take_in-stopped (replace_data b n) ns
        (if_cases (λ (x : Intake). x.goes_on ≡ false) (ltb max (b.size + n)) (λ e. refl) (λ e. h))

  replace_data-over :
      (b : Intake) (n : ℕ)
      → ltb max (b.size + n) ≡ true
      → replace_data b n ≡ record b { size = b.size + n; goes_on = false }
  unfolding replace_data
  replace_data-over b n e = rw e refl

  replace_data-within :
      (b : Intake) (n : ℕ)
      → ltb max (b.size + n) ≡ false
      → replace_data b n ≡ record b { size = b.size + n; passed = b.passed ++ n ∷ [] }
  unfolding replace_data
  replace_data-within b n e = rw e refl

  take_in-over :
      (b : Intake) (ns : List ℕ)
      → b.size ≤ max
      → max < b.size + total ns
      → (take_in b ns).goes_on ≡ false
  unfolding take_in
  take_in-over b [] h k = absurd (omega (arith, h, k))
  take_in-over b (n ∷ ns) h k = elim (Bool-cases (ltb max (b.size + n))) [
    | inl e ↦
        ap (λ x. (take_in x ns).goes_on) (replace_data-over b n e)
        ∙ take_in-stopped (record b { size = b.size + n; goes_on = false }) ns refl
    | inr e ↦
        ap (λ x. (take_in x ns).goes_on) (replace_data-within b n e)
        ∙ take_in-over (record b { size = b.size + n; passed = b.passed ++ n ∷ [] }) ns
            (ground arith) (omega arith)
  ]

  take_in-within :
      (b : Intake) (ns : List ℕ)
      → b.goes_on ≡ true
      → b.size + total ns ≤ max
      → ((take_in b ns).goes_on ≡ true) × ((take_in b ns).passed ≡ b.passed ++ ns)
  unfolding take_in
  take_in-within b [] h k = (h, sym (append-nil b.passed))
  take_in-within b (n ∷ ns) h k =
      let fits = replace_data-within b n (ground arith) in
      let b' : Intake = record b { size = b.size + n; passed = b.passed ++ n ∷ [] } in
      let (on, all) = take_in-within b' ns h (omega arith) in
      (
        ap (λ x. (take_in x ns).goes_on) fits ∙ on,
        ap (λ x. (take_in x ns).passed) fits ∙ (all ∙ append_assoc b.passed (n ∷ []) ns),
      )

  -- Under a limit above 0 a request is answered with 413 exactly when the sizes of its pieces add up
  -- to more than the limit; otherwise, and always where the limit is 0, every piece is passed on.
  pub receive_lem :
      (ns : List ℕ) → receive ns ≡ (if ltb 0 max && ltb max (total ns) then none else some ns)
  unfolding receive
  receive_lem ns = elim (Bool-cases (ltb 0 max)) [
    | inl e ↦ elim (Bool-cases (ltb max (total ns))) [
      | inl over ↦ rw (e, over, take_in-over new_intake ns (omega arith) (ground arith)) refl
      | inr within ↦
          let (on, all) = take_in-within new_intake ns refl (ground arith) in
          rw (e, within, on) (ap some all)
    ]
    | inr e ↦ rw e refl
  ]
