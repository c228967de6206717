-- ===== src/Pjs/FaultInjection.antt =====
-- pjs/http/fault-injection.js. A time is in milliseconds, where the source counts seconds; a percentage
-- is a whole number. `Math.floor(Math.random() * n)` is a draw below `n`, which is an argument.
use fgw.Base.{
  ℕ, zero, suc, ◌+◌, ◌-◌, ◌*◌, ◌≡◌, refl, ◌∙◌, Bool, true, false, ◌&&◌, List, [], ◌∷◌, Option, none,
  some, arith, Text, txt, truthy, text_eq, to_lower, split, all, ltb, leb, digits_from,
  if◌then◌else◌, Bool-cases, inl, inr,
}

pub record Delay : Type 0 where
  pub percent : Option ℕ
  pub unit : Option Text
  pub range : Option Text
  pub fixed : Option ℕ

pub record Abort : Type 0 where
  pub percent : Option ℕ
  pub status : Option ℕ
  pub message : Option Text

pub record Fault : Type 0 where
  pub delay : Option Delay
  pub abort : Option Abort

-- The faults of the route, the domain and the configuration, and the type of the domain.
pub record Settings : Type 0 where
  pub route : Option Fault
  pub domain : Option Fault
  pub config : Option Fault
  pub route_type : Option Text

pub data Message : Type 0 where
  plain : (status : ℕ) (body : Text) → Message
  grpc : (status : ℕ) (message : Text) → Message

-- The draws for one request: whether to delay and by how much, and whether to abort.
pub record Draws : Type 0 where
  pub delays : ℕ
  pub amount : ℕ → ℕ
  pub aborts : ℕ

abbrev or_else {ℓ} : {A : Type ℓ} → Option A → Option A → Option A
or_else none b = b
or_else (some a) b = some a

abbrev part_of {ℓ} : {A : Type ℓ} → (Fault → Option A) → Option Fault → Option A
part_of f none = none
part_of f (some fault) = f fault

abbrev pub first_part {ℓ} : {A : Type ℓ} → (Fault → Option A) → Settings → Option A
first_part f s = or_else (part_of f s.route) (or_else (part_of f s.domain) (part_of f s.config))

-- A missing number, which is above nothing.
abbrev pub or_zero : Option ℕ → ℕ
or_zero none = 0
or_zero (some n) = n

abbrev or_empty_text : Option Text → Text
or_empty_text none = []
or_empty_text (some s) = s

abbrev unit_of : Option Text → ℕ
unit_of none = 1
unit_of (some u) =
    if text_eq (to_lower u) (txt "s")
    then 1000
    else (if text_eq (to_lower u) (txt "m") then 60000 else 1)

-- `Number(s)` for a text, with `none` for NaN.
abbrev to_number : Text → Option ℕ
to_number s = if all (λ c. leb b'0' c && leb c b'9') s then some (digits_from 0 s) else none

abbrev both_numbers : Option ℕ → Option ℕ → Option (ℕ × ℕ)
both_numbers (some lo) (some hi) = if leb lo hi then some (lo, hi) else none
both_numbers (some lo) none = none
both_numbers none o = none

-- `min` and `max`, where `min >= 0 && max >= min`.
abbrev bounds_of : List Text → Option (ℕ × ℕ)
bounds_of [] = none
bounds_of (lo ∷ []) = none
bounds_of (lo ∷ hi ∷ more) = both_numbers (to_number lo) (to_number hi)

abbrev hits : (percent draw : ℕ) → Bool
hits percent draw = leb draw percent

abbrev ranged : (unit percent : ℕ) → Option (ℕ × ℕ) → Draws → Option ℕ
ranged unit percent none d = none
ranged unit percent (some (lo, hi)) d =
    some (if hits percent d.delays then (d.amount (hi - lo + 1) + lo) * unit else 0)

abbrev fixed_delay : (unit percent fixed : ℕ) → Draws → Option ℕ
fixed_delay unit percent fixed d =
    if ltb 0 fixed then some (if hits percent d.delays then fixed * unit else 0) else none

abbrev of_range : (unit percent : ℕ) → Option Text → (fixed : ℕ) → Draws → Option ℕ
of_range unit percent none fixed d = fixed_delay unit percent fixed d
of_range unit percent (some r) fixed d =
    if truthy r
    then ranged unit percent (bounds_of (split b'-' r)) d
    else fixed_delay unit percent fixed d

-- What a call of the function in delayFaultCache returns; `none` is a missing function.
unfoldable pub delay_fault : Option Delay → Draws → Option ℕ
delay_fault none d = none
delay_fault (some c) d =
    if ltb 0 (or_zero c.percent)
    then of_range (unit_of c.unit) (or_zero c.percent) c.range (or_zero c.fixed) d
    else none

abbrev message_of : (is_grpc : Bool) (status : ℕ) (message : Text) → Message
message_of true status message = grpc status message
message_of false status message = plain status message

abbrev is_grpc : Option Text → Bool
is_grpc none = false
is_grpc (some type) = text_eq type (txt "GRPC")

-- What a call of the function in abortFaultCache returns, with `none` for null and for a missing
-- function.
unfoldable pub abort_fault : (is_grpc : Bool) → Option Abort → Draws → Option Message
abort_fault b none d = none
abort_fault b (some c) d =
    if ltb 0 (or_zero c.percent) && ltb 0 (or_zero c.status) && hits (or_zero c.percent) d.aborts
    then some (message_of b (or_zero c.status) (or_empty_text c.message))
    else none

-- The pipeline, on a port with a domain: how long a request waits, and the message that answers it in place of the rest of the
-- chain.
unfoldable pub on_request : Settings → Draws → ℕ × Option Message
unfolding delay_fault abort_fault
on_request s d = (
  or_zero (delay_fault (first_part (λ f. f.delay) s) d),
  abort_fault (is_grpc s.route_type) (first_part (λ f. f.abort) s) d,
)

abbrev pub is_answered : Option Message → Bool
is_answered none = false
is_answered (some m) = true

-- How many of the numbers below `n` pass a test.
abbrev pub count_below : (ℕ → Bool) → ℕ → ℕ
count_below f zero = 0
count_below f (suc n) = let rest = count_below f n in if f n then suc rest else rest

count_hits : (p n : ℕ) → count_below (hits p) n ≡ (if ltb p n then suc p else n)
count_hits p zero = ground arith
count_hits p (suc n) = ground (arith, count_hits p n)

count_below-ext :
    (f g : ℕ → Bool) (n : ℕ) → ((r : ℕ) → f r ≡ g r) → count_below f n ≡ count_below g n
count_below-ext f g zero h = refl
count_below-ext f g (suc n) h = rw (h n, count_below-ext f g n h) refl

count_none : (n : ℕ) → count_below (λ r. false) n ≡ 0
count_none zero = refl
count_none (suc n) = count_none n

-- Whether an abort can happen at all.
abbrev pub is_active : Abort → Bool
is_active a = ltb 0 (or_zero a.percent) && ltb 0 (or_zero a.status)

abort_fault-active :
    (b : Bool) (a : Abort) (d : Draws)
    → is_active a ≡ true
    → is_answered (abort_fault b (some a) d) ≡ hits (or_zero a.percent) d.aborts
unfolding abort_fault
abort_fault-active b a d h = ground arith

abort_fault-inactive :
    (b : Bool) (a : Abort) (d : Draws)
    → is_active a ≡ false
    → is_answered (abort_fault b (some a) d) ≡ false
unfolding abort_fault
abort_fault-inactive b a d h = ground arith

-- For how many of a hundred draws a request is aborted, whatever the other draws are: none where the
-- percentage or the status is missing or 0, one more than the percentage where it is above 0 and below
-- 100, and all hundred from 100 percent on.
pub on_request-share :
    (s : Settings) (a : Abort) (d : Draws)
    → first_part (λ f. f.abort) s ≡ some a
    → count_below (λ r. is_answered (on_request s (record d { aborts = r })).1) 100 ≡ (
        if is_active a
        then (if ltb (or_zero a.percent) 100 then suc (or_zero a.percent) else 100)
        else 0)
unfolding on_request
on_request-share s a d e = elim (Bool-cases (is_active a)) [
  | inl h ↦ rw h (
      count_below-ext (λ r. is_answered (on_request s (record d { aborts = r })).1)
        (hits (or_zero a.percent)) 100
        (λ r. rw e (abort_fault-active (is_grpc s.route_type) a (record d { aborts = r }) h))
      ∙ count_hits (or_zero a.percent) 100)
  | inr h ↦ rw h (
      count_below-ext (λ r. is_answered (on_request s (record d { aborts = r })).1) (λ r. false) 100
        (λ r. rw e (abort_fault-inactive (is_grpc s.route_type) a (record d { aborts = r }) h))
      ∙ count_none 100)
]
