-- ===== src/Backends/Retries.antt =====
-- The retries of makeBackendSelectorForRule in src/modules/router-http.js. A code is given by its
-- text, and parseInt reads decimal digits. The wait before a retry is left out.
use fgw.Base.{
  ℕ, ◌+◌, ◌-◌, ◌*◌, ◌<◌, ◌≤◌, ◌≡◌, refl, Bool, true, false, ◌&&◌, List, [], ◌∷◌, ◌++◌, Option, none,
  some, arith, Text, txt, text_eq, drop, take, any, ltb, leb, ◌==◌, if◌then◌else◌, length, All, ap,
  ◌∙◌, inl, inr, ◌⊎◌, Bool-cases, Memᴰ,
}

abbrev is_digit : ℕ → Bool
is_digit c = leb b'0' c && leb c b'9'

-- The digits in front of a text, after a number that was read.
digits_from : ℕ → Text → ℕ
digits_from n [] = n
digits_from n (c ∷ s) =
    let rest = digits_from (10 * n + (c - b'0')) s in if is_digit c then rest else n

-- Number.parseInt, with `none` for NaN.
unfoldable pub parse_int : Text → Option ℕ
unfolding digits_from
parse_int [] = none
parse_int (c ∷ s) = if is_digit c then some (digits_from 0 (c ∷ s)) else none

abbrev in_hundred : Option ℕ → ℕ → Bool
in_hundred none n = false
in_hundred (some base) n = leb base n && ltb n (base + 100)

abbrev is_number : Option ℕ → ℕ → Bool
is_number none n = false
is_number (some m) n = m == n

-- Whether a code enters a status into retryCodes.
unfoldable pub code_covers : Text → ℕ → Bool
unfolding parse_int
code_covers code status =
    if text_eq (drop 1 code) (txt "xx")
    then in_hundred (parse_int (take 1 code ++ txt "00")) status
    else is_number (parse_int code) status

abbrev or_default : Option (List Text) → List Text
or_default none = txt "5xx" ∷ []
or_default (some codes) = codes

-- `status in retryCodes`.
unfoldable pub need_retry : Option (List Text) → ℕ → Bool
unfolding code_covers
need_retry codes status = any (λ code. code_covers code status) (or_default codes)

pub data Decision : Type 0 where
  retry : Decision
  conclude : Decision

abbrev below : ℕ → Option ℕ → Bool
below n none = false
below n (some m) = ltb n m

module _ (codes : Option (List Text)) (attempts : Option ℕ) where
  -- The head of a response, with $retryCounter before and after.
  unfoldable pub on_status : ℕ → ℕ → Decision × ℕ
  unfolding need_retry
  on_status counter status =
      if need_retry codes status
      then (if below (counter + 1) attempts
          then (Decision.retry, counter + 1)
          else (Decision.conclude, 0))
      else (Decision.conclude, counter)

  abbrev conclude_or : Decision → ℕ → Option ℕ → Option ℕ
  conclude_or retry status later = later
  conclude_or conclude status later = some status

  -- The status that is passed on when the backend answers with a list of statuses in turn.
  unfoldable pub serve : ℕ → List ℕ → Option ℕ
  unfolding on_status
  serve counter [] = none
  serve counter (status ∷ more) =
      let (d, counter') = on_status counter status in conclude_or d status (serve counter' more)

  on_status-retry :
      (n counter s : ℕ)
      → attempts ≡ some n
      → need_retry codes s ≡ true
      → counter + 1 < n
      → on_status counter s ≡ (Decision.retry, counter + 1)
  unfolding on_status
  on_status-retry n counter s e h b = rw (h, e) (ground arith)

  on_status-last :
      (n counter s : ℕ)
      → attempts ≡ some n
      → counter + 1 ≡ n
      → (on_status counter s).0 ≡ Decision.conclude
  unfolding on_status
  on_status-last n counter s e b = rw e (ground arith)

  on_status-good :
      (counter s : ℕ) → need_retry codes s ≡ false → (on_status counter s).0 ≡ Decision.conclude
  unfolding on_status
  on_status-good counter s h = rw h refl

  serve-none :
      (n counter : ℕ) (bad : List ℕ)
      → attempts ≡ some n
      → All (λ s. need_retry codes s ≡ true) bad
      → counter + length bad < n
      → serve counter bad ≡ none
  unfolding serve
  serve-none n counter [] e h b = refl
  serve-none n counter (s ∷ bad) e h b =
      rw (on_status-retry n counter s e h.0 (omega arith))
        (serve-none n (counter + 1) bad e h.1 (omega arith))

  serve_skip :
      (n counter : ℕ) (bad rest : List ℕ)
      → attempts ≡ some n
      → All (λ s. need_retry codes s ≡ true) bad
      → counter + length bad < n
      → serve counter (bad ++ rest) ≡ serve (counter + length bad) rest
  unfolding serve
  serve_skip n counter [] rest e h b = ap (λ k. serve k rest) (omega arith)
  serve_skip n counter (s ∷ bad) rest e h b = rw (on_status-retry n counter s e h.0 (omega arith)) (
      serve_skip n (counter + 1) bad rest e h.1 (omega arith)
      ∙ ap (λ k. serve k rest) (omega arith))

  serve_head :
      (counter status : ℕ) (rest : List ℕ)
      → (on_status counter status).0 ≡ Decision.conclude
      → serve counter (status ∷ rest) ≡ some status
  unfolding serve
  serve_head counter status rest h = rw h refl

  serve-answers_from :
      (n counter : ℕ) (statuses : List ℕ)
      → attempts ≡ some n
      → counter < n
      → n ≤ counter + length statuses
      → (status : ℕ) × (serve counter statuses ≡ some status) × Memᴰ status statuses
  unfolding serve
  serve-answers_from n counter [] e b c = absurd (omega (arith, b, c))
  serve-answers_from n counter (s ∷ more) e b c = elim (Bool-cases (need_retry codes s)) [
    | inl again ↦ elim (Bool-cases (ltb (counter + 1) n)) [
      | inl left ↦
          let (status, found, m) =
            serve-answers_from n (counter + 1) more e (ground arith) (omega arith) in
          (status, rw (on_status-retry n counter s e again (ground arith)) found, Memᴰ.tail m)
      | inr last ↦ (
        s,
        serve_head counter s more (on_status-last n counter s e (ground arith)),
        Memᴰ.head refl,
      )
    ]
    | inr good ↦ (s, serve_head counter s more (on_status-good counter s good), Memᴰ.head refl)
  ]

  -- With a positive number of attempts the client gets an answer, which is one of the statuses of the
  -- backend, as soon as the backend has answered as often as there are attempts.
  pub serve-answers :
      (n : ℕ) (statuses : List ℕ)
      → attempts ≡ some n
      → 0 < n
      → n ≤ length statuses
      → (status : ℕ) × (serve 0 statuses ≡ some status) × Memᴰ status statuses
  serve-answers n statuses e b c = serve-answers_from n 0 statuses e b (omega arith)

  -- While fewer statuses than the attempts ask for a retry, none of them is passed on. The next
  -- status is passed on if it asks for no retry, or if it is that of the last attempt: the backend is
  -- never asked more often than the attempts say.
  pub serve-retries :
      (n : ℕ) (bad : List ℕ) (status : ℕ) (rest : List ℕ)
      → attempts ≡ some n
      → All (λ s. need_retry codes s ≡ true) bad
      → length bad < n
      → (need_retry codes status ≡ false) ⊎ (length bad + 1 ≡ n)
      → (serve 0 bad ≡ none) × (serve 0 (bad ++ status ∷ rest) ≡ some status)
  serve-retries n bad status rest e h b c =
      let skip = serve_skip n 0 bad (status ∷ rest) e h (omega arith) in
      (
        serve-none n 0 bad e h (omega arith),
        skip
            ∙ serve_head _ status rest (elim c [
              | inl good ↦ on_status-good _ status good
              | inr last ↦ on_status-last n _ status e (omega arith)
            ]),
      )

parse_int-class : (d : ℕ) → d < 10 → parse_int ((d + b'0') ∷ txt "00") ≡ some (100 * d)
unfolding parse_int
parse_int-class d b =
    let digit : (leb b'0' (d + b'0') && leb (d + b'0') b'9') ≡ true = ground arith in
    rw digit (ap some (omega arith))

-- A code such as `5xx` covers the statuses of its hundred.
pub code_covers-class :
    (d status : ℕ)
    → d < 10
    → code_covers ((d + b'0') ∷ txt "xx") status
      ≡ (leb (100 * d) status && ltb status (100 * d + 100))
unfolding code_covers text_eq
code_covers-class d status b = rw (parse_int-class d b) refl
