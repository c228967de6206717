-- ===== src/Pjs/Cors.antt =====
-- pjs/plugins/cors.js. An entry of allowOrigins has one of `exact`, `prefix` and `regex`; testing a text
-- with a regular expression is a parameter, and a number in a time is decimal digits.
use fgw.Base.{
  ℕ, digits_from, ◌+◌, ◌*◌, ◌≡◌, refl, ap, ◌∙◌, ◌↔◌, All, any_of_mem, text_eq_iff,
  starts_with-append, Bool-cases, inl, inr, Memᴰ, &&_iff, ◌==◌, ==_iff, Bool, true, false, ◌&&◌,
  List, [], ◌∷◌, ◌++◌, Option, none, some, Text, txt, truthy, text_eq, text_equality, starts_with,
  index_of, join, take, drop, lookup, insert, lookup-insert_self, any, all, ltb, leb, to_text,
  if◌then◌else◌, if_cases,
}

pub data Allow : Type 0 where
  exact prefix regex : Text → Allow

pub record Config : Type 0 where
  pub allow_credentials : Bool
  pub expose_headers : Option (List Text)
  pub allow_methods : Option (List Text)
  pub allow_headers : Option (List Text)
  pub max_age : Option Text
  pub allow_origins : List Allow

abbrev pub Headers : Type 0
Headers = List (Text × Text)

-- The number that a text stands for in arithmetic, with 0 for NaN, which is as false.
abbrev number : Text → ℕ
number s = if all (λ c. leb b'0' c && leb c b'9') s then digits_from 0 s else 0

-- `val.indexOf(c) > 0`, with `val.replace(c, '')`.
abbrev without_unit : ℕ → Text → Option Text
without_unit c s = elim (index_of c s) [
  | none ↦ none
  | some i ↦ if ltb 0 i then some (take i s ++ drop (i + 1) s) else none
]

-- `n * scale`, unless it is false.
abbrev scaled : ℕ → Option Text → Option ℕ
scaled scale none = none
scaled scale (some s) = if ltb 0 (number s * scale) then some (number s * scale) else none

abbrev or_scaled : Option ℕ → Option ℕ → Option ℕ
or_scaled none other = other
or_scaled (some n) other = some n

abbrev text_of : Option ℕ → Option Text
text_of none = none
text_of (some n) = some (to_text n)

abbrev seconds_or : Option Text → Option Text → Option Text
seconds_or none other = other
seconds_or (some s) other = if ltb 0 (number s) then some s else none

-- cacheTTL, as the text of the header, where it is above 0. Seconds are kept as they are written.
unfoldable pub cache_ttl : Text → Option Text
cache_ttl val = seconds_or (without_unit b's' val) (
    text_of (
      or_scaled (scaled 60 (without_unit b'm' val))
        (or_scaled (scaled 3600 (without_unit b'h' val)) (scaled 86400 (without_unit b'd' val)))))

abbrev listed_header : Text → Option (List Text) → Headers
listed_header name none = []
listed_header name (some values) = (name, join b',' values) ∷ []

abbrev age_header : Option Text → Headers
age_header none = []
age_header (some ttl) = (txt "access-control-max-age", ttl) ∷ []

abbrev ttl_of : Option Text → Option Text
ttl_of none = none
ttl_of (some val) = if truthy val then cache_ttl val else none

unfoldable pub origin_headers : Config → Headers
origin_headers cfg =
    (if cfg.allow_credentials
      then (txt "access-control-allow-credentials", txt "true") ∷ []
      else [])
    ++ listed_header (txt "access-control-expose-headers") cfg.expose_headers

unfoldable pub options_headers : Config → Headers
unfolding cache_ttl
options_headers cfg =
    listed_header (txt "access-control-allow-methods") cfg.allow_methods
    ++ (listed_header (txt "access-control-allow-headers") cfg.allow_headers
        ++ age_header (ttl_of cfg.max_age))

-- `head.headers[key] = headers[key]` for each key.
unfoldable pub set_headers : Headers → Headers → Headers
set_headers [] h = h
set_headers ((k, v) ∷ hs) h = set_headers hs (insert k v h)

abbrev pub allow_origin : Text
allow_origin = txt "access-control-allow-origin"

starts_with_split : (s p : Text) → starts_with s p ≡ true → (rest : Text) × (s ≡ p ++ rest)
unfolding starts_with
starts_with_split s [] h = (s, refl)
starts_with_split [] (y ∷ p) h = cc
starts_with_split (x ∷ s) (y ∷ p) h =
    let (e, k) = (&&_iff (x == y) (starts_with s p)).0 h in
    let (rest, q) = starts_with_split s p k in
    (rest, ap (λ c. c ∷ s) ((==_iff x y).0 e) ∙ ap (λ t. y ∷ t) q)

module _ (test : (pattern subject : Text) → Bool) where
  unfoldable pub origin_match : Text → Allow → Bool
  origin_match url (exact o) = text_eq url o
  origin_match url (prefix o) = starts_with url o
  origin_match url (regex o) = test o url

  -- `_matching`: the request has an origin that an entry accepts.
  abbrev pub is_allowed : Config → Option Text → Bool
  is_allowed cfg none = false
  is_allowed cfg (some origin) = truthy origin && any (λ o. origin_match origin o) cfg.allow_origins

  -- The headers of the answer to a request, where `response` are those of the response that the rest of
  -- the chain gives, unless it is not asked.
  abbrev allowed_headers : Config → (method origin : Text) → (response : Headers) → Headers
  allowed_headers cfg method origin response =
      if text_eq method (txt "OPTIONS")
      then insert allow_origin origin (set_headers (options_headers cfg) (origin_headers cfg))
      else insert allow_origin origin (set_headers (origin_headers cfg) response)

  abbrev when_allowed : Bool → Config → Text → Option Text → Headers → Headers
  when_allowed false cfg method origin response = response
  when_allowed true cfg method none response = response
  when_allowed true cfg method (some origin) response = allowed_headers cfg method origin response

  unfoldable pub answer_headers :
      Config → (method : Text) → (origin : Option Text) → Headers → Headers
  unfolding origin_match set_headers origin_headers options_headers
  answer_headers cfg method origin response =
      when_allowed (is_allowed cfg origin) cfg method origin response

  -- What it is for an entry to accept an origin.
  abbrev pub Accepts : Text → Allow → Type 0
  Accepts url (exact o) = url ≡ o
  Accepts url (prefix o) = (rest : Text) × (url ≡ o ++ rest)
  Accepts url (regex o) = test o url ≡ true

  origin_match_iff : (url : Text) (a : Allow) → (origin_match url a ≡ true) ↔ Accepts url a
  unfolding origin_match
  origin_match_iff url (exact o) = text_eq_iff url o
  origin_match_iff url (prefix o) =
      (starts_with_split url o, λ h. rw h.1 (starts_with-append o h.0))
  origin_match_iff url (regex o) = (λ h. h, λ h. h)

  -- The answer to a request whose origin is not empty and is accepted by an entry of allowOrigins, as
  -- the same text, as what begins with its prefix or by its expression, allows this origin, also the
  -- answer to a preflight request, whatever the backend says.
  pub answer_headers-allowed :
      (cfg : Config) (method origin : Text) (response : Headers) (a : Allow)
      → Memᴰ a cfg.allow_origins
      → Accepts origin a
      → truthy origin ≡ true
      → lookup allow_origin (answer_headers cfg method (some origin) response) ≡ some origin
  unfolding answer_headers
  answer_headers-allowed cfg method origin response a m h t =
      let hit =
        any_of_mem (λ o. origin_match origin o) cfg.allow_origins m
          ((origin_match_iff origin a).1 h) in
      rw (t, hit)
        (if_cases (λ (r : Headers). lookup allow_origin r ≡ some origin)
          (text_eq method (txt "OPTIONS"))
          (λ e.
            lookup-insert_self allow_origin origin
              (set_headers (options_headers cfg) (origin_headers cfg)))
          (λ e. lookup-insert_self allow_origin origin (set_headers (origin_headers cfg) response)))

  any-refused :
      (origin : Text) (as' : List Allow)
      → All (λ a. ¬ Accepts origin a) as'
      → any (λ o. origin_match origin o) as' ≡ false
  any-refused origin [] h = refl
  any-refused origin (a ∷ as') h = elim (Bool-cases (origin_match origin a)) [
    | inl k ↦ absurd (h.0 ((origin_match_iff origin a).0 k))
    | inr k ↦ rw k (any-refused origin as' h.1)
  ]

  -- A request without an origin, with an empty one, or with one that no entry accepts gets the headers
  -- of the backend unchanged.
  pub answer_headers-refused :
      (cfg : Config) (method origin : Text) (response : Headers)
      → All (λ a. ¬ Accepts origin a) cfg.allow_origins
      → (answer_headers cfg method (some origin) response ≡ response)
        × (answer_headers cfg method (some []) response ≡ response)
        × (answer_headers cfg method none response ≡ response)
  unfolding answer_headers
  answer_headers-refused cfg method origin response h = (
    let miss : is_allowed cfg (some origin) ≡ false =
          rw (any-refused origin cfg.allow_origins h) (of_truth (truthy origin)) in
        rw miss refl,
    refl,
    refl,
  )
    where
      of_truth : (b : Bool) → b && false ≡ false
      of_truth true = refl
      of_truth false = refl
