-- ===== src/Backends/Sessions/RoundTrip.antt =====
-- The cookies of src/modules/session-persistence.js: what is written by a response and read again.
use fgw.Base.{
  ℕ, ◌≡◌, refl, true, false, [], ◌∷◌, ◌++◌, Option, none, some, arith, Text, truthy, starts_with,
  trim, index_of, split_first, split-none, no_separator, drop, take, length, starts_with-append,
  drop-append, ap,
}
use mathlib.Core.List.{append-nil}
use fgw.Backends.Sessions.{
  Kind, Headers, SetCookie, cookie_prefix, req_cookie_key, res_cookie_key, State, restore, preserve,
}

index_first : (c : ℕ) (s t : Text) → index_of c s ≡ none → index_of c (s ++ c ∷ t) ≡ some (length s)
unfolding index_of
index_first c [] t h = ground arith
index_first c (x ∷ s) t h =
    let (n, k) = no_separator c x s h in rw (n, index_first c s t k) (ap some (omega arith))

take-append : (s t : Text) → take (length s) (s ++ t) ≡ s
take-append [] t = refl
take-append (x ∷ s) t = ap (λ r. x ∷ r) (take-append s t)

append_assoc_one : (n k : Text) (c : ℕ) → (n ++ c ∷ []) ++ k ≡ n ++ c ∷ k
append_assoc_one [] k c = refl
append_assoc_one (x ∷ n) k c = ap (λ r. x ∷ r) (append_assoc_one n k c)

truthy-append : (s : Text) (c : ℕ) (t : Text) → truthy (s ++ c ∷ t) ≡ true
truthy-append [] c t = refl
truthy-append (x ∷ s) c t = refl

-- What may follow a cookie: nothing, or a semicolon and more.
abbrev pub followed_by : Option Text → Text
followed_by none = []
followed_by (some more) = b';' ∷ more

truthy-cookie : (name k tail : Text) → truthy ((cookie_prefix name ++ k) ++ tail) ≡ true
truthy-cookie [] k tail = refl
truthy-cookie (c ∷ name) k tail = refl

-- The key of the cookie that a response sets, whatever its attributes.
res_key_lem :
    (name k : Text) (attributes : Option Text) (h : Headers)
    → h.set_cookie ≡ SetCookie.single ((cookie_prefix name ++ k) ++ followed_by attributes)
    → index_of b';' (cookie_prefix name ++ k) ≡ none
    → res_cookie_key name h ≡ some k
unfolding res_cookie_key
res_key_lem name k none h e n =
    let p = cookie_prefix name in
    rw (e, truthy-cookie name k [], append-nil (p ++ k), n, drop-append p k) refl
res_key_lem name k (some attributes) h e n =
    let p = cookie_prefix name in
    rw
      (
        e,
        truthy-cookie name k (b';' ∷ attributes),
        index_first b';' (p ++ k) attributes n,
        take-append (p ++ k) (b';' ∷ attributes),
        drop-append p k,
      )
      refl

req_key_lem :
    (name k : Text) (more : Option Text) (h : Headers)
    → h.cookie ≡ some ((cookie_prefix name ++ k) ++ followed_by more)
    → index_of b';' (cookie_prefix name ++ k) ≡ none
    → trim (cookie_prefix name ++ k) ≡ cookie_prefix name ++ k
    → trim k ≡ k
    → req_cookie_key name h ≡ some k
unfolding req_cookie_key
req_key_lem name k none h e n t u =
    let p = cookie_prefix name in
    rw
      (
        e,
        truthy-cookie name k [],
        append-nil (p ++ k),
        split-none b';' (p ++ k) n,
        t,
        starts_with-append p k,
        drop-append p k,
        u,
      )
      refl
req_key_lem name k (some more) h e n t u =
    let p = cookie_prefix name in
    rw
      (
        e,
        truthy-cookie name k (b';' ∷ more),
        split_first b';' (p ++ k) more n,
        t,
        starts_with-append p k,
        drop-append p k,
        u,
      )
      refl

module _ {Cache S : Type 0} (get : Text → Cache → Option S) (put : Text → S → Cache → Cache) where
  -- A session that a response preserves under a cookie, with attributes or without, is restored by a
  -- request that sends this cookie first or alone, where the response sets no other cookie, the cache
  -- returns what was put last under a key, the key is not empty, and neither the key nor the name has a
  -- semicolon or white space at its ends.
  pub restore-preserve :
      (name k : Text) (attributes more : Option Text) (response request : Headers) (v : S)
      (st : State get put)
      → ((j : Text) (w : S) (c : Cache) → get j (put j w c) ≡ some w)
      → response.set_cookie ≡ SetCookie.single ((cookie_prefix name ++ k) ++ followed_by attributes)
      → request.cookie ≡ some ((cookie_prefix name ++ k) ++ followed_by more)
      → index_of b';' (cookie_prefix name ++ k) ≡ none
      → trim (cookie_prefix name ++ k) ≡ cookie_prefix name ++ k
      → trim k ≡ k
      → truthy k ≡ true
      → (restore get put Kind.cookie name request
          (preserve get put Kind.cookie name response v st)).0
        ≡ some v
  unfolding restore preserve
  restore-preserve name k attributes more response request v st law e q n t u h =
      let written = res_key_lem name k attributes response e n in
      let read = req_key_lem name k more request q n t u in
      rw (written, read, h) (law k v st.sessions)

-- The same cookie after another one, with the space that separates them: the key that is read keeps
-- the equals sign, since the prefix is cut from the cookie before it is trimmed.
pub req_cookie_key-later :
    (name k other : Text) (h : Headers)
    → h.cookie ≡ some (other ++ b';' ∷ 32 ∷ (cookie_prefix name ++ k))
    → index_of b';' other ≡ none
    → index_of b';' (32 ∷ (cookie_prefix name ++ k)) ≡ none
    → starts_with (trim other) (cookie_prefix name) ≡ false
    → trim (32 ∷ (cookie_prefix name ++ k)) ≡ cookie_prefix name ++ k
    → req_cookie_key name h ≡ some (trim (b'=' ∷ k))
unfolding req_cookie_key
req_cookie_key-later name k other h e m n f t =
    let p = cookie_prefix name in
    rw
      (
        e,
        truthy-append other b';' (32 ∷ (p ++ k)),
        split_first b';' other (32 ∷ (p ++ k)) m,
        split-none b';' (32 ∷ (p ++ k)) n,
        f,
        t,
        starts_with-append p k,
      )
      (ap (λ s. some (trim s)) (drop_shifted 32 name k))
  where
    drop_shifted :
        (c : ℕ) (n k : Text)
        → drop (length (cookie_prefix n)) (c ∷ (cookie_prefix n ++ k)) ≡ b'=' ∷ k
    drop_shifted c [] k = refl
    drop_shifted c (x ∷ n) k = drop_shifted x n k
