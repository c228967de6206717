-- ===== src/Backends/Sessions.antt =====
-- src/modules/session-persistence.js. The cache of the sessions is Pipy's, a parameter: `get` and
-- `set` are its methods. A missing key, and a falsy one, is never looked up; a session that is
-- preserved under no key is not stored.
pub mod RoundTrip
use fgw.Base.{
  ℕ, suc, ◌+◌, ◌≡◌, refl, Bool, true, false, List, [], ◌∷◌, ◌++◌, Option, none, some, arith, Text,
  txt, truthy, starts_with, trim, index_of, split, drop, take, find, if◌then◌else◌, length,
  Bool-cases, inl, inr, starts_with-append, drop-append, ap, ◌∙◌, ◌==◌,
}

pub data Kind : Type 0 where
  cookie : Kind
  header : Kind

-- The header `set-cookie` of a response: an array, or a value that may be missing.
pub data SetCookie : Type 0 where
  several : List Text → SetCookie
  single : Text → SetCookie
  missing : SetCookie

-- The headers that the getters read: the one named like the session, and the cookies.
pub record Headers : Type 0 where
  pub cookie : Option Text
  pub set_cookie : SetCookie
  pub named : Option Text

abbrev pub cookie_prefix : Text → Text
cookie_prefix name = name ++ b'=' ∷ []

abbrev value_of : Text → Option Text → Option Text
value_of prefix none = none
value_of prefix (some c) = some (trim (drop (length prefix) c))

abbrev cookie_key : Text → Option Text → Option Text
cookie_key prefix none = none
cookie_key prefix (some s) =
    if truthy s
    then value_of prefix (find (λ p. starts_with (trim p) prefix) (split b';' s))
    else none

-- makeReqCookieSessionKeyGetter.
unfoldable pub req_cookie_key : Text → Headers → Option Text
req_cookie_key name head = cookie_key (cookie_prefix name) head.cookie

abbrev picked : Text → SetCookie → Option Text
picked prefix (several vs) = find (λ v. starts_with v prefix) vs
picked prefix (single v) = some v
picked prefix missing = none

abbrev cut_at : Option ℕ → Text → Text
cut_at none v = v
cut_at (some i) v = take i v

abbrev key_in : Text → Option Text → Option Text
key_in prefix none = none
key_in prefix (some v) =
    if truthy v then some (drop (length prefix) (cut_at (index_of b';' v) v)) else none

-- makeResCookieSessionKeyGetter.
unfoldable pub res_cookie_key : Text → Headers → Option Text
res_cookie_key name head = key_in (cookie_prefix name) (picked (cookie_prefix name) head.set_cookie)

-- makeHeaderSessionKeyGetter.
abbrev pub header_key : Headers → Option Text
header_key head = head.named

unfoldable pub req_key : Kind → Text → Headers → Option Text
unfolding req_cookie_key
req_key cookie name head = req_cookie_key name head
req_key header name head = header_key head

unfoldable pub res_key : Kind → Text → Headers → Option Text
unfolding res_cookie_key
res_key cookie name head = res_cookie_key name head
res_key header name head = header_key head

module _ {Cache S : Type 0} (get : Text → Cache → Option S) (put : Text → S → Cache → Cache) where
  -- $sessionKey and the cache.
  pub record State : Type 0 where
    pub key : Option Text
    pub sessions : Cache

  abbrev find_session : Option Text → Cache → Option S
  find_session none c = none
  find_session (some k) c = if truthy k then get k c else none

  abbrev put_session : Option Text → S → Cache → Cache
  put_session none v c = c
  put_session (some k) v c = put k v c

  abbrev new_key : Option Text → Option Text → Option Text
  new_key none old = old
  new_key (some k) old = if truthy k then some k else old

  unfoldable pub restore : Kind → Text → Headers → State → Option S × State
  unfolding req_key
  restore t name head st =
      let k = req_key t name head in (find_session k st.sessions, record st { key = k })

  unfoldable pub preserve : Kind → Text → Headers → S → State → State
  unfolding res_key
  preserve t name head v st =
      let k = new_key (res_key t name head) st.key in
      record { key = k; sessions = put_session k v st.sessions }
