-- ===== src/Pjs/Forward/Sticky.antt =====
-- pjs/http/forward.js: the cookie that binds a client to an endpoint.
use fgw.Base.{
  ℕ, ◌≡◌, refl, ◌∙◌, ap, join, All, All-append, All-map, Bool, true, false, List, [], ◌∷◌, ◌++◌,
  Option, none, some, Text, truthy, text_eq, text_eq_iff, text_equality, split, trim, index_of,
  split_first, split-none, lookup, insert, lookup-insert, lookup-insert_self, if◌then◌else◌,
  Bool-cases, inl, inr, ◌⊎◌, Memᴰ,
}

-- getCookies, on the parts of one cookie.
abbrev pub add_pair : List Text → List (Text × Text) → List (Text × Text)
add_pair [] cookies = cookies
add_pair (k ∷ []) cookies = cookies
add_pair (k ∷ v ∷ rest) cookies = insert (trim k) (trim v) cookies

unfoldable pub add_cookies : List Text → List (Text × Text) → List (Text × Text)
add_cookies [] cookies = cookies
add_cookies (p ∷ ps) cookies = add_cookies ps (add_pair (split b'=' p) cookies)

unfoldable pub get_cookies : Option Text → List (Text × Text)
unfolding add_cookies
get_cookies none = []
get_cookies (some cookie) = if truthy cookie then add_cookies (split b';' cookie) [] else []

-- Splitting a joined list gives the list back, if it is not empty and no part has the separator.
split-join :
    (c : ℕ) (before : List Text) (p : Text) (after : List Text)
    → All (λ q. index_of c q ≡ none) (before ++ p ∷ after)
    → split c (join c (before ++ p ∷ after)) ≡ before ++ p ∷ after
unfolding join
split-join c [] p [] h = split-none c p h.0
split-join c [] p (q ∷ after) h =
    split_first c p (join c (q ∷ after)) h.0 ∙ ap (λ l. p ∷ l) (split-join c [] q after h.1)
split-join c (b ∷ []) p after h =
    split_first c b (join c (p ∷ after)) h.0 ∙ ap (λ l. b ∷ l) (split-join c [] p after h.1)
split-join c (b ∷ d ∷ before) p after h =
    split_first c b (join c (d ∷ (before ++ p ∷ after))) h.0
    ∙ ap (λ l. b ∷ l) (split-join c (d ∷ before) p after h.1)

truthy-append : (s t : Text) (c : ℕ) → truthy (s ++ c ∷ t) ≡ true
truthy-append [] t c = refl
truthy-append (x ∷ s) t c = refl

module _ (hash : Text → Text) where
  -- `hashTable`.
  unfoldable pub add_hashes : List Text → List (Text × Text) → List (Text × Text)
  add_hashes [] table = table
  add_hashes (e ∷ es) table = add_hashes es (insert (hash e) e table)

  abbrev unless_out : (Text → Bool) → Option Text → Option Text
  unless_out out none = none
  unless_out out (some e) = if out e then none else some e

  abbrev endpoint_of : List (Text × Text) → (Text → Bool) → Option Text → Option Text
  endpoint_of table out none = none
  endpoint_of table out (some id) = if truthy id then unless_out out (lookup id table) else none

  -- `_cookieId` of a request: the endpoint that its cookie names, unless the endpoint is out.
  unfoldable pub sticky_target :
      (endpoints : List Text) (name : Text) (out : Text → Bool) (is_retry : Bool)
      (cookie : Option Text)
      → Option Text
  unfolding add_hashes get_cookies
  sticky_target endpoints name out is_retry cookie =
      if is_retry
      then none
      else endpoint_of (add_hashes endpoints []) out (lookup name (get_cookies cookie))

  -- The name and the value of the cookie that is set for an endpoint.
  abbrev pub cookie_pair : (name endpoint : Text) → Text
  cookie_pair name endpoint = name ++ b'=' ∷ hash endpoint

  lookup-add_hashes :
      (a : Text) (es : List Text) (table : List (Text × Text))
      → ((b : Text) → Memᴰ b es → hash b ≡ hash a → b ≡ a)
      → Memᴰ a es ⊎ (lookup (hash a) table ≡ some a)
      → lookup (hash a) (add_hashes es table) ≡ some a
  unfolding add_hashes
  lookup-add_hashes a [] table inj (inl m) = elim m [ ]
  lookup-add_hashes a [] table inj (inr h) = h
  lookup-add_hashes a (e ∷ es) table inj h =
      lookup-add_hashes a es (insert (hash e) e table) (λ b m. inj b (Memᴰ.tail m)) (next h)
    where
      kept : lookup (hash a) table ≡ some a → lookup (hash a) (insert (hash e) e table) ≡ some a
      kept k = elim (Bool-cases (text_eq (hash e) (hash a))) [
        | inl hit ↦
            lookup-insert (hash e) (hash a) e table
            ∙ rw hit (ap some (inj e (Memᴰ.head refl) ((text_eq_iff (hash e) (hash a)).0 hit)))
        | inr miss ↦ lookup-insert (hash e) (hash a) e table ∙ rw miss k
      ]

      next :
          Memᴰ a (e ∷ es) ⊎ (lookup (hash a) table ≡ some a)
          → Memᴰ a es ⊎ (lookup (hash a) (insert (hash e) e table) ≡ some a)
      next (inl (Memᴰ.head q)) = inr (rw q (lookup-insert_self (hash e) e table))
      next (inl (Memᴰ.tail m)) = inl m
      next (inr k) = inr (kept k)

  -- The parts of a Cookie header.
  abbrev pub header_of : List Text → Text
  header_of parts = join b';' parts

  -- A part sets a cookie of another name, or none.
  abbrev pub SetsOther : Text → Text → Type 0
  SetsOther name part =
      (index_of b';' part ≡ none)
      × ((index_of b'=' part ≡ none)
          ⊎ ((k : Text) × (v : Text) × (part ≡ k ++ b'=' ∷ v)
              × (index_of b'=' k ≡ none)
              × (text_eq (trim k) name ≡ false)))

  -- A part sets the cookie of this name and value, with white space around them.
  pub record SetsTo (name value part : Text) : Type 0 where
    pub key : Text
    pub val : Text
    pub written : part ≡ key ++ b'=' ∷ val
    pub whole : index_of b';' part ≡ none
    pub key_plain : index_of b'=' key ≡ none
    pub val_plain : index_of b'=' val ≡ none
    pub key_is : trim key ≡ name
    pub val_is : trim val ≡ value

  add_pair-other :
      (name part : Text) (cookies : List (Text × Text))
      → SetsOther name part
      → lookup name (add_pair (split b'=' part) cookies) ≡ lookup name cookies
  add_pair-other name part cookies (w, inl h) = rw (split-none b'=' part h) refl
  add_pair-other name part cookies (w, inr (k, v, e, n, d)) =
      rw (e, split_first b'=' k v n) (of_rest (split b'=' v))
    where
      of_rest : (rest : List Text) → lookup name (add_pair (k ∷ rest) cookies) ≡ lookup name cookies
      of_rest [] = refl
      of_rest (x ∷ xs) = lookup-insert (trim k) name (trim x) cookies ∙ rw d refl

  add_cookies-others :
      (name : Text) (ps : List Text) (cookies : List (Text × Text))
      → All (SetsOther name) ps
      → lookup name (add_cookies ps cookies) ≡ lookup name cookies
  unfolding add_cookies
  add_cookies-others name [] cookies h = refl
  add_cookies-others name (p ∷ ps) cookies h =
      add_cookies-others name ps (add_pair (split b'=' p) cookies) h.1
      ∙ add_pair-other name p cookies h.0

  add_cookies-append :
      (ps qs : List Text) (cookies : List (Text × Text))
      → add_cookies (ps ++ qs) cookies ≡ add_cookies qs (add_cookies ps cookies)
  unfolding add_cookies
  add_cookies-append [] qs cookies = refl
  add_cookies-append (p ∷ ps) qs cookies =
      add_cookies-append ps qs (add_pair (split b'=' p) cookies)

  add_pair-sets :
      (name value part : Text) (cookies : List (Text × Text))
      → SetsTo name value part
      → lookup name (add_pair (split b'=' part) cookies) ≡ some value
  add_pair-sets name value part cookies s =
      rw
        (
          s.written,
          split_first b'=' s.key s.val s.key_plain,
          split-none b'=' s.val s.val_plain,
          s.key_is,
          s.val_is,
        )
        (lookup-insert_self name value cookies)

  truthy-header :
      {name value : Text} (others : List Text) (part : Text) (after : List Text)
      → SetsTo name value part
      → truthy (header_of (others ++ part ∷ after)) ≡ true
  unfolding join
  truthy-header [] part [] s = rw s.written (truthy-append s.key s.val b'=')
  truthy-header [] part (q ∷ after) s = truthy-append part (join b';' (q ∷ after)) b';'
  truthy-header (b ∷ []) part after s = truthy-append b (join b';' (part ∷ after)) b';'
  truthy-header (b ∷ d ∷ others) part after s =
      truthy-append b (join b';' (d ∷ (others ++ part ∷ after))) b';'

  lookup-get_cookies :
      (name value : Text) (others : List Text) (part : Text) (after : List Text)
      → All (λ p. index_of b';' p ≡ none) others
      → SetsTo name value part
      → All (SetsOther name) after
      → lookup name (get_cookies (some (header_of (others ++ part ∷ after)))) ≡ some value
  unfolding get_cookies add_cookies
  lookup-get_cookies name value others part after h s o =
      let ps = others ++ part ∷ after in
      let parts : split b';' (header_of ps) ≡ ps = split-join b';' others part after (
        All-append (λ p. index_of b';' p ≡ none) others (part ∷ after) h
          (s.whole, All-map (SetsOther name) (λ p. index_of b';' p ≡ none) after (λ p k. k.0) o)) in
      rw (truthy-header others part after s, parts, add_cookies-append others (part ∷ after) [])
        (add_cookies-others name after (add_pair (split b'=' part) (add_cookies others [])) o
          ∙ add_pair-sets name value part (add_cookies others []) s)

  -- A client whose Cookie header holds the cookie that was set for an endpoint, at any place among
  -- others and with white space around its name and value, is sent to this endpoint again, unless the
  -- endpoint is out or the request is a retry. No other endpoint may have the same hash, the hash may not
  -- be empty, neither the name nor the hash may have a separator, and no part of the header behind the
  -- cookie may set the same name.
  pub sticky_target-header :
      (endpoints : List Text) (name a : Text) (out : Text → Bool) (others : List Text) (part : Text)
      (after : List Text)
      → Memᴰ a endpoints
      → ((b : Text) → Memᴰ b endpoints → hash b ≡ hash a → b ≡ a)
      → out a ≡ false
      → All (λ p. index_of b';' p ≡ none) others
      → SetsTo name (hash a) part
      → All (SetsOther name) after
      → truthy (hash a) ≡ true
      → sticky_target endpoints name out false (some (header_of (others ++ part ∷ after))) ≡ some a
  unfolding sticky_target
  sticky_target-header endpoints name a out others part after m inj o hs s ha t =
      rw
        (
          lookup-get_cookies name (hash a) others part after hs s ha,
          t,
          lookup-add_hashes a endpoints [] inj (inl m),
          o,
        )
        refl
