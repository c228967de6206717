-- ===== src/Pjs/WebServer.antt =====
-- pjs/server/web-server.js: the files that a request tries, the type of a file and its compression. A
-- directory that serves a path, or has nothing for it, is a parameter; so is the test of a regular
-- expression. Replacing a text by another has no special replacement patterns here.
use fgw.Base.{
  ℕ, suc, ◌+◌, ◌≡◌, refl, ap, Bool, true, false, not, ◌&&◌, ◌||◌, List, [], ◌∷◌, ◌++◌, map,
  flat_map, keep, Option, none, some, arith, Text, txt, truthy, text_eq, text_equality, starts_with,
  index_of, last_index_of, split, join, drop, length, lookup, insert, any, ltb, leb, if◌then◌else◌,
  ◌==◌, ==_refl, no_separator,
}
use fgw.Pjs.Route.{before}

-- The types of mime.json, of which a key lists extensions.
unfoldable pub ext_types : List (Text × Text) → List (Text × Text)
ext_types mime = flat_map (λ m. map (λ ext. (ext, m.1)) (keep truthy (split 32 m.0))) mime

-- The last of two equal extensions counts in Object.fromEntries.
unfoldable pub from_entries : List (Text × Text) → List (Text × Text) → List (Text × Text)
from_entries [] table = table
from_entries ((k, v) ∷ es) table = from_entries es (insert k v table)

abbrev or_type : Option Text → Text → Text
or_type none other = other
or_type (some t) other = if truthy t then t else other

-- defaultMimeTypeCache, from the route, the domain and the configuration, and matchContentType.
unfoldable pub match_content_type :
    (mime : List (Text × Text)) → (route domain config : Option Text) → (ext : Text) → Text
unfolding ext_types from_entries
match_content_type mime route domain config ext =
    or_type (lookup ext (from_entries (ext_types mime) []))
      (or_type route (or_type domain (or_type config (txt "application/octet-stream"))))

-- `dot > slash`, where a missing unit has the index -1.
abbrev after : (dot slash : Option ℕ) → Bool
after none slash = false
after (some d) none = true
after (some d) (some s) = ltb s d

abbrev ext_at : Option ℕ → Text → Text
ext_at none url = []
ext_at (some d) url = drop (d + 1) url

unfoldable pub get_ext : Text → Text
get_ext url =
    let dot = last_index_of b'.' url in
    if after dot (last_index_of b'/' url) then ext_at dot url else []

-- Gzip, with `none` for what is not set.
pub record Gzip : Type 0 where
  pub disabled : Bool
  pub min_length : Option ℕ
  pub types : List Text
  pub http_version : Option Text
  pub user_agents : Option Text

abbrev min_length_of : Option ℕ → ℕ
min_length_of none = 1024
min_length_of (some n) = n

module _ (at_least : (version wanted : Text) → Bool) (test : (pattern subject : Text) → Bool) where
  abbrev version_ok : Option Text → Text → Bool
  version_ok none version = true
  version_ok (some v) version = not (truthy v) || at_least version (txt "HTTP/" ++ v)

  abbrev agent_ok : Option Text → Text → Bool
  agent_ok none agent = true
  agent_ok (some p) agent = not (truthy p) || not (test p agent)

  -- gzipCache and compression: whether a file is compressed.
  unfoldable pub is_compressed :
      (accepts_gzip : Bool) → Option Gzip → (size : ℕ) → (type version agent : Text) → Bool
  is_compressed accepts_gzip none size type version agent = false
  is_compressed accepts_gzip (some gz) size type version agent =
      accepts_gzip
      && (not gz.disabled
          && (leb (min_length_of gz.min_length) size
              && (any (λ t. text_eq t type) gz.types
                  && (version_ok gz.http_version version && agent_ok gz.user_agents agent))))

-- `s.replace(p, by)`.
unfoldable pub replace : (p by : Text) → Text → Text
replace p by [] = if truthy p then [] else by
replace p by (c ∷ s) =
    let rest = replace p by s in
    if starts_with (c ∷ s) p then by ++ drop (length p) (c ∷ s) else c ∷ rest

-- tryFilesCache, on an entry of TryFiles.
unfoldable pub try_file : (uri file : Text) → Text
unfolding replace
try_file uri file =
    replace (txt "//") (txt "/") (join b'/' (map (replace (txt "$uri") uri) (split b'/' file)))

abbrev tried : Option (List Text) → Text → List Text
tried none uri = uri ∷ []
tried (some files) uri = map (try_file uri) files

-- A response: what a directory serves, or a status.
pub data Reply (M : Type 0) : Type 0 where
  served : M → Reply M
  status : Text → Reply M
  not_found : Reply M

module _ {M : Type 0} (is_positive : Text → Bool) (serve : Option (Text → Option M)) where
  abbrev serve_by : Option (Text → Option M) → Text → Option (Reply M)
  serve_by none uri = none
  serve_by (some dir) uri = elim (dir uri) [ none ↦ none | some m ↦ some (served m) ]

  unfoldable pub make_message : Text → Option (Reply M)
  make_message uri =
      if starts_with uri (txt "=")
      then (if is_positive (drop 1 uri) then some (status (drop 1 uri)) else none)
      else serve_by serve uri

  abbrev or_next : Option (Reply M) → Reply M → Reply M
  or_next none other = other
  or_next (some r) other = r

  unfoldable pub first_message : List Text → Reply M
  unfolding make_message
  first_message [] = not_found
  first_message (f ∷ fs) = or_next (make_message f) (first_message fs)

  unfoldable pub on_request : Option (List Text) → (path : Text) → Reply M
  unfolding first_message try_file
  on_request files path =
      if truthy path then first_message (tried files (before b'?' path)) else not_found

last_index_of-none : (c : ℕ) (s : Text) → index_of c s ≡ none → last_index_of c s ≡ none
unfolding last_index_of index_of
last_index_of-none c [] h = refl
last_index_of-none c (x ∷ s) h =
    let (n, k) = no_separator c x s h in rw (last_index_of-none c s k, n) refl

last_index_of-append :
    (c : ℕ) (s t : Text) → index_of c t ≡ none → last_index_of c (s ++ c ∷ t) ≡ some (length s)
unfolding last_index_of
last_index_of-append c [] t h = rw (last_index_of-none c t h, ==_refl c) refl
last_index_of-append c (x ∷ s) t h = rw (last_index_of-append c s t h) (ap some (omega arith))

after-shift :
    (d : ℕ) (o : Option ℕ) (b : Bool)
    → after (some d) o ≡ true
    → after (some (suc d)) (elim o [ some i ↦ some (i + 1) | none ↦ if b then some 0 else none ])
      ≡ true
after-shift d none true h = ground arith
after-shift d none false h = refl
after-shift d (some i) b h = ground arith

-- A unit that stands only in front of a dot comes before it.
after-append :
    (c : ℕ) (s t : Text)
    → (b'.' == c) ≡ false
    → index_of c t ≡ none
    → after (some (length s)) (last_index_of c (s ++ b'.' ∷ t)) ≡ true
unfolding last_index_of
after-append c [] t e h = rw (last_index_of-none c t h, e) refl
after-append c (x ∷ s) t e h =
    after-shift (length s) (last_index_of c (s ++ b'.' ∷ t)) (x == c) (after-append c s t e h)

drop_past : (s t : Text) (c : ℕ) → drop (length s + 1) (s ++ c ∷ t) ≡ t
drop_past [] t c = refl
drop_past (x ∷ s) t c =
    let e : suc (length s) + 1 ≡ suc (length s + 1) = omega arith in rw e (drop_past s t c)

-- The extension of a path is what follows its last dot, where no slash follows that dot.
pub get_ext-dot :
    (base ext : Text)
    → index_of b'.' ext ≡ none
    → index_of b'/' ext ≡ none
    → get_ext (base ++ b'.' ∷ ext) ≡ ext
unfolding get_ext
get_ext-dot base ext d s =
    rw (last_index_of-append b'.' base ext d, after-append b'/' base ext refl s)
      (drop_past base ext b'.')

no_dot_after :
    (dir file : Text)
    → index_of b'.' file ≡ none
    → after (last_index_of b'.' (dir ++ b'/' ∷ file)) (some (length dir)) ≡ false
unfolding last_index_of
no_dot_after [] file h = rw (last_index_of-none b'.' file h) refl
no_dot_after (x ∷ dir) file h =
    shifted (last_index_of b'.' (dir ++ b'/' ∷ file)) (x == b'.') (no_dot_after dir file h)
  where
    shifted :
        (o : Option ℕ) (b : Bool)
        → after o (some (length dir)) ≡ false
        → after
            (elim o [ some i ↦ some (i + 1) | none ↦ if b then some 0 else none ])
            (some (suc (length dir)))
          ≡ false
    shifted none true k = ground arith
    shifted none false k = refl
    shifted (some i) b k = ground arith

-- A path whose last segment has no dot has no extension, whatever the directories are called, and so
-- has a path without a slash and without a dot.
pub get_ext-dotless :
    (dir file : Text)
    → index_of b'.' file ≡ none
    → index_of b'/' file ≡ none
    → (get_ext (dir ++ b'/' ∷ file) ≡ []) × (get_ext file ≡ [])
unfolding get_ext
get_ext-dotless dir file d s = (
  rw (last_index_of-append b'/' dir file s, no_dot_after dir file d) refl,
  rw (last_index_of-none b'.' file d) refl,
)
