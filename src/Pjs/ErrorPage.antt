-- ===== src/Pjs/ErrorPage.antt =====
-- pjs/http/error-page.js. The variables of the cache are shared by the entries of ErrorPage, as in the
-- source; `root` is what the web server serves before.
use fgw.Base.{
  ℕ, ◌≡◌, refl, Bool, true, false, not, ◌&&◌, ◌||◌, List, [], ◌∷◌, Option, none, some, arith, Text,
  txt, truthy, starts_with, to_lower, keep, find, any, leb, ◌==◌, if◌then◌else◌, All, All-mem,
  find-mem, if_cases,
}

-- An entry of ErrorPage, with the empty text for a page that is not set.
pub record Entry : Type 0 where
  pub errors : List ℕ
  pub page : Text
  pub status : Option ℕ
  pub directory : Option Text

-- `message` is a redirect: its status and its location.
pub record Page : Type 0 where
  pub status : Option ℕ
  pub errors : List ℕ
  pub message : Option (ℕ × Text)
  pub directory : Option Text
  pub path : Text

-- `message` and `directory` between the entries.
pub record Shared : Type 0 where
  pub message : Option (ℕ × Text)
  pub directory : Option Text

abbrev in_range : ℕ → Bool
in_range e = leb 100 e && leb e 599

abbrev valid_status : Option ℕ → Option ℕ
valid_status none = none
valid_status (some s) = if in_range s then some s else none

-- `status ||= 302`.
abbrev or_found : Option ℕ → ℕ
or_found none = 302
or_found (some s) = s

-- A text that is set, or else the other.
abbrev or_root : Option Text → Option Text → Option Text
or_root none root = root
or_root (some d) root = if truthy d then some d else root

abbrev pub is_url : Text → Bool
is_url page =
    starts_with (to_lower page) (txt "http://") || starts_with (to_lower page) (txt "https://")

abbrev valid_errors : Entry → List ℕ
valid_errors e = keep in_range e.errors

abbrev is_empty : List ℕ → Bool
is_empty [] = true
is_empty (x ∷ xs) = false

abbrev pub is_used : Entry → Bool
is_used e = not (is_empty (valid_errors e)) && truthy e.page

abbrev pub is_some {ℓ} : {A : Type ℓ} → Option A → Bool
is_some none = false
is_some (some x) = true

abbrev add_page : Option Page → List Page → List Page
add_page none ps = ps
add_page (some p) ps = p ∷ ps

module _ (root : Option Text) where
  -- What an entry leaves in the variables.
  unfoldable pub share : Entry → Shared → Shared
  share e v =
      if is_used e
      then (if is_url e.page
          then record v { message = some (or_found (valid_status e.status), e.page) }
          else record v { directory = or_root e.directory root })
      else v

  -- The page of an entry, from the variables that it leaves.
  unfoldable pub page_of : Entry → Shared → Option Page
  page_of e v =
      if is_used e && (is_some v.message || is_some v.directory)
      then some (record {
        status =
            if is_url e.page
            then some (or_found (valid_status e.status))
            else valid_status e.status;
        errors = valid_errors e;
        message = v.message;
        directory = v.directory;
        path = e.page;
      })
      else none

  unfoldable pub make_pages : List Entry → Shared → List Page
  unfolding share page_of
  make_pages [] v = []
  make_pages (e ∷ es) v = let v' = share e v in add_page (page_of e v') (make_pages es v')

-- What becomes of a response: it is kept, or replaced by a redirect, or by a file with a status.
pub data Answer : Type 0 where
  original : Answer
  redirect : (status : ℕ) → (location : Text) → Answer
  file : (directory path : Text) → (status : ℕ) → Answer

abbrev no_shared : Shared
no_shared = record { message = none; directory = none }

abbrev or_status : Option ℕ → ℕ → ℕ
or_status none status = status
or_status (some s) status = s

abbrev answer_file : Option Text → Page → ℕ → Answer
answer_file none p status = original
answer_file (some d) p status = file d p.path (or_status p.status status)

abbrev answer_page : Option (ℕ × Text) → Page → ℕ → Answer
answer_page none p status = answer_file p.directory p status
answer_page (some (s, location)) p status = redirect s location

abbrev answer_found : Option Page → ℕ → Answer
answer_found none status = original
answer_found (some p) status = answer_page p.message p status

unfoldable pub on_response : (root : Option Text) → List Entry → ℕ → Answer
unfolding make_pages
on_response root entries status =
    answer_found (find (λ p. any (λ e. e == status) p.errors) (make_pages root entries no_shared))
      status

-- An answer that comes from a directory.
abbrev pub IsFile : Answer → Type 0
IsFile original = ⊥
IsFile (redirect s l) = ⊥
IsFile (file d p s) = Unit

share-message :
    (root : Option Text) (e : Entry) (v : Shared)
    → is_some v.message ≡ true
    → is_some (share root e v).message ≡ true
unfolding share
share-message root e v h =
    if_cases (λ (x : Shared). is_some x.message ≡ true) (is_used e)
      (λ u.
        if_cases (λ (x : Shared). is_some x.message ≡ true) (is_url e.page) (λ k. refl) (λ k. h))
      (λ u. h)

add_page-message :
    (root : Option Text) (e : Entry) (v : Shared) (ps : List Page)
    → is_some v.message ≡ true
    → All (λ p. is_some p.message ≡ true) ps
    → All (λ p. is_some p.message ≡ true) (add_page (page_of root e v) ps)
unfolding page_of
add_page-message root e v ps h hs =
    if_cases (λ (o : Option Page). All (λ p. is_some p.message ≡ true) (add_page o ps))
      (is_used e && (is_some v.message || is_some v.directory)) (λ k. (h, hs)) (λ k. hs)

make_pages-message :
    (root : Option Text) (es : List Entry) (v : Shared)
    → is_some v.message ≡ true
    → All (λ p. is_some p.message ≡ true) (make_pages root es v)
unfolding make_pages
make_pages-message root [] v h = tt
make_pages-message root (e ∷ es) v h =
    let h' = share-message root e v h in
    add_page-message root e (share root e v) _ h' (make_pages-message root es (share root e v) h')

-- Once the first entry redirects, no error is answered with a file, although later entries name a page
-- of a directory: they redirect as well.
pub on_response-after_redirect :
    (root : Option Text) (e : Entry) (es : List Entry) (status : ℕ)
    → is_used e ≡ true
    → is_url e.page ≡ true
    → ¬ IsFile (on_response root (e ∷ es) status)
unfolding on_response make_pages share
on_response-after_redirect root e es status u k =
    of_found (find (λ p. any (λ x. x == status) p.errors) pages) refl
  where
    pages : List Page
    pages = make_pages root (e ∷ es) no_shared

    first : is_some (share root e no_shared).message ≡ true
    first = simp (u, k) refl

    redirecting : All (λ p. is_some p.message ≡ true) pages
    redirecting =
        add_page-message root e (share root e no_shared) _ first
          (make_pages-message root es (share root e no_shared) first)

    of_page :
        (m : Option (ℕ × Text)) (p : Page) → is_some m ≡ true → ¬ IsFile (answer_page m p status)
    of_page none p h f = absurd (ground arith)
    of_page (some (s, l)) p h f = f

    of_found :
        (o : Option Page)
        → find (λ p. any (λ x. x == status) p.errors) pages ≡ o
        → ¬ IsFile (answer_found o status)
    of_found none q f = f
    of_found (some p) q f =
        let (m, hit) = find-mem (λ p'. any (λ x. x == status) p'.errors) pages q in
        of_page p.message p (All-mem (λ p'. is_some p'.message ≡ true) pages redirecting m) f
