-- ===== src/Pjs/Rewrites/Locations.antt =====
-- pjs/filter/url-rewrite.js and pjs/filter/request-redirect.js: the paths that they make.
use fgw.Base.{
  ℕ, ◌≡◌, ◌≢◌, refl, sym, ap, true, false, List, [], ◌∷◌, ◌++◌, none, some, arith, Text, txt,
  index_of, split_first, split-none, length, drop, ltb, length-append, drop-append, ◌==◌,
}
use mathlib.Core.List.{append-nil}
use fgw.Pjs.Variables.{Objects, resolv_path}
use fgw.Pjs.Route.{before, first_text}
use fgw.Pjs.Rewrites.{
  Head, prefix_match, no_change, Rewrite, Redirect, reply, thrown, replace_prefix, replace_full,
  make_path_handle, rewrite_head, redirect, answer_redirect, scheme_of, host_of, with_port,
}

replace_prefix_lem :
    (objects : Objects) (prefix value rest : Text)
    → replace_prefix objects prefix value (prefix ++ rest) ≡ resolv_path objects value ++ rest
unfolding replace_prefix
replace_prefix_lem objects prefix value [] =
    let e : ltb (length prefix) (length (prefix ++ [])) ≡ false =
      let k = length-append prefix [] in ground arith in
    rw e (sym (append-nil (resolv_path objects value)))
replace_prefix_lem objects prefix value (c ∷ rest) =
    let e : ltb (length prefix) (length (prefix ++ c ∷ rest)) ≡ true =
      let k = length-append prefix (c ∷ rest) in ground arith in
    rw (e, drop-append prefix (c ∷ rest)) refl

before_first : (c : ℕ) (s t : Text) → index_of c s ≡ none → before c (s ++ c ∷ t) ≡ s
before_first c s t h = ap first_text (split_first c s t h)

before-none : (c : ℕ) (s : Text) → index_of c s ≡ none → before c s ≡ s
before-none c s h = ap first_text (split-none c s h)

drop-all : (s : Text) → drop (length s) s ≡ []
drop-all [] = refl
drop-all (c ∷ s) = drop-all s

-- Where the path is replaced in full, the query string of the request is kept.
pub replace_full_lem :
    (objects : Objects) (value path query : Text)
    → index_of b'?' path ≡ none
    → (replace_full objects value (path ++ b'?' ∷ query)
        ≡ resolv_path objects value ++ b'?' ∷ query)
      × (replace_full objects value path ≡ resolv_path objects value)
unfolding replace_full
replace_full_lem objects value path query h = (
  rw (before_first b'?' path query h, drop-append path (b'?' ∷ query)) refl,
  rw (before-none b'?' path h, drop-all path) (append-nil (resolv_path objects value)),
)

-- A rewrite and a redirect of a prefix put its replacement in front of what follows the prefix in the
-- path of the request, and the Location is made of it, of the scheme, and of the host and port.
pub redirect-prefix :
    (objects : Objects) (prefix value rest host : Text) (cfg : Redirect) (cfgs : List Redirect)
    (rw_cfg : Rewrite) (head : Head)
    → cfg.path ≡ prefix_match (some value)
    → rw_cfg.path ≡ prefix_match (some value)
    → cfg.status ≢ 0
    → head.path ≡ prefix ++ rest
    → ((rewrite_head objects prefix rw_cfg head).path ≡ resolv_path objects value ++ rest)
      × (answer_redirect objects prefix [] (cfg ∷ cfgs) host head
          ≡ reply cfg.status (
              scheme_of cfg head
              ++ (txt "://"
                  ++ (with_port cfg.port (host_of cfg host)
                      ++ (resolv_path objects value ++ rest)))))
unfolding rewrite_head answer_redirect redirect make_path_handle
redirect-prefix objects prefix value rest host cfg cfgs rw_cfg head p q s e =
    let moved = replace_prefix_lem objects prefix value rest in
    let set : (0 == cfg.status) ≡ false = ground arith in
    (rw (q, e, moved) refl, rw (p, set, e, moved) refl)

-- A redirect with a status that changes no path throws, whatever scheme, host name or port it sets.
pub answer_redirect-no_change :
    (objects : Objects) (prefix host : Text) (cfg : Redirect) (cfgs route : List Redirect)
    (head : Head)
    → cfg.path ≡ no_change
    → cfg.status ≢ 0
    → answer_redirect objects prefix (cfg ∷ cfgs) route host head ≡ thrown
unfolding answer_redirect redirect make_path_handle
answer_redirect-no_change objects prefix host cfg cfgs route head p s =
    let set : (0 == cfg.status) ≡ false = ground arith in rw (p, set) refl
