-- ===== src/Pjs/Route/Paths.antt =====
-- pjs/http/route.js: the prefixes and the dictionaries that a request is matched with.
use fgw.Base.{
  ◌≡◌, refl, ap, Bool, true, false, ◌||◌, [], ◌∷◌, ◌++◌, arith, Text, txt, text_eq, text_equality,
  starts_with, ends_with, drop, length, Bool-cases, inl, inr, ◌↔◌, ◌⊎◌, &&_iff, starts_with-append,
  drop-append,
}
use fgw.Pjs.Route.{path_prefix, ends_part}

starts_with_split : (s p : Text) → starts_with s p ≡ true → s ≡ p ++ drop (length p) s
unfolding starts_with
starts_with_split s [] h = refl
starts_with_split [] (y ∷ p) h = cc
starts_with_split (x ∷ s) (y ∷ p) h = ground (arith, starts_with_split s p)

-- A path has a prefix exactly when it is the prefix followed by a rest, and the prefix ends with a
-- slash, or the rest is empty or begins with one: a prefix is never met in the middle of a segment.
pub path_prefix_iff :
    (path prefix : Text)
    → (path_prefix path prefix ≡ true) ↔ (
        (rest : Text) × (path ≡ prefix ++ rest)
        × ((ends_with prefix (txt "/") ≡ true)
            ⊎ ((rest ≡ []) ⊎ ((more : Text) × (rest ≡ b'/' ∷ more)))))
unfolding path_prefix text_eq
path_prefix_iff path prefix = (forth, back)
  where
    ends : (s : Text) → ends_part s ≡ true → (s ≡ []) ⊎ ((more : Text) × (s ≡ b'/' ∷ more))
    ends [] h = inl refl
    ends (c ∷ s) h = let e : c ≡ b'/' = ground arith in inr (s, ap (λ x. x ∷ s) e)

    forth :
        path_prefix path prefix ≡ true
        → (rest : Text) × (path ≡ prefix ++ rest)
          × ((ends_with prefix (txt "/") ≡ true)
              ⊎ ((rest ≡ []) ⊎ ((more : Text) × (rest ≡ b'/' ∷ more))))
    forth h =
        let (starts, after) = (&&_iff _ _).0 h in
        (
          drop (length prefix) path,
          starts_with_split path prefix starts,
          elim (Bool-cases (ends_with prefix (txt "/"))) [
            | inl e ↦ inl e
            | inr e ↦ inr (ends (drop (length prefix) path) (rw e at after))
          ],
        )

    or_true : (b : Bool) → (b || true) ≡ true
    or_true true = refl
    or_true false = refl

    back :
        ((rest : Text) × (path ≡ prefix ++ rest)
          × ((ends_with prefix (txt "/") ≡ true)
              ⊎ ((rest ≡ []) ⊎ ((more : Text) × (rest ≡ b'/' ∷ more)))))
        → path_prefix path prefix ≡ true
    back (rest, e, inl slash) = rw (e, starts_with-append prefix rest, slash) refl
    back (rest, e, inr (inl empty)) =
        rw (e, starts_with-append prefix rest, drop-append prefix rest, empty) (or_true _)
    back (rest, e, inr (inr (more, next))) =
        rw (e, starts_with-append prefix rest, drop-append prefix rest, next) (or_true _)
