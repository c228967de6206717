-- ===== src/Base/Texts.antt =====
-- JavaScript strings as lists of code units, with the methods that the program calls. Lower case and
-- white space are those of ASCII.
use Prim.Native.Nat.{ℕ, zero, suc, ◌+◌, ◌-◌}
use Prim.Native.Char.{code}
use Prim.Native.String.{String}
use mathlib.Core.Path.{◌≡◌, refl, ap, sym, subst}
use mathlib.Core.Logic.{◌↔◌}
use mathlib.Core.Bool.{Bool, true, false, ◌&&◌, ◌||◌}
use mathlib.Core.Option.{Option, none, some}
use mathlib.Core.List.{List, [], ◌∷◌, ◌++◌, reverse}
use native.Mathlib.Omega.{arith}
use fgw.Base.Bools.{if◌then◌else◌, leb, ◌==◌, &&_iff}
use fgw.Base.Lists.{length, drop, take, length-append}

abbrev pub Text : Type 0
Text = List ℕ

-- The code units of a literal.
abbrev pub txt : String → Text
txt String.[] = []
txt (String.◌∷◌ c s) = code c ∷ txt s

-- `a === b`.
unfoldable pub text_eq : Text → Text → Bool
text_eq [] [] = true
text_eq [] (y ∷ ys) = false
text_eq (x ∷ xs) [] = false
text_eq (x ∷ xs) (y ∷ ys) = x == y && text_eq xs ys

-- `Boolean(s)`: the empty string is falsy.
abbrev pub truthy : Text → Bool
truthy [] = false
truthy (c ∷ s) = true

-- `s.startsWith(p)`.
unfoldable pub starts_with : Text → Text → Bool
starts_with s [] = true
starts_with [] (y ∷ p) = false
starts_with (x ∷ s) (y ∷ p) = x == y && starts_with s p

-- `s.endsWith(p)`.
unfoldable pub ends_with : Text → Text → Bool
ends_with s p = leb (length p) (length s) && text_eq (drop (length s - length p) s) p

abbrev lower_unit : ℕ → ℕ
lower_unit c = if leb b'A' c && leb c b'Z' then c + 32 else c

-- `s.toLowerCase()`.
unfoldable pub to_lower : Text → Text
to_lower [] = []
to_lower (c ∷ s) = lower_unit c ∷ to_lower s

abbrev is_space : ℕ → Bool
is_space c = c == 32 || (leb 9 c && leb c 13)

unfoldable pub trim_start : Text → Text
trim_start [] = []
trim_start (c ∷ s) = let rest = trim_start s in if is_space c then rest else c ∷ s

-- `s.trim()`.
unfoldable pub trim : Text → Text
unfolding trim_start
trim s = reverse (trim_start (reverse (trim_start s)))

-- `s.indexOf(c)`, with `none` for -1.
unfoldable pub index_of : ℕ → Text → Option ℕ
index_of c [] = none
index_of c (x ∷ s) =
    let rest = index_of c s in
    if x == c then some 0 else elim rest [ none ↦ none | some i ↦ some (i + 1) ]

-- `s.lastIndexOf(c)`, with `none` for -1.
unfoldable pub last_index_of : ℕ → Text → Option ℕ
last_index_of c [] = none
last_index_of c (x ∷ s) = elim (last_index_of c s) [
  | some i ↦ some (i + 1)
  | none ↦ if x == c then some 0 else none
]

abbrev cons_head : ℕ → List Text → List Text
cons_head c [] = (c ∷ []) ∷ []
cons_head c (p ∷ ps) = (c ∷ p) ∷ ps

-- `s.split(c)` for a separator of one unit.
unfoldable pub split : ℕ → Text → List Text
split c [] = [] ∷ []
split c (x ∷ s) = let rest = split c s in if x == c then [] ∷ rest else cons_head x rest

-- `parts.join(c)`.
unfoldable pub join : ℕ → List Text → Text
join c [] = []
join c (p ∷ []) = p
join c (p ∷ q ∷ ps) = p ++ (c ∷ join c (q ∷ ps))

pub text_eq_iff : (a b : Text) → (text_eq a b ≡ true) ↔ (a ≡ b)
unfolding text_eq
text_eq_iff [] [] = ground arith
text_eq_iff [] (y ∷ ys) = ground arith
text_eq_iff (x ∷ xs) [] = ground arith
text_eq_iff (x ∷ xs) (y ∷ ys) = ground (arith, text_eq_iff xs ys)

pub text_eq_refl : (a : Text) → text_eq a a ≡ true
text_eq_refl a = (text_eq_iff a a).1 refl

pub starts_with-append : (p s : Text) → starts_with (p ++ s) p ≡ true
unfolding starts_with
starts_with-append [] s = refl
starts_with-append (c ∷ p) s = ground (arith, starts_with-append p s)

pub drop-append : (p s : Text) → drop (length p) (p ++ s) ≡ s
drop-append [] s = refl
drop-append (c ∷ p) s = drop-append p s

-- A text ends with `p` exactly when it is some text followed by `p`.
pub ends_with-append : (s p : Text) → ends_with (s ++ p) p ≡ true
unfolding ends_with
ends_with-append s p =
    let e : length (s ++ p) - length p ≡ length s = omega (arith, length-append s p) in
    let h : leb (length p) (length (s ++ p)) ≡ true = ground (arith, length-append s p) in
    (&&_iff _ _).1 (h, rw (e, drop-append s p) (text_eq_refl p))

take-drop : (n : ℕ) (s : Text) → take n s ++ drop n s ≡ s
take-drop zero s = refl
take-drop (suc n) [] = refl
take-drop (suc n) (c ∷ s) = ap (λ r. c ∷ r) (take-drop n s)

pub ends_with_split : (s p : Text) → ends_with s p ≡ true → (r : Text) × (s ≡ r ++ p)
unfolding ends_with
ends_with_split s p h =
    let n : ℕ = length s - length p in
    let e = (text_eq_iff (drop n s) p).0 ((&&_iff _ _).0 h).1 in
    (take n s, subst (λ q. s ≡ take n s ++ q) e (sym (take-drop n s)))

-- The only text of no length that ends every text.
pub ends_with_nil : (s : Text) → ends_with s [] ≡ true
ends_with_nil s = rw (ap (λ t. ends_with t []) (sym (append-nil' s))) (ends_with-append s [])
  where
    append-nil' : (t : Text) → t ++ [] ≡ t
    append-nil' [] = refl
    append-nil' (c ∷ t) = ap (λ r. c ∷ r) (append-nil' t)

pub to_lower_idem : (s : Text) → to_lower (to_lower s) ≡ to_lower s
unfolding to_lower
to_lower_idem [] = refl
to_lower_idem (c ∷ s) = ground (arith, to_lower_idem s)

-- A text without a unit, taken apart.
pub no_separator :
    (c x : ℕ) (s : Text) → index_of c (x ∷ s) ≡ none → ((x == c) ≡ false) × (index_of c s ≡ none)
unfolding index_of
no_separator c x s h = (ground arith, ground arith)

-- A text before a separator that it does not hold.
pub split_first : (c : ℕ) (s t : Text) → index_of c s ≡ none → split c (s ++ c ∷ t) ≡ s ∷ split c t
unfolding split
split_first c [] t h = ground arith
split_first c (x ∷ s) t h = let (n, k) = no_separator c x s h in rw (n, split_first c s t k) refl

pub split-none : (c : ℕ) (s : Text) → index_of c s ≡ none → split c s ≡ s ∷ []
unfolding split
split-none c [] h = refl
split-none c (x ∷ s) h = let (n, k) = no_separator c x s h in rw (n, split-none c s k) refl
