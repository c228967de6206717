-- ===== src/Base/Decimals.antt =====
-- Numbers as JavaScript prints them, `padStart`, and the order of strings.
use Prim.Native.Nat.{ℕ, zero, suc, ◌+◌, ◌-◌, ◌*◌, ◌/◌, ◌%◌, ◌^◌, ◌≤◌, ◌<◌}
use mathlib.Core.Path.{◌≡◌, refl, ap, sym, ◌∙◌}
use mathlib.Core.Logic.{inl, inr}
use mathlib.Core.Bool.{Bool, true, false, ◌&&◌, ◌||◌}
use mathlib.Core.List.{[], ◌∷◌, ◌++◌, append_assoc}
use native.Mathlib.Omega.{arith}
use native.Mathlib.Nat.{pow-suc}
use fgw.Base.Bools.{if◌then◌else◌, ltb, ◌==◌, Bool-cases}
use fgw.Base.Lists.{length, length-append}
use fgw.Base.Texts.{Text, text_eq}

abbrev digit : ℕ → ℕ
digit n = 48 + n % 10

-- The decimal digits of a number; `n` rounds are enough, since each divides by ten.
digits_of : ℕ → ℕ → Text
digits_of zero n = digit n ∷ []
digits_of (suc f) n =
    let rest = digits_of f (n / 10) in if ltb n 10 then digit n ∷ [] else rest ++ digit n ∷ []

-- `n.toString()`.
unfoldable pub to_text : ℕ → Text
unfolding digits_of
to_text n = digits_of n n

abbrev zeros : ℕ → Text
zeros zero = []
zeros (suc n) = 48 ∷ zeros n

-- `s.padStart(w, '0')`.
unfoldable pub pad_start : ℕ → Text → Text
pad_start w s = zeros (w - length s) ++ s

-- `a < b` on strings.
unfoldable pub text_lt : Text → Text → Bool
text_lt [] [] = false
text_lt [] (y ∷ ys) = true
text_lt (x ∷ xs) [] = false
text_lt (x ∷ xs) (y ∷ ys) = ltb x y || (x == y && text_lt xs ys)

-- The number that decimal digits stand for, behind those of `n`.
abbrev pub digits_from : ℕ → Text → ℕ
digits_from n [] = n
digits_from n (c ∷ s) = digits_from (10 * n + (c - 48)) s

-- The last `k` digits of a number.
fixed : ℕ → ℕ → Text
fixed zero n = []
fixed (suc k) n = fixed k (n / 10) ++ digit n ∷ []

length-fixed : (k n : ℕ) → length (fixed k n) ≡ k
unfolding fixed
length-fixed zero n = refl
length-fixed (suc k) n =
    omega (arith, length-append (fixed k (n / 10)) (digit n ∷ []), length-fixed k (n / 10))

zeros-append : (k : ℕ) → zeros k ++ 48 ∷ [] ≡ 48 ∷ zeros k
zeros-append zero = refl
zeros-append (suc k) = ap (λ s. 48 ∷ s) (zeros-append k)

fixed-zero : (k : ℕ) → fixed k 0 ≡ zeros k
unfolding fixed
fixed-zero zero = refl
fixed-zero (suc k) = rw (fixed-zero k) (zeros-append k)

fixed_small :
    (k n : ℕ) → n < 10 → zeros (suc k - 1) ++ digit n ∷ [] ≡ fixed k (n / 10) ++ digit n ∷ []
fixed_small k n h =
    let e : suc k - 1 ≡ k = omega arith in
    let q : n / 10 ≡ 0 = omega arith in rw (e, q, fixed-zero k) refl

-- Enough rounds, and a number that fits: the digits with zeros in front are the last `k` digits.
pad-digits_of :
    (k f n : ℕ)
    → n ≤ f
    → n < 10 ^ suc k
    → (length (digits_of f n) ≤ suc k)
      × (zeros (suc k - length (digits_of f n)) ++ digits_of f n ≡ fixed (suc k) n)
unfolding fixed digits_of
pad-digits_of k zero n h b = (omega arith, fixed_small k n (omega arith))
pad-digits_of zero (suc f) n h b =
    let small : ltb n 10 ≡ true = ground arith in
    rw small (omega arith, fixed_small zero n (omega arith))
pad-digits_of (suc k) (suc f) n h b = elim (Bool-cases (ltb n 10)) [
  | inl small ↦ rw small (omega arith, fixed_small (suc k) n (ground arith))
  | inr large ↦
      let b' : n / 10 < 10 ^ suc k = omega (arith, pow-suc 10 (suc k)) in
      let (fits, same) = pad-digits_of k f (n / 10) (ground arith) b' in
      let l = length-append (digits_of f (n / 10)) (digit n ∷ []) in
      let m : suc (suc k) - length (digits_of f (n / 10) ++ digit n ∷ [])
          ≡ suc k - length (digits_of f (n / 10)) =
        omega arith in
      rw large (
        omega arith,
        rw m (sym (append_assoc _ (digits_of f (n / 10)) _) ∙ ap (λ t. t ++ digit n ∷ []) same),
      )
]

-- `n.toString().padStart(k, '0')` for a number of at most `k` digits.
pad_start-to_text : (k n : ℕ) → n < 10 ^ suc k → pad_start (suc k) (to_text n) ≡ fixed (suc k) n
unfolding pad_start to_text
pad_start-to_text k n b = (pad-digits_of k n n (omega arith) b).1

-- Strings of which the first parts are equally long are compared part by part.
pub text_lt-append :
    (xs ys us vs : Text)
    → length xs ≡ length ys
    → text_lt (xs ++ us) (ys ++ vs) ≡ text_lt xs ys || (text_eq xs ys && text_lt us vs)
unfolding text_lt text_eq
text_lt-append [] [] us vs h = refl
text_lt-append [] (y ∷ ys) us vs h = absurd (omega arith)
text_lt-append (x ∷ xs) [] us vs h = absurd (omega arith)
text_lt-append (x ∷ xs) (y ∷ ys) us vs h = ground (arith, text_lt-append xs ys us vs (omega arith))

pub text_eq-append :
    (xs ys us vs : Text)
    → length xs ≡ length ys
    → text_eq (xs ++ us) (ys ++ vs) ≡ text_eq xs ys && text_eq us vs
unfolding text_eq
text_eq-append [] [] us vs h = refl
text_eq-append [] (y ∷ ys) us vs h = absurd (omega arith)
text_eq-append (x ∷ xs) [] us vs h = absurd (omega arith)
text_eq-append (x ∷ xs) (y ∷ ys) us vs h = ground (arith, text_eq-append xs ys us vs (omega arith))

same_length : (k a b : ℕ) → length (fixed k a) ≡ length (fixed k b)
same_length k a b = omega (arith, length-fixed k a, length-fixed k b)

text_eq-fixed : (k a b : ℕ) → a < 10 ^ k → b < 10 ^ k → text_eq (fixed k a) (fixed k b) ≡ (a == b)
unfolding fixed text_eq
text_eq-fixed zero a b ha hb = ground arith
text_eq-fixed (suc k) a b ha hb =
    let p : a / 10 < 10 ^ k = omega (arith, pow-suc 10 k) in
    let q : b / 10 < 10 ^ k = omega (arith, pow-suc 10 k) in
    rw
      (text_eq-append (fixed k (a / 10)) (fixed k (b / 10)) (digit a ∷ []) (digit b ∷ [])
        (same_length k (a / 10) (b / 10)))
      (rw (text_eq-fixed k (a / 10) (b / 10) p q) (ground arith))

-- On texts of one width the order of strings is that of the numbers.
text_lt-fixed : (k a b : ℕ) → a < 10 ^ k → b < 10 ^ k → text_lt (fixed k a) (fixed k b) ≡ ltb a b
unfolding fixed text_lt
text_lt-fixed zero a b ha hb = ground arith
text_lt-fixed (suc k) a b ha hb =
    let p : a / 10 < 10 ^ k = omega (arith, pow-suc 10 k) in
    let q : b / 10 < 10 ^ k = omega (arith, pow-suc 10 k) in
    rw
      (text_lt-append (fixed k (a / 10)) (fixed k (b / 10)) (digit a ∷ []) (digit b ∷ [])
        (same_length k (a / 10) (b / 10)))
      (rw (text_lt-fixed k (a / 10) (b / 10) p q, text_eq-fixed k (a / 10) (b / 10) p q)
        (ground arith))

module _ (k a b : ℕ) (ha : a < 10 ^ suc k) (hb : b < 10 ^ suc k) where
  pub text_lt-pad_start :
      text_lt (pad_start (suc k) (to_text a)) (pad_start (suc k) (to_text b)) ≡ ltb a b
  text_lt-pad_start =
      rw (pad_start-to_text k a ha, pad_start-to_text k b hb) (text_lt-fixed (suc k) a b ha hb)

  pub text_eq-pad_start :
      text_eq (pad_start (suc k) (to_text a)) (pad_start (suc k) (to_text b)) ≡ (a == b)
  text_eq-pad_start =
      rw (pad_start-to_text k a ha, pad_start-to_text k b hb) (text_eq-fixed (suc k) a b ha hb)

  pub length-pad_start :
      length (pad_start (suc k) (to_text a)) ≡ length (pad_start (suc k) (to_text b))
  length-pad_start =
      rw (pad_start-to_text k a ha, pad_start-to_text k b hb) (same_length (suc k) a b)
