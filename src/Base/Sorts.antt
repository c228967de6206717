-- ===== src/Base/Sorts.antt =====
-- `Array.prototype.sort`, which is stable: insertion from the right, by a test of strict order.
use mathlib.Core.Path.{◌≡◌}
use mathlib.Core.Logic.{inl, inr}
use mathlib.Core.Bool.{Bool, true, false}
use mathlib.Core.Option.{some}
use native.Mathlib.Omega.{arith}
use mathlib.Core.List.{List, [], ◌∷◌, Memᴰ, Perm}
use mathlib.Core.List.Perm
use fgw.Base.Bools.{if◌then◌else◌, Bool-cases, find}
use fgw.Base.Lists.{All, All-mem, All-map}

-- `before b a` says that the comparator puts `b` in front of `a`.
module _ {ℓ} {A : Type ℓ} (before : A → A → Bool) where
  pub place : A → List A → List A
  place a [] = a ∷ []
  place a (b ∷ bs) = if before b a then b ∷ place a bs else a ∷ b ∷ bs

  unfoldable pub sort : List A → List A
  unfolding place
  sort [] = []
  sort (a ∷ as') = place a (sort as')

  place-perm : (a : A) (bs : List A) → Perm (place a bs) (a ∷ bs)
  unfolding place
  place-perm a [] = Perm.refl (a ∷ [])
  place-perm a (b ∷ bs) = elim (Bool-cases (before b a)) [
    | inl h ↦ rw h (Perm.trans (Perm.cons b (place-perm a bs)) (Perm.swap a b bs))
    | inr h ↦ rw h (Perm.refl (a ∷ b ∷ bs))
  ]

  place_mem_later :
      (a b : A) (bs : List A) {x : A}
      → (Memᴰ x (place a bs) → Memᴰ x (a ∷ bs))
      → Memᴰ x (b ∷ place a bs)
      → Memᴰ x (a ∷ b ∷ bs)
  place_mem_later a b bs ih (Memᴰ.head e) = Memᴰ.tail (Memᴰ.head e)
  place_mem_later a b bs ih (Memᴰ.tail m) = swap_tail (ih m)
    where
      swap_tail : {x : A} → Memᴰ x (a ∷ bs) → Memᴰ x (a ∷ b ∷ bs)
      swap_tail (Memᴰ.head e) = Memᴰ.head e
      swap_tail (Memᴰ.tail t) = Memᴰ.tail (Memᴰ.tail t)

  place_mem : (a : A) (bs : List A) {x : A} → Memᴰ x (place a bs) → Memᴰ x (a ∷ bs)
  unfolding place
  place_mem a [] m = m
  place_mem a (b ∷ bs) {x} m = elim (Bool-cases (before b a)) [
    | inl h ↦ place_mem_later a b bs (place_mem a bs) (rw h at m)
    | inr h ↦ rw h at m
  ]

  pub sort-perm : (as' : List A) → Perm (sort as') as'
  unfolding sort
  sort-perm [] = Perm.refl []
  sort-perm (a ∷ as') = Perm.trans (place-perm a (sort as')) (Perm.cons a (sort-perm as'))

  -- No element stands behind one that the comparator puts after it.
  abbrev pub IsSorted : List A → Type 0
  IsSorted [] = Unit
  IsSorted (a ∷ bs) = All (λ b. before b a ≡ false) bs × IsSorted bs

  All-place : (P : A → Type 0) (a : A) (bs : List A) → P a → All P bs → All P (place a bs)
  unfolding place
  All-place P a [] p h = (p, tt)
  All-place P a (b ∷ bs) p h = elim (Bool-cases (before b a)) [
    | inl e ↦ rw e (h.0, All-place P a bs p h.1)
    | inr e ↦ rw e (p, h)
  ]

  All-sort : (P : A → Type 0) (as' : List A) → All P as' → All P (sort as')
  unfolding sort
  All-sort P [] h = tt
  All-sort P (a ∷ as') h = All-place P a (sort as') h.0 (All-sort P as' h.1)

  pub mem-sort : (as' : List A) {x : A} → Memᴰ x (sort as') → Memᴰ x as'
  unfolding sort
  mem-sort [] m = elim m [ ]
  mem-sort (a ∷ as') {x} m = of_place (sort as') m (mem-sort as')
    where
      of_place : (bs : List A) → Memᴰ x (place a bs) → (Memᴰ x bs → Memᴰ x as') → Memᴰ x (a ∷ as')
      of_place bs k f = of_cons (place_mem a bs k)
        where
          of_cons : Memᴰ x (a ∷ bs) → Memᴰ x (a ∷ as')
          of_cons (Memᴰ.head e) = Memᴰ.head e
          of_cons (Memᴰ.tail t) = Memᴰ.tail (f t)

  mem_of_place : (a : A) (bs : List A) {x : A} → Memᴰ x (a ∷ bs) → Memᴰ x (place a bs)
  unfolding place
  mem_of_place a [] m = m
  mem_of_place a (b ∷ bs) {x} m = elim (Bool-cases (before b a)) [
    | inl h ↦ rw h (moved m (λ k. mem_of_place a bs k))
    | inr h ↦ rw h m
  ]
    where
      moved :
          Memᴰ x (a ∷ b ∷ bs) → (Memᴰ x (a ∷ bs) → Memᴰ x (place a bs)) → Memᴰ x (b ∷ place a bs)
      moved (Memᴰ.head e) f = Memᴰ.tail (f (Memᴰ.head e))
      moved (Memᴰ.tail (Memᴰ.head e)) f = Memᴰ.head e
      moved (Memᴰ.tail (Memᴰ.tail k)) f = Memᴰ.tail (f (Memᴰ.tail k))

  pub mem_of_sort : (as' : List A) {x : A} → Memᴰ x as' → Memᴰ x (sort as')
  unfolding sort
  mem_of_sort [] m = m
  mem_of_sort (a ∷ as') (Memᴰ.head e) = mem_of_place a (sort as') (Memᴰ.head e)
  mem_of_sort (a ∷ as') (Memᴰ.tail m) = mem_of_place a (sort as') (Memᴰ.tail (mem_of_sort as' m))

  -- What a comparator must satisfy, as a strict weak order.
  pub record IsWeakOrder : Type ℓ where
    pub asym : (a b : A) → before a b ≡ true → before b a ≡ false
    pub join : (a b c : A) → before a b ≡ false → before b c ≡ false → before a c ≡ false

  module _ (w : IsWeakOrder) where
    IsSorted-place : (a : A) (bs : List A) → IsSorted bs → IsSorted (place a bs)
    unfolding place
    IsSorted-place a [] h = (tt, tt)
    IsSorted-place a (b ∷ bs) h = elim (Bool-cases (before b a)) [
      | inl e ↦
          rw e
            (All-place (λ c. before c b ≡ false) a bs (w.asym b a e) h.0, IsSorted-place a bs h.1)
      | inr e ↦ rw e (
        (
          e,
          All-map (λ c. before c b ≡ false) (λ c. before c a ≡ false) bs (λ c k. w.join c b a k e)
              h.0,
        ),
        h,
      )
    ]

    pub sort-IsSorted : (as' : List A) → IsSorted (sort as')
    unfolding sort
    sort-IsSorted [] = tt
    sort-IsSorted (a ∷ as') = IsSorted-place a (sort as') (sort-IsSorted as')

    irrefl : (a : A) → before a a ≡ false
    irrefl a = elim (Bool-cases (before a a)) [ inl e ↦ w.asym a a e | inr e ↦ e ]

    -- The first element of a sorted list that passes a test comes before no other that passes.
    pub find-IsSorted :
        (p : A → Bool) (bs : List A) (x : A) {y : A}
        → IsSorted bs
        → find p bs ≡ some x
        → Memᴰ y bs
        → p y ≡ true
        → before y x ≡ false
    find-IsSorted p [] x h e m k = cc
    find-IsSorted p (b ∷ bs) x {y} h e (Memᴰ.head r) k =
        let k' : p b ≡ true = rw r at k in let q : b ≡ x = ground arith in rw (r, ← q) (irrefl b)
    find-IsSorted p (b ∷ bs) x {y} h e (Memᴰ.tail r) k = elim (Bool-cases (p b)) [
      | inl hit ↦
          let q : b ≡ x = ground arith in rw (← q) (All-mem (λ c. before c b ≡ false) bs h.0 r)
      | inr miss ↦ find-IsSorted p bs x h.1 (ground arith) r k
    ]
