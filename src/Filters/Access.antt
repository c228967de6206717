-- ===== src/Filters/Access.antt =====
-- src/filters/tcp/IPRestriction.js. `contains m ip` is
-- `new IPMask(m).contains(ip)`.
use fgw.Base.{
  ◌≡◌, refl, Bool, true, false, not, ◌&&◌, List, [], ◌∷◌, ◌++◌, map, Option, none, some, arith,
  Text, txt, index_of, any, if◌then◌else◌, ◌⊎◌, inl, inr, Memᴰ, any-mem, any_of_mem, Bool-cases,
  or_empty, All, All-of_mem,
}

-- A plain address stands for itself: `if (s.indexOf('/') < 0) s += '/32'`.
unfoldable pub as_mask : Text → Text
as_mask s = elim (index_of b'/' s) [ none ↦ s ++ txt "/32" | some i ↦ s ]

module _ (contains : Text → Text → Bool) where
  abbrev pub in_any : List Text → Text → Bool
  in_any masks ip = any (λ m. contains m ip) masks

  abbrev pub is_listed : List Text → Bool
  is_listed [] = false
  is_listed (m ∷ ms) = true

  -- Whether the connection is rejected ($rejected, and the end of the stream).
  unfoldable pub is_rejected : Option (List Text) → Option (List Text) → Text → Bool
  unfolding as_mask
  is_rejected allowed forbidden ip =
      let allow = map as_mask (or_empty allowed) in
      let forbid = map as_mask (or_empty forbidden) in
      if is_listed allow && not (in_any allow ip)
      then true
      else (if is_listed forbid && in_any forbid ip then true else false)

  in_any-map :
      (masks : List Text) (ip : Text)
      → in_any (map as_mask masks) ip ≡ any (λ m. contains (as_mask m) ip) masks
  in_any-map [] ip = refl
  in_any-map (m ∷ ms) ip = rw (in_any-map ms ip) refl

  abbrev Contains : Text → Text → Type 0
  Contains ip m = contains (as_mask m) ip ≡ true

  some-Contains :
      (masks : List Text) (ip : Text)
      → in_any (map as_mask masks) ip ≡ true
      → (m : Text) × Memᴰ m masks × Contains ip m
  some-Contains masks ip h =
      any-mem (λ m. contains (as_mask m) ip) masks (rw (in_any-map masks ip) at h)

  none_contains :
      (masks : List Text) (ip : Text) {m : Text}
      → in_any (map as_mask masks) ip ≡ false
      → Memᴰ m masks
      → contains (as_mask m) ip ≡ false
  none_contains masks ip {m} h k = elim (Bool-cases (contains (as_mask m) ip)) [
    | inl e ↦
        let yes = any_of_mem (λ n. contains (as_mask n) ip) masks k e in
        let no = rw (in_any-map masks ip) at h in cc
    | inr e ↦ e
  ]

  is_rejected_lem :
      (a f : List Text) (ip : Text)
      → is_rejected (some a) (some f) ip ≡ false
      → ((a ≡ []) ⊎ (in_any (map as_mask a) ip ≡ true)) × (in_any (map as_mask f) ip ≡ false)
  unfolding is_rejected
  is_rejected_lem [] [] ip h = (inl refl, refl)
  is_rejected_lem [] (m ∷ ms) ip h = (inl refl, ground arith)
  is_rejected_lem (n ∷ ns) [] ip h = (inr (ground arith), refl)
  is_rejected_lem (n ∷ ns) (m ∷ ms) ip h = (inr (ground arith), ground arith)

  -- A connection that is let in comes from an address in some allowed mask, if any mask is allowed,
  -- and in no forbidden mask, where an address without a prefix length stands for itself.
  pub is_rejected-false :
      (a f : List Text) (ip : Text)
      → is_rejected (some a) (some f) ip ≡ false
      → ((a ≡ []) ⊎ ((m : Text) × Memᴰ m a × (contains (as_mask m) ip ≡ true)))
        × All (λ m. contains (as_mask m) ip ≡ false) f
  is_rejected-false a f ip h =
      let (p, q) = is_rejected_lem a f ip h in
      (
        elim p [ inl e ↦ inl e | inr e ↦ inr (some-Contains a ip e) ],
        All-of_mem (λ m. contains (as_mask m) ip ≡ false) f (λ m k. none_contains f ip q k),
      )
