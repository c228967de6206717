-- ===== src/Hosts/Longest.antt =====
-- A host is found by its full name, and otherwise by the longest of the postfixes that end it.
use fgw.Base.{
  ◌≡◌, refl, ◌≤◌, Bool, true, false, List, Option, none, some, arith, Text, length, ends_with,
  lookup, text_equality, find, find-mem, find-none, All, sort, mem-sort, mem_of_sort, sort-IsSorted,
  IsWeakOrder, find-IsSorted, Memᴰ,
}
use fgw.Hosts.{HostTable, longer, find_host}

module _ {S : Type 0} where
  longer-IsWeakOrder : IsWeakOrder (longer {S = S})
  longer-IsWeakOrder = record { asym = λ a b h. ground arith; join = λ a b c h k. ground arith }

  -- What a search returns on a table with these postfixes, for a name not listed in full.
  pub record IsBest (posts : List (Text × S)) (name : Text) (s : S) : Type 0 where
    pub best : Text × S
    pub value : best.1 ≡ s
    pub listed : Memᴰ best posts
    pub ends : ends_with name best.0 ≡ true
    pub longest :
        (b : Text × S) → Memᴰ b posts → ends_with name b.0 ≡ true → length b.0 ≤ length best.0

  of_find :
      (posts : List (Text × S)) (name : Text) (s : S) (o : Option (Text × S))
      → find (λ b. ends_with name b.0) (sort longer posts) ≡ o
      → elim o [ none ↦ none | some b ↦ some b.1 ] ≡ some s
      → IsBest posts name s
  of_find posts name s none e h = cc
  of_find posts name s (some b) e h =
      let test : Text × S → Bool = λ b. ends_with name b.0 in
      let sorted = sort-IsSorted longer longer-IsWeakOrder posts in
      let (m, k) = find-mem test (sort longer posts) e in
      record {
        best = b;
        value = cc;
        listed = mem-sort longer posts m;
        ends = k;
        longest = λ c n q.
            (let r =
                find-IsSorted longer longer-IsWeakOrder test (sort longer posts) b sorted e
                  (mem_of_sort longer posts n) q in
              ground arith);
      }

  pub find_host-IsBest :
      (full posts : List (Text × S)) (name : Text) (s : S)
      → lookup name full ≡ none
      → find_host (record { fullnames = full; postfixes = sort longer posts }) name ≡ some s
      → IsBest posts name s
  unfolding find_host
  find_host-IsBest full posts name s absent h =
      of_find posts name s (find (λ b. ends_with name b.0) (sort longer posts)) refl
        (rw (absent, find_host) at h)

  -- A full name is found before any postfix.
  pub find_host-full :
      (t : HostTable S) (name : Text) (s : S)
      → lookup name t.fullnames ≡ some s
      → find_host t name ≡ some s
  unfolding find_host
  find_host-full t name s e = rw (e, find_host) refl

  -- Nothing is found exactly when the name is not listed and no postfix ends it.
  pub find_host-none :
      (t : HostTable S) (name : Text)
      → find_host t name ≡ none
      → (lookup name t.fullnames ≡ none) × All (λ b. ends_with name b.0 ≡ false) t.postfixes
  unfolding find_host
  find_host-none t name h =
      (ground arith, find-none (λ b. ends_with name b.0) t.postfixes (ground arith))
