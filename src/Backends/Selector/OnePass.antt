-- ===== src/Backends/Selector/OnePass.antt =====
-- The filters of a target of src/modules/backend-selector.js, made in one pass.
use fgw.Base.{
  ◌≡◌, refl, ap, sym, ◌∙◌, Bool, true, false, List, [], ◌∷◌, ◌++◌, Option, none, some, Text, truthy,
  if◌then◌else◌,
}
use fgw.Backends.Selector.{
  BackendRef, Made, bind, put_before, or_no_filters, filters_of, made_then, make_filters,
  target_filters, or_text, output_or,
}

module _ {C P : Type 0} (import_filter : Text → C → Option (P × Option Text)) where
  abbrev join_made : List P → Made P → Made P
  join_made ps none = none
  join_made ps (some (qs, r)) = some (ps ++ qs, r)

  abbrev after : Made P → List C → Made P
  after none ys = none
  after (some (ps, q)) ys = join_made ps (make_filters import_filter q ys)

  join_none : (m : Made P) → join_made [] m ≡ m
  join_none none = refl
  join_none (some (qs, r)) = refl

  put_join :
      (x : P) (ps : List P) (m : Made P) → put_before x (join_made ps m) ≡ join_made (x ∷ ps) m
  put_join x ps none = refl
  put_join x ps (some (qs, r)) = refl

  put_after :
      (x : P) (m : Made P) (ys : List C) → put_before x (after m ys) ≡ after (put_before x m) ys
  put_after x none ys = refl
  put_after x (some (ps, q)) ys = put_join x ps (make_filters import_filter q ys)

  then_after :
      (p : Text) (o : Option (P × Option Text)) (f g : Text → Made P) (ys : List C)
      → ((q : Text) → f q ≡ after (g q) ys)
      → made_then p o f ≡ after (made_then p o g) ys
  then_after p none f g ys h = refl
  then_after p (some (x, o)) f g ys h =
      ap (put_before x) (h (output_or o p)) ∙ put_after x (g (output_or o p)) ys

  make_filters-append :
      (p : Text) (xs ys : List C)
      → make_filters import_filter p (xs ++ ys) ≡ after (make_filters import_filter p xs) ys
  unfolding make_filters
  make_filters-append p [] ys = sym (join_none (make_filters import_filter p ys))
  make_filters-append p (x ∷ xs) ys =
      then_after p (import_filter p x) _ _ ys (λ q. make_filters-append q xs ys)

  -- Whether a result names a protocol.
  abbrev HasProtocol : Made P → Type 0
  HasProtocol none = Unit
  HasProtocol (some (ps, q)) = truthy q ≡ true

  put-HasProtocol : (x : P) (m : Made P) → HasProtocol m → HasProtocol (put_before x m)
  put-HasProtocol x none h = tt
  put-HasProtocol x (some (ps, q)) h = h

  or_text-truthy :
      (b : Bool) (s p : Text) → truthy s ≡ b → truthy p ≡ true → truthy (if b then s else p) ≡ true
  or_text-truthy true s p e h = e
  or_text-truthy false s p e h = h

  output-truthy : (o : Option Text) (p : Text) → truthy p ≡ true → truthy (output_or o p) ≡ true
  output-truthy none p h = h
  output-truthy (some s) p h = or_text-truthy (truthy s) s p refl h

  then-HasProtocol :
      (p : Text) (o : Option (P × Option Text)) (f : Text → Made P)
      → truthy p ≡ true
      → ((q : Text) → truthy q ≡ true → HasProtocol (f q))
      → HasProtocol (made_then p o f)
  then-HasProtocol p none f h k = tt
  then-HasProtocol p (some (x, o)) f h k =
      put-HasProtocol x (f (output_or o p)) (k (output_or o p) (output-truthy o p h))

  make_filters-HasProtocol :
      (p : Text) (cs : List C) → truthy p ≡ true → HasProtocol (make_filters import_filter p cs)
  unfolding make_filters
  make_filters-HasProtocol p [] h = h
  make_filters-HasProtocol p (c ∷ cs) h =
      then-HasProtocol p (import_filter p c) _ h (λ q. make_filters-HasProtocol q cs)

  last_stage :
      (protocol : Text) (ps qs : List P) (m : Made P)
      → HasProtocol m
      → bind m (λ rs r. some (ps ++ (qs ++ rs), or_text r protocol)) ≡ join_made ps (join_made qs m)
  last_stage protocol ps qs none h = refl
  last_stage protocol ps qs (some (rs, r)) h = rw h refl

  middle_stage :
      (protocol : Text) (ps : List P) (m : Made P) (cs : List C)
      → truthy protocol ≡ true
      → HasProtocol m
      → bind m (λ qs q.
        bind
          (make_filters import_filter (or_text q protocol) cs)
          (λ rs r. some (ps ++ (qs ++ rs), or_text r protocol)))
        ≡ join_made ps (after m cs)
  middle_stage protocol ps none cs t h = refl
  middle_stage protocol ps (some (qs, q)) cs t h = rw h (
      last_stage protocol ps qs (make_filters import_filter q cs) (make_filters-HasProtocol q cs h))

  first_stage :
      (protocol : Text) (m : Made P) (cs ds : List C)
      → truthy protocol ≡ true
      → HasProtocol m
      → bind m (λ ps p. bind (make_filters import_filter (or_text p protocol) cs) (λ qs q.
        bind
          (make_filters import_filter (or_text q protocol) ds)
          (λ rs r. some (ps ++ (qs ++ rs), or_text r protocol))))
        ≡ after m (cs ++ ds)
  first_stage protocol none cs ds t h = refl
  first_stage protocol (some (ps, p)) cs ds t h = rw h (
      middle_stage protocol ps (make_filters import_filter p cs) ds t
        (make_filters-HasProtocol p cs h)
      ∙ ap (join_made ps) (sym (make_filters-append p cs ds)))

  -- The filters of a target are those that makeFilters would make in one pass over the filters of the
  -- listener, of the rule and of the reference, each for the protocol that the one before puts out;
  -- where one of them throws, so does the other. The protocol of the listener is not empty.
  pub target_filters-make_filters :
      (protocol : Text) (listener rule : Option (List C)) (ref : Option (BackendRef C))
      → truthy protocol ≡ true
      → target_filters import_filter protocol listener rule ref
        ≡ make_filters import_filter protocol
            (or_no_filters listener ++ (or_no_filters rule ++ or_no_filters (filters_of ref)))
  unfolding target_filters
  target_filters-make_filters protocol listener rule ref h =
      first_stage protocol (make_filters import_filter protocol (or_no_filters listener))
        (or_no_filters rule) (or_no_filters (filters_of ref)) h
        (make_filters-HasProtocol protocol (or_no_filters listener) h)
      ∙ sym (make_filters-append protocol (or_no_filters listener) _)
