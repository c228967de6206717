-- ===== src/Options/Typed.antt =====
-- The options that the parser of src/options.js returns have the types of their defaults.
use fgw.Base.{
  ◌≡◌, refl, Bool, true, false, List, [], ◌∷◌, Option, none, some, Text, txt, truthy, starts_with,
  length, take, drop, lookup, text_equality, lookup-insert, if◌then◌else◌, ◌==◌, Bool-cases, inl,
  inr, text_eq, text_eq_iff, subst,
}
use mathlib.Core.Option.{some-injective}
use fgw.Options.{
  Default, Value, State, Parsed, full_name, add_option, process_option, read_all, and_then, start,
  parse_options, add_by_type, process_by_type, add_or_wait, read_after, put, pushed, float_or_text,
}

-- What a value of a default's type is: for a number what parseFloat returns for some text, or a text
-- that it cannot read.
abbrev pub Fits : {F : Type 0} → (Text → Option F) → Option Default → Value F → Type 0
Fits parse_float none v = ⊥
Fits parse_float (some Default.boolean) Value.flag = Unit
Fits parse_float (some Default.boolean) (Value.float x) = ⊥
Fits parse_float (some Default.boolean) (Value.text s) = ⊥
Fits parse_float (some Default.boolean) (Value.texts ss) = ⊥
Fits parse_float (some Default.number) Value.flag = ⊥
Fits parse_float (some Default.number) (Value.float x) = (s : Text) × (parse_float s ≡ some x)
Fits parse_float (some Default.number) (Value.text s) = parse_float s ≡ none
Fits parse_float (some Default.number) (Value.texts ss) = ⊥
Fits parse_float (some Default.string) Value.flag = ⊥
Fits parse_float (some Default.string) (Value.float x) = ⊥
Fits parse_float (some Default.string) (Value.text s) = Unit
Fits parse_float (some Default.string) (Value.texts ss) = ⊥
Fits parse_float (some Default.object) Value.flag = ⊥
Fits parse_float (some Default.object) (Value.float x) = ⊥
Fits parse_float (some Default.object) (Value.text s) = ⊥
Fits parse_float (some Default.object) (Value.texts ss) = Unit
Fits parse_float (some Default.other) v = ⊥

module _ {F : Type 0} (parse_float : Text → Option F) (defaults : List (Text × Default))
    (shorthands : List (Text × Text)) where
  -- Every option that is set is in `defaults` and has its type.
  abbrev pub IsTyped : State F → Type 0
  IsTyped st =
      (k : Text) (v : Value F) → lookup k st.opts ≡ some v → Fits parse_float (lookup k defaults) v

  abbrev IsTypedAfter : Parsed F → Type 0
  IsTypedAfter (Parsed.failed e) = Unit
  IsTypedAfter (Parsed.done st) = IsTyped st

  put-IsTyped :
      (k : Text) (v : Value F) (st : State F)
      → Fits parse_float (lookup k defaults) v
      → IsTyped st
      → IsTyped (put parse_float defaults shorthands k v st)
  put-IsTyped k v st f h j w e = elim (Bool-cases (text_eq k j)) [
    | inl same ↦
        let found : some v ≡ some w = rw (lookup-insert k j v st.opts, same) at e in
        let at_j : Fits parse_float (lookup j defaults) v = rw ((text_eq_iff k j).0 same) at f in
        subst (λ x. Fits parse_float (lookup j defaults) x) (some-injective v w found) at_j
    | inr differ ↦ h j w (rw (lookup-insert k j v st.opts, differ) at e)
  ]

  text-IsTyped :
      (d : Default) (k value : Text) (st : State F)
      → lookup k defaults ≡ some d
      → IsTyped st
      → IsTyped (add_by_type parse_float defaults shorthands (some d) k value st)
  text-IsTyped Default.boolean k value st e h = h
  text-IsTyped Default.number k value st e h = by_float (parse_float value) refl
    where
      by_float :
          (o : Option F)
          → parse_float value ≡ o
          → IsTyped (
              put parse_float defaults shorthands k
                (float_or_text parse_float defaults shorthands o value)
                st)
      by_float none q = put-IsTyped k (Value.text value) st (rw e q) h
      by_float (some x) q = put-IsTyped k (Value.float x) st (rw e (value, q)) h
  text-IsTyped Default.string k value st e h = put-IsTyped k (Value.text value) st (rw e tt) h
  text-IsTyped Default.object k value st e h =
      put-IsTyped k (Value.texts (pushed (lookup k st.opts) value)) st (rw e tt) h
  text-IsTyped Default.other k value st e h = h

  add_by_type-IsTyped :
      (d : Option Default) (k value : Text) (st : State F)
      → lookup k defaults ≡ d
      → IsTyped st
      → IsTyped (add_by_type parse_float defaults shorthands d k value st)
  add_by_type-IsTyped none k value st e h = h
  add_by_type-IsTyped (some d) k value st e h = text-IsTyped d k value st e h

  add_option-IsTyped :
      (name value : Text) (st : State F)
      → IsTyped st
      → IsTyped (add_option parse_float defaults shorthands name value st)
  unfolding add_option
  add_option-IsTyped name value st h =
      let k = full_name parse_float defaults shorthands name in
      add_by_type-IsTyped (lookup k defaults) k value st refl h

  add_or_wait-IsTyped :
      (name k : Text) (value : Option Text) (st : State F)
      → IsTyped st
      → IsTyped (add_or_wait parse_float defaults shorthands name k value st)
  add_or_wait-IsTyped name k none st h = h
  add_or_wait-IsTyped name k (some value) st h = by_truth (truthy value)
    where
      by_truth :
          (b : Bool)
          → IsTyped (
              if b
              then add_option parse_float defaults shorthands k value st
              else record st { last_option = some name })
      by_truth true = add_option-IsTyped k value st h
      by_truth false = h

  process_by_type-IsTyped :
      (d : Option Default) (name k : Text) (value : Option Text) (st : State F)
      → lookup k defaults ≡ d
      → IsTyped st
      → IsTypedAfter (process_by_type parse_float defaults shorthands d name k value st)
  process_by_type-IsTyped none name k value st e h = tt
  process_by_type-IsTyped (some Default.boolean) name k value st e h =
      put-IsTyped k Value.flag st (rw e tt) h
  process_by_type-IsTyped (some Default.number) name k value st e h =
      add_or_wait-IsTyped name k value st h
  process_by_type-IsTyped (some Default.string) name k value st e h =
      add_or_wait-IsTyped name k value st h
  process_by_type-IsTyped (some Default.object) name k value st e h =
      add_or_wait-IsTyped name k value st h
  process_by_type-IsTyped (some Default.other) name k value st e h =
      add_or_wait-IsTyped name k value st h

  process_option-IsTyped :
      (name : Text) (value : Option Text) (st : State F)
      → IsTyped st
      → IsTypedAfter (process_option parse_float defaults shorthands name value st)
  unfolding process_option
  process_option-IsTyped name value st h =
      let k = full_name parse_float defaults shorthands name in
      process_by_type-IsTyped (lookup k defaults) name k value st refl h

  if-IsTyped :
      (b : Bool) (p q : Parsed F)
      → IsTypedAfter p
      → IsTypedAfter q
      → IsTypedAfter (if b then p else q)
  if-IsTyped true p q h k = h
  if-IsTyped false p q h k = k

  read_after-IsTyped :
      (o : Option Text) (term : Text) (st : State F)
      → IsTyped st
      → IsTypedAfter (read_after parse_float defaults shorthands o term st)
  read_after-IsTyped none term st h =
      if-IsTyped (starts_with term (txt "--")) _ _ (process_option-IsTyped _ _ st h) (
        if-IsTyped (starts_with term (txt "-")) _ _
          (if-IsTyped (length term == 2) _ _ (process_option-IsTyped term none st h)
            (process_option-IsTyped (take 2 term) (some (drop 2 term)) st h))
          h)
  read_after-IsTyped (some name) term st h =
      if-IsTyped (starts_with term (txt "-")) _ _ tt (add_option-IsTyped name term st h)

  read_all-IsTyped :
      (terms : List Text) (st : State F)
      → IsTyped st
      → IsTypedAfter (read_all parse_float defaults shorthands terms st)
  unfolding read_all
  read_all-IsTyped [] st h = h
  read_all-IsTyped (term ∷ terms) st h =
      next (read_after parse_float defaults shorthands st.last_option term st)
        (read_after-IsTyped st.last_option term st h) (λ st'. read_all-IsTyped terms st')
    where
      next :
          (p : Parsed F)
          → IsTypedAfter p
          → ((st' : State F)
              → IsTyped st'
              → IsTypedAfter (read_all parse_float defaults shorthands terms st'))
          → IsTypedAfter (
              and_then parse_float defaults shorthands p
                (read_all parse_float defaults shorthands terms))
      next (Parsed.failed e) k f = tt
      next (Parsed.done st') k f = f st' k

  -- When the command line is accepted, every option that it sets is one of the defaults, and its
  -- value has the type of the default: a flag, a text, a list of texts, or for a number what
  -- parseFloat returns for some text or a text that it cannot read.
  pub parse_options-IsTyped :
      (argv : List Text) (st : State F) (k : Text) (v : Value F)
      → parse_options parse_float defaults shorthands argv ≡ Parsed.done st
      → lookup k st.opts ≡ some v
      → Fits parse_float (lookup k defaults) v
  unfolding parse_options lookup
  parse_options-IsTyped argv st k v e f =
      let typed : IsTypedAfter (Parsed.done st) =
        rw e at (read_all-IsTyped (drop 1 argv) (start parse_float defaults shorthands) empty) in
      typed k v f
    where
      empty : IsTyped (start parse_float defaults shorthands)
      empty j w g = cc
