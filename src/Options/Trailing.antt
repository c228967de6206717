-- ===== src/Options/Trailing.antt =====
-- An option at the end of the command line of src/options.js, without its value.
use fgw.Base.{
  ◌≡◌, refl, true, false, List, [], ◌∷◌, ◌++◌, Option, none, some, Text, txt, starts_with, length,
  lookup, text_equality, ◌==◌, ◌∙◌, sym,
}
use fgw.Options.{Default, State, Parsed, full_name, read, read_all, and_then, start, parse_options}

module _ {F : Type 0} (parse_float : Text → Option F) (defaults : List (Text × Default))
    (shorthands : List (Text × Text)) where
  and_then_assoc :
      (p : Parsed F) (f g : State F → Parsed F)
      → and_then parse_float defaults shorthands (and_then parse_float defaults shorthands p f) g
        ≡ and_then parse_float defaults shorthands p
            (λ st. and_then parse_float defaults shorthands (f st) g)
  and_then_assoc (Parsed.failed e) f g = refl
  and_then_assoc (Parsed.done st) f g = refl

  and_then-cong :
      (p : Parsed F) (f g : State F → Parsed F)
      → ((st : State F) → f st ≡ g st)
      → and_then parse_float defaults shorthands p f ≡ and_then parse_float defaults shorthands p g
  and_then-cong (Parsed.failed e) f g h = refl
  and_then-cong (Parsed.done st) f g h = h st

  read_all-append :
      (ts us : List Text) (st : State F)
      → read_all parse_float defaults shorthands (ts ++ us) st
        ≡ and_then parse_float defaults shorthands
            (read_all parse_float defaults shorthands ts st)
            (read_all parse_float defaults shorthands us)
  unfolding read_all
  read_all-append [] us st = refl
  read_all-append (t ∷ ts) us st =
      and_then-cong (read parse_float defaults shorthands t st) _ _ (read_all-append ts us)
      ∙ sym (and_then_assoc (read parse_float defaults shorthands t st) _ _)

  read_short :
      (name : Text) (st : State F)
      → st.last_option ≡ none
      → starts_with name (txt "--") ≡ false
      → starts_with name (txt "-") ≡ true
      → (length name == 2) ≡ true
      → lookup (full_name parse_float defaults shorthands name) defaults ≡ some Default.string
      → read parse_float defaults shorthands name st
        ≡ Parsed.done (record st { last_option = some name })
  unfolding read
  read_short name st l a b c d = rw (l, a, b, c, d) refl

  -- A short option that takes a text and stands at the end, where its value is missing, is dropped
  -- in silence: the command line is accepted, with the arguments and the options of the rest.
  pub parse_options-trailing :
      (program name : Text) (terms : List Text) (st : State F)
      → parse_options parse_float defaults shorthands (program ∷ terms) ≡ Parsed.done st
      → st.last_option ≡ none
      → starts_with name (txt "--") ≡ false
      → starts_with name (txt "-") ≡ true
      → (length name == 2) ≡ true
      → lookup (full_name parse_float defaults shorthands name) defaults ≡ some Default.string
      → parse_options parse_float defaults shorthands (program ∷ (terms ++ name ∷ []))
        ≡ Parsed.done (record st { last_option = some name })
  unfolding parse_options
  parse_options-trailing program name terms st e l a b c d =
      read_all-append terms (name ∷ []) (start parse_float defaults shorthands)
      ∙ rw e (rw (read_short name st l a b c d) refl)
