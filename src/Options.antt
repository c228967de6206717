-- ===== src/Options.antt =====
-- src/options.js: the parser of the command line. `parse_float` is Number.parseFloat, with `none` for
-- NaN. An option of a type that none of the cases names is `other`.
pub mod Typed
pub mod Trailing
use fgw.Base.{
  ℕ, ◌≡◌, Bool, true, false, List, [], ◌∷◌, ◌++◌, Option, none, some, Text, txt, truthy,
  starts_with, split, length, take, drop, get_elem?, lookup, insert, text_equality, if◌then◌else◌,
  ◌==◌,
}

-- A value of `defaults`, by its type.
pub data Default : Type 0 where
  boolean number string object other : Default

pub data Value (F : Type 0) : Type 0 where
  flag : Value F
  float : F → Value F
  text : Text → Value F
  texts : List Text → Value F

pub data Failure : Type 0 where
  value_missing : Text → Failure
  invalid_option : Text → Failure

pub record State (F : Type 0) : Type 0 where
  pub args : List Text
  pub opts : List (Text × Value F)
  pub last_option : Option Text

pub data Parsed (F : Type 0) : Type 0 where
  done : State F → Parsed F
  failed : Failure → Parsed F

abbrev pub or_name : Option Text → Text → Text
or_name none name = name
or_name (some k) name = if truthy k then k else name

abbrev pub pushed : {F : Type 0} → Option (Value F) → Text → List Text
pushed none value = value ∷ []
pushed (some flag) value = value ∷ []
pushed (some (float x)) value = value ∷ []
pushed (some (text s)) value = value ∷ []
pushed (some (texts vs)) value = vs ++ value ∷ []

module _ {F : Type 0} (parse_float : Text → Option F) (defaults : List (Text × Default))
    (shorthands : List (Text × Text)) where
  abbrev pub full_name : Text → Text
  full_name name = or_name (lookup name shorthands) name

  abbrev float_or_text : Option F → Text → Value F
  float_or_text none value = text value
  float_or_text (some x) value = float x

  abbrev put : Text → Value F → State F → State F
  put k v st = record st { opts = insert k v st.opts }

  abbrev add_by_type : Option Default → Text → Text → State F → State F
  add_by_type none k value st = st
  add_by_type (some boolean) k value st = st
  add_by_type (some number) k value st = put k (float_or_text (parse_float value) value) st
  add_by_type (some string) k value st = put k (text value) st
  add_by_type (some object) k value st = put k (texts (pushed (lookup k st.opts) value)) st
  add_by_type (some other) k value st = st

  -- addOption.
  unfoldable pub add_option : Text → Text → State F → State F
  add_option name value st =
      add_by_type (lookup (full_name name) defaults) (full_name name) value st

  abbrev add_or_wait : Text → Text → Option Text → State F → State F
  add_or_wait name k none st = record st { last_option = some name }
  add_or_wait name k (some value) st =
      if truthy value then add_option k value st else record st { last_option = some name }

  abbrev process_by_type : Option Default → Text → Text → Option Text → State F → Parsed F
  process_by_type none name k value st = failed (invalid_option k)
  process_by_type (some boolean) name k value st = done (put k flag st)
  process_by_type (some number) name k value st = done (add_or_wait name k value st)
  process_by_type (some string) name k value st = done (add_or_wait name k value st)
  process_by_type (some object) name k value st = done (add_or_wait name k value st)
  process_by_type (some other) name k value st = done (add_or_wait name k value st)

  -- processOption.
  unfoldable pub process_option : Text → Option Text → State F → Parsed F
  unfolding add_option
  process_option name value st =
      process_by_type (lookup (full_name name) defaults) name (full_name name) value st

  abbrev head_or_empty : List Text → Text
  head_or_empty [] = []
  head_or_empty (s ∷ ss) = s

  abbrev read_term : Text → State F → Parsed F
  read_term term st =
      if starts_with term (txt "--")
      then process_option (head_or_empty (split b'=' term)) (get_elem? (split b'=' term) 1) st
      else (if starts_with term (txt "-")
          then (if length term == 2
              then process_option term none st
              else process_option (take 2 term) (some (drop 2 term)) st)
          else done (record st { args = st.args ++ term ∷ [] }))

  abbrev read_after : Option Text → Text → State F → Parsed F
  read_after none term st = read_term term st
  read_after (some name) term st =
      if starts_with term (txt "-")
      then failed (value_missing name)
      else done (record (add_option name term st) { last_option = none })

  -- The function of the loop, for a term after the first.
  unfoldable pub read : Text → State F → Parsed F
  unfolding process_option
  read term st = read_after st.last_option term st

  abbrev pub and_then : Parsed F → (State F → Parsed F) → Parsed F
  and_then (failed e) f = failed e
  and_then (done st) f = f st

  unfoldable pub read_all : List Text → State F → Parsed F
  unfolding read
  read_all [] st = done st
  read_all (term ∷ terms) st = and_then (read term st) (read_all terms)

  abbrev pub start : State F
  start = record { args = []; opts = []; last_option = none }

  -- The result before the defaults are filled in.
  unfoldable pub parse_options : List Text → Parsed F
  unfolding read_all
  parse_options argv = read_all (drop 1 argv) start
