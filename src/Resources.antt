-- ===== src/Resources.antt =====
-- src/resources.js: the store of resources by kind, the resource files, and the change of a file.
-- `R` is the type of resource objects, compared by identity; `kind_of` and `name_of` read their kind
-- and `metadata.name`, with the empty text for a missing one, which the source treats alike.
pub mod Filed
pub mod Follower
pub mod Mirror
pub mod Replay
pub mod Updaters
use fgw.Base.{
  ◌≡◌, Bool, true, false, ◌&&◌, List, [], ◌∷◌, ◌++◌, map, Option, none, some, Text, txt, truthy,
  text_eq, Eq, text_equality, lookup, insert, erase, if◌then◌else◌, ends_with, ◌||◌,
}

-- `{ list: [], dict: {} }`.
pub record KindMap (R : Type 0) : Type 0 where
  pub list : List R
  pub dict : List (Text × R)

pub record Store (R : Type 0) : Type 0 where
  pub resource_map : List (Text × KindMap R)
  pub files : List (Text × R)

abbrev pub empty_map : {R : Type 0} → KindMap R
empty_map = record { list = []; dict = [] }

-- What changeFile tells the watcher.
pub data Notice (R : Type 0) : Type 0 where
  created : R → Notice R
  deleted : R → Notice R
  updated : (new old : R) → Notice R

-- isJSON, isYAML and isSecret.
unfoldable pub is_json : Text → Bool
is_json filename = ends_with filename (txt ".json")

unfoldable pub is_yaml : Text → Bool
is_yaml filename = ends_with filename (txt ".yaml") || ends_with filename (txt ".yml")

unfoldable pub is_secret : Text → Bool
is_secret filename = ends_with filename (txt ".crt") || ends_with filename (txt ".key")

module _ {R : Type 0} ⦃same : Eq R⦄ where
  -- `list.splice(list.indexOf(r), 1)`, if it is there.
  unfoldable pub remove_first : R → List R → List R
  remove_first r [] = []
  remove_first r (x ∷ xs) = if same.beq x r then xs else x ∷ remove_first r xs

module _ {R : Type 0} ⦃same : Eq R⦄ (kind_of name_of : R → Text) where
  abbrev pub or_empty_map : Option (KindMap R) → KindMap R
  or_empty_map none = empty_map
  or_empty_map (some m) = m

  unfoldable pub append_resource : R → Store R → Store R
  append_resource r s =
      if truthy (kind_of r)
      then (let m = or_empty_map (lookup (kind_of r) s.resource_map) in
          record s {
            resource_map =
                insert (kind_of r)
                  (record {
                    list = m.list ++ r ∷ [];
                    dict = if truthy (name_of r) then insert (name_of r) r m.dict else m.dict;
                  })
                  s.resource_map;
          })
      else s

  unfoldable pub remove_from : Option (KindMap R) → R → Store R → Store R
  unfolding remove_first
  remove_from none r s = s
  remove_from (some m) r s = record s {
    resource_map =
        insert (kind_of r)
          (record {
            list = remove_first r m.list;
            dict = if truthy (name_of r) then erase (name_of r) m.dict else m.dict;
          })
          s.resource_map;
  }

  unfoldable pub remove_resource : R → Store R → Store R
  unfolding remove_from
  remove_resource r s =
      if truthy (kind_of r) then remove_from (lookup (kind_of r) s.resource_map) r s else s

  abbrev pub remove_old : Option R → Store R → Store R
  remove_old none s = s
  remove_old (some r) s = remove_resource r s

  abbrev pub append_new : Option R → Store R → Store R
  append_new none s = s
  append_new (some r) s = append_resource r s

  -- The branches on the kinds of the old and the new content.
  unfoldable pub settle_file : Text → Option R → Option R → Store R → Store R × List (Notice R)
  settle_file path none none s = (s, [])
  settle_file path (some old) none s =
      (record s { files = erase path s.files }, Notice.deleted old ∷ [])
  settle_file path none (some cur) s =
      (record s { files = insert path cur s.files }, Notice.created cur ∷ [])
  settle_file path (some old) (some cur) s = (
    record s { files = insert path cur s.files },
    if truthy (kind_of cur) && text_eq (kind_of cur) (kind_of old)
        then Notice.updated cur old ∷ []
        else (if truthy (kind_of cur) && truthy (kind_of old)
            then Notice.deleted old ∷ Notice.created cur ∷ []
            else Notice.created cur ∷ []),
  )

  unfoldable pub change_file : Text → Option R → Store R → Store R × List (Notice R)
  unfolding append_resource remove_resource settle_file
  change_file path data' s =
      let old = lookup path s.files in
      settle_file path old data' (append_new data' (remove_old old s))

  -- The changed files that watch() learns of, one by one, with all that the watcher is told.
  unfoldable pub change_files : List (Text × Option R) → Store R → Store R × List (Notice R)
  unfolding change_file
  change_files [] s = (s, [])
  change_files ((path, data') ∷ changes) s =
      let (s', told) = change_file path data' s in
      let (t, more) = change_files changes s' in (t, told ++ more)

-- list and find.
module _ {R : Type 0} where
  -- `map?.list`, with the empty list for undefined.
  abbrev pub listed : Option (KindMap R) → List R
  listed none = []
  listed (some m) = m.list

  unfoldable pub list : Text → Store R → List R
  list kind s = listed (lookup kind s.resource_map)

  unfoldable pub find : Text → Text → Store R → Option R
  find kind name s = elim (lookup kind s.resource_map) [ none ↦ none | some m ↦ lookup name m.dict ]
