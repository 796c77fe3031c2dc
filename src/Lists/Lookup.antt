-- ===== src/Lists/Lookup.antt =====
-- `get`, `getLists` and `getByOpaqueID` of the class `ListManager`. A collection is given by its
-- handlers; no id, no set of matches and an empty id are one.
use houdini.Lists.{Handler, ListManager, global_id, root_id, field_ref, or_no_map}
use houdini.Prelude.{
  ℕ, Bool, not, Option, none, some, List, [], ◌∷◌, ◌++◌, String, ite, str_dec, Dict, lookup,
  contains, select, if◌then◌else◌, Result, ok, throw, type_error, ◌>>=◌,
}

abbrev pub or_empty_text : Option String → String
or_empty_text none = ""
or_empty_text (some s) = s

unfoldable pub all_members : Dict ℕ → ListManager → List Handler
all_members [] m = []
all_members ((parent_id, r) ∷ matches) m = m.collections.cell r ++ all_members matches m

-- The id of the parent record; the type is that of the first handler of the first collection, and
-- without one the read of its type fails.
unfoldable pub parent_of : List Handler → String → Result String
parent_of [] id = throw type_error
parent_of (head ∷ rest) id =
    ok (ite (str_dec id "") root_id (or_empty_text (global_id (or_empty_text head.record_type) id)))

abbrev pub members_at : Option ℕ → ListManager → Option (List Handler)
members_at none m = none
members_at (some r) m = some (m.collections.cell r)

-- The part of `getLists` for the lists of one name. With one collection the id must be its parent or
-- be left out, and with more of them it must be given.
unfoldable pub pick : Dict ℕ → String → ListManager → Result (Option (List Handler))
unfolding lookup parent_of
pick [] id m = ok none
pick ((parent, r) ∷ []) id m = do
  parent_id ← parent_of (m.collections.cell r) id
  ok (
      ite (str_dec id "") (some (m.collections.cell r))
        (ite (str_dec parent_id parent) (some (m.collections.cell r)) none))
pick ((parent, r) ∷ second ∷ others) id m = do
  parent_id ← parent_of (m.collections.cell r) id
  ok (ite (str_dec id "") none (members_at (lookup parent_id ((parent, r) ∷ second ∷ others)) m))

unfoldable pub get_lists : String → String → Bool → ListManager → Result (Option (List Handler))
unfolding lookup all_members pick
get_lists list_name id all_lists m = elim (or_no_map (lookup list_name m.lists)) [
  | [] ↦ ok none
  | matches ↦ if all_lists then ok (some (all_members matches m)) else pick matches id m
]

abbrev pub skip : List String → List Handler → List Handler
skip matches = select (λ list. not (contains (field_ref list) matches))

abbrev pub skipped : List String → Option (List Handler) → Option (List Handler)
skipped matches none = none
skipped matches (some lists) = some (skip matches lists)

-- `get`
unfoldable pub get :
    String → String → Bool → List String → ListManager → Result (Option (List Handler))
unfolding get_lists
get list_name id all_lists skip_matches m = do
  lists ← get_lists list_name id all_lists m
  ok (skipped skip_matches lists)

unfoldable pub get_by_opaque_id : String → List String → ListManager → Option (List Handler)
unfolding lookup
get_by_opaque_id opaque_id skip_matches m =
    skipped skip_matches (members_at (lookup opaque_id m.lists_by_opaque_id) m)
