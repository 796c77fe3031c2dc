-- ===== src/Internal/Searches.antt =====
-- `findSubSelections` and `removeAllSubscribers` of packages/houdini/src/runtime/cache/subscription.ts.
use Prim.Native.Char.{Char}
use houdini.Internal.{CacheInternal, each, typename_of, value_of, linked}
use houdini.Internal.Removing.{remove}
use houdini.Json.{Json}
use houdini.Lists.{or_root}
use houdini.Prelude.{
  true, false, Option, none, some, List, [], ◌∷◌, ◌++◌, String, str_dec, contains,
}
use houdini.Selections.{Selection, Fields, Alternatives, Variables, key_of, choose}
use houdini.Subscriptions.{Spec, get_all}
use houdini.Subscriptions.Removal.{specs_of}

-- The state, and the selections that were found.
abbrev pub Search : Type 0
Search = CacheInternal × List Selection

abbrev pub visit_each : (String → Search → Search) → List String → Search → Search
visit_each body [] s = s
visit_each body (id ∷ ids) s = visit_each body ids (body id s)

module _ (stringify : Json → List Char) (variables : Variables) (search_target : String) where
  unfoldable mutual
    unfolding typename_of value_of linked choose key_of

    pub find_sub_selections : Selection → String → Search → Search
    find_sub_selections (Selection.plain fields) parent_id s =
        let found = typename_of parent_id s.0 in find_in_fields fields parent_id (found.0, s.1)
    find_sub_selections (Selection.abstracted fields alternatives type_map) parent_id s =
        let found = typename_of parent_id s.0 in
        elim (choose found.1 alternatives type_map) [
          | none ↦ find_in_fields fields parent_id (found.0, s.1)
          | some name ↦ find_in_alternative name alternatives parent_id (found.0, s.1)
        ]

    pub find_in_alternative : String → Alternatives → String → Search → Search
    find_in_alternative name Alternatives.no_type parent_id s = s
    find_in_alternative name (Alternatives.for_type n fields rest) parent_id s =
        elim (str_dec name n) [
          | yes p ↦ find_in_fields fields parent_id s
          | no p ↦ find_in_alternative name rest parent_id s
        ]

    pub find_in_fields : Fields → String → Search → Search
    find_in_fields Fields.nil parent_id s = s
    find_in_fields (Fields.leaf name field rest) parent_id s = find_in_fields rest parent_id s
    find_in_fields (Fields.nested name field selection rest) parent_id s =
        let links = linked (value_of parent_id (key_of stringify field variables) s.0) in
        find_in_fields rest parent_id (elim (contains search_target links) [
          | true ↦ (s.0, s.1 ++ selection ∷ [])
          | false ↦ visit_each (find_sub_selections selection) links s
        ])

abbrev pub or_root_id : Option String → String
or_root_id none = or_root ""
or_root_id (some id) = or_root id

module _ (stringify : Json → List Char) (id : String) (targets : List Spec) where
  -- The body of the loop over the targets. The variables are a function that is not called, and its
  -- own properties are read.
  unfoldable pub remove_target : Spec → CacheInternal → CacheInternal
  unfolding find_sub_selections remove
  remove_target target c =
      let found =
        find_sub_selections stringify target.uncalled id target.selection
          (or_root_id target.parent_id) (c, []) in
      each (λ selection. remove stringify targets target.uncalled selection false id) found.1
        found.0

abbrev pub given_specs : Option (List Spec) → List Spec → List Spec
given_specs none specs = specs
given_specs (some targets) specs = targets

-- `removeAllSubscribers`
unfoldable pub remove_all_subscribers :
    (Json → List Char) → String → Option (List Spec) → CacheInternal → CacheInternal
unfolding get_all remove_target
remove_all_subscribers stringify id targets c =
    let specs = given_specs targets (specs_of (get_all id true c.subscriptions)) in
    each (remove_target stringify id specs) specs c
