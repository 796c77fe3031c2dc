-- ===== src/Internal/Removing.antt =====
-- `remove` of packages/houdini/src/runtime/cache/subscription.ts: the walk that takes subscriptions away.
use Prim.Native.Char.{Char}
use houdini.Internal.{CacheInternal, each, typename_of, value_of, linked, is_masked}
use houdini.Json.{Json}
use houdini.Prelude.{Bool, none, some, List, [], ◌++◌, String, str_dec, map}
use houdini.Selections.{Selection, Fields, Alternatives, Field, Variables, key_of, choose}
use houdini.Subscriptions.{Spec}
use houdini.Subscriptions.Removal.{remove_subscribers}

module _ (stringify : Json → List Char) (targets : List Spec) (variables : Variables) where
  -- `removeSubscribers` for one field
  unfoldable pub remove_field : Field → String → Bool → CacheInternal → CacheInternal
  unfolding key_of remove_subscribers
  remove_field field id masked c = record c {
    subscriptions =
        remove_subscribers id (key_of stringify field variables) targets (is_masked masked field)
          c.subscriptions;
  }

  -- The linked ids of all the fields are gathered first, and walked when the fields are done. Here each
  -- of them is a step that waits.
  unfoldable mutual
    unfolding typename_of value_of linked choose remove_field key_of

    pub remove : Selection → Bool → String → CacheInternal → CacheInternal
    remove (Selection.plain fields) masked id c =
        let found = typename_of id c in remove_fields fields id masked [] found.0
    remove (Selection.abstracted fields alternatives type_map) masked id c =
        let found = typename_of id c in
        elim (choose found.1 alternatives type_map) [
          | none ↦ remove_fields fields id masked [] found.0
          | some name ↦ remove_alternative name alternatives id masked found.0
        ]

    pub remove_alternative : String → Alternatives → String → Bool → CacheInternal → CacheInternal
    remove_alternative name Alternatives.no_type id masked c = c
    remove_alternative name (Alternatives.for_type n fields rest) id masked c =
        elim (str_dec name n) [
          | yes p ↦ remove_fields fields id masked [] c
          | no p ↦ remove_alternative name rest id masked c
        ]

    -- The loop over the fields, and then the one over the linked ids.
    pub remove_fields :
        Fields
        → String
        → Bool
        → List (CacheInternal → CacheInternal)
        → CacheInternal
        → CacheInternal
    remove_fields Fields.nil id masked waiting c = each (λ step. step) waiting c
    remove_fields (Fields.leaf name field rest) id masked waiting c =
        remove_fields rest id masked waiting (remove_field field id masked c)
    remove_fields (Fields.nested name field selection rest) id masked waiting c =
        let c' = remove_field field id masked c in
        let links = linked (value_of id (key_of stringify field variables) c') in
        let steps = map (remove selection (is_masked masked field)) links in
        remove_fields rest id masked (waiting ++ steps) c'
