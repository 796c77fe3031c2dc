-- ===== src/Internal/Adding.antt =====
-- `add` of packages/houdini/src/runtime/cache/subscription.ts: the walk that subscribes a document.
use Prim.Native.Char.{Char}
use houdini.Internal.{
  CacheInternal, each, typename_of, value_of, children, subscribe_field, register_field,
  inner_fields, is_masked, or_text,
}
use houdini.Json.{Json}
use houdini.Prelude.{Bool, Option, none, some, List, String, str_dec}
use houdini.Selections.{Selection, Fields, Alternatives, Field, Variables, key_of, choose}
use houdini.Subscriptions.{Spec, FieldSelection}

module _ (stringify : Json → List Char) (spec : Spec) (variables : Variables) where
  -- One field, without the records it links to.
  unfoldable pub add_field :
      Field
      → Option Selection
      → Option String
      → String
      → Option String
      → Bool
      → CacheInternal
      → CacheInternal
  unfolding key_of subscribe_field register_field
  add_field field selection typename parent parent_type masked c =
      let key = key_of stringify field variables in
      let hidden = is_masked masked field in
      let entry : FieldSelection = record {
        spec = spec;
        fields = inner_fields selection typename;
      } in
      register_field field selection hidden parent key (or_text parent_type spec.root_type)
        variables (subscribe_field parent key entry hidden c)

  unfoldable mutual
    unfolding typename_of value_of children choose add_field key_of

    -- `add`; the fields for a type are looked up where the walk goes down
    pub add : Selection → String → Option String → Bool → CacheInternal → CacheInternal
    add (Selection.plain fields) parent parent_type masked c =
        let found = typename_of parent c in
        add_fields fields found.1 parent parent_type masked found.0
    add (Selection.abstracted fields alternatives type_map) parent parent_type masked c =
        let found = typename_of parent c in
        elim (choose found.1 alternatives type_map) [
          | none ↦ add_fields fields found.1 parent parent_type masked found.0
          | some name ↦ add_alternative name alternatives found.1 parent parent_type masked found.0
        ]

    pub add_alternative :
        String
        → Alternatives
        → Option String
        → String
        → Option String
        → Bool
        → CacheInternal
        → CacheInternal
    add_alternative name Alternatives.no_type typename parent parent_type masked c = c
    add_alternative name (Alternatives.for_type n fields rest) typename parent parent_type masked
          c =
        elim (str_dec name n) [
          | yes p ↦ add_fields fields typename parent parent_type masked c
          | no p ↦ add_alternative name rest typename parent parent_type masked c
        ]

    -- The loop over the fields.
    pub add_fields :
        Fields → Option String → String → Option String → Bool → CacheInternal → CacheInternal
    add_fields Fields.nil typename parent parent_type masked c = c
    add_fields (Fields.leaf name field rest) typename parent parent_type masked c =
        add_fields rest typename parent parent_type masked
          (add_field field none typename parent parent_type masked c)
    add_fields (Fields.nested name field selection rest) typename parent parent_type masked c =
        let c' = add_field field (some selection) typename parent parent_type masked c in
        let records = children (value_of parent (key_of stringify field variables) c') in
        add_fields rest typename parent parent_type masked (
          each (λ child. add selection child (some field.type) (is_masked masked field)) records c')
