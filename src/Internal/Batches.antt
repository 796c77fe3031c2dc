-- ===== src/Internal/Batches.antt =====
-- `addMany` of packages/houdini/src/runtime/cache/subscription.ts, which subscribes the documents of a
-- field to a record that was linked there.
use Prim.Native.Char.{Char}
use houdini.Internal.{
  CacheInternal, each, typename_of, value_of, children, subscribe_field, register_field,
  inner_fields, is_masked, or_text,
}
use houdini.Json.{Json}
use houdini.Prelude.{Bool, Option, none, some, List, String, str_dec, map}
use houdini.Selections.{Selection, Fields, Alternatives, Field, Variables, key_of, choose}
use houdini.Subscriptions.{Spec, FieldSelection}

module _ (stringify : Json → List Char) (variables : Variables) where
  -- One field of one subscriber, without the records it links to.
  unfoldable pub add_field :
      Spec → Field → Option Selection → String → String → Bool → CacheInternal → CacheInternal
  unfolding key_of subscribe_field register_field
  add_field spec field selection parent parent_type masked c =
      let key = key_of stringify field variables in
      let hidden = is_masked masked field in
      let entry : FieldSelection = record {
        spec = spec;
        fields = inner_fields selection (some parent_type);
      } in
      register_field field selection hidden parent key (or_text (some parent_type) spec.root_type)
        variables (subscribe_field parent key entry hidden c)

  unfoldable mutual
    unfolding typename_of value_of children choose add_field key_of

    -- A linked record: its type is looked up, and all the subscribers get the fields of the selection.
    pub add_linked : Selection → List Spec → String → Bool → String → CacheInternal → CacheInternal
    add_linked (Selection.plain fields) specs parent_type masked parent c =
        let found = typename_of parent c in
        each (λ spec. add_fields fields spec specs parent parent_type masked) specs found.0
    add_linked (Selection.abstracted fields alternatives type_map) specs parent_type masked parent
          c =
        let found = typename_of parent c in
        elim (choose found.1 alternatives type_map) [
          | none ↦
              each (λ spec. add_fields fields spec specs parent parent_type masked) specs found.0
          | some name ↦ add_alternative name alternatives specs parent_type masked parent found.0
        ]

    pub add_alternative :
        String → Alternatives → List Spec → String → Bool → String → CacheInternal → CacheInternal
    add_alternative name Alternatives.no_type specs parent_type masked parent c = c
    add_alternative name (Alternatives.for_type n fields rest) specs parent_type masked parent c =
        elim (str_dec name n) [
          | yes p ↦ each (λ spec. add_fields fields spec specs parent parent_type masked) specs c
          | no p ↦ add_alternative name rest specs parent_type masked parent c
        ]

    -- The loop over the fields of one subscriber; `specs` are those of all of them.
    pub add_fields :
        Fields → Spec → List Spec → String → String → Bool → CacheInternal → CacheInternal
    add_fields Fields.nil spec specs parent parent_type masked c = c
    add_fields (Fields.leaf name field rest) spec specs parent parent_type masked c =
        add_fields rest spec specs parent parent_type masked
          (add_field spec field none parent parent_type masked c)
    add_fields (Fields.nested name field selection rest) spec specs parent parent_type masked c =
        let c' = add_field spec field (some selection) parent parent_type masked c in
        let records = children (value_of parent (key_of stringify field variables) c') in
        add_fields rest spec specs parent parent_type masked
          (each (add_linked selection specs field.type (is_masked masked field)) records c')

  abbrev pub or_nil : Option Fields → Fields
  or_nil none = Fields.nil
  or_nil (some fields) = fields

  -- `addMany`
  unfoldable pub add_many :
      List FieldSelection → String → String → Bool → CacheInternal → CacheInternal
  unfolding add_fields
  add_many subscribers parent parent_type masked c =
      each
        (λ s.
          add_fields (or_nil s.fields) s.spec (map (λ t. t.spec) subscribers) parent parent_type
            masked)
        subscribers c
