-- ===== src/Internal/Kept/Batched.antt =====
-- `addMany` of packages/houdini/src/runtime/cache/subscription.ts keeps what its steps keep.
use Prim.Native.Char.{Char}
use houdini.Internal.{CacheInternal, each, typename_of, value_of, children, is_masked, or_text}
use houdini.Internal.Batches
use houdini.Internal.Batches.{add_many, add_linked, or_nil}
use houdini.Json.{Json}
use houdini.Prelude.{Bool, Option, none, some, List, map, String, str_dec}
use houdini.Selections.{Selection, Fields, Alternatives, Field, Variables, key_of, choose}
use houdini.Subscriptions.{Spec, FieldSelection}
use houdini.Internal.Kept.{IsKeptBySteps, each-kept, register_field-kept}

module _ (P : CacheInternal → Type 0) (k : IsKeptBySteps P) where
  module _ (stringify : Json → List Char) (variables : Variables) where
    add_field-kept :
        (spec : Spec) (field : Field) (selection : Option Selection) (parent parent_type : String)
        (masked : Bool) (c : CacheInternal)
        → P c
        → P (Batches.add_field stringify variables spec field selection parent parent_type masked c)
    unfolding Batches.add_field
    add_field-kept spec field selection parent parent_type masked c p =
        register_field-kept P k field selection (is_masked masked field) parent
          (key_of stringify field variables) (or_text (some parent_type) spec.root_type) variables _
          (k.subscribed parent (key_of stringify field variables) _ (is_masked masked field) c p)

    mutual
      unfolding add_linked Batches.add_alternative Batches.add_fields

      add_linked-kept :
          (selection : Selection) (specs : List Spec) (parent_type : String) (masked : Bool)
          (parent : String) (c : CacheInternal)
          → P c
          → P (add_linked stringify variables selection specs parent_type masked parent c)
      add_linked-kept (Selection.plain fields) specs parent_type masked parent c p =
          each-kept P k
            (λ spec.
              Batches.add_fields stringify variables fields spec specs parent parent_type masked)
            (λ spec d q. add_fields-kept fields spec specs parent parent_type masked d q) specs
            (typename_of parent c).0 (k.looked parent c p)
      add_linked-kept (Selection.abstracted fields alternatives type_map) specs parent_type masked
            parent c p =
          let found = typename_of parent c in
          elim (choose found.1 alternatives type_map)
            as (λ d. P (elim d [
              | none ↦
                  each
                    (λ spec.
                      Batches.add_fields stringify variables fields spec specs parent parent_type
                        masked)
                    specs found.0
              | some name ↦
                  Batches.add_alternative stringify variables name alternatives specs parent_type
                    masked parent found.0
            ])) [
              | none ↦
                  each-kept P k
                    (λ spec.
                      Batches.add_fields stringify variables fields spec specs parent parent_type
                        masked)
                    (λ spec d q. add_fields-kept fields spec specs parent parent_type masked d q)
                    specs found.0 (k.looked parent c p)
              | some name ↦
                  add_alternative-kept name alternatives specs parent_type masked parent found.0
                    (k.looked parent c p)
            ]

      add_alternative-kept :
          (name : String) (alternatives : Alternatives) (specs : List Spec) (parent_type : String)
          (masked : Bool) (parent : String) (c : CacheInternal)
          → P c
          → P (
              Batches.add_alternative stringify variables name alternatives specs parent_type masked
                parent c)
      add_alternative-kept name Alternatives.no_type specs parent_type masked parent c p = p
      add_alternative-kept name (Alternatives.for_type n fields rest) specs parent_type masked
            parent c p =
          elim (str_dec name n)
            as (λ d. P (elim d [
              | yes a ↦
                  each
                    (λ spec.
                      Batches.add_fields stringify variables fields spec specs parent parent_type
                        masked)
                    specs c
              | no a ↦
                  Batches.add_alternative stringify variables name rest specs parent_type masked
                    parent c
            ])) [
              | yes a ↦
                  each-kept P k
                    (λ spec.
                      Batches.add_fields stringify variables fields spec specs parent parent_type
                        masked)
                    (λ spec d q. add_fields-kept fields spec specs parent parent_type masked d q)
                    specs c p
              | no a ↦ add_alternative-kept name rest specs parent_type masked parent c p
            ]

      add_fields-kept :
          (fields : Fields) (spec : Spec) (specs : List Spec) (parent parent_type : String)
          (masked : Bool) (c : CacheInternal)
          → P c
          → P (Batches.add_fields stringify variables fields spec specs parent parent_type masked c)
      add_fields-kept Fields.nil spec specs parent parent_type masked c p = p
      add_fields-kept (Fields.leaf name field rest) spec specs parent parent_type masked c p =
          add_fields-kept rest spec specs parent parent_type masked _
            (add_field-kept spec field none parent parent_type masked c p)
      add_fields-kept (Fields.nested name field selection rest) spec specs parent parent_type masked
            c p =
          let c' =
            Batches.add_field stringify variables spec field (some selection) parent parent_type
              masked c in
          let records = children (value_of parent (key_of stringify field variables) c') in
          add_fields-kept rest spec specs parent parent_type masked _ (
            each-kept P k
              (add_linked stringify variables selection specs field.type (is_masked masked field))
              (λ i d q. add_linked-kept selection specs field.type (is_masked masked field) i d q)
              records c' (add_field-kept spec field (some selection) parent parent_type masked c p))

    pub add_many-kept :
        (subscribers : List FieldSelection) (parent parent_type : String) (masked : Bool)
        (c : CacheInternal)
        → P c
        → P (add_many stringify variables subscribers parent parent_type masked c)
    unfolding add_many
    add_many-kept subscribers parent parent_type masked c p =
        let specs = map (λ t. t.spec) subscribers in
        each-kept P k
          (λ s.
            Batches.add_fields stringify variables (or_nil stringify variables s.fields) s.spec
              specs parent parent_type masked)
          (λ s d q.
            add_fields-kept (or_nil stringify variables s.fields) s.spec specs parent parent_type
              masked d q)
          subscribers c p
