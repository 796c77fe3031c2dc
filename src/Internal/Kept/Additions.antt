-- ===== src/Internal/Kept/Additions.antt =====
-- `add` of packages/houdini/src/runtime/cache/subscription.ts keeps what its steps keep.
use Prim.Native.Char.{Char}
use houdini.Internal.{CacheInternal, typename_of, value_of, children, is_masked, or_text}
use houdini.Internal.Adding
use houdini.Internal.Adding.{add}
use houdini.Json.{Json}
use houdini.Prelude.{Bool, Option, none, some, List, String, str_dec}
use houdini.Selections.{Selection, Fields, Alternatives, Field, Variables, key_of, choose}
use houdini.Subscriptions.{Spec}
use houdini.Internal.Kept.{IsKeptBySteps, each-kept, register_field-kept}

module _ (P : CacheInternal → Type 0) (k : IsKeptBySteps P) where
  module _ (stringify : Json → List Char) where
    module _ (spec : Spec) (variables : Variables) where
      add_field-kept :
          (field : Field) (selection : Option Selection) (typename : Option String)
          (parent : String) (parent_type : Option String) (masked : Bool) (c : CacheInternal)
          → P c
          → P (
              Adding.add_field stringify spec variables field selection typename parent parent_type
                masked c)
      unfolding Adding.add_field
      add_field-kept field selection typename parent parent_type masked c p =
          register_field-kept P k field selection (is_masked masked field) parent
            (key_of stringify field variables) (or_text parent_type spec.root_type) variables _
            (k.subscribed parent (key_of stringify field variables) _ (is_masked masked field) c p)

      mutual
        unfolding add Adding.add_alternative Adding.add_fields

        pub add-kept :
            (selection : Selection) (parent : String) (parent_type : Option String) (masked : Bool)
            (c : CacheInternal)
            → P c
            → P (add stringify spec variables selection parent parent_type masked c)
        add-kept (Selection.plain fields) parent parent_type masked c p =
            add_fields-kept fields (typename_of parent c).1 parent parent_type masked
              (typename_of parent c).0 (k.looked parent c p)
        add-kept (Selection.abstracted fields alternatives type_map) parent parent_type masked c p =
            let found = typename_of parent c in
            elim (choose found.1 alternatives type_map)
              as (λ d. P (elim d [
                | none ↦
                    Adding.add_fields stringify spec variables fields found.1 parent parent_type
                      masked found.0
                | some name ↦
                    Adding.add_alternative stringify spec variables name alternatives found.1 parent
                      parent_type masked found.0
              ])) [
                | none ↦
                    add_fields-kept fields found.1 parent parent_type masked found.0
                      (k.looked parent c p)
                | some name ↦
                    add_alternative-kept name alternatives found.1 parent parent_type masked found.0
                      (k.looked parent c p)
              ]

        add_alternative-kept :
            (name : String) (alternatives : Alternatives) (typename : Option String)
            (parent : String) (parent_type : Option String) (masked : Bool) (c : CacheInternal)
            → P c
            → P (
                Adding.add_alternative stringify spec variables name alternatives typename parent
                  parent_type masked c)
        add_alternative-kept name Alternatives.no_type typename parent parent_type masked c p = p
        add_alternative-kept name (Alternatives.for_type n fields rest) typename parent parent_type
              masked c p =
            elim (str_dec name n)
              as (λ d. P (elim d [
                | yes a ↦
                    Adding.add_fields stringify spec variables fields typename parent parent_type
                      masked c
                | no a ↦
                    Adding.add_alternative stringify spec variables name rest typename parent
                      parent_type masked c
              ])) [
                | yes a ↦ add_fields-kept fields typename parent parent_type masked c p
                | no a ↦ add_alternative-kept name rest typename parent parent_type masked c p
              ]

        add_fields-kept :
            (fields : Fields) (typename : Option String) (parent : String)
            (parent_type : Option String) (masked : Bool) (c : CacheInternal)
            → P c
            → P (
                Adding.add_fields stringify spec variables fields typename parent parent_type masked
                  c)
        add_fields-kept Fields.nil typename parent parent_type masked c p = p
        add_fields-kept (Fields.leaf name field rest) typename parent parent_type masked c p =
            add_fields-kept rest typename parent parent_type masked _
              (add_field-kept field none typename parent parent_type masked c p)
        add_fields-kept (Fields.nested name field selection rest) typename parent parent_type masked
              c p =
            let c' =
              Adding.add_field stringify spec variables field (some selection) typename parent
                parent_type masked c in
            add_fields-kept rest typename parent parent_type masked _ (
              each-kept P k
                (λ child.
                  add stringify spec variables selection child (some field.type)
                    (is_masked masked field))
                (λ child d q.
                  add-kept selection child (some field.type) (is_masked masked field) d q)
                (children (value_of parent (key_of stringify field variables) c')) c'
                (add_field-kept field (some selection) typename parent parent_type masked c p))
