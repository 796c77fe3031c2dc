-- ===== src/Internal/Balance.antt =====
-- The walks `add` and `remove` of packages/houdini/src/runtime/cache/subscription.ts against each other.
use Prim.Native.Char.{Char}
use houdini.Internal.{CacheInternal, each, typename_of, value_of, children, is_masked}
use houdini.Internal.Adding.{add_field, add, add_alternative, add_fields}
use houdini.Internal.Steps.{Holds, Holds-equal, typename_of-Holds, add_field-Holds, each-Holds}
use houdini.Internal.Removing.{remove}
use houdini.Internal.Unwinding.{remove-Holds}
use houdini.Subscriptions.Calls.{IsSound}
use houdini.Subscriptions.Index.{references_at}
use houdini.Values.{Value}
use houdini.Internal.Tallies.{tally-children, tally, tally_alternative, tally_fields, sum}
use houdini.Json.{Json}
use houdini.Prelude.{
  ℕ, ◌+◌, ◌≡◌, ◌≢◌, refl, ap, Bool, Option, none, some, List, [], ◌∷◌, String, str_dec, arith,
}
use houdini.Selections.{Selection, Fields, Alternatives, Variables, key_of, choose}
use houdini.Subscriptions.{Spec}
use houdini.Subscriptions.Unshared.{hits}
use houdini.Subscriptions.Apart.{IsUnshared}
use mathlib.Core.Path.{subst}

module _ (start : CacheInternal) (who j g : String) (stringify : Json → List Char) (spec : Spec)
    (variables : Variables) where
  abbrev chosen_tally : Option String → Fields → Alternatives → String → ℕ
  chosen_tally d fields alternatives id = elim d [
    | none ↦ tally_fields stringify variables start who j g spec children fields id
    | some name ↦
        tally_alternative stringify variables start who j g spec children name alternatives id
  ]

  mutual
    unfolding add add_alternative add_fields tally tally_alternative tally_fields

    pub add-Holds :
        (selection : Selection) (parent : String) (parent_type : Option String) (masked : Bool)
        (n : ℕ) (c : CacheInternal)
        → Holds start who j g n c
        → Holds start who j g
            (n + tally stringify variables start who j g spec children selection parent)
            (add stringify spec variables selection parent parent_type masked c)
    add-Holds (Selection.plain fields) parent parent_type masked n c h =
        add_fields-Holds fields (typename_of parent c).1 parent parent_type masked n
          (typename_of parent c).0 (typename_of-Holds start who j g parent n c h)
    add-Holds (Selection.abstracted fields alternatives type_map) parent parent_type masked n c h =
        let found = typename_of parent c in
        subst
          (λ t.
            Holds start who j g
              (n + chosen_tally (choose t alternatives type_map) fields alternatives parent)
              (add stringify spec variables (Selection.abstracted fields alternatives type_map)
                parent parent_type masked c))
          (h.same.types parent)
          (elim (choose found.1 alternatives type_map)
            as (λ d. Holds start who j g (n + chosen_tally d fields alternatives parent) (elim d [
              | none ↦
                  add_fields stringify spec variables fields found.1 parent parent_type masked
                    found.0
              | some name ↦
                  add_alternative stringify spec variables name alternatives found.1 parent
                    parent_type masked found.0
            ])) [
              | none ↦
                  add_fields-Holds fields found.1 parent parent_type masked n found.0
                    (typename_of-Holds start who j g parent n c h)
              | some name ↦
                  add_alternative-Holds name alternatives found.1 parent parent_type masked n
                    found.0 (typename_of-Holds start who j g parent n c h)
            ])

    add_alternative-Holds :
        (name : String) (alternatives : Alternatives) (typename : Option String) (parent : String)
        (parent_type : Option String) (masked : Bool) (n : ℕ) (c : CacheInternal)
        → Holds start who j g n c
        → Holds start who j g
            (n
              + tally_alternative stringify variables start who j g spec children name alternatives
                  parent)
            (add_alternative stringify spec variables name alternatives typename parent parent_type
              masked c)
    add_alternative-Holds name Alternatives.no_type typename parent parent_type masked n c h =
        Holds-equal start who j g n (n + 0) c (omega arith) h
    add_alternative-Holds name (Alternatives.for_type m fields rest) typename parent parent_type
          masked n c h =
        elim (str_dec name m)
          as (λ d.
            Holds start who j g
              (n + elim d [
                | yes p ↦ tally_fields stringify variables start who j g spec children fields parent
                | no p ↦
                    tally_alternative stringify variables start who j g spec children name rest
                      parent
              ])
              (elim d [
                | yes p ↦
                    add_fields stringify spec variables fields typename parent parent_type masked c
                | no p ↦
                    add_alternative stringify spec variables name rest typename parent parent_type
                      masked c
              ])) [
                | yes p ↦ add_fields-Holds fields typename parent parent_type masked n c h
                | no p ↦ add_alternative-Holds name rest typename parent parent_type masked n c h
              ]

    add_fields-Holds :
        (fields : Fields) (typename : Option String) (parent : String) (parent_type : Option String)
        (masked : Bool) (n : ℕ) (c : CacheInternal)
        → Holds start who j g n c
        → Holds start who j g
            (n + tally_fields stringify variables start who j g spec children fields parent)
            (add_fields stringify spec variables fields typename parent parent_type masked c)
    add_fields-Holds Fields.nil typename parent parent_type masked n c h =
        Holds-equal start who j g n (n + 0) c (omega arith) h
    add_fields-Holds (Fields.leaf name field rest) typename parent parent_type masked n c h =
        let key = key_of stringify field variables in
        let hit = hits who j g spec parent key in
        let c' =
          add_field stringify spec variables field none typename parent parent_type masked c in
        let rest_tally = tally_fields stringify variables start who j g spec children rest parent in
        Holds-equal start who j g (n + hit + rest_tally) (n + (hit + rest_tally))
          (add_fields stringify spec variables rest typename parent parent_type masked c')
          (omega arith)
          (add_fields-Holds rest typename parent parent_type masked (n + hit) c' (
            add_field-Holds start who j g stringify spec variables field none typename parent
              parent_type masked n c h))
    add_fields-Holds (Fields.nested name field selection rest) typename parent parent_type masked n
          c h =
        let key = key_of stringify field variables in
        let hit = hits who j g spec parent key in
        let hidden = is_masked masked field in
        let c' =
          add_field stringify spec variables field (some selection) typename parent parent_type
            masked c in
        let h' =
          add_field-Holds start who j g stringify spec variables field (some selection) typename
            parent parent_type masked n c h in
        let records = children (value_of parent key c') in
        let body : String → CacheInternal → CacheInternal =
          λ child. add stringify spec variables selection child (some field.type) hidden in
        let t : String → ℕ = tally stringify variables start who j g spec children selection in
        let rest_tally = tally_fields stringify variables start who j g spec children rest parent in
        let all_records : sum t records ≡ sum t (children (value_of parent key start)) =
          ap (λ v. sum t (children v)) (h'.same.values parent key) in
        Holds-equal start who j g (n + hit + sum t records + rest_tally)
          (n + (hit + (sum t (children (value_of parent key start)) + rest_tally)))
          (add_fields stringify spec variables rest typename parent parent_type masked
            (each body records c'))
          (omega (arith, all_records))
          (add_fields-Holds rest typename parent parent_type masked (n + hit + sum t records)
            (each body records c')
            (each-Holds start who j g body t records
              (λ child m d k. add-Holds selection child (some field.type) hidden m d k) (n + hit) c'
              h'))

-- A document that is subscribed to a selection of a record and unsubscribed again, while the store
-- stays as it is, leaves every callback with the references to every field of every record that it had
-- before, whatever lies behind a mask on either walk. The index is one that the methods have made, no
-- two ids share a map of fields, and no record has an empty id.
pub references_at-remove-add :
    (c : CacheInternal) (who id key : String) (stringify : Json → List Char) (spec : Spec)
    (variables : Variables) (selection : Selection) (parent : String) (parent_type : Option String)
    (masked masked_later : Bool)
    → IsSound c.subscriptions.subscribers
    → IsUnshared c.subscriptions.subscribers
    → ((key : String) → value_of "" key c ≡ Value.undefined)
    → id ≢ ""
    → references_at who id key
        (remove stringify
          (spec ∷ [])
          variables
          selection
          masked_later
          parent
          (add stringify spec variables selection parent parent_type masked c)).subscriptions
      ≡ references_at who id key c.subscriptions
references_at-remove-add c who id key stringify spec variables selection parent parent_type masked
      masked_later sound unshared empty apart =
    let n = references_at who id key c.subscriptions in
    let t = tally stringify variables c who id key spec in
    let first : Holds c who id key n c = record {
      same = record { values = λ i k. refl; types = λ i. refl };
      sound = sound;
      unshared = unshared;
      count = refl;
    } in
    let added =
      add-Holds c who id key stringify spec variables selection parent parent_type masked n c
        first in
    let c' = add stringify spec variables selection parent parent_type masked c in
    let removed =
      remove-Holds c who id key stringify spec variables selection masked_later parent
        (n + t children selection parent) c' added in
    omega (
      arith,
      removed.count,
      tally-children stringify variables c who id key spec apart empty selection parent,
    )
