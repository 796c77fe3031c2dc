-- ===== src/Internal/Tallies.antt =====
-- How often a walk over a selection comes to a field of a record, in a store that does not change.
use Prim.Native.Char.{Char}
use houdini.Internal.{CacheInternal, typename_of, value_of, linked, children}
use houdini.Json.{Json}
use houdini.Prelude.{
  ℕ, ◌+◌, ◌≡◌, ◌≢◌, refl, ap, ◌∙◌, sym, none, some, List, [], ◌∷◌, String, str_dec, ite, arith,
}
use houdini.Selections.{Selection, Fields, Alternatives, Variables, key_of, choose}
use houdini.Subscriptions.{Spec}
use houdini.Subscriptions.Unshared.{hits}
use houdini.Values.{Value}

abbrev pub sum : (String → ℕ) → List String → ℕ
sum f [] = 0
sum f (id ∷ ids) = f id + sum f ids

module _ (stringify : Json → List Char) (variables : Variables) (start : CacheInternal) where
  module _ (who j g : String) (spec : Spec) where
    -- `next` gives the records that a value links to.
    unfoldable mutual
      unfolding typename_of value_of choose key_of hits

      pub tally : (Value → List String) → Selection → String → ℕ
      tally next (Selection.plain fields) id = tally_fields next fields id
      tally next (Selection.abstracted fields alternatives type_map) id =
          elim (choose (typename_of id start).1 alternatives type_map) [
            | none ↦ tally_fields next fields id
            | some name ↦ tally_alternative next name alternatives id
          ]

      pub tally_alternative : (Value → List String) → String → Alternatives → String → ℕ
      tally_alternative next name Alternatives.no_type id = 0
      tally_alternative next name (Alternatives.for_type n fields rest) id = elim (str_dec name n) [
        | yes p ↦ tally_fields next fields id
        | no p ↦ tally_alternative next name rest id
      ]

      pub tally_fields : (Value → List String) → Fields → String → ℕ
      tally_fields next Fields.nil id = 0
      tally_fields next (Fields.leaf name field rest) id =
          hits who j g spec id (key_of stringify field variables) + tally_fields next rest id
      tally_fields next (Fields.nested name field selection rest) id =
          let key = key_of stringify field variables in
          hits who j g spec id key
          + (sum (tally next selection) (next (value_of id key start)) + tally_fields next rest id)

    linked-undefined : linked Value.undefined ≡ []
    unfolding linked
    linked-undefined = refl

    sum_same :
        (f h : String → ℕ) (ids : List String)
        → ((id : String) → f id ≡ h id)
        → sum f ids ≡ sum h ids
    sum_same f h [] same = refl
    sum_same f h (id ∷ ids) same = omega (arith, same id, sum_same f h ids same)

    module _ (apart : j ≢ "")
        (empty : (key : String) → value_of "" key start ≡ Value.undefined) where
      no_hit : (key : String) → hits who j g spec "" key ≡ 0
      unfolding hits
      no_hit key = ground (arith, apart)

      -- From the record with the empty id a walk goes nowhere, and counts nothing.
      mutual
        unfolding tally tally_alternative tally_fields

        tally_empty : (selection : Selection) → tally linked selection "" ≡ 0
        tally_empty (Selection.plain fields) = tally_fields_empty fields
        tally_empty (Selection.abstracted fields alternatives type_map) =
            elim (choose (typename_of "" start).1 alternatives type_map)
              as (λ d.
                elim d [
                  | none ↦ tally_fields linked fields ""
                  | some name ↦ tally_alternative linked name alternatives ""
                ]
                ≡ 0) [
                  | none ↦ tally_fields_empty fields
                  | some name ↦ tally_alternative_empty name alternatives
                ]

        tally_alternative_empty :
            (name : String) (alternatives : Alternatives)
            → tally_alternative linked name alternatives "" ≡ 0
        tally_alternative_empty name Alternatives.no_type = refl
        tally_alternative_empty name (Alternatives.for_type n fields rest) =
            elim (str_dec name n)
              as (λ d.
                elim d [
                  | yes p ↦ tally_fields linked fields ""
                  | no p ↦ tally_alternative linked name rest ""
                ]
                ≡ 0) [
                  | yes p ↦ tally_fields_empty fields
                  | no p ↦ tally_alternative_empty name rest
                ]

        tally_fields_empty : (fields : Fields) → tally_fields linked fields "" ≡ 0
        tally_fields_empty Fields.nil = refl
        tally_fields_empty (Fields.leaf name field rest) =
            omega (arith, no_hit (key_of stringify field variables), tally_fields_empty rest)
        tally_fields_empty (Fields.nested name field selection rest) =
            let none_next : linked (value_of "" (key_of stringify field variables) start) ≡ [] =
              ap linked (empty (key_of stringify field variables)) ∙ linked-undefined in
            rw none_next
              (omega (arith, no_hit (key_of stringify field variables), tally_fields_empty rest))

      sum-children : (f : String → ℕ) (v : Value) → f "" ≡ 0 → sum f (linked v) ≡ sum f (children v)
      unfolding linked children
      sum-children f Value.undefined zero_at = refl
      sum-children f Value.null zero_at = refl
      sum-children f (Value.str s) zero_at =
          elim (str_dec s "") as (λ d. f s + 0 ≡ sum f (ite d [] (s ∷ []))) [
            | yes p ↦ rw (p, zero_at) (omega arith)
            | no p ↦ refl
          ]
      sum-children f (Value.other b n) zero_at = refl
      sum-children f (Value.function n) zero_at = refl
      sum-children f (Value.array xs) zero_at = refl

      -- The walk that adds subscriptions and the one that removes them come to the same fields.
      mutual
        unfolding tally tally_alternative tally_fields

        pub tally-children :
            (selection : Selection) (id : String)
            → tally linked selection id ≡ tally children selection id
        tally-children (Selection.plain fields) id = tally_fields-children fields id
        tally-children (Selection.abstracted fields alternatives type_map) id =
            elim (choose (typename_of id start).1 alternatives type_map)
              as (λ d.
                elim d [
                  | none ↦ tally_fields linked fields id
                  | some name ↦ tally_alternative linked name alternatives id
                ]
                ≡ elim d [
                  | none ↦ tally_fields children fields id
                  | some name ↦ tally_alternative children name alternatives id
                ]) [
                  | none ↦ tally_fields-children fields id
                  | some name ↦ tally_alternative-children name alternatives id
                ]

        tally_alternative-children :
            (name : String) (alternatives : Alternatives) (id : String)
            → tally_alternative linked name alternatives id
              ≡ tally_alternative children name alternatives id
        tally_alternative-children name Alternatives.no_type id = refl
        tally_alternative-children name (Alternatives.for_type n fields rest) id =
            elim (str_dec name n)
              as (λ d.
                elim d [
                  | yes p ↦ tally_fields linked fields id
                  | no p ↦ tally_alternative linked name rest id
                ]
                ≡ elim d [
                  | yes p ↦ tally_fields children fields id
                  | no p ↦ tally_alternative children name rest id
                ]) [
                  | yes p ↦ tally_fields-children fields id
                  | no p ↦ tally_alternative-children name rest id
                ]

        tally_fields-children :
            (fields : Fields) (id : String)
            → tally_fields linked fields id ≡ tally_fields children fields id
        tally_fields-children Fields.nil id = refl
        tally_fields-children (Fields.leaf name field rest) id =
            omega (arith, tally_fields-children rest id)
        tally_fields-children (Fields.nested name field selection rest) id =
            let v = value_of id (key_of stringify field variables) start in
            let zero_at : tally children selection "" ≡ 0 =
              sym (tally-children selection "") ∙ tally_empty selection in
            omega (
              arith,
              tally_fields-children rest id,
              sum_same (tally linked selection) (tally children selection) (linked v)
                  (λ x. tally-children selection x),
              sum-children (tally children selection) v zero_at,
            )
