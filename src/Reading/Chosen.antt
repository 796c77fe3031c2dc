-- ===== src/Reading/Chosen.antt =====
-- The fields that `getSelection` of packages/houdini/src/runtime/cache/index.ts reads of a record: those of the
-- alternative for its type.
use houdini.Prelude.{
  ℕ, ◌≡◌, refl, inl, inr, Option-cases, Option, none, some, String, arith, Dict, lookup,
}
use houdini.Reading.{Reader, Request, Outcome, Progress, start, finish}
use houdini.Reading.Walk.{read_fields, read_alternative, read_selection}
use houdini.Selections.{
  FragmentMap, Selection, Fields, Alternatives, choose, alternative, get_fields_for_type,
  truthy_text,
}
use houdini.Stale.{StaleManager}
use houdini.Storage.{Storage}
use houdini.Storage.Get

or_no_fields : Option Fields → Fields
or_no_fields none = Fields.nil
or_no_fields (some fields) = fields

module _ (reader : Reader) (request : Request) (times : StaleManager) where
  read_alternative_lem :
      (name : String) (alternatives : Alternatives) (steps : Option ℕ) (parent : String)
      (progress : Progress)
      → read_alternative reader request times name alternatives steps parent progress
        ≡ read_fields reader request times
            (or_no_fields (alternative name alternatives))
            steps
            parent
            progress
  unfolding read_fields alternative or_no_fields
  read_alternative_lem name Alternatives.no_type steps parent progress = refl
  read_alternative_lem name (Alternatives.for_type n fields rest) steps parent progress =
      ground (arith, read_alternative_lem name rest steps parent progress)

  -- The alternative that is chosen is the one whose fields are read.
  chosen_lem :
      (typename : Option String) (fields : Fields) (alternatives : Alternatives)
      (type_map : Dict String) (steps : Option ℕ) (parent : String) (progress : Progress)
      → elim (choose typename alternatives type_map) as (λ x. Outcome) [
        | none ↦ finish (read_fields reader request times fields steps parent progress)
        | some name ↦
            finish (read_alternative reader request times name alternatives steps parent progress)
      ]
        ≡ finish (
            read_fields reader request times
              (get_fields_for_type (Selection.abstracted fields alternatives type_map) typename)
              steps
              parent
              progress)
  unfolding get_fields_for_type or_no_fields
  chosen_lem typename fields alternatives type_map steps parent progress =
      elim (Option-cases (truthy_text typename)) [
        | inl e ↦ rw (get_fields_for_type, e) refl
        | inr (name, e) ↦ elim (Option-cases (truthy_text (lookup name type_map))) [
          | inl f ↦ elim (Option-cases (alternative name alternatives)) [
            | inl g ↦ rw (get_fields_for_type, e, f, g) refl
            | inr (found, g) ↦
                rw
                  (
                    get_fields_for_type,
                    e,
                    f,
                    g,
                    read_alternative_lem name alternatives steps parent progress,
                    g,
                  )
                  refl
          ]
          | inr (mapped, f) ↦
              rw
                (
                  get_fields_for_type,
                  e,
                  f,
                  read_alternative_lem mapped alternatives steps parent progress,
                )
                (elim (Option-cases (alternative mapped alternatives)) [
                  | inl g ↦ rw g refl
                  | inr (found, g) ↦ rw g refl
                ])
        ]
      ]

  -- What the walk reads, written with the fields for the type of the record.
  pub read_selection_lem :
      (fragments : Option FragmentMap) (selection : Selection) (steps : Option ℕ) (parent : String)
      (s : Storage)
      → read_selection reader request times fragments selection steps parent s
        ≡ finish (
            read_fields reader request times
              (get_fields_for_type selection (Get.get_typename parent s).1)
              steps
              parent
              (start request.variables fragments parent (Get.get_typename parent s).0))
  unfolding read_selection
  read_selection_lem fragments (Selection.plain fields) steps parent s =
      unfold get_fields_for_type in refl
  read_selection_lem fragments (Selection.abstracted fields alternatives type_map) steps parent s =
      let found = Get.get_typename parent s in
      chosen_lem found.1 fields alternatives type_map steps parent
        (start request.variables fragments parent found.0)
