-- ===== src/Reading/FullCheck.antt =====
-- The full check of `getSelection` (packages/houdini/src/runtime/cache/index.ts): a read that hides masked
-- fields but checks them, beside a read that shows them.
use houdini.Prelude.{
  fun_ext, ℕ, ◌≡◌, refl, sym, ◌∙◌, ap, inl, inr, Bool-cases, Bool, true, false, Option, none, some,
  String, str_dec, if◌then◌else◌,
}
use houdini.Reading.{
  Reader, Request, Outcome, Progress, Part, start, is_left_out, scalar_part, finish, parent_of,
  next_step, is_embedded_cursor,
}
use houdini.Reading.Walk.{
  read_field, read_fields, read_alternative, is_marked, read_selection, linked_part,
}
use houdini.Reading.Verdicts.{
  Verdict, verdict, of_progress, of_part, settled, finished, of_progress-settle_field,
  verdict-finish, linked_part_same,
}
use houdini.Selections.{
  FragmentMap, key_of, choose, Selection, Fields, Alternatives, Field, Variables,
}
use houdini.Stale.{StaleManager}
use houdini.Storage.{Storage}
use houdini.Storage.Get
use houdini.Values.{Value}

-- A read that hides masked fields and checks them.
abbrev pub checking : Variables → Request
checking variables = record { variables = variables; ignore_masking = false; full_check = true }

-- A read that shows masked fields.
abbrev pub showing : Variables → Bool → Request
showing variables full = record { variables = variables; ignore_masking = true; full_check = full }

is_left_out_same :
    (variables : Variables) (full : Bool) (field : Field)
    → is_left_out (checking variables) field ≡ is_left_out (showing variables full) field
unfolding is_left_out
is_left_out_same variables full field = elim (Bool-cases field.visible) [
  | inl e ↦ rw e refl
  | inr e ↦ rw e refl
]

module _ (reader : Reader) (times : StaleManager) where
  module _ (name : String) (field : Field) (steps : Option ℕ) (parent : String) where
    abbrev value_in : String → Storage → Value
    value_in key s = (Get.get parent key s).value

    -- The loop's body, on verdicts.
    abbrev stepped : String → Bool → (Storage → Verdict × Bool) → Verdict → Verdict
    stepped key left_out part v =
        if left_out
        then v
        else settled field (is_embedded_cursor key steps) (value_in key v.storage)
            (is_marked parent key times) (part v.storage) v

    of_progress-read_field :
        (request : Request) (part : Value → Storage → Part) (p : Progress)
        → of_progress (read_field reader request times part name field steps parent p)
          ≡ stepped
              (key_of reader.stringify field request.variables)
              (is_left_out request field)
              (λ s. of_part (part (value_in (key_of reader.stringify field request.variables) s) s))
              (of_progress p)
    unfolding read_field
    of_progress-read_field request part p =
        let key = key_of reader.stringify field request.variables in
        elim (Bool-cases (is_left_out request field)) [
          | inl out ↦ rw out refl
          | inr kept ↦ rw kept (
              of_progress-settle_field request parent name field (is_embedded_cursor key steps)
                (value_in key p.storage) (is_marked parent key times)
                (part (value_in key p.storage) p.storage) p)
        ]

    read_field_same :
        (variables : Variables) (full : Bool) (part other : Value → Storage → Part)
        → ((value : Value) (s : Storage) → of_part (part value s) ≡ of_part (other value s))
        → (p s : Progress) → of_progress p ≡ of_progress s
        → of_progress (read_field reader (checking variables) times part name field steps parent p)
          ≡ of_progress
              (read_field reader (showing variables full) times other name field steps parent s)
    read_field_same variables full part other same p s e =
        let key = key_of reader.stringify field variables in
        of_progress-read_field (checking variables) part p
        ∙ ap (λ (b : Bool). stepped key b (λ s. of_part (part (value_in key s) s)) (of_progress p))
            (is_left_out_same variables full field)
        ∙ ap
            (λ (f : Storage → Verdict × Bool).
              stepped key (is_left_out (showing variables full) field) f (of_progress p))
            (fun_ext (λ s. same (value_in key s) s))
        ∙ ap
            (stepped key (is_left_out (showing variables full) field)
              (λ s. of_part (other (value_in key s) s)))
            e
        ∙ sym (of_progress-read_field (showing variables full) other s)

  module _ (variables : Variables) (full : Bool) where
    abbrev checks : Option FragmentMap → Selection → Option ℕ → String → Storage → Outcome
    checks = read_selection reader (checking variables) times

    abbrev shows : Option FragmentMap → Selection → Option ℕ → String → Storage → Outcome
    shows = read_selection reader (showing variables full) times

    finish_same :
        (p s : Progress) → of_progress p ≡ of_progress s → verdict (finish p) ≡ verdict (finish s)
    finish_same p s e = verdict-finish p ∙ ap finished e ∙ sym (verdict-finish s)

    mutual
      unfolding read_selection

      read_selection_same :
          (fragments : Option FragmentMap) (selection : Selection) (steps : Option ℕ)
          (parent : String) (s : Storage)
          → verdict (checks fragments selection steps parent s)
            ≡ verdict (shows fragments selection steps parent s)
      read_selection_same fragments (Selection.plain fields) steps parent s = finish_same _ _ (
          read_fields_same fields steps parent
            (start variables fragments parent (Get.get_typename parent s).0)
            (start variables fragments parent (Get.get_typename parent s).0) refl)
      read_selection_same fragments (Selection.abstracted fields alternatives type_map) steps parent
            s =
          let found = Get.get_typename parent s in
          let outcome : Request → Option String → Outcome = λ request chosen.
            elim chosen as (λ x. Outcome) [
              | none ↦ finish (
                  read_fields reader request times fields steps parent
                    (start variables fragments parent found.0))
              | some name ↦ finish (
                  read_alternative reader request times name alternatives steps parent
                    (start variables fragments parent found.0))
            ] in
          elim (choose found.1 alternatives type_map)
            as (λ x.
              verdict (outcome (checking variables) x)
              ≡ verdict (outcome (showing variables full) x)) [
                | none ↦ finish_same _ _ (
                    read_fields_same fields steps parent (start variables fragments parent found.0)
                      (start variables fragments parent found.0) refl)
                | some name ↦ finish_same _ _ (
                    read_alternative_same name alternatives steps parent
                      (start variables fragments parent found.0)
                      (start variables fragments parent found.0) refl)
              ]

      read_alternative_same :
          (name : String) (alternatives : Alternatives) (steps : Option ℕ) (parent : String)
          (p s : Progress)
          → of_progress p ≡ of_progress s
          → of_progress
              (read_alternative reader (checking variables) times name alternatives steps parent p)
            ≡ of_progress (
                read_alternative reader
                  (showing variables full)
                  times
                  name
                  alternatives
                  steps
                  parent
                  s)
      read_alternative_same name Alternatives.no_type steps parent p s e = e
      read_alternative_same name (Alternatives.for_type n fields rest) steps parent p s e =
          let next : Request → Progress → Dec (name ≡ n) → Progress = λ request from d.
            elim d as (λ x. Progress) [
              | yes h ↦ read_fields reader request times fields steps parent from
              | no h ↦ read_alternative reader request times name rest steps parent from
            ] in
          elim (str_dec name n)
            as (λ d.
              of_progress (next (checking variables) p d)
              ≡ of_progress (next (showing variables full) s d)) [
                | yes h ↦ read_fields_same fields steps parent p s e
                | no h ↦ read_alternative_same name rest steps parent p s e
              ]

      read_fields_same :
          (fields : Fields) (steps : Option ℕ) (parent : String) (p s : Progress)
          → of_progress p ≡ of_progress s
          → of_progress (read_fields reader (checking variables) times fields steps parent p)
            ≡ of_progress (read_fields reader (showing variables full) times fields steps parent s)
      read_fields_same Fields.nil steps parent p s e = e
      read_fields_same (Fields.leaf name field rest) steps parent p s e =
          let part = scalar_part reader field in
          read_fields_same rest steps parent
            (read_field reader (checking variables) times part name field steps parent p)
            (read_field reader (showing variables full) times part name field steps parent s)
            (read_field_same name field steps parent variables full part part (λ v t. refl) p s e)
      read_fields_same (Fields.nested name field selection rest) steps parent p s e =
          let part =
            λ (read : Option FragmentMap → Selection → Option ℕ → String → Storage → Outcome)
                (v : Value) (t : Storage).
              linked_part
                (λ value u.
                  read field.fragments selection (next_step field.list steps)
                    (parent_of reader value) u)
                field v t in
          read_fields_same rest steps parent
            (read_field reader (checking variables) times (part checks) name field steps parent p)
            (read_field reader (showing variables full) times (part shows) name field steps parent
              s)
            (read_field_same name field steps parent variables full (part checks) (part shows)
              (λ v t.
                linked_part_same
                  (λ value u.
                    checks field.fragments selection (next_step field.list steps)
                      (parent_of reader value) u)
                  (λ value u.
                    shows field.fragments selection (next_step field.list steps)
                      (parent_of reader value) u)
                  field.nullable
                  (λ value u.
                    read_selection_same field.fragments selection (next_step field.list steps)
                      (parent_of reader value) u)
                  field v t refl)
              p s e)

  -- A read that hides masked fields but checks them says the same of its data as a read that shows them:
  -- whether it is partial or stale, whether there is any, and whether the whole is null.
  pub verdict-read_selection :
      (variables : Variables) (full : Bool) (fragments : Option FragmentMap) (selection : Selection)
      (steps : Option ℕ) (parent : String) (s : Storage)
      → verdict
          (read_selection reader (checking variables) times fragments selection steps parent s)
        ≡ verdict (
            read_selection reader (showing variables full) times fragments selection steps parent s)
  verdict-read_selection variables full fragments selection steps parent s =
      read_selection_same variables full fragments selection steps parent s
