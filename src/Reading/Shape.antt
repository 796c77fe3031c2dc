-- ===== src/Reading/Shape.antt =====
-- The object that `getSelection` of packages/houdini/src/runtime/cache/index.ts returns: its keys, and the
-- fields that must not be null.
use houdini.Outputs.{Output, is_null}
use houdini.Prelude.{
  ℕ, ◌≡◌, ◌≢◌, refl, sym, ◌∙◌, ap, inl, inr, Bool-cases, true, false, Option, some, List, [], ◌∷◌,
  ◌++◌, String, if_pos, if_neg, str_dec, arith, Distinct, keys, lookup, contains, contains-append,
  if◌then◌else◌,
}
use houdini.Reading.Fields.{
  names, read_names, HasField, lookup-read_field_other, read_field-cascade_null, keys-read_field,
  lookup-read_field,
}
use houdini.Reading.{
  Reader, Request, Outcome, Progress, Part, is_left_out, is_shown, is_embedded_cursor, scalar_part,
  next_step, parent_of,
}
use houdini.Reading.Walk.{read_field, read_fields, read_selection, linked_part}
use houdini.Selections.{Selection, Fields, Field, key_of}
use houdini.Stale.{StaleManager}
use houdini.Storage.{Storage}
use houdini.Values.{Value}
use mathlib.Core.List.{append-nil, append_assoc}

contains_split :
    (k n : String) (ns : List String)
    → contains k (n ∷ ns) ≡ false
    → (k ≢ n) × (contains k ns ≡ false)
contains_split k n ns h = elim (str_dec k n) [
  | yes p ↦ cc (sym (if_pos (str_dec k n) p true (contains k ns)) ∙ h)
  | no p ↦ (p, sym (if_neg (str_dec k n) p true (contains k ns)) ∙ h)
]

-- A name in the middle of distinct ones is not before it, and the rest is distinct with it moved.
Distinct-middle :
    (xs : List String) (n : String) (ns : List String)
    → Distinct (xs ++ n ∷ ns)
    → (contains n xs ≡ false) × Distinct (xs ++ ns) × Distinct ((xs ++ n ∷ []) ++ ns)
Distinct-middle [] n ns h = (refl, h.1, h)
Distinct-middle (x ∷ xs) n ns (a, h) =
    let (fresh, without, moved) = Distinct-middle xs n ns h in
    (
      ground (arith, contains-append x xs (n ∷ ns)),
      (ground (arith, contains-append x xs (n ∷ ns), contains-append x xs ns), without),
      (
        ground (
          arith,
          contains-append x xs (n ∷ ns),
          contains-append x (xs ++ n ∷ []) ns,
          contains-append x xs (n ∷ []),
        ),
        moved,
      ),
    )

module _ (reader : Reader) (request : Request) (times : StaleManager) where
  -- `read` of one field with a selection
  abbrev pub read_link : Field → Selection → Option ℕ → Value → Storage → Outcome
  read_link field selection steps value s =
      read_selection reader request times field.fragments selection (next_step field.list steps)
        (parent_of reader value) s

  abbrev pub nested_part : Field → Selection → Option ℕ → Value → Storage → Part
  nested_part field selection steps = linked_part (read_link field selection steps) field

  pub lookup-read_fields_other :
      (k : String) (fields : Fields) (steps : Option ℕ) (parent : String) (progress : Progress)
      → contains k (names fields) ≡ false
      → lookup k (read_fields reader request times fields steps parent progress).target
        ≡ lookup k progress.target
  unfolding read_fields
  lookup-read_fields_other k Fields.nil steps parent progress h = refl
  lookup-read_fields_other k (Fields.leaf name field rest) steps parent progress h =
      let (other, outside) = contains_split k name (names rest) h in
      lookup-read_fields_other k rest steps parent _ outside
      ∙ lookup-read_field_other reader request times (scalar_part reader field) name field steps
          parent progress k other
  lookup-read_fields_other k (Fields.nested name field selection rest) steps parent progress h =
      let (other, outside) = contains_split k name (names rest) h in
      lookup-read_fields_other k rest steps parent _ outside
      ∙ lookup-read_field_other reader request times (nested_part field selection steps) name field
          steps parent progress k other

  read_fields-cascade_null :
      (fields : Fields) (steps : Option ℕ) (parent : String) (progress : Progress)
      → (read_fields reader request times fields steps parent progress).cascade_null ≡ false
      → progress.cascade_null ≡ false
  unfolding read_fields
  read_fields-cascade_null Fields.nil steps parent progress h = h
  read_fields-cascade_null (Fields.leaf name field rest) steps parent progress h =
      read_field-cascade_null reader request times (scalar_part reader field) name field steps
        parent progress (read_fields-cascade_null rest steps parent _ h)
  read_fields-cascade_null (Fields.nested name field selection rest) steps parent progress h =
      read_field-cascade_null reader request times (nested_part field selection steps) name field
        steps parent progress (read_fields-cascade_null rest steps parent _ h)

  keys_step :
      (part : Value → Storage → Part) (name : String) (field : Field) (rest : Fields)
      (steps : Option ℕ) (parent : String) (progress : Progress)
      → request.full_check ≡ false
      → Distinct (keys progress.target ++ name ∷ names rest)
      → (Distinct (
            keys (read_field reader request times part name field steps parent progress).target
            ++ names rest)
          → keys
              (read_fields reader request times rest steps parent
                (read_field reader request times part name field steps parent progress)).target
            ≡ keys (read_field reader request times part name field steps parent progress).target
              ++ read_names request rest)
      → keys
          (read_fields reader request times rest steps parent
            (read_field reader request times part name field steps parent progress)).target
        ≡ keys progress.target
          ++ (if is_left_out request field
              then read_names request rest
              else name ∷ read_names request rest)
  unfolding read_names
  keys_step part name field rest steps parent progress full h ih =
      let (fresh, without, moved) = Distinct-middle (keys progress.target) name (names rest) h in
      let one =
        keys-read_field reader request times part name field steps parent progress full fresh in
      elim (Bool-cases (is_left_out request field)) [
        | inl out ↦
            let same = rw out at one in
            rw out (ih (rw same without) ∙ ap (λ ks. ks ++ read_names request rest) same)
        | inr kept ↦
            let grown = rw kept at one in
            rw kept (
              ih (rw grown moved)
              ∙ ap (λ ks. ks ++ read_names request rest) grown
              ∙ append_assoc (keys progress.target) (name ∷ []) (read_names request rest))
      ]

  pub keys-read_fields :
      (fields : Fields) (steps : Option ℕ) (parent : String) (progress : Progress)
      → request.full_check ≡ false
      → Distinct (keys progress.target ++ names fields)
      → keys (read_fields reader request times fields steps parent progress).target
        ≡ keys progress.target ++ read_names request fields
  unfolding read_fields read_names
  keys-read_fields Fields.nil steps parent progress full h = sym (append-nil (keys progress.target))
  keys-read_fields (Fields.leaf name field rest) steps parent progress full h =
      keys_step (scalar_part reader field) name field rest steps parent progress full h (
        keys-read_fields rest steps parent
          (read_field reader request times (scalar_part reader field) name field steps parent
            progress)
          full)
  keys-read_fields (Fields.nested name field selection rest) steps parent progress full h =
      keys_step (nested_part field selection steps) name field rest steps parent progress full h (
        keys-read_fields rest steps parent
          (read_field reader request times (nested_part field selection steps) name field steps
            parent progress)
          full)

  -- A field that the type of the record asks for, that is read and shown, and that must not be null, is
  -- in the object with a value that is not null, unless it is the cursor of an embedded connection.
  pub has_required :
      (name : String) (field : Field) (fields : Fields) (steps : Option ℕ) (parent : String)
      (progress : Progress)
      → HasField name field fields
      → Distinct (names fields)
      → is_left_out request field ≡ false
      → is_shown request field ≡ true
      → field.nullable ≡ false
      → is_embedded_cursor (key_of reader.stringify field request.variables) steps ≡ false
      → (read_fields reader request times fields steps parent progress).cascade_null ≡ false
      → (o : Output) × (lookup name
            (read_fields reader request times fields steps parent progress).target
          ≡ some o)
        × (is_null o ≡ false)
  unfolding read_fields
  has_required name field _ steps parent progress (HasField.leaf_here rest) distinct kept shown
        required inner h =
      let (o, found, full) =
        lookup-read_field reader request times (scalar_part reader field) name field steps parent
          progress kept shown required inner (read_fields-cascade_null rest steps parent _ h) in
      (o, lookup-read_fields_other name rest steps parent _ distinct.0 ∙ found, full)
  has_required name field _ steps parent progress (HasField.nested_here selection rest) distinct
        kept shown required inner h =
      let (o, found, full) =
        lookup-read_field reader request times (nested_part field selection steps) name field steps
          parent progress kept shown required inner
          (read_fields-cascade_null rest steps parent _ h) in
      (o, lookup-read_fields_other name rest steps parent _ distinct.0 ∙ found, full)
  has_required name field _ steps parent progress (HasField.leaf_there n f there) distinct kept
        shown required inner h =
      has_required name field _ steps parent _ there distinct.1 kept shown required inner h
  has_required name field _ steps parent progress (HasField.nested_there n f selection there)
        distinct kept shown required inner h =
      has_required name field _ steps parent _ there distinct.1 kept shown required inner h
