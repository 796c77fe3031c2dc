-- ===== src/Outputs.antt =====
-- The values that a read hands out (`GraphQLValue` of packages/houdini/src/runtime/types.ts), as
-- `getSelection` of packages/houdini/src/runtime/cache/index.ts makes them.
use houdini.Json.{Entries}
use houdini.Prelude.{
  Bool, true, false, Option, none, some, List, [], ◌∷◌, String, ite, str_dec, Dict,
}
use houdini.Values.{Value, Items}

-- `GraphQLValue`: a value of a scalar as the store has it, a list, which may carry the key `__id`, or an
-- object, or the references to the fragments of a selection: the record, and the variables of each. A
-- scalar that was unmarshaled is a leaf, too.
mutual
  pub data Output : Type 0 where
    leaf : Value → Output
    elements : Option String → Outputs → Output
    object : OutputFields → Output
    references : String → Dict Entries → Output

  pub data Outputs : Type 0 where
    nil : Outputs
    cons : Output → Outputs → Outputs

  pub data OutputFields : Type 0 where
    end : OutputFields
    entry : String → Output → OutputFields → OutputFields

abbrev pub null_output : Output
null_output = leaf Value.null

abbrev pub is_null : Output → Bool
is_null (leaf Value.null) = true
is_null output = false

abbrev pub of_outputs : List Output → Outputs
of_outputs [] = Outputs.nil
of_outputs (x ∷ xs) = Outputs.cons x (of_outputs xs)

abbrev pub of_fields : Dict Output → OutputFields
of_fields [] = OutputFields.end
of_fields ((name, output) ∷ fields) = OutputFields.entry name output (of_fields fields)

-- `data`, which may be `null`
abbrev pub to_output : Option (Dict Output) → Output
to_output none = null_output
to_output (some fields) = object (of_fields fields)

abbrev unmarshal_items : (Value → Output) → Items → Outputs
unmarshal_items f Items.nil = Outputs.nil
unmarshal_items f (Items.cons x xs) = Outputs.cons (f x) (unmarshal_items f xs)

-- A custom scalar; the elements of a list one by one.
abbrev pub unmarshaled : Option (Value → Output) → Value → Output
unmarshaled none value = leaf value
unmarshaled (some f) (Value.array xs) = elements none (unmarshal_items f xs)
unmarshaled (some f) value = f value

-- `.__id = id`; a list stands on a field with a selection, so that a leaf here is `null`.
unfoldable pub put_id : String → OutputFields → OutputFields
put_id id OutputFields.end = OutputFields.entry "__id" (leaf (Value.str id)) OutputFields.end
put_id id (OutputFields.entry name output fields) =
    ite (str_dec name "__id") (OutputFields.entry name (leaf (Value.str id)) fields)
      (OutputFields.entry name output (put_id id fields))

unfoldable pub with_id : String → Output → Output
unfolding put_id
with_id id (leaf value) = leaf value
with_id id (elements key xs) = elements (some id) xs
with_id id (object fields) = object (put_id id fields)
with_id id (references parent variables) = references parent variables
