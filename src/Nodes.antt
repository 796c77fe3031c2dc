-- ===== src/Nodes.antt =====
-- The values in the arguments of a document (`ValueNode` of packages/houdini/src/runtime/types.ts), and
-- evaluateVariables and variableValue of packages/houdini/src/runtime/cache/index.ts. An integer is kept as
-- the number that its text stands for; there are no floats.
use houdini.Json
use houdini.Json.{Json, Entries}
use houdini.Prelude.{
  ℕ, zero, suc, Bool, true, false, none, some, String, ite, str_dec, Dict, lookup,
}

-- A list holds its elements under their indices.
mutual
  pub data ValueNode : Type 0 where
    string_value : String → ValueNode
    boolean_value : Bool → ValueNode
    enum_value : String → ValueNode
    int_value : ℕ → ValueNode
    null_value : ValueNode
    variable : String → ValueNode
    list_value : ValueMap → ValueNode
    object_value : ValueMap → ValueNode

  pub data ValueMap : Type 0 where
    nil : ValueMap
    cons : String → ValueNode → ValueMap → ValueMap

unfoldable pub count_nodes : ValueMap → ℕ
count_nodes nil = 0
count_nodes (cons key node nodes) = suc (count_nodes nodes)

-- `args[name]`
unfoldable pub argument : String → Dict Json → Json
unfolding lookup
argument name args = elim (lookup name args) [ none ↦ Json.undefined | some json ↦ json ]

-- `{ ...obj, [key]: value }`: a key that is there keeps its place.
unfoldable pub assign : String → Json → Entries → Entries
assign key value Entries.nil = Entries.cons key value Entries.nil
assign key value (Entries.cons k v entries) =
    ite (str_dec key k) (Entries.cons k value entries) (Entries.cons k v (assign key value entries))

-- `variableValue`, `evaluateVariables`, and the `reduce` over the fields of an object
unfoldable mutual
  unfolding argument count_nodes assign

  pub variable_value : ValueNode → Dict Json → Json
  variable_value (string_value s) args = Json.string s
  variable_value (boolean_value b) args = Json.boolean b
  variable_value (enum_value s) args = Json.string s
  variable_value (int_value n) args = Json.number n
  variable_value null_value args = Json.null
  variable_value (variable name) args = argument name args
  variable_value (list_value nodes) args = Json.object (
      Json.entries_append (evaluate_variables nodes args)
        (Entries.cons "length" (Json.number (count_nodes nodes)) Entries.nil))
  variable_value (object_value fields) args = Json.object (object_values fields Entries.nil args)

  pub evaluate_variables : ValueMap → Dict Json → Entries
  evaluate_variables nil args = Entries.nil
  evaluate_variables (cons key node nodes) args =
      Entries.cons key (variable_value node args) (evaluate_variables nodes args)

  pub object_values : ValueMap → Entries → Dict Json → Entries
  object_values nil obj args = obj
  object_values (cons key node nodes) obj args =
      object_values nodes (assign key (variable_value node args) obj) args

-- `!!value`
abbrev pub truthy : Json → Bool
truthy Json.undefined = false
truthy Json.null = false
truthy (Json.boolean b) = b
truthy (Json.number n) = elim n [ zero ↦ false | suc m ↦ true ]
truthy (Json.string s) = ite (str_dec s "") false true
truthy (Json.object entries) = true
