-- ===== src/Operations.antt =====
-- The operations that a layer of packages/houdini/src/runtime/cache/storage.ts records for a list.
use houdini.Prelude.{ℕ, Bool, Option, List, String}

pub data Location : Type 0 where
  start end : Location

pub data ListOperation : Type 0 where
  insert : Location → String → ListOperation
  remove : String → ListOperation

pub data Operation : Type 0 where
  list : ListOperation → Operation
  delete : String → Operation

pub data Kind : Type 0 where
  link scalar unknown : Kind

-- A value of `operations`. The object of its fields stands on the layer's heap, since the copies that
-- spreads make of the record share it.
pub record OperationRecord : Type 0 where
  pub deleted : Bool
  pub undo_deletes_in_list : Option (List String)
  pub fields : Option ℕ
