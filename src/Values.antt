-- ===== src/Values.antt =====
-- packages/houdini/src/runtime/types.ts and flatten.ts: what a layer stores, and the nested lists of
-- record ids that links hold.
use houdini.Prelude.{
  ℕ, ◌≡◌, ap, ◌∙◌, Bool, true, false, List, [], ◌∷◌, ◌++◌, String, arith, ite, if_pos, if_neg,
  str_dec, sym, ◌≢◌, All, All-append,
}
use mathlib.Core.List.{append_assoc, append-nil}

-- A value of a field, `undefined` included. `other` stands for the values that the storage passes on
-- unread (numbers, booleans, objects), with their truthiness and an identity; `function` for the
-- injected ones that serialization leaves out.
mutual
  pub data Value : Type 0 where
    undefined : Value
    null : Value
    str : String → Value
    other : Bool → ℕ → Value
    function : ℕ → Value
    array : Items → Value

  pub data Items : Type 0 where
    nil : Items
    cons : Value → Items → Items

-- `string | null | NestedList`, the values of a link; `NestedList` is `Links`.
mutual
  pub data Link : Type 0 where
    null : Link
    id : String → Link
    list : Links → Link

  pub data Links : Type 0 where
    nil : Links
    cons : Link → Links → Links

-- `!!value`
abbrev pub truthy : Value → Bool
truthy undefined = false
truthy null = false
truthy (str s) = ite (str_dec s "") false true
truthy (other b n) = b
truthy (function n) = true
truthy (array xs) = true

abbrev pub items : Items → List Value
items nil = []
items (cons x xs) = x ∷ items xs

abbrev pub of_items : List Value → Items
of_items [] = nil
of_items (x ∷ xs) = cons x (of_items xs)

-- A link, read as a value.
abbrev mutual
  pub to_value : Link → Value
  to_value null = null
  to_value (id s) = str s
  to_value (list ls) = array (to_items ls)

  pub to_items : Links → Items
  to_items nil = nil
  to_items (cons l ls) = cons (to_value l) (to_items ls)

-- `flatten`: `acc` is the accumulator of the `reduce`. An element is falsy if it is null or empty.
unfoldable mutual
  pub flatten_element : List String → Link → List String
  flatten_element acc null = acc
  flatten_element acc (id s) = ite (str_dec s "") acc (acc ++ s ∷ [])
  flatten_element acc (list ls) = acc ++ flatten_from [] ls

  pub flatten_from : List String → Links → List String
  flatten_from acc nil = acc
  flatten_from acc (cons l ls) = flatten_from (flatten_element acc l) ls

unfoldable pub flatten : Links → List String
unfolding flatten_from flatten_element
flatten ls = flatten_from [] ls

-- The ids that a nested list holds in its leaves, from left to right, the falsy ones left out.
mutual
  pub leaves : Link → List String
  leaves null = []
  leaves (id s) = ite (str_dec s "") [] (s ∷ [])
  leaves (list ls) = leaves_of ls

  pub leaves_of : Links → List String
  leaves_of nil = []
  leaves_of (cons l ls) = leaves l ++ leaves_of ls

mutual
  unfolding flatten_element leaves

  flatten_element_lem : (acc : List String) (l : Link) → flatten_element acc l ≡ acc ++ leaves l
  flatten_element_lem acc null = sym (append-nil acc)
  flatten_element_lem acc (id s) = elim (str_dec s "") [
    | yes p ↦ rw (if_pos _ p, if_pos _ p) (sym (append-nil acc))
    | no p ↦ rw (if_neg _ p, if_neg _ p)
  ]
  flatten_element_lem acc (list ls) = ap (λ xs. acc ++ xs) (flatten_from_lem [] ls)

  flatten_from_lem : (acc : List String) (ls : Links) → flatten_from acc ls ≡ acc ++ leaves_of ls
  flatten_from_lem acc nil = sym (append-nil acc)
  flatten_from_lem acc (cons l ls) =
      flatten_from_lem (flatten_element acc l) ls
      ∙ ap (λ xs. xs ++ leaves_of ls) (flatten_element_lem acc l)
      ∙ append_assoc acc (leaves l) (leaves_of ls)

-- `flatten` lists the ids in the leaves of a nested list, at whatever depth, in order.
pub flatten-leaves : (ls : Links) → flatten ls ≡ leaves_of ls
unfolding flatten
flatten-leaves ls = flatten_from_lem [] ls

pub flatten_one : (s : String) → s ≢ "" → flatten (cons (id s) nil) ≡ s ∷ []
unfolding flatten flatten_from flatten_element
flatten_one s h = if_neg (str_dec s "") h _ _

mutual
  unfolding leaves

  leaves-truthy : (l : Link) → All (λ s. s ≢ "") (leaves l)
  leaves-truthy null = tt
  leaves-truthy (id s) = ground arith
  leaves-truthy (list ls) = leaves_of-truthy ls

  leaves_of-truthy : (ls : Links) → All (λ s. s ≢ "") (leaves_of ls)
  leaves_of-truthy nil = tt
  leaves_of-truthy (cons l ls) =
      All-append (λ s. s ≢ "") (leaves l) (leaves_of ls) (leaves-truthy l) (leaves_of-truthy ls)

-- No falsy id comes out of `flatten`.
pub flatten-truthy : (ls : Links) → All (λ s. s ≢ "") (flatten ls)
flatten-truthy ls = rw flatten-leaves (leaves_of-truthy ls)
