-- ===== src/Json.antt =====
-- The plain values of variables and filters, and packages/houdini/src/runtime/deepEquals.ts. An array is the
-- object that it is: its elements under their indices, and its length under `length`.
use houdini.Prelude.{
  ℕ, suc, Bool, true, false, Option, none, some, String, ite, str_dec, ◌==◌, ◌&&◌,
}

mutual
  pub data Json : Type 0 where
    undefined : Json
    null : Json
    boolean : Bool → Json
    number : ℕ → Json
    string : String → Json
    object : Entries → Json

  -- The own keys of an object with their values.
  pub data Entries : Type 0 where
    nil : Entries
    cons : String → Json → Entries → Entries

-- `obj[key]`
unfoldable pub find : String → Entries → Option Json
find key nil = none
find key (cons k v entries) = ite (str_dec key k) (some v) (find key entries)

unfoldable pub size : Entries → ℕ
size nil = 0
size (cons k v entries) = suc (size entries)

abbrev pub entries_append : Entries → Entries → Entries
entries_append nil ys = ys
entries_append (cons k v xs) ys = cons k v (entries_append xs ys)

abbrev same_boolean : Bool → Bool → Bool
same_boolean true true = true
same_boolean false false = true
same_boolean a b = false

-- `deepEquals`; the map of visited pairs only cuts cycles, which a finite value does not have.
unfoldable mutual
  unfolding find size

  pub deep_equals : Json → Json → Bool
  deep_equals undefined undefined = true
  deep_equals null null = true
  deep_equals (boolean a) (boolean b) = same_boolean a b
  deep_equals (number a) (number b) = a == b
  deep_equals (string a) (string b) = ite (str_dec a b) true false
  deep_equals (object a) (object b) = size a == size b && entries_equal a b
  deep_equals a b = false

  -- The loop over the keys of the first object, with the second one.
  pub entries_equal : Entries → Entries → Bool
  entries_equal nil b = true
  entries_equal (cons key value a) b =
      let rest = entries_equal a b in
      elim (find key b) [ none ↦ false | some other ↦ deep_equals value other && rest ]
