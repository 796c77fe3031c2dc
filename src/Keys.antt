-- ===== src/Keys.antt =====
-- The function `evaluateKey` of packages/houdini/src/runtime/cache/stuff.ts, over texts as lists of
-- characters. What `JSON.stringify` makes of a variable, `null` for one that is not given, is a
-- parameter.
pub mod Pieces
use Prim.Native.Char.{Char, code}
use houdini.Prelude.{
  ℕ, Bool, true, false, not, ◌&&◌, ◌||◌, Option, none, some, List, [], ◌∷◌, ◌++◌, leb, ◌==◌,
  if◌then◌else◌,
}

abbrev pub is_dollar : Char → Bool
is_dollar c = code c == 36

abbrev pub is_quote : Char → Bool
is_quote c = code c == 34

abbrev between : ℕ → ℕ → ℕ → Bool
between lo hi n = leb lo n && leb n hi

-- `varCharSet.has(char)`: letters, digits and the underscore
abbrev pub is_var_char : Char → Bool
is_var_char c =
    between 97 122 (code c) || between 65 90 (code c) || code c == 95 || between 48 57 (code c)

unfoldable pub has_dollar : List Char → Bool
has_dollar [] = false
has_dollar (c ∷ cs) = is_dollar c || has_dollar cs

module _ (print : List Char → List Char) where
  -- The end of a variable name, which is kept without its `$`.
  abbrev pub end_variable : Option (List Char) → List Char → List Char
  end_variable none evaluated = evaluated
  end_variable (some name) evaluated = evaluated ++ print name

  abbrev continues : Option (List Char) → Char → Bool
  continues none c = false
  continues (some name) c = is_var_char c

  abbrev longer : Option (List Char) → Char → Option (List Char)
  longer none c = none
  longer (some name) c = some (name ++ c ∷ [])

  -- The loop over the characters that are left, with `evaluated`, `varName` and `inString`.
  unfoldable pub evaluate : List Char → List Char → Option (List Char) → Bool → List Char
  evaluate [] evaluated var_name in_string = evaluated
  evaluate (c ∷ cs) evaluated var_name in_string = elim (continues var_name c) [
    | true ↦ evaluate cs evaluated (longer var_name c) in_string
    | false ↦ elim (is_dollar c && not in_string) [
      | true ↦ evaluate cs (end_variable var_name evaluated) (some []) in_string
      | false ↦
          evaluate cs (end_variable var_name evaluated ++ c ∷ []) none
            (if is_quote c then not in_string else in_string)
    ]
  ]

  unfoldable pub evaluate_key : List Char → List Char
  unfolding has_dollar evaluate
  evaluate_key key = if has_dollar key then evaluate key [] none false else key
