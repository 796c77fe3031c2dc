-- ===== src/Keys/Pieces.antt =====
-- Keys of packages/houdini/src/runtime/cache/stuff.ts as characters, strings and variables.
use Prim.Native.Char.{Char}
use houdini.Keys.{is_dollar, is_quote, is_var_char, has_dollar, evaluate, evaluate_key}
use houdini.Prelude.{
  ◌≡◌, refl, sym, ◌∙◌, Bool, true, false, not, ◌&&◌, none, some, List, [], ◌∷◌, ◌++◌, All, arith,
  if◌then◌else◌, Bool-cases, inl, inr,
}
use mathlib.Core.List.{append_assoc, append-nil}

abbrev pub quote : Char
quote = "\""

abbrev pub dollar : Char
dollar = "$"

pub data Piece : Type 0 where
  char : Char → Piece
  quoted : List Char → Piece
  variable : List Char → Piece

-- The text of a piece in a key.
abbrev pub text_of : Piece → List Char
text_of (char c) = c ∷ []
text_of (quoted s) = quote ∷ s ++ quote ∷ []
text_of (variable name) = dollar ∷ name

abbrev pub render : List Piece → List Char
render [] = []
render (p ∷ ps) = text_of p ++ render ps

-- A text that ends a variable name before it.
abbrev pub Ends : List Char → Type 0
Ends [] = ⊥
Ends (c ∷ cs) = is_var_char c ≡ false

-- A quoted string has no quote in it, a variable is followed by something else than a character of a
-- name, and no other character is a quote or a dollar sign.
abbrev pub IsKey : List Piece → Type 0
IsKey [] = Unit
IsKey (char c ∷ ps) = (is_dollar c ≡ false) × (is_quote c ≡ false) × IsKey ps
IsKey (quoted s ∷ ps) = All (λ c. is_quote c ≡ false) s × IsKey ps
IsKey (variable name ∷ ps) = All (λ c. is_var_char c ≡ true) name × Ends (render ps) × IsKey ps

append_one : (xs : List Char) (c : Char) (ys : List Char) → (xs ++ c ∷ []) ++ ys ≡ xs ++ c ∷ ys
append_one xs c ys = append_assoc xs (c ∷ []) ys

and_false : (b : Bool) → (b && false) ≡ false
and_false true = refl
and_false false = refl

module _ (print : List Char → List Char) where
  -- A variable has the value that is printed, all else is as it is.
  abbrev pub meaning : List Piece → List Char
  meaning [] = []
  meaning (variable name ∷ ps) = print name ++ meaning ps
  meaning (p ∷ ps) = text_of p ++ meaning ps

  evaluate-start :
      (rest evaluated : List Char)
      → evaluate print (dollar ∷ rest) evaluated none false
        ≡ evaluate print rest evaluated (some []) false
  unfolding evaluate
  evaluate-start rest evaluated = refl

  evaluate-name :
      (name rest evaluated before : List Char) (in_string : Bool)
      → All (λ c. is_var_char c ≡ true) name
      → evaluate print (name ++ rest) evaluated (some before) in_string
        ≡ evaluate print rest evaluated (some (before ++ name)) in_string
  unfolding evaluate
  evaluate-name [] rest evaluated before b h = rw append-nil refl
  evaluate-name (c ∷ name) rest evaluated before b (h, hs) =
      rw (h, evaluate)
        (evaluate-name name rest evaluated (before ++ c ∷ []) b hs ∙ rw append_assoc refl)

  evaluate-ended :
      (name rest evaluated : List Char)
      → Ends rest
      → evaluate print rest evaluated (some name) false
        ≡ evaluate print rest (evaluated ++ print name) none false
  unfolding evaluate
  evaluate-ended name [] evaluated h = absurd h
  evaluate-ended name (c ∷ rest) evaluated h = rw (h, evaluate) refl

  -- A character that starts no variable is added.
  evaluate-plain :
      (c : Char) (rest evaluated : List Char) (in_string : Bool)
      → (is_dollar c && not in_string) ≡ false
      → evaluate print (c ∷ rest) evaluated none in_string
        ≡ evaluate print rest
            (evaluated ++ c ∷ [])
            none
            (if is_quote c then not in_string else in_string)
  unfolding evaluate
  evaluate-plain c rest evaluated b h = rw (h, evaluate) refl

  evaluate-string :
      (s rest evaluated : List Char)
      → All (λ c. is_quote c ≡ false) s
      → evaluate print (s ++ quote ∷ rest) evaluated none true
        ≡ evaluate print rest (evaluated ++ s ++ quote ∷ []) none false
  unfolding evaluate
  evaluate-string [] rest evaluated h = rw append-nil refl
  evaluate-string (c ∷ s) rest evaluated (h, hs) =
      evaluate-plain c (s ++ quote ∷ rest) evaluated true (and_false (is_dollar c))
      ∙ rw h (evaluate-string s rest (evaluated ++ c ∷ []) hs ∙ rw (append_one evaluated c s) refl)

  evaluate-render :
      (ps : List Piece) (evaluated : List Char)
      → IsKey ps
      → evaluate print (render ps) evaluated none false ≡ evaluated ++ meaning ps
  evaluate-render [] evaluated h = unfold evaluate in sym (append-nil evaluated)
  evaluate-render (char c ∷ ps) evaluated (d, q, h) =
      evaluate-plain c (render ps) evaluated false (ground (arith, d))
      ∙ rw q (evaluate-render ps (evaluated ++ c ∷ []) h ∙ append_one evaluated c (meaning ps))
  evaluate-render (quoted s ∷ ps) evaluated (q, h) =
      evaluate-plain quote ((s ++ quote ∷ []) ++ render ps) evaluated false refl
      ∙ rw (append_one s quote (render ps)) (
          evaluate-string s (render ps) (evaluated ++ quote ∷ []) q
          ∙ evaluate-render ps (((evaluated ++ quote ∷ []) ++ s) ++ quote ∷ []) h
          ∙ simp append_assoc)
  evaluate-render (variable name ∷ ps) evaluated (v, e, h) =
      evaluate-start (name ++ render ps) evaluated
      ∙ evaluate-name name (render ps) evaluated [] false v
      ∙ evaluate-ended name (render ps) evaluated e
      ∙ evaluate-render ps (evaluated ++ print name) h
      ∙ append_assoc evaluated (print name) (meaning ps)

  evaluate-no_dollar :
      (key evaluated : List Char) (in_string : Bool)
      → has_dollar key ≡ false
      → evaluate print key evaluated none in_string ≡ evaluated ++ key
  unfolding evaluate has_dollar
  evaluate-no_dollar [] evaluated b h = sym (append-nil evaluated)
  evaluate-no_dollar (c ∷ key) evaluated b h =
      evaluate-plain c key evaluated b (ground arith)
      ∙ evaluate-no_dollar key (evaluated ++ c ∷ []) _ (ground arith)
      ∙ append_one evaluated c key

-- A key of plain characters, quoted strings and variables is evaluated to the text with each variable
-- printed in its place, also where the fast path is taken; a dollar sign within a quoted string is left
-- as it is. No plain character is a quote or a dollar sign, no string has a quote in it, escaped or not,
-- and each variable is followed by a character that no name has: the key does not end with a variable.
pub evaluate_key-render :
    (print : List Char → List Char) (ps : List Piece)
    → IsKey ps
    → evaluate_key print (render ps) ≡ meaning print ps
unfolding evaluate_key
evaluate_key-render print ps h = elim (Bool-cases (has_dollar (render ps))) [
  | inl e ↦ rw e (evaluate-render print ps [] h)
  | inr e ↦
      rw e (sym (evaluate-no_dollar print (render ps) [] false e) ∙ evaluate-render print ps [] h)
]
