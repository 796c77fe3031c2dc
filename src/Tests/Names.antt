-- ===== src/Tests/Names.antt =====
-- The function `evaluateKey` of packages/houdini/src/runtime/cache/stuff.ts at a concrete input.
use Prim.Native.Char.{Char}
use houdini.Keys.{evaluate_key, evaluate, has_dollar}
use houdini.Keys.Pieces.{Piece, char, quoted, variable, render, meaning, IsKey, evaluate_key-render}
use houdini.Prelude.{◌≡◌, refl, List, [], ◌∷◌}

-- Every variable has the value 1.
abbrev print : List Char → List Char
print name = "1" ∷ []

-- The key `f(a:$x,b:"$")`.
abbrev pieces : List Piece
pieces =
    char "f"
    ∷ char "("
    ∷ char "a"
    ∷ char ":"
    ∷ variable ("x" ∷ [])
    ∷ char ","
    ∷ char "b"
    ∷ char ":"
    ∷ quoted ("$" ∷ [])
    ∷ char ")"
    ∷ []

pieces-IsKey : IsKey pieces
pieces-IsKey = (
  refl,
  refl,
  (
    refl,
    refl,
    (
      refl,
      refl,
      (
        refl,
        refl,
        (
          (refl, tt),
          refl,
          (refl, refl, (refl, refl, (refl, refl, ((refl, tt), (refl, refl, tt))))),
        ),
      ),
    ),
  ),
)

evaluate_key-render_example : evaluate_key print (render pieces) ≡ meaning print pieces
evaluate_key-render_example = evaluate_key-render print pieces pieces-IsKey

evaluate_run :
    evaluate_key print (render pieces)
    ≡ "f" ∷ "(" ∷ "a" ∷ ":" ∷ "1" ∷ "," ∷ "b" ∷ ":" ∷ "\"" ∷ "$" ∷ "\"" ∷ ")" ∷ []
unfolding evaluate_key evaluate has_dollar
evaluate_run = refl
