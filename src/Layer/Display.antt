-- ===== src/Layer/Display.antt =====
-- `Layer.isDisplayLayer` of packages/houdini/src/runtime/cache/storage.ts, against what it is to decide.
use houdini.Layer.{Layer, is_display_from, is_display_layer}
use houdini.Prelude.{
  ℕ, ◌≡◌, refl, Bool, true, false, List, [], ◌∷◌, ◌&&◌, ◌||◌, ltb, ◌==◌, if◌then◌else◌, arith,
}

-- One of the layers on display is this one.
abbrev pub shown : ℕ → List ℕ → Bool
shown me [] = false
shown me (d ∷ ds) = d == me || shown me ds

-- Every layer on display is older.
abbrev pub all_below : ℕ → List ℕ → Bool
all_below me [] = true
all_below me (d ∷ ds) = ltb d me && all_below me ds

is_display_from_lem :
    (me most : ℕ) (ds : List ℕ)
    → is_display_from me most ds ≡ (shown me ds || (ltb most me && all_below me ds))
unfolding is_display_from
is_display_from_lem me most [] = ground arith
is_display_from_lem me most (d ∷ ds) =
    ground (arith, is_display_from_lem me (if ltb most d then d else most) ds)

-- A layer is on display for a value exactly if the value came from no layer at all, or from this
-- layer among others, or from older layers only.
pub is_display_layer_lem :
    (ds : List ℕ) (l : Layer) → is_display_layer ds l ≡ (shown l.id ds || all_below l.id ds)
unfolding is_display_layer
is_display_layer_lem [] l = refl
is_display_layer_lem (d ∷ ds) l = ground (arith, is_display_from_lem l.id 0 (d ∷ ds))
