-- ===== src/Storage/Merging.antt =====
-- The steps of `InMemoryStorage.resolveLayer`: the merge of a run of layers, and where it starts.
use houdini.Layer.{Layer}
use houdini.Layer.Identity.{write_layer_self}
use houdini.Layer.Merge.{write_layer}
use houdini.Prelude.{
  ℕ, suc, ◌-◌, ◌≡◌, ◌≢◌, refl, sym, ap, ◌∙◌, true, false, some, List, [], ◌∷◌, ◌++◌, Result, ok,
  ◌>>=◌, bind_assoc, fun_ext, All, if◌then◌else◌, ◌==◌, length, arith,
}
use mathlib.Core.List.{append_assoc}
use houdini.Storage.{Storage}
use houdini.Storage.Resolve.{
  find_index, settle, is_optimistic_at, starting_index, merge_run, merge_from,
}

-- Merge a run of layers into a base, the oldest first.
unfoldable pub merge_all : Layer → List Layer → Result Layer
merge_all base [] = ok base
merge_all base (l ∷ ls) = do base' ← write_layer l base; merge_all base' ls

-- The layers that are not optimistic.
abbrev pub Firm : List Layer → Type 0
Firm = All (λ l. l.optimistic ≡ false)

-- No layers, or an optimistic one first.
abbrev pub Starts : List Layer → Type 0
Starts [] = Unit
Starts (l ∷ ls) = l.optimistic ≡ true

merge_run-cons :
    (base l : Layer) (ls : List Layer)
    → l.optimistic ≡ false
    → merge_run base (l ∷ ls) ≡ (write_layer l base >>= λ b. merge_run b ls)
unfolding merge_run
merge_run-cons base l ls f = ground arith

-- The base is merged into itself first, which changes nothing.
pub merge_run_base :
    (base : Layer) (ls : List Layer)
    → base.optimistic ≡ false
    → merge_run base (base ∷ ls) ≡ merge_run base ls
merge_run_base base ls firm =
    merge_run-cons base base ls firm ∙ ap (λ m. m >>= λ b. merge_run b ls) (write_layer_self base)

merge_run-merge_all :
    (base : Layer) (run rest : List Layer)
    → Firm run
    → Starts rest
    → merge_run base (run ++ rest) ≡ (merge_all base run >>= λ base'. ok (base', rest))
unfolding merge_run merge_all
merge_run-merge_all base [] [] f h = refl
merge_run-merge_all base [] (l ∷ rest) f h = ground arith
merge_run-merge_all base (l ∷ run) rest (f, fs) h =
    merge_run-cons base l (run ++ rest) f
    ∙ ap (λ k. write_layer l base >>= k) (fun_ext λ b. merge_run-merge_all b run rest fs h)
    ∙ sym (bind_assoc (write_layer l base) (λ b. merge_all b run) (λ b. ok (b, rest)))

pub merge_from-merge_all :
    (below : List Layer) (base : Layer) (run rest : List Layer)
    → base.optimistic ≡ false
    → Firm run
    → Starts rest
    → merge_from (length below) (below ++ base ∷ (run ++ rest))
      ≡ (merge_all base run >>= λ base'. ok (below ++ base' ∷ rest))
unfolding merge_from
merge_from-merge_all [] base run rest firm fs h =
    ap (λ m. m >>= λ p. ok (p.0 ∷ p.1))
      (merge_run_base base (run ++ rest) firm ∙ merge_run-merge_all base run rest fs h)
    ∙ bind_assoc (merge_all base run) (λ b. ok (b, rest)) (λ p. ok (p.0 ∷ p.1))
merge_from-merge_all (l ∷ below) base run rest firm fs h =
    ap (λ m. m >>= λ ls. ok (l ∷ ls)) (merge_from-merge_all below base run rest firm fs h)
    ∙ bind_assoc (merge_all base run) (λ b. ok (below ++ b ∷ rest)) (λ ls. ok (l ∷ ls))

pub merge_from-over :
    (below : List Layer) (under base : Layer) (run rest : List Layer)
    → base.optimistic ≡ false
    → Firm run
    → Starts rest
    → merge_from (suc (length below)) (below ++ under ∷ base ∷ (run ++ rest))
      ≡ (merge_all base run >>= λ b. ok (below ++ under ∷ b ∷ rest))
unfolding merge_from
merge_from-over [] under base run rest firm fs h =
    ap (λ m. m >>= λ ls. ok (under ∷ ls)) (merge_from-merge_all [] base run rest firm fs h)
    ∙ bind_assoc (merge_all base run) (λ b. ok (b ∷ rest)) (λ ls. ok (under ∷ ls))
merge_from-over (l ∷ below) under base run rest firm fs h =
    ap (λ m. m >>= λ ls. ok (l ∷ ls)) (merge_from-over below under base run rest firm fs h)
    ∙ bind_assoc (merge_all base run) (λ b. ok (below ++ under ∷ b ∷ rest)) (λ ls. ok (l ∷ ls))

pub find_index-append :
    (n : ℕ) (below : List Layer) (l : Layer) (above : List Layer)
    → All (λ m. m.id ≢ n) below
    → l.id ≡ n
    → find_index n (below ++ l ∷ above) ≡ some (length below)
unfolding find_index
find_index-append n [] l above h e = ground arith
find_index-append n (m ∷ below) l above (h, hs) e =
    ground (arith, find_index-append n below l above hs e)

pub settle-append :
    (below : List Layer) (l : Layer) (above : List Layer)
    → settle (length below) (below ++ l ∷ above) ≡ below ++ record l { optimistic = false } ∷ above
unfolding settle
settle-append [] l above = refl
settle-append (m ∷ below) l above = ap (◌∷◌ m) (settle-append below l above)

is_optimistic_at-append :
    (below : List Layer) (l : Layer) (above : List Layer)
    → is_optimistic_at (length below) (below ++ l ∷ above) ≡ l.optimistic
unfolding is_optimistic_at
is_optimistic_at-append [] l above = refl
is_optimistic_at-append (m ∷ below) l above = is_optimistic_at-append below l above

-- The layer, no longer optimistic.
abbrev pub settled : Layer → Layer
settled l = record l { optimistic = false }

-- The storage with the layers that are left. With one layer left the id mappings are forgotten.
abbrev pub with_layers : Storage → List Layer → Storage
with_layers s ls = record s { layers = ls; id_maps = if length ls == 1 then [] else s.id_maps }

pub append_one {ℓ} :
    {A : Type ℓ} (xs : List A) (x : A) (ys : List A) → (xs ++ x ∷ []) ++ ys ≡ xs ++ x ∷ ys
append_one xs x ys = append_assoc xs (x ∷ []) ys

pub suc-sub-one : (k : ℕ) → suc k - 1 ≡ k
suc-sub-one k = omega arith

pub starting_firm :
    (below : List Layer) (under : Layer) (above : List Layer)
    → under.optimistic ≡ false
    → starting_index (suc (length below)) (below ++ under ∷ above) ≡ length below
unfolding starting_index
starting_firm below under above firm =
    rw (suc-sub-one, is_optimistic_at-append below under above, firm)

pub starting_over :
    (below : List Layer) (under : Layer) (above : List Layer)
    → under.optimistic ≡ true
    → starting_index (suc (length below)) (below ++ under ∷ above) ≡ suc (length below)
unfolding starting_index
starting_over below under above over =
    rw (suc-sub-one, is_optimistic_at-append below under above, over)
