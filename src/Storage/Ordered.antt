-- ===== src/Storage/Ordered.antt =====
-- The order of the ids of layers in packages/houdini/src/runtime/cache/storage.ts, where a layer is added or changed.
use houdini.Layer.{Layer}
use houdini.Layer.Identity.{SameLayer}
use houdini.Prelude.{
  ℕ, suc, ◌≡◌, refl, Bool, false, Option, none, some, List, [], ◌∷◌, ◌++◌, map, Result, ok,
  step_returns, ◌==◌, ◌≤◌, arith, Bool-cases, inl, inr,
}
use houdini.Storage
use houdini.Storage.{
  Storage, ensure_top, with_base, last, top_is_optimistic, update_last, on_top, update_layer,
  on_layer, drop_embedded,
}

-- The numbers grow from the lower bound, and stay below the upper one.
abbrev pub Increasing : ℕ → List ℕ → ℕ → Type 0
Increasing lo [] hi = lo ≤ hi
Increasing lo (n ∷ ns) hi = (lo ≤ n) × Increasing (suc n) ns hi

abbrev pub ids : List Layer → List ℕ
ids = map (λ l. l.id)

-- The ids of the layers grow from the base to the top, and are older than the next id.
pub record IsOrdered (s : Storage) : Type 0 where
  pub order : Increasing 0 (ids s.layers) s.id_count

pub Increasing-weaken :
    (lo lo' : ℕ) (ns : List ℕ) (hi : ℕ) → lo ≤ lo' → Increasing lo' ns hi → Increasing lo ns hi
Increasing-weaken lo lo' [] hi h i = omega arith
Increasing-weaken lo lo' (n ∷ ns) hi h (i, is) = (omega arith, is)

Increasing-append :
    (lo : ℕ) (ls : List Layer) (l : Layer) (hi : ℕ)
    → Increasing lo (ids ls) hi
    → l.id ≡ hi
    → Increasing lo (ids (ls ++ l ∷ [])) (suc hi)
Increasing-append lo [] l hi i e = (omega arith, omega arith)
Increasing-append lo (m ∷ ls) l hi (h, i) e = (h, Increasing-append (suc m.id) ls l hi i e)

pub create_layer-IsOrdered :
    (optimistic : Bool) (s : Storage) → IsOrdered s → IsOrdered (Storage.create_layer optimistic s)
unfolding Storage.create_layer
create_layer-IsOrdered optimistic s h = record {
  order = Increasing-append 0 s.layers _ s.id_count h.order refl;
}

with_base-IsOrdered : (ls : List Layer) (s : Storage) → IsOrdered s → IsOrdered (with_base ls s)
unfolding with_base
with_base-IsOrdered [] s h = create_layer-IsOrdered false s h
with_base-IsOrdered (l ∷ ls) s h = h

pub ensure_top-IsOrdered : (s : Storage) → IsOrdered s → IsOrdered (ensure_top s)
unfolding ensure_top
ensure_top-IsOrdered s h = elim (Bool-cases (top_is_optimistic (with_base s.layers s))) [
  | inl e ↦ rw (e, ensure_top) (create_layer-IsOrdered false _ (with_base-IsOrdered s.layers s h))
  | inr e ↦ rw (e, ensure_top) (with_base-IsOrdered s.layers s h)
]

-- A method that leaves the layer the same one.
abbrev pub Keeping : (Layer → Result Layer) → Type 0
Keeping f = (l m : Layer) → f l ≡ ok m → SameLayer l m

ids-update_last :
    (f : Layer → Result Layer) (ls ms : List Layer)
    → Keeping f
    → update_last f ls ≡ ok ms
    → ids ms ≡ ids ls
unfolding update_last
ids-update_last f [] ms k e = cc
ids-update_last f (l ∷ []) ms k e =
    let (l', step, made) = step_returns (f l) _ e in ground (arith, (k l l' step).id)
ids-update_last f (l ∷ m ∷ ls) ms k e =
    let (ls', step, made) = step_returns (update_last f (m ∷ ls)) _ e in
    ground (arith, ids-update_last f (m ∷ ls) ls' k step)

ids-update_layer :
    (n : ℕ) (f : Layer → Result Layer) (ls ms : List Layer)
    → Keeping f
    → update_layer n f ls ≡ ok ms
    → ids ms ≡ ids ls
unfolding update_layer
ids-update_layer n f [] ms k e = ground arith
ids-update_layer n f (l ∷ ls) ms k e = elim (Bool-cases (l.id == n)) [
  | inl this ↦
      let (l', step, rest) = step_returns (f l) _ (rw (this, update_layer) at e) in
      let (ls', more, made) = step_returns (update_layer n f ls) _ rest in
      ground (arith, (k l l' step).id, ids-update_layer n f ls ls' k more)
  | inr other ↦
      let (ls', more, made) =
        step_returns (update_layer n f ls) _ (rw (other, update_layer) at e) in
      ground (arith, ids-update_layer n f ls ls' k more)
]

pub same_ids-IsOrdered :
    (s : Storage) (ls : List Layer)
    → IsOrdered s
    → ids ls ≡ ids s.layers
    → IsOrdered (record s { layers = ls })
same_ids-IsOrdered s ls h e = record { order = rw e h.order }

pub on_top-IsOrdered :
    (f : Layer → Result Layer) (s t : Storage)
    → Keeping f
    → IsOrdered s
    → on_top f s ≡ ok t
    → IsOrdered t
unfolding on_top
on_top-IsOrdered f s t k h e =
    let (ls, step, made) = step_returns (update_last f (ensure_top s).layers) _ e in
    let this =
      same_ids-IsOrdered (ensure_top s) ls (ensure_top-IsOrdered s h)
        (ids-update_last f _ ls k step) in
    ground (arith, this)

pub on_layer-IsOrdered :
    (layer : Option ℕ) (f : Layer → Result Layer) (s t : Storage)
    → Keeping f
    → IsOrdered s
    → on_layer layer f s ≡ ok t
    → IsOrdered t
unfolding on_layer
on_layer-IsOrdered none f s t k h e = on_top-IsOrdered f s t k h e
on_layer-IsOrdered (some n) f s t k h e =
    let (ls, step, made) = step_returns (update_layer n f s.layers) _ e in
    let this = same_ids-IsOrdered s ls h (ids-update_layer n f s.layers ls k step) in
    ground (arith, this)
