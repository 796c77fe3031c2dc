-- ===== src/Storage/Order.antt =====
-- The ids of the layers under `resolveLayer` and `hydrate` of packages/houdini/src/runtime/cache/storage.ts.
use houdini.Layer.{Layer}
use houdini.Layer.Identity.{write_layer-SameLayer}
use houdini.Layer.Merge.{write_layer}
use houdini.Prelude.{
  ℕ, zero, suc, ◌≡◌, refl, sym, ap, ◌∙◌, false, List, [], ◌∷◌, map, ok, step_returns, ◌==◌, arith,
  Bool-cases, Option-cases, inl, inr, length, if◌then◌else◌,
}
use houdini.Storage.{Storage}
use houdini.Storage.Resolve.{
  find_index, settle, is_optimistic_at, starting_index, merge_run, merge_from, resolve_layer,
}
use houdini.Storage.Merging.{merge_run_base, suc-sub-one}
use houdini.Storage.Snapshot.{Snapshot, fill}
use houdini.Storage.Ordered.{Increasing-weaken, Increasing, ids, IsOrdered}

pub ids-map :
    (f : Layer → Layer) (ls : List Layer)
    → ((l : Layer) → (f l).id ≡ l.id)
    → ids (map f ls) ≡ ids ls
ids-map f [] h = refl
ids-map f (l ∷ ls) h = ground (arith, h l, ids-map f ls h)

ids-settle : (i : ℕ) (ls : List Layer) → ids (settle i ls) ≡ ids ls
unfolding settle
ids-settle i [] = refl
ids-settle zero (l ∷ ls) = refl
ids-settle (suc i) (l ∷ ls) = ap (◌∷◌ l.id) (ids-settle i ls)

pub ids-fill : (n : ℕ) (snapshot : Snapshot) (ls : List Layer) → ids (fill n snapshot ls) ≡ ids ls
unfolding fill
ids-fill n snapshot [] = refl
ids-fill n snapshot (l ∷ ls) = ground (arith, ids-fill n snapshot ls)

merge_run-Increasing :
    (base : Layer) (ls : List Layer) (base' : Layer) (rest : List Layer) (lo hi : ℕ)
    → merge_run base ls ≡ ok (base', rest)
    → Increasing lo (ids ls) hi
    → (base'.id ≡ base.id) × Increasing lo (ids rest) hi
unfolding merge_run
merge_run-Increasing base [] base' rest lo hi e h = ground (arith, h)
merge_run-Increasing base (l ∷ ls) base' rest lo hi e (below, h) = elim (Bool-cases l.optimistic) [
  | inl stop ↦ ground (arith, below, h)
  | inr firm ↦
      let (b, step, more) = step_returns (write_layer l base) _ (rw (firm, merge_run) at e) in
      let (same, order) = merge_run-Increasing b ls base' rest (suc l.id) hi more h in
      (
        same ∙ (write_layer-SameLayer l base b step).id,
        Increasing-weaken lo (suc l.id) (ids rest) hi (omega arith) order,
      )
]

merge_from-Increasing :
    (i : ℕ) (ls ms : List Layer) (lo hi : ℕ)
    → is_optimistic_at i ls ≡ false
    → merge_from i ls ≡ ok ms
    → Increasing lo (ids ls) hi
    → Increasing lo (ids ms) hi
unfolding merge_from is_optimistic_at
merge_from-Increasing i [] ms lo hi firm e h = ground (arith, h)
merge_from-Increasing zero (base ∷ ls) ms lo hi firm e (below, h) =
    let ((b, rest), run, made) = step_returns (merge_run base (base ∷ ls)) _ e in
    let (same, order) =
      merge_run-Increasing base ls b rest (suc base.id) hi (sym (merge_run_base base ls firm) ∙ run)
        h in
    ground (arith, order, same)
merge_from-Increasing (suc i) (l ∷ ls) ms lo hi firm e (below, h) =
    let (ls', step, made) = step_returns (merge_from i ls) _ e in
    let this = merge_from-Increasing i ls ls' (suc l.id) hi firm step h in ground (arith, this)

is_optimistic_at-settle : (i : ℕ) (ls : List Layer) → is_optimistic_at i (settle i ls) ≡ false
unfolding is_optimistic_at settle
is_optimistic_at-settle i [] = refl
is_optimistic_at-settle zero (l ∷ ls) = refl
is_optimistic_at-settle (suc i) (l ∷ ls) = is_optimistic_at-settle i ls

-- The layer at the starting index can be written to.
is_optimistic_at-starting_index :
    (i : ℕ) (ls : List Layer)
    → is_optimistic_at (starting_index i (settle i ls)) (settle i ls) ≡ false
unfolding starting_index
is_optimistic_at-starting_index zero ls = ground (arith, is_optimistic_at-settle 0 ls)
is_optimistic_at-starting_index (suc i) ls =
    rw (suc-sub-one i) (elim (Bool-cases (is_optimistic_at i (settle (suc i) ls))) [
      | inl e ↦ rw e (is_optimistic_at-settle (suc i) ls)
      | inr e ↦ rw e e
    ])

pub resolve_layer-IsOrdered :
    (n : ℕ) (s t : Storage) → IsOrdered s → resolve_layer n s ≡ ok t → IsOrdered t
unfolding resolve_layer
resolve_layer-IsOrdered n s t h e = elim (Option-cases (find_index n s.layers)) [
  | inl missing ↦ ground arith
  | inr (i, found) ↦
      let settled = settle i s.layers in
      let (ls, step, made) =
        step_returns (merge_from (starting_index i settled) settled) _
          (rw (found, resolve_layer) at e) in
      let order : Increasing 0 (ids ls) s.id_count =
        merge_from-Increasing (starting_index i settled) settled ls 0 s.id_count
          (is_optimistic_at-starting_index i s.layers) step (rw (ids-settle i s.layers) h.order) in
      let this : IsOrdered
          (record s { layers = ls; id_maps = if length ls == 1 then [] else s.id_maps }) =
        record { order = order } in
      ground (arith, this)
]
