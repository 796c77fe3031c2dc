-- ===== src/Storage/Removed.antt =====
-- What `InMemoryStorage.get` collects of deleted and removed ids.
use houdini.Layer.{Layer, undone_in}
use houdini.Operations.{Operation, ListOperation, Location, Kind}
use houdini.Prelude.{
  ◌≡◌, refl, sym, ap, ◌∙◌, Bool, true, false≢true, false, some, List, [], ◌∷◌, ◌++◌, String, ite,
  str_dec, Dict, lookup, contains, contains-add, add, select, inl, inr, ◌⊎◌, Option-cases, arith,
}
use houdini.Storage.Get.{
  Scan, mark_deleted, collect_deleted, collect_operations, stays, is_nil, strs, apply_operations,
}
use houdini.Values.{Value, undefined, null, str, other, function, array, items, of_items}

-- An id is among the values of a list.
abbrev pub lists : String → List Value → Bool
lists v [] = false
lists v (str s ∷ xs) = ite (str_dec v s) true (lists v xs)
lists v (x ∷ xs) = lists v xs

lists-select :
    (v : String) (removed : List String) (xs : List Value)
    → contains v removed ≡ true
    → lists v (select (stays removed) xs) ≡ false
lists-select v removed [] h = refl
lists-select v removed (str s ∷ xs) h = ground (arith, lists-select v removed xs h)
lists-select v removed (undefined ∷ xs) h = lists-select v removed xs h
lists-select v removed (null ∷ xs) h = lists-select v removed xs h
lists-select v removed (other b n ∷ xs) h = lists-select v removed xs h
lists-select v removed (function n ∷ xs) h = lists-select v removed xs h
lists-select v removed (array ys ∷ xs) h = lists-select v removed xs h

items-of_items : (xs : List Value) → items (of_items xs) ≡ xs
items-of_items [] = refl
items-of_items (x ∷ xs) = ap (◌∷◌ x) (items-of_items xs)

-- The value, if it is a list, does not have the id.
abbrev pub Lacks : String → Value → Type 0
Lacks v (array xs) = lists v (items xs) ≡ false
Lacks v value = Unit

is_nil-cases : (xs : List String) → (xs ≡ []) ⊎ (is_nil xs ≡ false)
unfolding is_nil
is_nil-cases [] = inl refl
is_nil-cases (x ∷ xs) = inr refl

pub apply_operations-Lacks :
    (v : String) (kind : Kind) (xs : List Value) (s : Scan)
    → contains v s.remove_set ≡ true
    → Lacks v (apply_operations kind xs s).value
unfolding apply_operations is_nil
apply_operations-Lacks v kind xs s h = elim (is_nil-cases s.remove_set) [
  | inl e ↦ absurd (false≢true (ap (contains v) (sym e) ∙ h))
  | inr e ↦
      rw (e, apply_operations)
        (rw items-of_items
          (lists-select v s.remove_set (strs s.insert_start ++ xs ++ strs s.insert_end) h))
]

pub collect_operations-removed :
    (v : String) (ops : List Operation) (s s' : Scan)
    → contains v s.remove_set ≡ true
    → collect_operations ops s ≡ some s'
    → contains v s'.remove_set ≡ true
unfolding collect_operations
collect_operations-removed v [] s s' h e = ground arith
collect_operations-removed v (Operation.list (ListOperation.remove id) ∷ ops) s s' h e =
    collect_operations-removed v ops _ s' (ground (arith, contains-add v id s.remove_set)) e
collect_operations-removed v (Operation.list (ListOperation.insert Location.end id) ∷ ops) s s' h
      e =
    collect_operations-removed v ops _ s' h e
collect_operations-removed v (Operation.list (ListOperation.insert Location.start id) ∷ ops) s s' h
      e =
    collect_operations-removed v ops _ s' h e
collect_operations-removed v (Operation.delete target ∷ ops) s s' h e = cc

mark_deleted-kept :
    (id_maps : Dict String) (field v w : String) (l : Layer) (removed : List String)
    → contains v removed ≡ true
    → contains v (mark_deleted id_maps field l w removed) ≡ true
unfolding mark_deleted
mark_deleted-kept id_maps field v w l removed h = elim (Option-cases (lookup w id_maps)) [
  | inl e ↦ ground (arith, contains-add v w removed)
  | inr (m, e) ↦ ground (arith, contains-add v w removed, contains-add v m (add w removed))
]

mark_deleted-marks :
    (id_maps : Dict String) (field v : String) (l : Layer) (removed : List String)
    → undone_in v field l ≡ false
    → contains v (mark_deleted id_maps field l v removed) ≡ true
unfolding mark_deleted
mark_deleted-marks id_maps field v l removed u = elim (Option-cases (lookup v id_maps)) [
  | inl e ↦ ground (arith, contains-add v v removed)
  | inr (m, e) ↦ ground (arith, contains-add v v removed, contains-add v m (add v removed))
]

pub collect_deleted-kept :
    (id_maps : Dict String) (field v : String) (l : Layer) (vs removed : List String)
    → contains v removed ≡ true
    → contains v (collect_deleted id_maps field l vs removed) ≡ true
unfolding collect_deleted
collect_deleted-kept id_maps field v l [] removed h = h
collect_deleted-kept id_maps field v l (w ∷ vs) removed h =
    collect_deleted-kept id_maps field v l vs _ (mark_deleted-kept id_maps field v w l removed h)

pub collect_deleted-removed :
    (id_maps : Dict String) (field v : String) (l : Layer) (vs removed : List String)
    → contains v vs ≡ true
    → undone_in v field l ≡ false
    → contains v (collect_deleted id_maps field l vs removed) ≡ true
unfolding collect_deleted
collect_deleted-removed id_maps field v l [] removed h u = cc
collect_deleted-removed id_maps field v l (w ∷ vs) removed h u = elim (str_dec v w) [
  | yes p ↦
      collect_deleted-kept id_maps field v l vs _
        (rw (← p) (mark_deleted-marks id_maps field v l removed u))
  | no p ↦
      collect_deleted-removed id_maps field v l vs (mark_deleted id_maps field l w removed)
        (ground arith) u
]
