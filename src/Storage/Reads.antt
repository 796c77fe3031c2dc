-- ===== src/Storage/Reads.antt =====
-- What `InMemoryStorage.get` of packages/houdini/src/runtime/cache/storage.ts finds in a stack of layers.
use houdini.Layer
use houdini.Layer.{Layer, undone_in}
use houdini.Operations.{Operation, Kind}
use houdini.Prelude.{
  ◌≡◌, refl, ◌∙◌, List, [], ◌∷◌, ◌++◌, reverse, String, Dict, All, All-append, if◌then◌else◌,
}
use houdini.Storage.{Storage}
use houdini.Storage.Get.{
  not_found, Scan, new_scan, collect_deleted, is_nil, continue, return, operations_of, skip,
  visit_value, uses_default, visit, visit_ids, scan, record_ids, get,
}
use houdini.Values.{Value, undefined, null, str, other, function, array}
use mathlib.Core.List.{reverse-append, append_assoc, append-nil, reverse-cons}

-- The layer has no value and no operations for the field, under any of the ids.
abbrev pub Silent : List String → String → Layer → Type 0
Silent ids field l =
    All
      (λ id.
        ((Layer.get id field l).0 ≡ undefined)
        × (operations_of (Layer.get_operations id field l) ≡ []))
      ids

visit-Silent :
    (id_maps : Dict String) (field id : String) (l : Layer) (s : Scan)
    → (Layer.get id field l).0 ≡ undefined
    → operations_of (Layer.get_operations id field l) ≡ []
    → (s' : Scan) × (visit id_maps field undefined l id s ≡ continue s')
unfolding visit visit_value is_nil
visit-Silent id_maps field id l s v o = (
  skip l (record s { remove_set = collect_deleted id_maps field l l.deleted_ids s.remove_set }),
  rw (v, o),
)

visit_ids-Silent :
    (id_maps : Dict String) (field : String) (l : Layer) (ids : List String) (s : Scan)
    → Silent ids field l
    → (s' : Scan) × (visit_ids id_maps field undefined l ids s ≡ continue s')
unfolding visit_ids
visit_ids-Silent id_maps field l [] s h = (s, refl)
visit_ids-Silent id_maps field l (id ∷ ids) s ((v, o), h) =
    let (s', e) = visit-Silent id_maps field id l s v o in
    let (s'', e') = visit_ids-Silent id_maps field l ids s' h in (s'', rw (e, visit_ids) e')

scan-Silent :
    (id_maps : Dict String) (field : String) (ids : List String) (newer older : List Layer)
    (s : Scan)
    → All (Silent ids field) newer
    → (s' : Scan) × (scan id_maps field undefined ids (newer ++ older) s
        ≡ scan id_maps field undefined ids older s')
unfolding scan
scan-Silent id_maps field ids [] older s h = (s, refl)
scan-Silent id_maps field ids (l ∷ newer) older s (h, hs) =
    let (s', e) = visit_ids-Silent id_maps field l ids s h in
    let (s'', e') = scan-Silent id_maps field ids newer older s' hs in (s'', rw (e, scan) e')

-- A value that is returned as it is: neither `undefined` nor a list.
abbrev pub IsScalar : Value → Type 0
IsScalar undefined = ⊥
IsScalar (array xs) = ⊥
IsScalar value = Unit

visit_value-scalar :
    (l : Layer) (value : Value) (kind : Kind) (ops : List Operation) (s : Scan)
    → IsScalar value
    → visit_value l value kind ops s
      ≡ return (record { value = value; kind = kind; display_layers = l.id ∷ [] })
unfolding visit_value
visit_value-scalar l null kind ops s h = refl
visit_value-scalar l (str x) kind ops s h = refl
visit_value-scalar l (other b n) kind ops s h = refl
visit_value-scalar l (function n) kind ops s h = refl
visit_value-scalar l undefined kind ops s h = absurd h
visit_value-scalar l (array xs) kind ops s h = absurd h

no_default : (value : Value) → (if uses_default value undefined then undefined else value) ≡ value
no_default undefined = refl
no_default null = refl
no_default (str x) = refl
no_default (other b n) = refl
no_default (function n) = refl
no_default (array xs) = refl

visit-scalar :
    (id_maps : Dict String) (field id : String) (l : Layer) (s : Scan)
    → IsScalar (Layer.get id field l).0
    → visit id_maps field undefined l id s
      ≡ return (record {
        value = (Layer.get id field l).0;
        kind = (Layer.get id field l).1;
        display_layers = l.id ∷ [];
      })
unfolding visit
visit-scalar id_maps field id l s h = rw no_default (visit_value-scalar l _ _ _ _ h)

visit_ids-scalar :
    (id_maps : Dict String) (field id : String) (ids : List String) (l : Layer) (s : Scan)
    → IsScalar (Layer.get id field l).0
    → visit_ids id_maps field undefined l (id ∷ ids) s
      ≡ return (record {
        value = (Layer.get id field l).0;
        kind = (Layer.get id field l).1;
        display_layers = l.id ∷ [];
      })
unfolding visit_ids
visit_ids-scalar id_maps field id ids l s h = rw (visit-scalar id_maps field id l s h, visit_ids)

scan-scalar :
    (id_maps : Dict String) (field id : String) (ids : List String) (l : Layer) (older : List Layer)
    (s : Scan)
    → IsScalar (Layer.get id field l).0
    → scan id_maps field undefined (id ∷ ids) (l ∷ older) s ≡ record {
      value = (Layer.get id field l).0;
      kind = (Layer.get id field l).1;
      display_layers = l.id ∷ [];
    }
unfolding scan
scan-scalar id_maps field id ids l older s h =
    rw (visit_ids-scalar id_maps field id ids l s h, scan)

pub reverse_middle {ℓ} :
    {A : Type ℓ} (xs : List A) (x : A) (ys : List A)
    → reverse (xs ++ x ∷ ys) ≡ reverse ys ++ x ∷ reverse xs
reverse_middle xs x ys = simp (reverse-append, reverse-cons, append_assoc)

All-reverse {ℓ κ} : {A : Type ℓ} (P : A → Type κ) (xs : List A) → All P xs → All P (reverse xs)
All-reverse P [] h = tt
All-reverse P (x ∷ xs) (p, h) =
    rw reverse-cons (All-append P (reverse xs) (x ∷ []) (All-reverse P xs h) (p, tt))

-- A record that is known by one id reads a scalar from the newest layer that has a value for the
-- field, and that layer alone is on display, if the layers above have neither a value for the field
-- nor operations on it.
pub get-newest :
    (id field : String) (s : Storage) (older : List Layer) (l : Layer) (newer : List Layer)
    → s.layers ≡ older ++ l ∷ newer
    → record_ids id s ≡ id ∷ []
    → All (Silent (id ∷ []) field) newer
    → IsScalar (Layer.get id field l).0
    → get id field s ≡ record {
      value = (Layer.get id field l).0;
      kind = (Layer.get id field l).1;
      display_layers = l.id ∷ [];
    }
unfolding get
get-newest id field s older l newer shape one quiet scalar =
    rw (one, shape, reverse_middle)
      (let (s', e) =
          scan-Silent s.id_maps field (id ∷ []) (reverse newer) (l ∷ reverse older) new_scan
            (All-reverse (Silent (id ∷ []) field) newer quiet) in
        e ∙ scan-scalar s.id_maps field id [] l (reverse older) s' scalar)

-- A field that no layer has a value for, or operations on, reads as `undefined`.
pub get-unknown :
    (id field : String) (s : Storage)
    → All (Silent (record_ids id s) field) s.layers
    → get id field s ≡ not_found
unfolding get
get-unknown id field s quiet =
    let (s', e) =
      scan-Silent s.id_maps field (record_ids id s) (reverse s.layers) [] new_scan
        (All-reverse (Silent (record_ids id s) field) s.layers quiet) in
    rw (append-nil (reverse s.layers)) at e
