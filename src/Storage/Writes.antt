-- ===== src/Storage/Writes.antt =====
-- The getter `topLayer`, and reads right after writes through it.
use houdini.EntityMap.{get_field}
use houdini.Layer
use houdini.Layer.{Layer, new_layer}
use houdini.Layer.Identity.{write_link-SameLayer}
use houdini.Layer.Reads.{get-write_field, get-write_link}
use houdini.Operations.{Kind}
use houdini.Prelude.{
  ◌≡◌, refl, ap, ◌∙◌, false, none, some, List, [], ◌∷◌, ◌++◌, String, Result, ok, ◌>>=◌, bind_assoc,
  arith, Bool-cases, ◌⊎◌, inl, inr,
}
use houdini.Storage
use houdini.Storage.{
  Storage, create_layer, with_base, ensure_top, last, top_is_optimistic, update_last, on_top,
}
use houdini.Storage.Get.{get, record_ids}
use houdini.Storage.Reads.{get-newest, IsScalar}
use houdini.Values.{Value, Link, str}

last-append : (ls : List Layer) (l : Layer) → last (ls ++ l ∷ []) ≡ some l
unfolding last
last-append [] l = refl
last-append (m ∷ []) l = refl
last-append (m ∷ n ∷ ls) l = last-append (n ∷ ls) l

last-split :
    (m : Layer) (ls : List Layer)
    → (older : List Layer) × (l : Layer) × (m ∷ ls ≡ older ++ l ∷ []) × (last (m ∷ ls) ≡ some l)
unfolding last
last-split m [] = ([], m, refl, refl)
last-split m (n ∷ ls) =
    let (older, l, shape, top) = last-split n ls in (m ∷ older, l, ap (◌∷◌ m) shape, top)

-- A stack with a layer on top that can be written to.
abbrev pub Writable : List Layer → Type 0
Writable ls = (older : List Layer) × (l : Layer) × (ls ≡ older ++ l ∷ []) × (l.optimistic ≡ false)

-- The getter returns a layer that is not optimistic, whatever the stack. The layers that were there
-- stay as they are, and at most one new layer is put on top.
pub ensure_top-Writable :
    (s : Storage)
    → Writable (ensure_top s).layers
      × (((ensure_top s).layers ≡ s.layers)
          ⊎ ((ensure_top s).layers ≡ s.layers ++ new_layer s.id_count ∷ []))
unfolding ensure_top with_base create_layer last
ensure_top-Writable s = go s.layers refl
  where
    go :
        (ls : List Layer)
        → s.layers ≡ ls
        → Writable (ensure_top s).layers
          × (((ensure_top s).layers ≡ s.layers)
              ⊎ ((ensure_top s).layers ≡ s.layers ++ new_layer s.id_count ∷ []))
    go [] e = rw (e, with_base, last) (([], new_layer s.id_count, refl, refl), inr refl)
    go (m ∷ ls) e =
        let (older, l, shape, top) = last-split m ls in
        elim (Bool-cases l.optimistic) [
          | inl h ↦ rw (e, top, h) ((m ∷ ls, new_layer s.id_count, refl, refl), inr refl)
          | inr h ↦ rw (e, top, h) ((older, l, shape, h), inl refl)
        ]

update_last-append :
    (f : Layer → Result Layer) (older : List Layer) (l : Layer)
    → update_last f (older ++ l ∷ []) ≡ (f l >>= λ m. ok (older ++ m ∷ []))
unfolding update_last
update_last-append f [] l = refl
update_last-append f (m ∷ []) l = bind_assoc (f l) (λ k. ok (k ∷ [])) (λ ls. ok (m ∷ ls))
update_last-append f (m ∷ n ∷ older) l =
    ap (λ r. r >>= λ ls. ok (m ∷ ls)) (update_last-append f (n ∷ older) l)
    ∙ bind_assoc (f l) (λ k. ok ((n ∷ older) ++ k ∷ [])) (λ ls. ok (m ∷ ls))

with_base-id_maps : (ls : List Layer) (s : Storage) → (with_base ls s).id_maps ≡ s.id_maps
unfolding with_base create_layer
with_base-id_maps [] s = refl
with_base-id_maps (l ∷ ls) s = refl

ensure_top-id_maps : (s : Storage) → (ensure_top s).id_maps ≡ s.id_maps
unfolding ensure_top create_layer
ensure_top-id_maps s = ground (arith, with_base-id_maps s.layers s)

last-shape :
    (ls : List Layer) (l : Layer) → last ls ≡ some l → (older : List Layer) × (ls ≡ older ++ l ∷ [])
unfolding last
last-shape [] l h = ground arith
last-shape (m ∷ []) l h = ([], ap (λ k. k ∷ []) (cc h))
last-shape (m ∷ n ∷ ls) l h =
    let (older, shape) = last-shape (n ∷ ls) l h in (m ∷ older, ap (◌∷◌ m) shape)

-- Through the getter a method runs on the last layer, the other layers and the id maps stay.
on_top-last :
    (f : Layer → Result Layer) (s : Storage) (l m : Layer)
    → last (ensure_top s).layers ≡ some l
    → f l ≡ ok m
    → (s' : Storage) × (older : List Layer) × (on_top f s ≡ ok s')
      × (s'.layers ≡ older ++ m ∷ [])
      × (s'.id_maps ≡ s.id_maps)
unfolding on_top
on_top-last f s l m top e =
    let (older, shape) = last-shape (ensure_top s).layers l top in
    (
      record (ensure_top s) { layers = older ++ m ∷ [] },
      older,
      rw (shape, update_last-append f older l, e) refl,
      refl,
      ensure_top-id_maps s,
    )

record_ids-id_maps :
    (id : String) (s s' : Storage) → s'.id_maps ≡ s.id_maps → record_ids id s' ≡ record_ids id s
unfolding record_ids
record_ids-id_maps id s s' e = rw e refl

get_top :
    (f : Layer → Result Layer) (id field : String) (value : Value) (kind : Kind) (s : Storage)
    (l m : Layer)
    → last (ensure_top s).layers ≡ some l
    → f l ≡ ok m
    → m.id ≡ l.id
    → Layer.get id field m ≡ (value, kind)
    → record_ids id s ≡ id ∷ []
    → IsScalar value
    → (s' : Storage) × (on_top f s ≡ ok s')
      × (get id field s' ≡ record { value = value; kind = kind; display_layers = l.id ∷ [] })
get_top f id field value kind s l m top e same read one scalar =
    let (s', older, e', shape, maps) = on_top-last f s l m top e in
    let read' =
      get-newest id field s' older m [] shape (record_ids-id_maps id s s' maps ∙ one) tt
        (rw read scalar) in
    (s', e', rw (read, same) at read')

write_field_id :
    (id field : String) (value : Value) (l : Layer) → (Layer.write_field id field value l).id ≡ l.id
unfolding Layer.write_field
write_field_id id field value l = refl

-- A scalar that is written is read back at once, with the top layer alone on display, by a record
-- that has one id, if the top layer has no link of that name. The write does not throw.
pub get-write_field_top :
    (id field : String) (value : Value) (s : Storage) (l : Layer)
    → last (ensure_top s).layers ≡ some l
    → get_field id field l.links ≡ none
    → record_ids id s ≡ id ∷ []
    → IsScalar value
    → (s' : Storage) × (Storage.write_field id field value s ≡ ok s')
      × (get id field s' ≡ record { value = value; kind = Kind.scalar; display_layers = l.id ∷ [] })
unfolding Storage.write_field
get-write_field_top id field value s l top apart one scalar =
    get_top (λ k. ok (Layer.write_field id field value k)) id field value Kind.scalar s l
      (Layer.write_field id field value l) top refl (write_field_id id field value l)
      (ground (arith, get-write_field id field field value l)) one scalar

-- The same for a link to a record, whether or not the top layer holds a value of that name, where
-- the bookkeeping of the operations does not throw.
pub get-write_link_top :
    (id field target : String) (s : Storage) (l m : Layer)
    → last (ensure_top s).layers ≡ some l
    → Layer.write_link id field (Link.id target) l ≡ ok m
    → record_ids id s ≡ id ∷ []
    → (s' : Storage) × (Storage.write_link id field (Link.id target) s ≡ ok s')
      × (get id field s'
          ≡ record { value = str target; kind = Kind.link; display_layers = l.id ∷ [] })
unfolding Storage.write_link
get-write_link_top id field target s l m top e one =
    get_top (Layer.write_link id field (Link.id target)) id field (str target) Kind.link s l m top e
      (write_link-SameLayer id field (Link.id target) l m e).id
      (ground (arith, get-write_link id field field (Link.id target) l m e)) one tt

-- `deleteField` never throws.
pub delete_field-returns :
    (id field : String) (s : Storage) → (s' : Storage) × (Storage.delete_field id field s ≡ ok s')
unfolding Storage.delete_field on_top
delete_field-returns id field s =
    let ((older, l, shape, firm), _) = ensure_top-Writable s in
    rw (shape, update_last-append (λ k. ok (Layer.delete_field id field k)) older l) (_, refl)
