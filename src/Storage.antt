-- ===== src/Storage.antt =====
-- The class `InMemoryStorage` of packages/houdini/src/runtime/cache/storage.ts, but for `get`
-- (Storage/Get.antt) and `resolveLayer` (Storage/Resolve.antt). A layer that a caller passes in is
-- named by its id.
pub mod Get
pub mod Resolve
pub mod Snapshot
pub mod Reads
pub mod Removed
pub mod Deleted
pub mod Undone
pub mod Merging
pub mod Resolved
pub mod Writes
pub mod Ordered
pub mod Order
pub mod Steps
pub mod Calls
use houdini.EntityMap
use houdini.EntityMap.{EntityMap}
use houdini.Layer
use houdini.Layer.{Layer, new_layer}
use houdini.Operations.{Location}
use houdini.Prelude.{
  ℕ, suc, ◌≡◌, refl, Bool, true, false, Option, none, some, List, [], ◌∷◌, ◌++◌, map, String, ite,
  str_dec, Dict, lookup, insert as put, erase, Result, ok, throw, type_error, no_layer, ◌>>=◌,
  if◌then◌else◌, ◌==◌,
}
use houdini.Values.{Value, Link, str, undefined}

-- `data` goes from the base layer to the top one.
pub record Storage : Type 0 where
  pub layers : List Layer
  pub id_count : ℕ
  pub rank : ℕ
  pub id_maps : Dict String
  pub typenames : Dict (Option String)

abbrev pub new_storage : Storage
new_storage = record { layers = []; id_count = 1; rank = 0; id_maps = []; typenames = [] }

-- `this.rank++`: the state after it, and the rank
unfoldable pub next_rank : Storage → Storage × ℕ
next_rank s = (record s { rank = suc s.rank }, s.rank)

unfoldable pub register_id_mapping : String → String → Storage → Storage
register_id_mapping from to s = record s { id_maps = put to from (put from to s.id_maps) }

unfoldable pub create_layer : Bool → Storage → Storage
create_layer optimistic s = record s {
  layers = s.layers ++ record (new_layer s.id_count) { optimistic = optimistic } ∷ [];
  id_count = suc s.id_count;
}

unfoldable pub last : List Layer → Option Layer
last [] = none
last (l ∷ []) = some l
last (l ∷ m ∷ ls) = last (m ∷ ls)

-- `this.data[this.data.length - 1]?.optimistic`
abbrev pub top_is_optimistic : Storage → Bool
top_is_optimistic s = elim (last s.layers) [ none ↦ false | some l ↦ l.optimistic ]

-- `if (this.data.length === 0) this.createLayer()`
unfoldable pub with_base : List Layer → Storage → Storage
with_base [] s = create_layer false s
with_base (l ∷ ls) s = s

-- What the getter `topLayer` does before it returns the last layer.
unfoldable pub ensure_top : Storage → Storage
unfolding with_base create_layer last
ensure_top s =
    let based = with_base s.layers s in
    if top_is_optimistic based then create_layer false based else based

-- Apply a method to the last layer.
unfoldable pub update_last : (Layer → Result Layer) → List Layer → Result (List Layer)
update_last f [] = throw type_error
update_last f (l ∷ []) = do l' ← f l; ok (l' ∷ [])
update_last f (l ∷ m ∷ ls) = do ls' ← update_last f (m ∷ ls); ok (l ∷ ls')

-- `this.topLayer.method(...)`
unfoldable pub on_top : (Layer → Result Layer) → Storage → Result Storage
unfolding ensure_top update_last
on_top f s = do let s' = ensure_top s; ls ← update_last f s'.layers; ok (record s' { layers = ls })

-- Apply a method to the layer with the id.
unfoldable pub update_layer : ℕ → (Layer → Result Layer) → List Layer → Result (List Layer)
update_layer n f [] = ok []
update_layer n f (l ∷ ls) = do
  let this = if l.id == n then f l else ok l
  l' ← this
  ls' ← update_layer n f ls
  ok (l' ∷ ls')

-- A method of the layer that the caller gives, or else of the top one.
unfoldable pub on_layer : Option ℕ → (Layer → Result Layer) → Storage → Result Storage
unfolding on_top update_layer
on_layer none f s = on_top f s
on_layer (some n) f s = do ls ← update_layer n f s.layers; ok (record s { layers = ls })

unfoldable pub insert : String → String → Location → String → Storage → Result Storage
unfolding on_top
insert id field where_to target = on_top (Layer.insert id field where_to target)

unfoldable pub remove : String → String → String → Option ℕ → Storage → Result Storage
unfolding on_layer
remove id field target layer = on_layer layer (Layer.remove id field target)

unfoldable pub delete : String → Option ℕ → Storage → Result Storage
unfolding on_layer
delete id layer = on_layer layer (λ l. ok (Layer.delete id l))

unfoldable pub delete_field : String → String → Storage → Result Storage
unfolding on_top
delete_field id field = on_top (λ l. ok (Layer.delete_field id field l))

unfoldable pub write_link : String → String → Link → Storage → Result Storage
unfolding on_top
write_link id field value = on_top (Layer.write_link id field value)

unfoldable pub write_field : String → String → Value → Storage → Result Storage
unfolding on_top
write_field id field value = on_top (λ l. ok (Layer.write_field id field value l))

abbrev pub drop_embedded : String → Layer → Layer
drop_embedded id l = if l.optimistic then l else record l {
  fields = EntityMap.drop_record id l.fields;
  links = EntityMap.drop_record id l.links;
}

unfoldable pub remove_embedded_record : String → Storage → Storage
remove_embedded_record id s = record s {
  layers = map (drop_embedded id) s.layers;
  typenames = erase id s.typenames;
}

unfoldable pub find_layer : ℕ → List Layer → Result Layer
find_layer n [] = throw (no_layer n)
find_layer n (l ∷ ls) = if l.id == n then ok l else find_layer n ls

unfoldable pub get_layer : ℕ → Storage → Result Layer
unfolding find_layer
get_layer n s = find_layer n s.layers

-- The typename is passed on if it is truthy; `null` is an entry that is not.
unfoldable pub replace_id : String → String → Storage → Storage
replace_id from to s =
    let typenames = elim (lookup from s.typenames) as (λ x. Dict (Option String)) [
      | none ↦ s.typenames
      | some found ↦ elim found [
        | none ↦ s.typenames
        | some typename ↦ ite (str_dec typename "") s.typenames (put to (some typename) s.typenames)
      ]
    ] in
    record s { layers = map (Layer.replace_id from to) s.layers; typenames = typenames }

unfoldable pub reset : Storage → Storage
reset s = record s { layers = []; typenames = [] }
