-- ===== src/Storage/Undone.antt =====
-- What a read of packages/houdini/src/runtime/cache/storage.ts returns after the top layer has undone a
-- delete by links into two lists.
use houdini.Layer.{Layer, write_link, undone_in}
use houdini.Layer.Undo.{only, write_link-undo_twice}
use houdini.Prelude.{◌≡◌, ◌≢◌, true, none, List, [], ◌∷◌, ◌++◌, String, lookup, contains, ok}
use houdini.Storage.{Storage}
use houdini.Storage.Deleted.{get-Lacks_deleted}
use houdini.Storage.Get.{get}
use houdini.Storage.Removed.{Lacks}

-- To write the list of a deleted record alone to a field flags the delete as undone for the field. To
-- write it then to a second field of the same record, one without operations of its own on the layer,
-- takes the flag back: while the layer is on top, the first list is read without the record.
pub get-write_link_twice :
    (id first second value : String) (l m n : Layer) (older : List Layer) (s : Storage)
    → value ≢ ""
    → id ≢ value
    → first ≢ second
    → lookup id l.operations ≡ none
    → contains value l.deleted_ids ≡ true
    → write_link id first (only value) l ≡ ok m
    → write_link id second (only value) m ≡ ok n
    → s.layers ≡ older ++ n ∷ []
    → (undone_in value first m ≡ true) × Lacks value (get id first s).value
get-write_link_twice id first second value l m n older s h apart differ e d p q shape =
    let (shown, taken, other, still) =
      write_link-undo_twice id first second value l m n h apart differ e d p q in
    (shown, get-Lacks_deleted id first value s older n shape still taken)
