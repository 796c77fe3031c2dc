-- ===== src/Internal/Facade.antt =====
-- The class `Cache` of packages/houdini/src/runtime/cache/index.ts, as far as it hands calls on to the
-- subscriptions, the lists and the storage. Messages are known by their callbacks.
use Prim.Native.Char.{Char}
use houdini.Internal.{CacheInternal}
use houdini.Internal.Adding.{add}
use houdini.Internal.Clearing.{notify_subscribers}
use houdini.Internal.Handlers.{remove_id_from_all_lists}
use houdini.Internal.Removing.{remove}
use houdini.Internal.Searches.{remove_all_subscribers, or_root_id}
use houdini.Json.{Json}
use houdini.Lists.Deletion
use houdini.Prelude.{
  ℕ, Bool, true, false, Option, none, some, List, [], ◌∷◌, ◌++◌, map, String, lookup,
  add as add_text, if◌then◌else◌, Result, ok, ◌>>=◌,
}
use houdini.Selections.{Variables, truthy_text}
use houdini.Stale
use houdini.Storage
use houdini.Subscriptions.{Spec, FieldSelection, ArtifactKind, callback, copy_subscribers, get_all}
use houdini.Subscriptions.Notices.{all}
use houdini.Subscriptions.Removal

module _ (stringify : Json → List Char) where
  -- `subscribe`; a cache that is disabled does nothing
  unfoldable pub subscribe : Bool → Spec → Variables → CacheInternal → CacheInternal
  unfolding add
  subscribe disabled spec variables c =
      if disabled
      then c
      else add stringify spec variables spec.selection (or_root_id spec.parent_id) none false c

  unfoldable pub unsubscribe : Spec → Variables → CacheInternal → CacheInternal
  unfolding remove
  unsubscribe spec variables c =
      remove stringify (spec ∷ []) variables spec.selection false (or_root_id spec.parent_id) c

  -- `[idMaps[id], id].filter(Boolean)`
  abbrev pub truthy_ids : List (Option String) → List String
  truthy_ids [] = []
  truthy_ids (id ∷ ids) = elim (truthy_text id) [
    | none ↦ truthy_ids ids
    | some s ↦ s ∷ truthy_ids ids
  ]

  unfoldable pub record_ids : String → CacheInternal → List String
  unfolding lookup
  record_ids id c = truthy_ids (lookup id c.storage.id_maps ∷ some id ∷ [])

  -- The body of the loop of `delete`, with the callbacks that are told.
  unfoldable pub delete_record :
      Option ℕ → String → CacheInternal → Result (CacheInternal × List String)
  unfolding remove_all_subscribers remove_id_from_all_lists Storage.delete
  delete_record layer id c = do
    outcome ←
        remove_id_from_all_lists stringify id layer (remove_all_subscribers stringify id none c)
    storage ← Storage.delete id layer outcome.cache.storage
    ok (record (outcome.cache) { storage = storage }, outcome.messages)

  unfoldable pub delete_records :
      Option ℕ → List String → CacheInternal → Result (CacheInternal × List String)
  unfolding delete_record
  delete_records layer [] c = ok (c, [])
  delete_records layer (id ∷ ids) c = do
    first ← delete_record layer id c
    rest ← delete_records layer ids first.0
    ok (rest.0, first.1 ++ rest.1)

  -- `delete`
  unfoldable pub delete : String → Option ℕ → CacheInternal → Result (CacheInternal × List String)
  unfolding record_ids delete_records
  delete id layer c = delete_records layer (record_ids id c) c

  abbrev is_pushed : Option ArtifactKind → Bool
  is_pushed (some ArtifactKind.subscription) = true
  is_pushed kind = false

  -- The loop of `refresh` over what is subscribed to a record; subscriptions do not refetch.
  unfoldable pub refetch : List FieldSelection → List String → List String
  refetch [] notified = notified
  refetch (s ∷ selections) notified =
      refetch selections
        (if is_pushed s.spec.kind then notified else add_text (callback s) notified)

  unfoldable pub refetch_records : List String → CacheInternal → List String → List String
  unfolding get_all refetch
  refetch_records [] c notified = notified
  refetch_records (id ∷ ids) c notified =
      refetch_records ids c (refetch (get_all id true c.subscriptions) notified)

  -- `refresh`: the callbacks that are asked to refetch, each once
  unfoldable pub refresh : List String → CacheInternal → List String → List String
  unfolding record_ids refetch_records
  refresh [] c notified = notified
  refresh (id ∷ ids) c notified = refresh ids c (refetch_records (record_ids id c) c notified)

abbrev is_query : Option ArtifactKind → Bool
is_query (some ArtifactKind.query) = true
is_query kind = false

unfoldable pub queries : List FieldSelection → List String
queries [] = []
queries (s ∷ selections) =
    let rest = queries selections in if is_query s.spec.kind then callback s ∷ rest else rest

-- `refreshAll`
unfoldable pub refresh_all : CacheInternal → List String
unfolding all queries
refresh_all c = queries (all true c.subscriptions)

-- `registerKeyMap`
unfoldable pub register_key_map : String → String → CacheInternal → CacheInternal
unfolding Storage.register_id_mapping copy_subscribers
register_key_map source mapped c = record c {
  storage = Storage.register_id_mapping source mapped c.storage;
  subscriptions = copy_subscribers source mapped c.subscriptions;
}

-- `reset`: the state after it, and the callbacks that are told
unfoldable pub reset : CacheInternal → CacheInternal × List String
unfolding Removal.reset Stale.reset Deletion.reset Storage.reset notify_subscribers
reset c =
    let left = Removal.reset c.subscriptions in
    (
      record {
        storage = Storage.reset c.storage;
        subscriptions = left.0;
        lists = Deletion.reset c.lists;
        lifetimes = [];
        stale_manager = Stale.reset c.stale_manager;
      },
      notify_subscribers [] (map (λ spec. spec.on_message) left.1),
    )
