-- ===== src/Internal/Calls.antt =====
-- Any calls of the walks, of `removeID` and of the deletions of the index of lists, one after the other.
use Prim.Native.Char.{Char}
use houdini.Internal.{CacheInternal, typename_of, subscribe_field}
use houdini.Internal.Adding
use houdini.Internal.Batches
use houdini.Internal.Handlers
use houdini.Internal.Handlers.{
  Outcome, Place, unchanged, remove_at, disconnect, target_selection, place_of, value_includes,
}
use houdini.Internal.Kept.{IsKeptBySteps}
use houdini.Internal.Kept.Additions.{add-kept}
use houdini.Internal.Kept.Batched.{add_many-kept}
use houdini.Internal.Kept.Removals.{remove-kept, remove_all_subscribers-kept}
use houdini.Internal.Removing
use houdini.Internal.Searches
use houdini.Internal.{value_of}
use houdini.Json.{Json}
use houdini.Lists.{Handler, new_manager}
use houdini.Lists.Calls.{new_manager-IsRegistered}
use houdini.Lists.Sweeps.{delete_field-IsRegistered}
use houdini.Lists.Conditions.{validate_when}
use houdini.Lists.Deletion
use houdini.Lists.Registry.{IsRegistered, add-IsRegistered}
use houdini.Prelude.{
  ℕ, ◌≡◌, refl, ap, ◌∙◌, sym, Bool, true, false, Option, none, List, [], ◌∷◌, String, Result, ok,
  throw, ◌>>=◌, step_returns, inl, inr, Option-cases, Bool-cases,
}
use houdini.Selections.{Selection, Variables}
use houdini.Stale
use houdini.Storage
use houdini.Storage.{Storage}
use houdini.Subscriptions.{Spec, FieldSelection, new_subscriptions, get, get_masked_parents}
use houdini.Subscriptions.Calls.{IsSound, add-IsSound, remove-IsSound, empty-IsSound}
use houdini.Subscriptions.Removal.{specs_of}

-- The index of the subscriptions and that of the lists are each as their methods leave them.
pub record IsInOrder (c : CacheInternal) : Type 0 where
  pub subscriptions : IsSound c.subscriptions.subscribers
  pub lists : IsRegistered c.lists

steps-IsInOrder : IsKeptBySteps IsInOrder
unfolding typename_of subscribe_field
steps-IsInOrder = record {
  looked = λ id c p. record { subscriptions = p.subscriptions; lists = p.lists };
  subscribed = λ id key s masked c p. record {
    subscriptions = add-IsSound id key s masked c.subscriptions p.subscriptions;
    lists = p.lists;
  };
  listed = λ h c p. record {
    subscriptions = p.subscriptions;
    lists = add-IsRegistered h c.lists p.lists;
  };
  unsubscribed = λ id key specs masked c p. record {
    subscriptions = remove-IsSound id key specs masked c.subscriptions p.subscriptions;
    lists = p.lists;
  };
}

pub data Call : Type 0 where
  add : Spec → Variables → Selection → String → Option String → Bool → Call
  add_many : Variables → List FieldSelection → String → String → Bool → Call
  remove : List Spec → Variables → Selection → Bool → String → Call
  remove_all_subscribers : String → Option (List Spec) → Call
  remove_id : Handler → String → Variables → Option ℕ → Call
  delete_field : String → String → Call

-- A cache with nothing but a store.
abbrev pub new_cache : Storage → CacheInternal
new_cache storage = record {
  storage = storage;
  subscriptions = new_subscriptions;
  lists = new_manager;
  lifetimes = [];
  stale_manager = Stale.new_manager;
}

module _ (stringify : Json → List Char) where
  abbrev result_or : CacheInternal → Result CacheInternal → CacheInternal
  result_or c (throw problem) = c
  result_or c (ok c') = c'

  abbrev cache_or : CacheInternal → Result Outcome → CacheInternal
  cache_or c (throw problem) = c
  cache_or c (ok outcome) = outcome.cache

  disconnect-IsInOrder :
      (subscribers masked : List FieldSelection) (selection : Selection) (target : String)
      (variables : Variables) (c : CacheInternal)
      → IsInOrder c
      → IsInOrder (disconnect stringify subscribers masked selection target variables c)
  unfolding disconnect
  disconnect-IsInOrder subscribers [] selection target variables c p =
      remove-kept IsInOrder steps-IsInOrder stringify (specs_of subscribers) variables selection
        false target c p
  disconnect-IsInOrder subscribers (s ∷ ss) selection target variables c p =
      remove-kept IsInOrder steps-IsInOrder stringify (specs_of (s ∷ ss)) variables selection true
        target _
        (remove-kept IsInOrder steps-IsInOrder stringify (specs_of subscribers) variables selection
          false target c p)

  remove_at-IsInOrder :
      (list : Handler) (place : Place) (variables : Variables) (layer : Option ℕ)
      (c : CacheInternal) (o : Outcome)
      → IsInOrder c
      → remove_at stringify list place variables layer c ≡ ok o
      → IsInOrder o.cache
  unfolding remove_at
  remove_at-IsInOrder list place variables layer c o p e =
      let masked = get_masked_parents list.record_id list.key c.subscriptions in
      let subscribers = get list.record_id list.key c.subscriptions in
      let first = step_returns (target_selection list) _ e in
      let c' : CacheInternal =
        disconnect stringify subscribers masked first.0 place.target variables c in
      let second =
        step_returns (Storage.remove place.parent place.key place.target layer c'.storage) _
          first.2 in
      let same : record c' { storage = second.0 } ≡ o.cache = ap (cache_or c) second.2 in
      let q : IsInOrder c' =
        disconnect-IsInOrder subscribers masked first.0 place.target variables c p in
      rw (sym same) (record { subscriptions = q.subscriptions; lists = q.lists })

  same_cache :
      (c : CacheInternal) (o : Outcome) → IsInOrder c → ok (unchanged c) ≡ ok o → IsInOrder o.cache
  same_cache c o p e = rw (sym (ap (cache_or c) e)) p

  remove_id-IsInOrder :
      (list : Handler) (id : String) (variables : Variables) (layer : Option ℕ) (c : CacheInternal)
      (o : Outcome)
      → IsInOrder c
      → Handlers.remove_id stringify list id variables layer c ≡ ok o
      → IsInOrder o.cache
  unfolding Handlers.remove_id
  remove_id-IsInOrder list id variables layer c o p e =
      elim (Bool-cases (validate_when none list)) [
        | inr a ↦ same_cache c o p (sym (rw (a, Handlers.remove_id) refl) ∙ e)
        | inl a ↦ elim (Option-cases (place_of list id c)) [
          | inl b ↦ same_cache c o p (sym (rw (a, b, Handlers.remove_id) refl) ∙ e)
          | inr (place, b) ↦
              elim (Bool-cases (value_includes place.target (value_of place.parent place.key c))) [
                | inr d ↦ same_cache c o p (sym (rw (a, b, d, Handlers.remove_id) refl) ∙ e)
                | inl d ↦
                    remove_at-IsInOrder list place variables layer c o p
                      (sym (rw (a, b, d, Handlers.remove_id) refl) ∙ e)
              ]
        ]
      ]

  unfoldable pub perform : Call → CacheInternal → Result CacheInternal
  unfolding Adding.add Batches.add_many Removing.remove Searches.remove_all_subscribers
      Handlers.remove_id Deletion.delete_field
  perform (Call.add spec variables selection parent parent_type masked) c =
      ok (Adding.add stringify spec variables selection parent parent_type masked c)
  perform (Call.add_many variables subscribers parent parent_type masked) c =
      ok (Batches.add_many stringify variables subscribers parent parent_type masked c)
  perform (Call.remove targets variables selection masked id) c =
      ok (Removing.remove stringify targets variables selection masked id c)
  perform (Call.remove_all_subscribers id targets) c =
      ok (Searches.remove_all_subscribers stringify id targets c)
  perform (Call.remove_id list id variables layer) c = do
    outcome ← Handlers.remove_id stringify list id variables layer c
    ok outcome.cache
  perform (Call.delete_field parent_id field) c =
      ok (record c { lists = Deletion.delete_field parent_id field c.lists })

  unfoldable pub perform_all : List Call → CacheInternal → Result CacheInternal
  unfolding perform
  perform_all [] c = ok c
  perform_all (call ∷ calls) c = do c' ← perform call c; perform_all calls c'

  perform-IsInOrder :
      (call : Call) (c c' : CacheInternal) → IsInOrder c → perform call c ≡ ok c' → IsInOrder c'
  unfolding perform
  perform-IsInOrder (Call.add spec variables selection parent parent_type masked) c c' p e =
      rw (sym (ap (result_or c) e)) (
        add-kept IsInOrder steps-IsInOrder stringify spec variables selection parent parent_type
          masked c p)
  perform-IsInOrder (Call.add_many variables subscribers parent parent_type masked) c c' p e =
      rw (sym (ap (result_or c) e)) (
        add_many-kept IsInOrder steps-IsInOrder stringify variables subscribers parent parent_type
          masked c p)
  perform-IsInOrder (Call.remove targets variables selection masked id) c c' p e =
      rw (sym (ap (result_or c) e))
        (remove-kept IsInOrder steps-IsInOrder stringify targets variables selection masked id c p)
  perform-IsInOrder (Call.remove_all_subscribers id targets) c c' p e =
      rw (sym (ap (result_or c) e))
        (remove_all_subscribers-kept IsInOrder steps-IsInOrder stringify id targets c p)
  perform-IsInOrder (Call.remove_id list id variables layer) c c' p e =
      let first = step_returns (Handlers.remove_id stringify list id variables layer c) _ e in
      rw (sym (ap (result_or c) first.2))
        (remove_id-IsInOrder list id variables layer c first.0 p first.1)
  perform-IsInOrder (Call.delete_field parent_id field) c c' p e =
      rw (sym (ap (result_or c) e)) (record {
        subscriptions = p.subscriptions;
        lists = delete_field-IsRegistered parent_id field c.lists p.lists;
      })

  perform_all-IsInOrder :
      (calls : List Call) (c c' : CacheInternal)
      → IsInOrder c
      → perform_all calls c ≡ ok c'
      → IsInOrder c'
  unfolding perform_all
  perform_all-IsInOrder [] c c' p e = rw (sym (ap (result_or c) e)) p
  perform_all-IsInOrder (call ∷ calls) c c' p e =
      let first = step_returns (perform call c) _ e in
      perform_all-IsInOrder calls first.0 c' (perform-IsInOrder call c first.0 p first.1) first.2

  -- Whatever store there is, and whatever documents subscribe and unsubscribe, records are linked and
  -- removed from lists, and fields are collected, as long as no call throws: in the end every field
  -- of the index of subscriptions has a reference, and its selections hold the callbacks of its counts
  -- in order; and each list handler is known under its record and its key.
  pub perform_all-new_cache :
      (calls : List Call) (storage : Storage) (c : CacheInternal)
      → perform_all calls (new_cache storage) ≡ ok c
      → IsSound c.subscriptions.subscribers × IsRegistered c.lists
  perform_all-new_cache calls storage c e =
      let p =
        perform_all-IsInOrder calls (new_cache storage) c
          (record { subscriptions = empty-IsSound; lists = new_manager-IsRegistered }) e in
      (p.subscriptions, p.lists)
