-- ===== src/Internal/Kept.antt =====
-- What every step of the walks keeps, the walks keep.
pub mod Additions
pub mod Batched
pub mod Removals
use Prim.Native.Char.{Char}
use houdini.Internal.{
  CacheInternal, each, typename_of, value_of, linked, children, subscribe_field, register_list,
  register_field, inner_fields, is_masked, or_text,
}
use houdini.Internal.Adding
use houdini.Internal.Adding.{add}
use houdini.Internal.Batches
use houdini.Internal.Batches.{add_many, add_linked}
use houdini.Internal.Removing
use houdini.Internal.Removing.{remove, remove_field, remove_fields, remove_alternative}
use houdini.Internal.Searches.{
  Search, visit_each, find_sub_selections, find_in_alternative, find_in_fields, remove_target,
  remove_all_subscribers,
}
use houdini.Json.{Json}
use houdini.Lists
use houdini.Lists.{Handler}
use houdini.Prelude.{
  ◌≡◌, refl, Bool, true, false, Option, none, some, List, [], ◌∷◌, ◌++◌, map, String, str_dec,
  contains,
}
use houdini.Selections.{Selection, Fields, Alternatives, Field, ListInfo, Variables, key_of, choose}
use houdini.Subscriptions.{Spec, FieldSelection}
use houdini.Subscriptions.Removal.{remove_subscribers}

-- A property that each step of a walk keeps.
pub record IsKeptBySteps (P : CacheInternal → Type 0) : Type 0 where
  pub looked : (id : String) (c : CacheInternal) → P c → P (typename_of id c).0
  pub subscribed :
      (id key : String) (s : FieldSelection) (masked : Bool) (c : CacheInternal)
      → P c
      → P (subscribe_field id key s masked c)
  pub listed :
      (h : Handler) (c : CacheInternal) → P c → P (record c { lists = Lists.add h c.lists })
  pub unsubscribed :
      (id key : String) (specs : List Spec) (masked : Bool) (c : CacheInternal)
      → P c
      → P (record c { subscriptions = remove_subscribers id key specs masked c.subscriptions })

module _ (P : CacheInternal → Type 0) (k : IsKeptBySteps P) where
  pub each-kept {ℓ} :
      {A : Type ℓ} (body : A → CacheInternal → CacheInternal)
      → ((a : A) (c : CacheInternal) → P c → P (body a c))
      → (xs : List A) (c : CacheInternal) → P c
      → P (each body xs c)
  each-kept body step [] c p = p
  each-kept body step (x ∷ xs) c p = each-kept body step xs (body x c) (step x c p)

  pub register_field-kept :
      (field : Field) (selection : Option Selection) (masked : Bool) (id key parent_type : String)
      (variables : Variables) (c : CacheInternal)
      → P c
      → P (register_field field selection masked id key parent_type variables c)
  unfolding register_field register_list
  register_field-kept field selection masked id key parent_type variables c p =
      go field.list masked refl refl
    where
      go :
          (o : Option ListInfo) (b : Bool)
          → field.list ≡ o
          → masked ≡ b
          → P (register_field field selection masked id key parent_type variables c)
      go none b e e' = rw (e, register_field) p
      go (some list) true e e' = rw (e, e', register_field) p
      go (some list) false e e' =
          rw (e, e', register_field) (k.listed _ (typename_of id c).0 (k.looked id c p))
