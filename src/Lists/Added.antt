-- ===== src/Lists/Added.antt =====
-- `add` of the class `ListManager`: what is in the collections and in the index by field.
use houdini.EntityMap.{alloc}
use houdini.Lists.{
  Handler, ListManager, collection, includes, named, with_collection, push_by_field, or_no_map,
  or_no_list,
}
use houdini.Lists.Members.{
  IsSeparate, has, fewer-IsSeparate, collection-named, collection-with_collection, members_lem,
  cell_of,
}
use houdini.Prelude.{
  ℕ, ◌≡◌, refl, ap, ◌∙◌, sym, false, Option, none, some, List, [], ◌∷◌, ◌++◌, String, ite, str_dec,
  lookup, insert, arith, inl, inr, Option-cases, lookup-insert,
}

-- The handlers of a field.
unfoldable pub handlers_at : String → String → ListManager → List Handler
unfolding lookup
handlers_at p k m = or_no_list (lookup k (or_no_map (lookup p m.lists_by_field)))

pub handlers_at-push :
    (p k : String) (h : Handler) (m : ListManager)
    → handlers_at p k (push_by_field h m)
      ≡ ite
          (str_dec p h.record_id)
          (ite (str_dec k h.key) (handlers_at p k m ++ h ∷ []) (handlers_at p k m))
          (handlers_at p k m)
unfolding handlers_at
handlers_at-push p k h m =
    let fields = or_no_map (lookup h.record_id m.lists_by_field) in
    let more = or_no_list (lookup h.key fields) ++ h ∷ [] in
    ground (
      arith,
      lookup-insert p h.record_id (insert h.key more fields) m.lists_by_field,
      lookup-insert k h.key more fields,
    )

pub named-IsSeparate : (x : String) (m : ListManager) → IsSeparate m → IsSeparate (named x m)
named-IsSeparate x m s =
    fewer-IsSeparate m (named x m) refl (λ n p r e. sym (collection-named n p x m) ∙ e) s

pub cells :
    (o : Option ℕ) (m m' : ListManager)
    → m'.collections ≡ m.collections
    → cell_of o m' ≡ cell_of o m
cells none m m' e = refl
cells (some r) m m' e = ap (λ h. h.cell r) e

pub has-named : (j n p x : String) (m : ListManager) → has j n p (named x m) ≡ has j n p m
has-named j n p x m = ap (includes j) (
    members_lem n p (named x m)
    ∙ cells (collection n p (named x m)) m (named x m) refl
    ∙ ap (λ o. cell_of o m) (collection-named n p x m)
    ∙ sym (members_lem n p m))

heap-with_collection :
    (name parent : String) (m : ListManager)
    → collection name parent m ≡ none
    → (with_collection name parent m).collections ≡ alloc [] m.collections
unfolding with_collection
heap-with_collection name parent m e = rw (e, with_collection) refl

pub includes-nil : (j : String) → includes j [] ≡ false
unfolding includes
includes-nil j = refl

-- A collection that was not there starts empty.
pub has-with_collection_new :
    (j n p name parent : String) (m : ListManager)
    → IsSeparate m
    → collection name parent m ≡ none
    → has j n p (with_collection name parent m) ≡ has j n p m
has-with_collection_new j n p name parent m separate e =
    let w : ListManager = with_collection name parent m in
    elim (Option-cases (collection n p m)) [
      | inl a ↦ ground (
        arith,
        members_lem n p w,
        members_lem n p m,
        collection-with_collection n p name parent m e,
        heap-with_collection name parent m e,
        includes-nil j,
      )
      | inr (q, a) ↦ ground (
        arith,
        members_lem n p w,
        members_lem n p m,
        collection-with_collection n p name parent m e,
        heap-with_collection name parent m e,
        separate.allocated n p q a,
      )
    ]

pub with_collection_new-IsSeparate :
    (name parent : String) (m : ListManager)
    → IsSeparate m
    → collection name parent m ≡ none
    → IsSeparate (with_collection name parent m)
unfolding with_collection
with_collection_new-IsSeparate name parent m s e = record {
  names = λ n p n' p' r a b. ground (
    arith,
    collection-with_collection n p name parent m e,
    collection-with_collection n' p' name parent m e,
    s.names n p n' p' r,
    s.allocated n p r,
    s.allocated n' p' r,
  );
  parents = λ n p n' p' r a b. ground (
    arith,
    collection-with_collection n p name parent m e,
    collection-with_collection n' p' name parent m e,
    s.parents n p n' p' r,
    s.allocated n p r,
    s.allocated n' p' r,
  );
  allocated =
      λ n p r a. ground (arith, collection-with_collection n p name parent m e, s.allocated n p r);
}
