-- ===== src/Lists/Members.antt =====
-- The collections of a `ListManager` after each of its operations.
use houdini.EntityMap.{store}
use houdini.Lists.{
  Handler, ListManager, collection, members, includes, named, with_collection, or_no_map,
  delete_list_with_key,
}
use houdini.Lists.Deletion.{drop_collection, drop_opaque}
use houdini.Prelude.{
  ℕ, ◌<◌, ◌≡◌, refl, ap, Bool, true, false, Option, none, some, List, [], ◌∷◌, ◌++◌, String, ite,
  str_dec, lookup, insert, erase, ◌==◌, arith, inl, inr, Option-cases, Bool-cases, lookup-insert,
  lookup-erase,
}

-- No two names and parents have one collection, and every collection has been allocated.
pub record IsSeparate (m : ListManager) : Type 0 where
  pub names :
      (n p n' p' : String) (r : ℕ)
      → collection n p m ≡ some r
      → collection n' p' m ≡ some r
      → n ≡ n'
  pub parents :
      (n p n' p' : String) (r : ℕ)
      → collection n p m ≡ some r
      → collection n' p' m ≡ some r
      → p ≡ p'
  pub allocated : (n p : String) (r : ℕ) → collection n p m ≡ some r → r < m.collections.next

pub collection-named :
    (n p x : String) (m : ListManager) → collection n p (named x m) ≡ collection n p m
unfolding collection
collection-named n p x m = ground (arith, lookup-insert n x (or_no_map (lookup x m.lists)) m.lists)

pub collection-with_collection :
    (n p name parent : String) (m : ListManager)
    → collection name parent m ≡ none
    → collection n p (with_collection name parent m)
      ≡ ite
          (str_dec n name)
          (ite (str_dec p parent) (some m.collections.next) (collection n p m))
          (collection n p m)
unfolding with_collection collection
collection-with_collection n p name parent m e = ground (
  arith,
  lookup-insert n name (insert parent m.collections.next (or_no_map (lookup name m.lists))) m.lists,
  lookup-insert p parent m.collections.next (or_no_map (lookup name m.lists)),
)

collection-drop_collection :
    (n p name parent : String) (m : ListManager)
    → collection n p (drop_collection name parent m)
      ≡ ite (str_dec n name) (ite (str_dec p parent) none (collection n p m)) (collection n p m)
unfolding drop_collection collection
collection-drop_collection n p name parent m = elim (Option-cases (lookup name m.lists)) [
  | inl e ↦ ground arith
  | inr (d, e) ↦
      ground (arith, lookup-insert n name (erase parent d) m.lists, lookup-erase p parent d)
]

-- The handlers at an address.
abbrev pub cell_of : Option ℕ → ListManager → List Handler
cell_of none m = []
cell_of (some r) m = m.collections.cell r

pub members_lem : (n p : String) (m : ListManager) → members n p m ≡ cell_of (collection n p m) m
unfolding members
members_lem n p m = elim (Option-cases (collection n p m)) [
  | inl e ↦ rw (e, members) refl
  | inr (r, e) ↦ rw (e, members) refl
]

pub includes-delete :
    (j k : String) (hs : List Handler)
    → includes j (delete_list_with_key k hs) ≡ ite (str_dec j k) false (includes j hs)
unfolding delete_list_with_key includes
includes-delete j k [] = ground arith
includes-delete j k (h ∷ hs) = ground (arith, includes-delete j k hs)

pub includes-append :
    (j : String) (hs : List Handler) (h : Handler)
    → includes j (hs ++ h ∷ []) ≡ ite (str_dec j h.key) true (includes j hs)
unfolding includes
includes-append j [] h = ground arith
includes-append j (x ∷ hs) h = ground (arith, includes-append j hs h)

-- A collection has a handler for the key.
abbrev pub has : String → String → String → ListManager → Bool
has j n p m = includes j (members n p m)

-- The collection at an address with other handlers.
abbrev pub refill : ℕ → List Handler → ListManager → ListManager
refill r hs m = record m { collections = store r hs m.collections }

pub collection-refill :
    (n p : String) (r : ℕ) (hs : List Handler) (m : ListManager)
    → collection n p (refill r hs m) ≡ collection n p m
unfolding collection
collection-refill n p r hs m = refl

pub has-refill :
    (j n p name parent : String) (r : ℕ) (hs : List Handler) (m : ListManager)
    → IsSeparate m
    → collection name parent m ≡ some r
    → has j n p (refill r hs m)
      ≡ ite (str_dec n name) (ite (str_dec p parent) (includes j hs) (has j n p m)) (has j n p m)
has-refill j n p name parent r hs m separate e = elim (Option-cases (collection n p m)) [
  | inl a ↦
      ground
        (arith, members_lem n p (refill r hs m), members_lem n p m, collection-refill n p r hs m)
  | inr (q, a) ↦ elim (Bool-cases (q == r)) [
    | inl b ↦ ground (
      arith,
      members_lem n p (refill r hs m),
      members_lem n p m,
      collection-refill n p r hs m,
      separate.names n p name parent r,
      separate.parents n p name parent r,
    )
    | inr b ↦
        ground
          (arith, members_lem n p (refill r hs m), members_lem n p m, collection-refill n p r hs m)
  ]
]

-- A manager with the same collections or fewer is separate too.
pub fewer-IsSeparate :
    (m m' : ListManager)
    → m'.collections.next ≡ m.collections.next
    → ((n p : String) (r : ℕ) → collection n p m' ≡ some r → collection n p m ≡ some r)
    → IsSeparate m
    → IsSeparate m'
fewer-IsSeparate m m' next fewer s = record {
  names = λ n p n' p' r e e'. s.names n p n' p' r (fewer n p r e) (fewer n' p' r e');
  parents = λ n p n' p' r e e'. s.parents n p n' p' r (fewer n p r e) (fewer n' p' r e');
  allocated = λ n p r e. ground (arith, s.allocated n p r (fewer n p r e), next);
}

-- The removal of a collection and its opaque id.
abbrev pub forget : String → String → ListManager → ListManager
forget name parent m = drop_opaque name parent (drop_collection name parent m)

collection-forget :
    (n p name parent : String) (m : ListManager)
    → collection n p (forget name parent m)
      ≡ ite (str_dec n name) (ite (str_dec p parent) none (collection n p m)) (collection n p m)
unfolding drop_opaque collection
collection-forget n p name parent m = collection-drop_collection n p name parent m

heap-forget :
    (name parent : String) (m : ListManager) → (forget name parent m).collections ≡ m.collections
unfolding drop_opaque drop_collection
heap-forget name parent m = elim (Option-cases (lookup name m.lists)) [
  | inl e ↦ rw (e, drop_collection) refl
  | inr (d, e) ↦ rw (e, drop_collection) refl
]

pub fields-forget :
    (name parent : String) (m : ListManager)
    → (forget name parent m).lists_by_field ≡ m.lists_by_field
unfolding drop_opaque drop_collection
fields-forget name parent m = elim (Option-cases (lookup name m.lists)) [
  | inl e ↦ rw (e, drop_collection) refl
  | inr (d, e) ↦ rw (e, drop_collection) refl
]

pub has-forget :
    (j n p name parent : String) (m : ListManager)
    → has j n p (forget name parent m)
      ≡ ite (str_dec n name) (ite (str_dec p parent) false (has j n p m)) (has j n p m)
unfolding includes
has-forget j n p name parent m =
    let m' : ListManager = forget name parent m in
    elim (Option-cases (collection n p m)) [
      | inl a ↦
          ground (arith, members_lem n p m', members_lem n p m, collection-forget n p name parent m)
      | inr (q, a) ↦ ground (
        arith,
        members_lem n p m',
        members_lem n p m,
        collection-forget n p name parent m,
        heap-forget name parent m,
      )
    ]

pub forget-IsSeparate :
    (name parent : String) (m : ListManager) → IsSeparate m → IsSeparate (forget name parent m)
forget-IsSeparate name parent m s =
    fewer-IsSeparate m (forget name parent m) (ap (λ h. h.next) (heap-forget name parent m))
      (λ n p r e. ground (arith, collection-forget n p name parent m)) s
