-- ===== src/Internal/World.antt =====
-- What the walks over a selection leave alone: the values and the types of the records. They only keep
-- a type that they have looked up.
use houdini.Internal.{CacheInternal, typename_of, value_of, register_list, register_field}
use houdini.Prelude.{
  ◌≡◌, refl, ap, ◌∙◌, Bool, true, false, Option, none, some, String, lookup, insert, lookup-insert,
  arith,
}
use houdini.Prelude.{Dict}
use houdini.Selections.{Selection, Field, ListInfo, Variables}
use houdini.Storage.{Storage}
use houdini.Storage.Get
use houdini.Values.{Value}

-- The same values and types as in the cache at the start.
pub record IsSame (start c : CacheInternal) : Type 0 where
  pub values : (id key : String) → value_of id key c ≡ value_of id key start
  pub types : (id : String) → (typename_of id c).1 ≡ (typename_of id start).1

get-typenames :
    (id field : String) (typenames : Dict (Option String)) (s : Storage)
    → Get.get id field (record s { typenames = typenames }) ≡ Get.get id field s
unfolding Get.get
get-typenames id field typenames s = refl

-- The type of a record: the one that was kept, or that of the value.
abbrev read_type : Value → Option String
read_type (Value.str typename) = some typename
read_type value = none

abbrev type_in : Option (Option String) → Value → Option String
type_in (some typename) value = typename
type_in none value = read_type value

type_lem :
    (id : String) (c : CacheInternal)
    → (typename_of id c).1 ≡ type_in (lookup id c.storage.typenames) (value_of id "__typename" c)
unfolding typename_of Get.get_typename value_of
type_lem id c =
    go (lookup id c.storage.typenames) ((Get.get id "__typename" c.storage).value) refl refl
  where
    go :
        (o : Option (Option String)) (v : Value)
        → lookup id c.storage.typenames ≡ o
        → (Get.get id "__typename" c.storage).value ≡ v
        → (typename_of id c).1
          ≡ type_in (lookup id c.storage.typenames) (value_of id "__typename" c)
    go (some typename) v e e' = rw (e, Get.get_typename) refl
    go none Value.undefined e e' = rw (e, e', Get.get_typename) refl
    go none Value.null e e' = rw (e, e', Get.get_typename) refl
    go none (Value.str typename) e e' = rw (e, e', Get.get_typename) refl
    go none (Value.other b n) e e' = rw (e, e', Get.get_typename) refl
    go none (Value.function n) e e' = rw (e, e', Get.get_typename) refl
    go none (Value.array xs) e e' = rw (e, e', Get.get_typename) refl

-- The cache after it has kept a type.
abbrev keep : String → Option String → CacheInternal → CacheInternal
keep id typename c = record c {
  storage = record (c.storage) { typenames = insert id typename c.storage.typenames };
}

data Looked (id : String) (c : CacheInternal) : Type 0 where
  known : (typename_of id c).0 ≡ c → Looked id c
  read :
      (typename : Option String)
      → lookup id c.storage.typenames ≡ none
      → read_type (value_of id "__typename" c) ≡ typename
      → (typename_of id c).0 ≡ keep id typename c
      → Looked id c

looked : (id : String) (c : CacheInternal) → Looked id c
unfolding typename_of Get.get_typename value_of
looked id c =
    go (lookup id c.storage.typenames) ((Get.get id "__typename" c.storage).value) refl refl
  where
    go :
        (o : Option (Option String)) (v : Value)
        → lookup id c.storage.typenames ≡ o
        → (Get.get id "__typename" c.storage).value ≡ v
        → Looked id c
    go (some typename) v e e' = known (rw (e, Get.get_typename) refl)
    go none Value.undefined e e' = known (rw (e, e', Get.get_typename) refl)
    go none Value.null e e' = read none e (ap read_type e') (rw (e, e', Get.get_typename) refl)
    go none (Value.str typename) e e' =
        read (some typename) e (ap read_type e') (rw (e, e', Get.get_typename) refl)
    go none (Value.other b n) e e' = known (rw (e, e', Get.get_typename) refl)
    go none (Value.function n) e e' = known (rw (e, e', Get.get_typename) refl)
    go none (Value.array xs) e e' = known (rw (e, e', Get.get_typename) refl)

value_of-keep :
    (i : String) (typename : Option String) (id key : String) (c : CacheInternal)
    → value_of id key (keep i typename c) ≡ value_of id key c
unfolding value_of
value_of-keep i typename id key c =
    ap (λ f. f.value) (get-typenames id key (insert i typename c.storage.typenames) c.storage)

value_of-typename_of :
    (i id key : String) (c : CacheInternal)
    → value_of id key (typename_of i c).0 ≡ value_of id key c
value_of-typename_of i id key c = elim (looked i c) [
  | known e ↦ ap (value_of id key) e
  | read typename a b e ↦ ap (value_of id key) e ∙ value_of-keep i typename id key c
]

-- A second lookup of a type gives what it would have given before.
typename_of-typename_of :
    (i id : String) (c : CacheInternal)
    → (typename_of id (typename_of i c).0).1 ≡ (typename_of id c).1
typename_of-typename_of i id c = elim (looked i c) [
  | known e ↦ ap (λ d. (typename_of id d).1) e
  | read typename a b e ↦
      let c' : CacheInternal = keep i typename c in
      ap (λ d. (typename_of id d).1) e
      ∙ ground (
        arith,
        type_lem id c',
        type_lem id c,
        lookup-insert id i typename c.storage.typenames,
        value_of-keep i typename id "__typename" c,
      )
]

pub typename_of-IsSame :
    (i : String) (start c : CacheInternal) → IsSame start c → IsSame start (typename_of i c).0
typename_of-IsSame i start c same = record {
  values = λ id key. value_of-typename_of i id key c ∙ same.values id key;
  types = λ id. typename_of-typename_of i id c ∙ same.types id;
}

pub register_list-IsSame :
    (list : ListInfo) (field : Field) (selection : Option Selection) (id key parent_type : String)
    (variables : Variables) (start c : CacheInternal)
    → IsSame start c
    → IsSame start (register_list list field selection id key parent_type variables c)
unfolding register_list value_of typename_of
register_list-IsSame list field selection id key parent_type variables start c same =
    let after = typename_of-IsSame id start c same in
    record { values = after.values; types = after.types }

-- The registration of a list leaves the values, the types and the subscriptions as they are.
pub register_field-IsSame :
    (field : Field) (selection : Option Selection) (masked : Bool) (id key parent_type : String)
    (variables : Variables) (start c : CacheInternal)
    → IsSame start c
    → IsSame start (register_field field selection masked id key parent_type variables c)
      × ((register_field field selection masked id key parent_type variables c).subscriptions
          ≡ c.subscriptions)
unfolding register_field register_list typename_of
register_field-IsSame field selection masked id key parent_type variables start c same =
    go field.list masked refl refl
  where
    go :
        (o : Option ListInfo) (b : Bool)
        → field.list ≡ o
        → masked ≡ b
        → IsSame start (register_field field selection masked id key parent_type variables c)
          × ((register_field field selection masked id key parent_type variables c).subscriptions
              ≡ c.subscriptions)
    go none b e e' = rw (e, register_field) (same, refl)
    go (some list) true e e' = rw (e, e', register_field) (same, refl)
    go (some list) false e e' =
        rw (e, e', register_field)
          (
            register_list-IsSame list field selection id key parent_type variables start c same,
            refl,
          )
