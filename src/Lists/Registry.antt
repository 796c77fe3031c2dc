-- ===== src/Lists/Registry.antt =====
-- Any calls of the methods of `ListManager` that change its index: the index by field knows every handler.
use houdini.Lists.{
  Handler, ListManager, collection, members, includes, named, with_collection, push, push_by_field,
  push_to, add, or_root,
}
use houdini.Lists.Added.{
  handlers_at, handlers_at-push, named-IsSeparate, has-named, has-with_collection_new,
  with_collection_new-IsSeparate, cells,
}
use houdini.Lists.Members.{
  IsSeparate, has, refill, has-refill, fewer-IsSeparate, collection-refill,
  collection-with_collection, includes-append, members_lem, cell_of,
}
use houdini.Prelude.{
  ℕ, ◌≡◌, ◌⊎◌, refl, ap, ◌∙◌, sym, true, none, some, List, [], ◌∷◌, ◌++◌, map, String, ite, str_dec,
  contains, contains-append, All, All-append, arith, inl, inr, Option-cases, Bool-cases,
}

abbrev pub names_at : String → String → ListManager → List String
names_at p k m = map (λ h. h.name) (handlers_at p k m)

abbrev pub IsRecordedAt : String → Handler → Type 0
IsRecordedAt p h = h.record_id ≡ p

-- Whenever a collection has a handler for a key, the index by field has one of that name under the
-- parent and the key, and it has handlers of that parent only.
pub record IsRegistered (m : ListManager) : Type 0 where
  pub separate : IsSeparate m
  pub listed : (j n p : String) → has j n p m ≡ true → contains n (names_at p j m) ≡ true
  pub recorded : (p j : String) → All (IsRecordedAt p) (handlers_at p j m)

push_lem :
    (h : Handler) (m : ListManager) (r : ℕ)
    → collection h.name h.record_id m ≡ some r
    → push h m ≡ push_by_field h (push_to h m r)
unfolding push
push_lem h m r e = rw (e, push) refl

collection-pushed :
    (n p : String) (h : Handler) (m : ListManager) (r : ℕ)
    → collection n p (push_by_field h (push_to h m r)) ≡ collection n p m
unfolding collection
collection-pushed n p h m r = refl

has-pushed :
    (j n p : String) (h : Handler) (m : ListManager) (r : ℕ)
    → IsSeparate m
    → collection h.name h.record_id m ≡ some r
    → has j n p (push_by_field h (push_to h m r)) ≡ true
    → (has j n p m ≡ true) ⊎ ((n ≡ h.name) × (p ≡ h.record_id) × (j ≡ h.key))
has-pushed j n p h m r separate e there =
    let more = m.collections.cell r ++ h ∷ [] in
    let m' : ListManager = push_by_field h (push_to h m r) in
    let same : has j n p m' ≡ has j n p (refill r more m) = ap (includes j) (
      members_lem n p m'
      ∙ cells (collection n p m') (refill r more m) m' refl
      ∙ ap (λ o. cell_of o (refill r more m))
          (collection-pushed n p h m r ∙ sym (collection-refill n p r more m))
      ∙ sym (members_lem n p (refill r more m))) in
    let before : has j h.name h.record_id m ≡ includes j (m.collections.cell r) =
      ap (includes j) (members_lem h.name h.record_id m ∙ ap (λ o. cell_of o m) e) in
    let after = has-refill j n p h.name h.record_id r more m separate e in
    let appended = includes-append j (m.collections.cell r) h in
    elim (str_dec n h.name) [
      | no a ↦ inl (ground (arith, same, after, there))
      | yes a ↦ elim (str_dec p h.record_id) [
        | no b ↦ inl (ground (arith, same, after, there))
        | yes b ↦ elim (str_dec j h.key) [
          | yes c ↦ inr (a, b, c)
          | no c ↦ inl (ground (arith, same, after, there, before, appended))
        ]
      ]
    ]

names-append :
    (hs : List Handler) (h : Handler)
    → map (λ x. x.name) (hs ++ h ∷ []) ≡ map (λ x. x.name) hs ++ h.name ∷ []
names-append [] h = refl
names-append (x ∷ hs) h = ap (λ ns. x.name ∷ ns) (names-append hs h)

-- The index by field after a push has what it had, and the name of the handler.
names_at-pushed :
    (n p j : String) (h : Handler) (m : ListManager) (r : ℕ)
    → contains n (names_at p j m) ≡ true
    → contains n (names_at p j (push_by_field h (push_to h m r))) ≡ true
unfolding handlers_at
names_at-pushed n p j h m r e = ground (
  arith,
  handlers_at-push p j h (push_to h m r),
  names-append (handlers_at p j m) h,
  contains-append n (names_at p j m) (h.name ∷ []),
)

names_at-pushed_self :
    (h : Handler) (m : ListManager) (r : ℕ)
    → contains h.name (names_at h.record_id h.key (push_by_field h (push_to h m r))) ≡ true
names_at-pushed_self h m r = ground (
  arith,
  handlers_at-push h.record_id h.key h (push_to h m r),
  names-append (handlers_at h.record_id h.key (push_to h m r)) h,
  contains-append h.name (names_at h.record_id h.key (push_to h m r)) (h.name ∷ []),
)

pushed_recorded :
    (h : Handler) (m : ListManager) (r : ℕ) (p j : String)
    → All (IsRecordedAt p) (handlers_at p j m)
    → All (IsRecordedAt p) (handlers_at p j (push_by_field h (push_to h m r)))
unfolding handlers_at
pushed_recorded h m r p j g =
    rw (handlers_at-push p j h (push_to h m r))
      (elim (str_dec p h.record_id)
        as (λ d. All (IsRecordedAt p) (
          ite d (ite (str_dec j h.key) (handlers_at p j m ++ h ∷ []) (handlers_at p j m))
            (handlers_at p j m))) [
              | no a ↦ g
              | yes a ↦
                  elim (str_dec j h.key)
                    as (λ d.
                      All (IsRecordedAt p)
                        (ite d (handlers_at p j m ++ h ∷ []) (handlers_at p j m))) [
                          | no b ↦ g
                          | yes b ↦
                              All-append (IsRecordedAt p) (handlers_at p j m) (h ∷ []) g (sym a, tt)
                        ]
            ])

named-IsRegistered : (x : String) (m : ListManager) → IsRegistered m → IsRegistered (named x m)
unfolding handlers_at
named-IsRegistered x m g = record {
  separate = named-IsSeparate x m g.separate;
  listed = λ j n p e. g.listed j n p (sym (has-named j n p x m) ∙ e);
  recorded = g.recorded;
}

with_collection_new-IsRegistered :
    (name parent : String) (m : ListManager)
    → collection name parent m ≡ none
    → IsRegistered m
    → IsRegistered (with_collection name parent m)
unfolding with_collection handlers_at
with_collection_new-IsRegistered name parent m e g = record {
  separate = with_collection_new-IsSeparate name parent m g.separate e;
  listed = λ j n p h.
      ground (
        arith,
        g.listed j n p (sym (has-with_collection_new j n p name parent m g.separate e) ∙ h),
      );
  recorded = λ p j. rw (e, with_collection) (g.recorded p j);
}

push-IsRegistered :
    (h : Handler) (m : ListManager) (r : ℕ)
    → collection h.name h.record_id m ≡ some r
    → IsRegistered m
    → IsRegistered (push h m)
push-IsRegistered h m r e g = rw (push_lem h m r e) (record {
  separate =
      fewer-IsSeparate m (push_by_field h (push_to h m r)) refl
        (λ n p q a. sym (collection-pushed n p h m r) ∙ a) g.separate;
  listed = λ j n p there. elim (has-pushed j n p h m r g.separate e there) [
    | inl before ↦ names_at-pushed n p j h m r (g.listed j n p before)
    | inr (a, b, c) ↦ ground (arith, names_at-pushed_self h m r, a, b, c)
  ];
  recorded = λ p j. pushed_recorded h m r p j (g.recorded p j);
})

with_collection_known :
    (name parent : String) (m : ListManager) (r : ℕ)
    → collection name parent m ≡ some r
    → with_collection name parent m ≡ m
unfolding with_collection
with_collection_known name parent m r e = rw (e, with_collection) refl

pub add-IsRegistered : (h : Handler) (m : ListManager) → IsRegistered m → IsRegistered (add h m)
unfolding add
add-IsRegistered h m g =
    let h' = record h { record_id = or_root h.record_id } in
    let m' = named h.name m in
    let g' = named-IsRegistered h.name m g in
    elim (Bool-cases (includes h.key (members h.name (or_root h.record_id) m))) [
      | inl e ↦ rw (e, add) g'
      | inr e ↦ elim (Option-cases (collection h.name (or_root h.record_id) m')) [
        | inl a ↦
            let w = with_collection h.name (or_root h.record_id) m' in
            let there : collection h.name (or_root h.record_id) w ≡ some m'.collections.next =
              ground (
                arith,
                collection-with_collection h.name (or_root h.record_id) h.name (or_root h.record_id)
                    m' a,
              ) in
            rw (e, add)
              (push-IsRegistered h' w m'.collections.next there
                (with_collection_new-IsRegistered h.name (or_root h.record_id) m' a g'))
        | inr (r, a) ↦
            rw (e, add, with_collection_known h.name (or_root h.record_id) m' r a)
              (push-IsRegistered h' m' r a g')
      ]
    ]
