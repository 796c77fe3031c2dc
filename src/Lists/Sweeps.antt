-- ===== src/Lists/Sweeps.antt =====
-- `deleteField` of the class `ListManager` of packages/houdini/src/runtime/cache/lists.ts, and the removal of a
-- collection, over a manager whose index by field knows every handler.
use houdini.Lists.{
  Handler, ListManager, collection, members, includes, add, or_root, or_no_map, or_no_list,
  new_manager,
}
use houdini.Lists
use houdini.Lists.Added.{handlers_at, cells}
use houdini.Lists.Deleted.{
  delete_handlers-IsSeparate, delete_handlers-fields, has-delete_handlers,
  has-delete_handlers_named, has-delete_handlers_other,
}
use houdini.Lists.Deletion
use houdini.Lists.Deletion.{delete_handlers}
use houdini.Lists.Members.{
  has, forget, has-forget, forget-IsSeparate, fields-forget, fewer-IsSeparate, members_lem, cell_of,
}
use houdini.Lists.Registry.{IsRegistered, IsRecordedAt, names_at}
use houdini.Prelude.{
  ◌≡◌, refl, ap, ◌∙◌, sym, true, false, none, some, List, [], map, String, ite, str_dec, lookup,
  insert, erase, contains, All, arith, inl, inr, Option-cases, Bool-cases, lookup-insert,
  lookup-erase,
}

pub forget-IsRegistered :
    (name parent : String) (m : ListManager) → IsRegistered m → IsRegistered (forget name parent m)
unfolding handlers_at
forget-IsRegistered name parent m g = record {
  separate = forget-IsSeparate name parent m g.separate;
  listed = λ j n p e.
      rw (fields-forget name parent m)
        (g.listed j n p (ground (arith, has-forget j n p name parent m, e)));
  recorded = λ p j. rw (fields-forget name parent m) (g.recorded p j);
}

-- The manager after the loop of `deleteField`, with the field gone from the index.
abbrev pub swept : String → String → List Handler → ListManager → ListManager
swept p k hs m =
    let m' = delete_handlers k hs m in
    record m' {
      lists_by_field =
          insert p (erase k (or_no_map (lookup p m'.lists_by_field))) m'.lists_by_field;
    }

pub delete_field-some :
    (p k : String) (m : ListManager) (hs : List Handler)
    → lookup k (or_no_map (lookup p m.lists_by_field)) ≡ some hs
    → Deletion.delete_field p k m ≡ swept p k hs m
unfolding Deletion.delete_field
delete_field-some p k m hs e = rw (e, Deletion.delete_field) refl

pub delete_field-none :
    (p k : String) (m : ListManager)
    → lookup k (or_no_map (lookup p m.lists_by_field)) ≡ none
    → Deletion.delete_field p k m ≡ m
unfolding Deletion.delete_field
delete_field-none p k m e = rw (e, Deletion.delete_field) refl

pub collection-swept :
    (n q p k : String) (hs : List Handler) (m : ListManager)
    → collection n q (swept p k hs m) ≡ collection n q (delete_handlers k hs m)
unfolding collection
collection-swept n q p k hs m = refl

pub has-swept :
    (j n q p k : String) (hs : List Handler) (m : ListManager)
    → has j n q (swept p k hs m) ≡ has j n q (delete_handlers k hs m)
has-swept j n q p k hs m =
    let m' : ListManager = delete_handlers k hs m in
    ap (Lists.includes j) (
      members_lem n q (swept p k hs m)
      ∙ cells (collection n q (swept p k hs m)) m' (swept p k hs m) refl
      ∙ ap (λ o. cell_of o m') (collection-swept n q p k hs m)
      ∙ sym (members_lem n q m'))

pub handlers_at-swept :
    (q j p k : String) (hs : List Handler) (m : ListManager)
    → handlers_at q j (swept p k hs m)
      ≡ ite (str_dec q p) (ite (str_dec j k) [] (handlers_at q j m)) (handlers_at q j m)
unfolding handlers_at
handlers_at-swept q j p k hs m =
    let m' : ListManager = delete_handlers k hs m in
    let fields = erase k (or_no_map (lookup p m'.lists_by_field)) in
    ground (
      arith,
      lookup-insert q p fields m'.lists_by_field,
      lookup-erase j k (or_no_map (lookup p m'.lists_by_field)),
      delete_handlers-fields k hs m,
    )

-- The handlers of the field go from all collections of the parent, and nothing else does.
pub has-swept_all :
    (j n q p k : String) (hs : List Handler) (m : ListManager)
    → IsRegistered m
    → handlers_at p k m ≡ hs
    → has j n q (swept p k hs m)
      ≡ ite (str_dec q p) (ite (str_dec j k) false (has j n q m)) (has j n q m)
has-swept_all j n q p k hs m g e =
    let recorded : All (λ h. h.record_id ≡ p) hs = rw (sym e) (g.recorded p k) in
    let other = has-delete_handlers_other j n q p k hs m g.separate recorded in
    let shrink = has-delete_handlers j n q k hs m g.separate in
    has-swept j n q p k hs m
    ∙ elim (str_dec q p)
        as (λ d.
          has j n q (delete_handlers k hs m)
          ≡ ite d (ite (str_dec j k) false (has j n q m)) (has j n q m)) [
            | no a ↦ other (ground (arith, a))
            | yes a ↦
                elim (str_dec j k)
                  as (λ d. has j n q (delete_handlers k hs m) ≡ ite d false (has j n q m)) [
                    | no b ↦ other (ground (arith, b))
                    | yes b ↦ elim (Bool-cases (contains n (names_at p k m))) [
                      | inl c ↦
                          let named : contains n (map (λ h. h.name) hs) ≡ true =
                            ap (λ xs. contains n (map (λ h. h.name) xs)) (sym e) ∙ c in
                          let gone =
                            has-delete_handlers_named n p k hs m g.separate recorded named in
                          ground (arith, gone, a, b)
                      | inr c ↦ elim (Bool-cases (has j n q (delete_handlers k hs m))) [
                        | inr d ↦ d
                        | inl d ↦ ground (arith, g.listed j n q (shrink d), a, b, c)
                      ]
                    ]
                  ]
          ]

pub has-delete_field :
    (j n q p k : String) (m : ListManager)
    → IsRegistered m
    → has j n q (Deletion.delete_field p k m)
      ≡ ite (str_dec q p) (ite (str_dec j k) false (has j n q m)) (has j n q m)
unfolding handlers_at
has-delete_field j n q p k m g =
    elim (Option-cases (lookup k (or_no_map (lookup p m.lists_by_field)))) [
      | inr (hs, e) ↦
          rw (delete_field-some p k m hs e) (has-swept_all j n q p k hs m g (ap or_no_list e))
      | inl e ↦ rw (delete_field-none p k m e) (elim (Bool-cases (has k n p m)) [
        | inr c ↦ ground (arith, c)
        | inl c ↦
            let nobody : names_at p k m ≡ [] = ap (λ o. map (λ h. h.name) (or_no_list o)) e in
            ground (arith, g.listed k n p c, nobody)
      ])
    ]

pub swept-IsRegistered :
    (p k : String) (hs : List Handler) (m : ListManager)
    → IsRegistered m
    → handlers_at p k m ≡ hs
    → IsRegistered (swept p k hs m)
swept-IsRegistered p k hs m g e = record {
  separate =
      fewer-IsSeparate (delete_handlers k hs m) (swept p k hs m) refl
        (λ n q r a. sym (collection-swept n q p k hs m) ∙ a)
        (delete_handlers-IsSeparate k hs m g.separate);
  listed = λ j n q there. ground (
    arith,
    has-swept_all j n q p k hs m g e,
    handlers_at-swept q j p k hs m,
    g.listed j n q,
    there,
  );
  recorded = λ q j.
      rw (handlers_at-swept q j p k hs m)
        (elim (str_dec q p)
          as (λ d.
            All (IsRecordedAt q)
              (ite d (ite (str_dec j k) [] (handlers_at q j m)) (handlers_at q j m))) [
                | no a ↦ g.recorded q j
                | yes a ↦
                    elim (str_dec j k)
                      as (λ d. All (IsRecordedAt q) (ite d [] (handlers_at q j m))) [
                        | yes b ↦ tt
                        | no b ↦ g.recorded q j
                      ]
              ]);
}

pub delete_field-IsRegistered :
    (p k : String) (m : ListManager) → IsRegistered m → IsRegistered (Deletion.delete_field p k m)
unfolding handlers_at
delete_field-IsRegistered p k m g =
    elim (Option-cases (lookup k (or_no_map (lookup p m.lists_by_field)))) [
      | inr (hs, e) ↦
          rw (delete_field-some p k m hs e) (swept-IsRegistered p k hs m g (ap or_no_list e))
      | inl e ↦ rw (delete_field-none p k m e) g
    ]
