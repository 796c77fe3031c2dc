-- ===== src/Internal/Kept/Removals.antt =====
-- `remove`, `findSubSelections` and `removeAllSubscribers` of
-- packages/houdini/src/runtime/cache/subscription.ts keep what their steps keep.
use Prim.Native.Char.{Char}
use houdini.Internal.{CacheInternal, each, typename_of, value_of, linked, is_masked}
use houdini.Internal.Removing.{remove, remove_field, remove_fields, remove_alternative}
use houdini.Internal.Searches.{
  Search, visit_each, find_sub_selections, find_in_alternative, find_in_fields, remove_target,
  remove_all_subscribers, or_root_id, given_specs,
}
use houdini.Json.{Json}
use houdini.Prelude.{
  ◌≡◌, refl, Bool, true, false, Option, none, some, List, [], ◌∷◌, ◌++◌, map, String, str_dec,
  contains,
}
use houdini.Selections.{Selection, Fields, Alternatives, Field, Variables, key_of, choose}
use houdini.Subscriptions.{Spec, get_all}
use houdini.Subscriptions.Removal.{specs_of}
use houdini.Internal.Kept.{IsKeptBySteps, each-kept}

module _ (P : CacheInternal → Type 0) (k : IsKeptBySteps P) where
  run-append :
      (xs ys : List (CacheInternal → CacheInternal)) (c : CacheInternal)
      → each (λ step. step) (xs ++ ys) c ≡ each (λ step. step) ys (each (λ step. step) xs c)
  run-append [] ys c = refl
  run-append (x ∷ xs) ys c = run-append xs ys (x c)

  -- The steps that wait keep the property.
  IsQuiet : List (CacheInternal → CacheInternal) → Type 0
  IsQuiet steps = (c : CacheInternal) → P c → P (each (λ step. step) steps c)

  IsQuiet-append :
      (xs ys : List (CacheInternal → CacheInternal)) → IsQuiet xs → IsQuiet ys → IsQuiet (xs ++ ys)
  unfolding IsQuiet
  IsQuiet-append xs ys p q c r = rw (run-append xs ys c) (q (each (λ step. step) xs c) (p c r))

  IsQuiet-map :
      (body : String → CacheInternal → CacheInternal)
      → ((id : String) (c : CacheInternal) → P c → P (body id c))
      → (ids : List String) → IsQuiet (map body ids)
  unfolding IsQuiet
  IsQuiet-map body step [] c p = p
  IsQuiet-map body step (id ∷ ids) c p = IsQuiet-map body step ids (body id c) (step id c p)

  IsQuiet-nil : IsQuiet []
  unfolding IsQuiet
  IsQuiet-nil c p = p

  module _ (stringify : Json → List Char) where
    module _ (targets : List Spec) (variables : Variables) where
      remove_field-kept :
          (field : Field) (id : String) (masked : Bool) (c : CacheInternal)
          → P c
          → P (remove_field stringify targets variables field id masked c)
      unfolding remove_field
      remove_field-kept field id masked c p =
          k.unsubscribed id (key_of stringify field variables) targets (is_masked masked field) c p

      mutual
        unfolding remove remove_alternative remove_fields IsQuiet

        pub remove-kept :
            (selection : Selection) (masked : Bool) (id : String) (c : CacheInternal)
            → P c
            → P (remove stringify targets variables selection masked id c)
        remove-kept (Selection.plain fields) masked id c p =
            remove_fields-kept fields id masked [] (typename_of id c).0 IsQuiet-nil
              (k.looked id c p)
        remove-kept (Selection.abstracted fields alternatives type_map) masked id c p =
            let found = typename_of id c in
            elim (choose found.1 alternatives type_map)
              as (λ d. P (elim d [
                | none ↦ remove_fields stringify targets variables fields id masked [] found.0
                | some name ↦
                    remove_alternative stringify targets variables name alternatives id masked
                      found.0
              ])) [
                | none ↦
                    remove_fields-kept fields id masked [] found.0 IsQuiet-nil (k.looked id c p)
                | some name ↦
                    remove_alternative-kept name alternatives id masked found.0 (k.looked id c p)
              ]

        remove_alternative-kept :
            (name : String) (alternatives : Alternatives) (id : String) (masked : Bool)
            (c : CacheInternal)
            → P c
            → P (remove_alternative stringify targets variables name alternatives id masked c)
        remove_alternative-kept name Alternatives.no_type id masked c p = p
        remove_alternative-kept name (Alternatives.for_type n fields rest) id masked c p =
            elim (str_dec name n)
              as (λ d. P (elim d [
                | yes a ↦ remove_fields stringify targets variables fields id masked [] c
                | no a ↦ remove_alternative stringify targets variables name rest id masked c
              ])) [
                | yes a ↦ remove_fields-kept fields id masked [] c IsQuiet-nil p
                | no a ↦ remove_alternative-kept name rest id masked c p
              ]

        remove_fields-kept :
            (fields : Fields) (id : String) (masked : Bool)
            (waiting : List (CacheInternal → CacheInternal)) (c : CacheInternal)
            → IsQuiet waiting
            → P c
            → P (remove_fields stringify targets variables fields id masked waiting c)
        remove_fields-kept Fields.nil id masked waiting c quiet p = quiet c p
        remove_fields-kept (Fields.leaf name field rest) id masked waiting c quiet p =
            remove_fields-kept rest id masked waiting _ quiet
              (remove_field-kept field id masked c p)
        remove_fields-kept (Fields.nested name field selection rest) id masked waiting c quiet p =
            let c' = remove_field stringify targets variables field id masked c in
            let links = linked (value_of id (key_of stringify field variables) c') in
            let body = remove stringify targets variables selection (is_masked masked field) in
            remove_fields-kept rest id masked (waiting ++ map body links) c'
              (IsQuiet-append waiting (map body links) quiet (
                IsQuiet-map body (λ i d q. remove-kept selection (is_masked masked field) i d q)
                  links))
              (remove_field-kept field id masked c p)

    module _ (variables : Variables) (target : String) where
      abbrev At : Search → Type 0
      At s = P s.0

      visit_each-kept :
          (body : String → Search → Search)
          → ((id : String) (s : Search) → P s.0 → P (body id s).0)
          → (ids : List String) (s : Search) → P s.0
          → P (visit_each body ids s).0
      visit_each-kept body step [] s p = p
      visit_each-kept body step (id ∷ ids) s p =
          visit_each-kept body step ids (body id s) (step id s p)

      mutual
        unfolding find_sub_selections find_in_alternative find_in_fields

        pub find_sub_selections-kept :
            (selection : Selection) (id : String) (s : Search)
            → P s.0
            → P (find_sub_selections stringify variables target selection id s).0
        find_sub_selections-kept (Selection.plain fields) id s p =
            find_in_fields-kept fields id ((typename_of id s.0).0, s.1) (k.looked id s.0 p)
        find_sub_selections-kept (Selection.abstracted fields alternatives type_map) id s p =
            let found = typename_of id s.0 in
            elim (choose found.1 alternatives type_map)
              as (λ d. At (elim d [
                | none ↦ find_in_fields stringify variables target fields id (found.0, s.1)
                | some name ↦
                    find_in_alternative stringify variables target name alternatives id
                      (found.0, s.1)
              ])) [
                | none ↦ find_in_fields-kept fields id (found.0, s.1) (k.looked id s.0 p)
                | some name ↦
                    find_in_alternative-kept name alternatives id (found.0, s.1) (k.looked id s.0 p)
              ]

        find_in_alternative-kept :
            (name : String) (alternatives : Alternatives) (id : String) (s : Search)
            → P s.0
            → P (find_in_alternative stringify variables target name alternatives id s).0
        find_in_alternative-kept name Alternatives.no_type id s p = p
        find_in_alternative-kept name (Alternatives.for_type n fields rest) id s p =
            elim (str_dec name n)
              as (λ d. At (elim d [
                | yes a ↦ find_in_fields stringify variables target fields id s
                | no a ↦ find_in_alternative stringify variables target name rest id s
              ])) [
                | yes a ↦ find_in_fields-kept fields id s p
                | no a ↦ find_in_alternative-kept name rest id s p
              ]

        find_in_fields-kept :
            (fields : Fields) (id : String) (s : Search)
            → P s.0
            → P (find_in_fields stringify variables target fields id s).0
        find_in_fields-kept Fields.nil id s p = p
        find_in_fields-kept (Fields.leaf name field rest) id s p = find_in_fields-kept rest id s p
        find_in_fields-kept (Fields.nested name field selection rest) id s p =
            let links = linked (value_of id (key_of stringify field variables) s.0) in
            let after : Search = elim (contains target links) [
              | true ↦ (s.0, s.1 ++ selection ∷ [])
              | false ↦
                  visit_each (find_sub_selections stringify variables target selection) links s
            ] in
            find_in_fields-kept rest id after
              (elim (contains target links)
                as (λ b. At (elim b [
                  | true ↦ (s.0, s.1 ++ selection ∷ [])
                  | false ↦
                      visit_each (find_sub_selections stringify variables target selection) links s
                ])) [
                  | true ↦ p
                  | false ↦
                      visit_each-kept (find_sub_selections stringify variables target selection)
                        (λ i t q. find_sub_selections-kept selection i t q) links s p
                ])

    remove_target-kept :
        (id : String) (specs : List Spec) (target : Spec) (c : CacheInternal)
        → P c
        → P (remove_target stringify id specs target c)
    unfolding remove_target
    remove_target-kept id specs target c p =
        let start = or_root_id target.parent_id in
        let found : Search =
          find_sub_selections stringify target.uncalled id target.selection start (c, []) in
        each-kept P k (λ selection. remove stringify specs target.uncalled selection false id)
          (λ selection d q. remove-kept specs target.uncalled selection false id d q) found.1
          found.0 (find_sub_selections-kept target.uncalled id target.selection start (c, []) p)

    pub remove_all_subscribers-kept :
        (id : String) (targets : Option (List Spec)) (c : CacheInternal)
        → P c
        → P (remove_all_subscribers stringify id targets c)
    unfolding remove_all_subscribers
    remove_all_subscribers-kept id targets c p =
        let specs = given_specs targets (specs_of (get_all id true c.subscriptions)) in
        each-kept P k (remove_target stringify id specs) (remove_target-kept id specs) specs c p
