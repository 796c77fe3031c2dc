-- ===== src/Internal/Unwinding.antt =====
-- The walk `remove` of packages/houdini/src/runtime/cache/subscription.ts takes one reference for each time
-- that it comes to the field.
use Prim.Native.Char.{Char}
use houdini.Internal.{CacheInternal, each, typename_of, value_of, linked, is_masked}
use houdini.Internal.Removing.{remove_field, remove, remove_alternative, remove_fields}
use houdini.Internal.Steps.{Holds, Holds-equal, typename_of-Holds, remove_field-Holds}
use houdini.Internal.Tallies.{tally, tally_alternative, tally_fields, sum}
use houdini.Json.{Json}
use houdini.Prelude.{
  ℕ, ◌+◌, ◌-◌, ◌≡◌, refl, ap, Bool, Option, none, some, List, [], ◌∷◌, ◌++◌, map, String, str_dec,
  arith,
}
use houdini.Selections.{Selection, Fields, Alternatives, Variables, key_of, choose}
use houdini.Subscriptions.{Spec}
use houdini.Subscriptions.Unshared.{hits}
use mathlib.Core.Path.{subst}

module _ (start : CacheInternal) (who j g : String) (stringify : Json → List Char) (spec : Spec)
    (variables : Variables) where
  abbrev Step : Type 0
  Step = CacheInternal → CacheInternal

  abbrev run : List Step → Step
  run = each (λ step. step)

  run-append : (xs ys : List Step) (c : CacheInternal) → run (xs ++ ys) c ≡ run ys (run xs c)
  run-append [] ys c = refl
  run-append (x ∷ xs) ys c = run-append xs ys (x c)

  -- The steps that wait take so many references.
  Takes : List Step → ℕ → Type 0
  Takes steps total =
      (n : ℕ) (c : CacheInternal)
      → Holds start who j g n c
      → Holds start who j g (n - total) (run steps c)

  Takes-append : (xs ys : List Step) (a b : ℕ) → Takes xs a → Takes ys b → Takes (xs ++ ys) (a + b)
  unfolding Takes
  Takes-append xs ys a b p q n c h = rw (run-append xs ys c) (
      Holds-equal start who j g (n - a - b) (n - (a + b)) (run ys (run xs c)) (omega arith)
        (q (n - a) (run xs c) (p n c h)))

  Takes-map :
      (body : String → Step) (t : String → ℕ) (ids : List String)
      → ((id : String) (n : ℕ) (c : CacheInternal)
          → Holds start who j g n c
          → Holds start who j g (n - t id) (body id c))
      → Takes (map body ids) (sum t ids)
  unfolding Takes
  Takes-map body t [] step n c h = Holds-equal start who j g n (n - 0) c (omega arith) h
  Takes-map body t (id ∷ ids) step n c h =
      Holds-equal start who j g (n - t id - sum t ids) (n - (t id + sum t ids))
        (run (map body ids) (body id c)) (omega arith)
        (Takes-map body t ids step (n - t id) (body id c) (step id n c h))

  abbrev chosen_tally : Option String → Fields → Alternatives → String → ℕ
  chosen_tally d fields alternatives id = elim d [
    | none ↦ tally_fields stringify variables start who j g spec linked fields id
    | some name ↦
        tally_alternative stringify variables start who j g spec linked name alternatives id
  ]

  nothing : Takes [] 0
  unfolding Takes
  nothing n c h = Holds-equal start who j g n (n - 0) c (omega arith) h

  Holds-alone :
      (fields : Fields) (id : String) (n : ℕ) (c : CacheInternal)
      → Holds start who j g
          (n - (tally_fields stringify variables start who j g spec linked fields id + 0))
          c
      → Holds start who j g
          (n - tally_fields stringify variables start who j g spec linked fields id)
          c
  Holds-alone fields id n c h =
      let t = tally_fields stringify variables start who j g spec linked fields id in
      Holds-equal start who j g (n - (t + 0)) (n - t) c (omega arith) h

  mutual
    unfolding remove remove_alternative remove_fields tally tally_alternative tally_fields Takes

    pub remove-Holds :
        (selection : Selection) (masked : Bool) (id : String) (n : ℕ) (c : CacheInternal)
        → Holds start who j g n c
        → Holds start who j g
            (n - tally stringify variables start who j g spec linked selection id)
            (remove stringify (spec ∷ []) variables selection masked id c)
    remove-Holds (Selection.plain fields) masked id n c h =
        Holds-alone fields id n
          (remove_fields stringify (spec ∷ []) variables fields id masked [] (typename_of id c).0)
          (remove_fields-Holds fields id masked [] 0 n (typename_of id c).0 nothing
            (typename_of-Holds start who j g id n c h))
    remove-Holds (Selection.abstracted fields alternatives type_map) masked id n c h =
        let found = typename_of id c in
        subst
          (λ t.
            Holds start who j g
              (n - chosen_tally (choose t alternatives type_map) fields alternatives id)
              (remove stringify (spec ∷ []) variables
                (Selection.abstracted fields alternatives type_map) masked id c))
          (h.same.types id)
          (elim (choose found.1 alternatives type_map)
            as (λ d. Holds start who j g (n - chosen_tally d fields alternatives id) (elim d [
              | none ↦ remove_fields stringify (spec ∷ []) variables fields id masked [] found.0
              | some name ↦
                  remove_alternative stringify (spec ∷ []) variables name alternatives id masked
                    found.0
            ])) [
              | none ↦
                  Holds-alone fields id n
                    (remove_fields stringify (spec ∷ []) variables fields id masked [] found.0)
                    (remove_fields-Holds fields id masked [] 0 n found.0 nothing
                      (typename_of-Holds start who j g id n c h))
              | some name ↦
                  remove_alternative-Holds name alternatives id masked n found.0
                    (typename_of-Holds start who j g id n c h)
            ])

    remove_alternative-Holds :
        (name : String) (alternatives : Alternatives) (id : String) (masked : Bool) (n : ℕ)
        (c : CacheInternal)
        → Holds start who j g n c
        → Holds start who j g
            (n
              - tally_alternative stringify variables start who j g spec linked name alternatives
                  id)
            (remove_alternative stringify (spec ∷ []) variables name alternatives id masked c)
    remove_alternative-Holds name Alternatives.no_type id masked n c h =
        Holds-equal start who j g n (n - 0) c (omega arith) h
    remove_alternative-Holds name (Alternatives.for_type m fields rest) id masked n c h =
        elim (str_dec name m)
          as (λ d.
            Holds start who j g
              (n - elim d [
                | yes p ↦ tally_fields stringify variables start who j g spec linked fields id
                | no p ↦
                    tally_alternative stringify variables start who j g spec linked name rest id
              ])
              (elim d [
                | yes p ↦ remove_fields stringify (spec ∷ []) variables fields id masked [] c
                | no p ↦ remove_alternative stringify (spec ∷ []) variables name rest id masked c
              ])) [
                | yes p ↦
                    Holds-alone fields id n
                      (remove_fields stringify (spec ∷ []) variables fields id masked [] c)
                      (remove_fields-Holds fields id masked [] 0 n c nothing h)
                | no p ↦ remove_alternative-Holds name rest id masked n c h
              ]

    remove_fields-Holds :
        (fields : Fields) (id : String) (masked : Bool) (waiting : List Step) (total n : ℕ)
        (c : CacheInternal)
        → Takes waiting total
        → Holds start who j g n c
        → Holds start who j g
            (n - (tally_fields stringify variables start who j g spec linked fields id + total))
            (remove_fields stringify (spec ∷ []) variables fields id masked waiting c)
    remove_fields-Holds Fields.nil id masked waiting total n c takes h =
        Holds-equal start who j g (n - total) (n - (0 + total)) (run waiting c) (omega arith)
          (takes n c h)
    remove_fields-Holds (Fields.leaf name field rest) id masked waiting total n c takes h =
        let hit = hits who j g spec id (key_of stringify field variables) in
        let c' = remove_field stringify (spec ∷ []) variables field id masked c in
        let rest_tally = tally_fields stringify variables start who j g spec linked rest id in
        Holds-equal start who j g (n - hit - (rest_tally + total)) (n - (hit + rest_tally + total))
          (remove_fields stringify (spec ∷ []) variables rest id masked waiting c') (omega arith)
          (remove_fields-Holds rest id masked waiting total (n - hit) c' takes
            (remove_field-Holds start who j g stringify spec variables field id masked n c h))
    remove_fields-Holds (Fields.nested name field selection rest) id masked waiting total n c takes
          h =
        let key = key_of stringify field variables in
        let hit = hits who j g spec id key in
        let hidden = is_masked masked field in
        let c' = remove_field stringify (spec ∷ []) variables field id masked c in
        let h' = remove_field-Holds start who j g stringify spec variables field id masked n c h in
        let links = linked (value_of id key c') in
        let body : String → Step = remove stringify (spec ∷ []) variables selection hidden in
        let t : String → ℕ = tally stringify variables start who j g spec linked selection in
        let rest_tally = tally_fields stringify variables start who j g spec linked rest id in
        let all_links : sum t links ≡ sum t (linked (value_of id key start)) =
          ap (λ v. sum t (linked v)) (h'.same.values id key) in
        let more : Takes (waiting ++ map body links) (total + sum t links) =
          Takes-append waiting (map body links) total (sum t links) takes
            (Takes-map body t links (λ i m d k. remove-Holds selection hidden i m d k)) in
        Holds-equal start who j g (n - hit - (rest_tally + (total + sum t links)))
          (n - (hit + (sum t (linked (value_of id key start)) + rest_tally) + total))
          (remove_fields stringify (spec ∷ []) variables rest id masked (waiting ++ map body links)
            c')
          (omega (arith, all_links))
          (remove_fields-Holds rest id masked (waiting ++ map body links) (total + sum t links)
            (n - hit) c' more h')
