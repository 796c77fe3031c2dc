-- ===== src/Subscriptions/Index.antt =====
-- The index of `InMemorySubscriptions` after `addFieldSubscription` and `removeSubscribers`.
use houdini.EntityMap.{EntityMap, IsValid, address, get_field, get_record, write, drop_field}
use houdini.EntityMap.Laws.{get_field-drop_record, get_field-write_self}
use houdini.EntityMap.Origins.{get_field-drop_field}
use houdini.EntityMap.Undone.{address_of_none, get_field-write-write, get_field-drop_field-write}
use houdini.Prelude.{
  ℕ, ◌+◌, ◌-◌, suc, ◌≡◌, refl, ap, ◌∙◌, sym, Bool, true, false, none, some, List, [], ◌∷◌, String,
  ite, str_dec, Dict, lookup, arith, inl, inr, Option-cases, Bool-cases,
}
use houdini.Subscriptions.{
  Spec, FieldSelection, Subscribers, Subscriptions, callback, or_none, subscribe, no_subscribers,
  or_zero, add_field_subscription, or_no_fields,
}
use houdini.Subscriptions.Calls.{IsSound, or_none-IsConsistent}
use houdini.Subscriptions.Fieldwise.{references, references-subscribe, references-unsubscribe}
use houdini.Subscriptions.Ledgers.{mentions}
use houdini.Subscriptions.Removal.{
  remove_subscribers, is_unused, is_empty, put_field, clean, unsubscribe,
}
use houdini.Subscriptions.Restored.{subscribe-unsubscribe}

no_entry : (g : String) (d : Dict Subscribers) → is_empty d ≡ true → lookup g d ≡ none
unfolding lookup is_empty
no_entry g [] h = refl
no_entry g (x ∷ d) h = cc h

empty_record :
    (id g : String) (m : EntityMap Subscribers)
    → is_empty (or_no_fields (get_record id m)) ≡ true
    → get_field id g m ≡ none
unfolding get_record get_field
empty_record id g m e = elim (Option-cases (address id m)) [
  | inl a ↦ ground arith
  | inr (r, a) ↦ ground (arith, no_entry g (m.heap.cell r))
]

get_field-clean :
    (j g id : String) (m : EntityMap Subscribers) → get_field j g (clean id m) ≡ get_field j g m
unfolding clean
get_field-clean j g id m = elim (Bool-cases (is_empty (or_no_fields (get_record id m)))) [
  | inl e ↦ elim (str_dec j id) [
    | yes p ↦ ground (arith, get_field-drop_record j g id m, empty_record id g m e)
    | no p ↦ ground (arith, get_field-drop_record j g id m)
  ]
  | inr e ↦ ground arith
]

pub remove_none :
    (id key : String) (specs : List Spec) (masked : Bool) (s : Subscriptions)
    → get_field id key s.subscribers ≡ none
    → remove_subscribers id key specs masked s ≡ s
unfolding remove_subscribers
remove_none id key specs masked s e = rw (e, remove_subscribers) refl

pub remove_some :
    (j g id key : String) (specs : List Spec) (masked : Bool) (s : Subscriptions) (f : Subscribers)
    → get_field id key s.subscribers ≡ some f
    → get_field j g (remove_subscribers id key specs masked s).subscribers
      ≡ get_field j g (put_field id key (unsubscribe specs masked f) s.subscribers)
unfolding remove_subscribers
remove_some j g id key specs masked s f e =
    rw (e, remove_subscribers)
      (get_field-clean j g id (put_field id key (unsubscribe specs masked f) s.subscribers))

put_field-write :
    (j g id key : String) (f v : Subscribers) (m : EntityMap Subscribers)
    → get_field id key m ≡ some f
    → is_unused f ≡ false
    → get_field j g (put_field id key f (write id key v m)) ≡ get_field j g m
unfolding put_field
put_field-write j g id key f v m h used =
    rw (used, put_field) (get_field-write-write j id g key v f m h)

put_field-write_new :
    (j g id key : String) (v : Subscribers) (m : EntityMap Subscribers)
    → IsValid m
    → get_field id key m ≡ none
    → get_field j g (put_field id key no_subscribers (write id key v m)) ≡ get_field j g m
unfolding put_field is_empty
put_field-write_new j g id key v m ok h = get_field-drop_field-write j id g key v m ok h

-- In an index that the methods have made, a subscription to a field that is taken back, through the
-- same kind of path, leaves every field of every id as it was, with its selections and its counts.
pub remove_subscribers-add_field_subscription :
    (j g id key : String) (selection : FieldSelection) (masked : Bool) (s : Subscriptions)
    → IsSound s.subscribers
    → get_field j g
        (remove_subscribers id key
          (selection.spec ∷ [])
          masked
          (add_field_subscription id key selection masked s)).subscribers
      ≡ get_field j g s.subscribers
unfolding add_field_subscription
remove_subscribers-add_field_subscription j g id key selection masked s sound =
    let m = s.subscribers in
    let f = or_none (get_field id key m) in
    let v = subscribe selection masked f in
    let s' = add_field_subscription id key selection masked s in
    let here : get_field id key (write id key v m) ≡ some v =
      get_field-write_self id key key v m ∙ ground arith in
    let back : unsubscribe (selection.spec ∷ []) masked v ≡ f =
      subscribe-unsubscribe selection masked f (or_none-IsConsistent id key m sound) in
    remove_some j g id key (selection.spec ∷ []) masked s' v here
    ∙ ap (λ x. get_field j g (put_field id key x (write id key v m))) back
    ∙ elim (Option-cases (get_field id key m)) [
      | inl e ↦
          ap (λ x. get_field j g (put_field id key (or_none x) (write id key v m))) e
          ∙ put_field-write_new j g id key v m sound.valid e
      | inr (f, e) ↦
          ap (λ x. get_field j g (put_field id key (or_none x) (write id key v m))) e
          ∙ put_field-write j g id key f v m e (sound.kept id key f e).1
    ]

-- The references that a callback has to a field of a record.
unfoldable pub references_at : String → String → String → Subscriptions → ℕ
unfolding get_field references
references_at who id key s = references who (or_none (get_field id key s.subscribers))

unused : (who : String) (f : Subscribers) → is_unused f ≡ true → references who f ≡ 0
unfolding references is_empty lookup
unused who f e = go f.reference_counts f.masked_parent_reference_counts refl refl
  where
    go :
        (c d : Dict ℕ)
        → f.reference_counts ≡ c
        → f.masked_parent_reference_counts ≡ d
        → or_zero (lookup who f.reference_counts)
            + or_zero (lookup who f.masked_parent_reference_counts)
          ≡ 0
    go [] [] p q = rw (p, q) (omega arith)
    go [] (x ∷ d) p q = cc (e, p, q)
    go (x ∷ c) d p q = cc (e, p)

none_held : (who : String) → references who no_subscribers ≡ 0
unfolding is_empty
none_held who = unused who no_subscribers refl

get_field-drop_self :
    (id key : String) (m : EntityMap Subscribers) (f : Subscribers)
    → get_field id key m ≡ some f
    → get_field id key (drop_field id key m) ≡ none
get_field-drop_self id key m f h = elim (Option-cases (address id m)) [
  | inl a ↦ ground (arith, address_of_none id key m a)
  | inr (r, a) ↦ ground (arith, get_field-drop_field id id key key m r a)
]

after_put :
    (who id key : String) (f' f : Subscribers) (m : EntityMap Subscribers)
    → get_field id key m ≡ some f
    → references who (or_none (get_field id key (put_field id key f' m))) ≡ references who f'
unfolding put_field
after_put who id key f' f m h = elim (Bool-cases (is_unused f')) [
  | inl e ↦
      rw (e, put_field, get_field-drop_self id key m f h) (none_held who ∙ sym (unused who f' e))
  | inr e ↦
      let here : get_field id key (write id key f' m) ≡ some f' =
        get_field-write_self id key key f' m ∙ ground arith in
      rw (e, put_field, here) refl
]

pub references_at-add_field_subscription :
    (who id key : String) (selection : FieldSelection) (masked : Bool) (s : Subscriptions)
    → references_at who id key (add_field_subscription id key selection masked s)
      ≡ ite
          (str_dec who (callback selection))
          (suc (references_at who id key s))
          (references_at who id key s)
unfolding references_at add_field_subscription
references_at-add_field_subscription who id key selection masked s =
    let m = s.subscribers in
    let f = or_none (get_field id key m) in
    let v = subscribe selection masked f in
    let here : get_field id key (write id key v m) ≡ some v =
      get_field-write_self id key key v m ∙ ground arith in
    ap (λ x. references who (or_none x)) here ∙ references-subscribe who selection masked f

-- In an index that the methods have made, a removal takes from each callback as many references to
-- the field as there are specs with that callback, down to none. It does so whether the field is known
-- or not, and whichever of the two maps of counts is preferred.
pub references_at-remove_subscribers :
    (who id key : String) (specs : List Spec) (prefer_masked : Bool) (s : Subscriptions)
    → IsSound s.subscribers
    → references_at who id key (remove_subscribers id key specs prefer_masked s)
      ≡ references_at who id key s - mentions who specs
unfolding references_at
references_at-remove_subscribers who id key specs prefer_masked s sound =
    let m = s.subscribers in
    elim (Option-cases (get_field id key m)) [
      | inl e ↦
          let zero_now : references who (or_none (get_field id key m)) ≡ 0 =
            ap (λ x. references who (or_none x)) e ∙ none_held who in
          ap (λ x. references_at who id key x) (remove_none id key specs prefer_masked s e)
          ∙ omega (arith, zero_now)
      | inr (f, e) ↦
          let f' = unsubscribe specs prefer_masked f in
          let left = references-unsubscribe who specs prefer_masked f (sound.kept id key f e).0 in
          ap (λ x. references who (or_none x)) (remove_some id key id key specs prefer_masked s f e)
          ∙ after_put who id key f' f m e
          ∙ left
          ∙ ap (λ x. references who (or_none x) - mentions who specs) (sym e)
    ]
