-- ===== src/Subscriptions/Unshared.antt =====
-- The index of `InMemorySubscriptions` where no two ids share a map of fields, which they do only after
-- `copySubscribers`: a call for one field leaves the counts of all others alone.
use houdini.EntityMap.{EntityMap, IsValid, get_field, get_record, write}
use houdini.EntityMap.Laws.{get_field-write_self}
use houdini.Prelude.{
  ℕ, ◌+◌, ◌-◌, ◌≡◌, ◌≢◌, ap, ◌∙◌, Bool, List, [], ◌∷◌, String, ite, str_dec, arith, inl, inr,
  Option-cases, Bool-cases,
}
use houdini.Subscriptions.{
  Spec, FieldSelection, Subscribers, Subscriptions, or_none, subscribe, add_field_subscription,
  or_no_fields,
}
use houdini.Subscriptions.Calls.{IsSound}
use houdini.Subscriptions.Index.{
  references_at, references_at-add_field_subscription, references_at-remove_subscribers,
  remove_none, remove_some,
}
use houdini.Subscriptions.Fieldwise.{references}
use houdini.Subscriptions.Ledgers.{mentions}
use houdini.Subscriptions.Removal.{
  remove_subscribers, is_unused, is_empty, put_field, clean, unsubscribe,
}
use houdini.Subscriptions.Apart.{
  IsUnshared, write-IsUnshared, drop_record-IsUnshared, drop_field-IsUnshared,
  get_field-drop_field_other, get_field-drop_field_beside, get_field-write_apart,
}

-- One reference, if the call is about the callback and the field.
unfoldable pub hits : String → String → String → Spec → String → String → ℕ
hits who j g spec id key =
    ite (str_dec who spec.on_message) (ite (str_dec j id) (ite (str_dec g key) 1 0) 0) 0

add_beside :
    (who j g id key : String) (selection : FieldSelection) (masked : Bool) (s : Subscriptions)
    → j ≡ id
    → g ≢ key
    → references_at who j g (add_field_subscription id key selection masked s)
      ≡ references_at who j g s
unfolding references_at add_field_subscription
add_beside who j g id key selection masked s p q =
    let v = subscribe selection masked (or_none (get_field id key s.subscribers)) in
    let same : get_field j g (write id key v s.subscribers) ≡ get_field j g s.subscribers =
      ground (arith, get_field-write_self id g key v s.subscribers) in
    ap (λ x. references who (or_none x)) same

add_apart :
    (who j g id key : String) (selection : FieldSelection) (masked : Bool) (s : Subscriptions)
    → IsSound s.subscribers
    → IsUnshared s.subscribers
    → j ≢ id
    → references_at who j g (add_field_subscription id key selection masked s)
      ≡ references_at who j g s
unfolding references_at add_field_subscription
add_apart who j g id key selection masked s sound u p =
    ap (λ x. references who (or_none x))
      (get_field-write_apart j g id key
        (subscribe selection masked (or_none (get_field id key s.subscribers))) s.subscribers
        sound.valid u p)

put_field_beside :
    (g id key : String) (f : Subscribers) (m : EntityMap Subscribers)
    → g ≢ key
    → get_field id g (put_field id key f m) ≡ get_field id g m
unfolding put_field
put_field_beside g id key f m q = elim (Bool-cases (is_unused f)) [
  | inl e ↦ rw (e, put_field) (get_field-drop_field_beside g id key m q)
  | inr e ↦ rw (e, put_field) (ground (arith, get_field-write_self id g key f m))
]

put_field_apart :
    (j g id key : String) (f : Subscribers) (m : EntityMap Subscribers)
    → IsValid m
    → IsUnshared m
    → j ≢ id
    → get_field j g (put_field id key f m) ≡ get_field j g m
unfolding put_field
put_field_apart j g id key f m ok u p = elim (Bool-cases (is_unused f)) [
  | inl e ↦ rw (e, put_field) (get_field-drop_field_other j g id key m u p)
  | inr e ↦ rw (e, put_field) (get_field-write_apart j g id key f m ok u p)
]

-- What a removal leaves alone, if putting the field back leaves it alone.
remove_same :
    (who j g id key : String) (specs : List Spec) (masked : Bool) (s : Subscriptions)
    → ((f : Subscribers)
        → get_field j g (put_field id key f s.subscribers) ≡ get_field j g s.subscribers)
    → references_at who j g (remove_subscribers id key specs masked s) ≡ references_at who j g s
unfolding references_at
remove_same who j g id key specs masked s same =
    elim (Option-cases (get_field id key s.subscribers)) [
      | inl e ↦ ap (references_at who j g) (remove_none id key specs masked s e)
      | inr (f, e) ↦
          ap (λ x. references who (or_none x))
            (remove_some j g id key specs masked s f e ∙ same (unsubscribe specs masked f))
    ]

remove_beside :
    (who j g id key : String) (specs : List Spec) (masked : Bool) (s : Subscriptions)
    → j ≡ id
    → g ≢ key
    → references_at who j g (remove_subscribers id key specs masked s) ≡ references_at who j g s
remove_beside who j g id key specs masked s p q =
    remove_same who j g id key specs masked s
      (λ f. ground (arith, put_field_beside g id key f s.subscribers q))

remove_apart :
    (who j g id key : String) (specs : List Spec) (masked : Bool) (s : Subscriptions)
    → IsSound s.subscribers
    → IsUnshared s.subscribers
    → j ≢ id
    → references_at who j g (remove_subscribers id key specs masked s) ≡ references_at who j g s
remove_apart who j g id key specs masked s sound u p =
    remove_same who j g id key specs masked s
      (λ f. put_field_apart j g id key f s.subscribers sound.valid u p)

put_field-IsUnshared :
    (id key : String) (f : Subscribers) (m : EntityMap Subscribers)
    → IsValid m
    → IsUnshared m
    → IsUnshared (put_field id key f m)
unfolding put_field
put_field-IsUnshared id key f m ok u = elim (Bool-cases (is_unused f)) [
  | inl e ↦ rw (e, put_field) (drop_field-IsUnshared id key m u)
  | inr e ↦ rw (e, put_field) (write-IsUnshared id key f m ok u)
]

clean-IsUnshared :
    (id : String) (m : EntityMap Subscribers) → IsUnshared m → IsUnshared (clean id m)
unfolding clean
clean-IsUnshared id m u = elim (Bool-cases (is_empty (or_no_fields (get_record id m)))) [
  | inl e ↦ rw (e, clean) (drop_record-IsUnshared id m u)
  | inr e ↦ rw (e, clean) u
]

pub references_at-add-hits :
    (who j g id key : String) (selection : FieldSelection) (masked : Bool) (s : Subscriptions)
    → IsSound s.subscribers
    → IsUnshared s.subscribers
    → references_at who j g (add_field_subscription id key selection masked s)
      ≡ references_at who j g s + hits who j g selection.spec id key
unfolding hits
references_at-add-hits who j g id key selection masked s sound u = elim (str_dec j id) [
  | yes p ↦ elim (str_dec g key) [
    | yes q ↦ ground (arith, references_at-add_field_subscription who id key selection masked s)
    | no q ↦ ground (arith, add_beside who j g id key selection masked s p q)
  ]
  | no p ↦ ground (arith, add_apart who j g id key selection masked s sound u p)
]

pub references_at-remove-hits :
    (who j g id key : String) (spec : Spec) (masked : Bool) (s : Subscriptions)
    → IsSound s.subscribers
    → IsUnshared s.subscribers
    → references_at who j g (remove_subscribers id key (spec ∷ []) masked s)
      ≡ references_at who j g s - hits who j g spec id key
unfolding hits mentions
references_at-remove-hits who j g id key spec masked s sound u = elim (str_dec j id) [
  | yes p ↦ elim (str_dec g key) [
    | yes q ↦ ground (arith, references_at-remove_subscribers who id key (spec ∷ []) masked s sound)
    | no q ↦ ground (arith, remove_beside who j g id key (spec ∷ []) masked s p q)
  ]
  | no p ↦ ground (arith, remove_apart who j g id key (spec ∷ []) masked s sound u p)
]

pub add-IsUnshared :
    (id key : String) (selection : FieldSelection) (masked : Bool) (s : Subscriptions)
    → IsSound s.subscribers
    → IsUnshared s.subscribers
    → IsUnshared (add_field_subscription id key selection masked s).subscribers
unfolding add_field_subscription
add-IsUnshared id key selection masked s sound u =
    write-IsUnshared id key (subscribe selection masked (or_none (get_field id key s.subscribers)))
      s.subscribers sound.valid u

pub remove-IsUnshared :
    (id key : String) (specs : List Spec) (masked : Bool) (s : Subscriptions)
    → IsSound s.subscribers
    → IsUnshared s.subscribers
    → IsUnshared (remove_subscribers id key specs masked s).subscribers
unfolding remove_subscribers
remove-IsUnshared id key specs masked s sound u =
    elim (Option-cases (get_field id key s.subscribers)) [
      | inl e ↦ rw (e, remove_subscribers) u
      | inr (f, e) ↦
          rw (e, remove_subscribers)
            (clean-IsUnshared id (put_field id key (unsubscribe specs masked f) s.subscribers) (
              put_field-IsUnshared id key (unsubscribe specs masked f) s.subscribers sound.valid u))
    ]
