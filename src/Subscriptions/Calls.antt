-- ===== src/Subscriptions/Calls.antt =====
-- Any calls of the methods of `InMemorySubscriptions` that change its index.
use houdini.EntityMap.{
  EntityMap, IsValid, address, get_field, get_record, write, assign, share, drop_field, drop_record,
}
use houdini.EntityMap.Laws.{
  write-IsValid, assign-IsValid, share-IsValid, drop_record-IsValid, drop_field-IsValid,
  empty-IsValid,
}
use houdini.EntityMap.Origins.{
  write_origin, drop_field_origin, drop_record_origin, share_origin, assign_origin,
}
use houdini.EntityMap
use houdini.Prelude.{
  ℕ, ◌≡◌, refl, Bool, true, false, some, List, [], ◌∷◌, String, Dict, lookup, insert, map, select,
  arith, inl, inr, Option-cases, Bool-cases,
}
use houdini.Subscriptions.{
  Spec, FieldSelection, Subscribers, Subscriptions, callback, or_none, subscribe, increment,
  new_subscriptions, add_field_subscription, copy_subscribers, or_no_fields,
}
use houdini.Subscriptions.Fieldwise.{
  IsConsistent, subscribe-IsConsistent, unsubscribe-IsConsistent, no_subscribers-IsConsistent,
}
use houdini.Subscriptions.Removal
use houdini.Subscriptions.Removal.{
  remove_subscribers, is_unused, is_empty, put_field, clean, unsubscribe, drop_all, is_other,
  fields_of,
}

abbrev pub IsKept : Subscribers → Type 0
IsKept f = IsConsistent f × (is_unused f ≡ false)

-- Every field that the index holds is in use, and its selections and counts belong together.
pub record IsSound (m : EntityMap Subscribers) : Type 0 where
  pub valid : IsValid m
  pub kept : (id key : String) (f : Subscribers) → get_field id key m ≡ some f → IsKept f

pub empty-IsSound : IsSound EntityMap.empty
unfolding get_field address lookup
empty-IsSound = record { valid = empty-IsValid; kept = λ id key f e. cc e }

increment_used : (who : String) (counts : Dict ℕ) → is_empty (increment who counts) ≡ false
unfolding increment insert is_empty
increment_used who [] = refl
increment_used who ((j, w) ∷ d) = ground arith

subscribe_used :
    (s : FieldSelection) (masked : Bool) (f : Subscribers)
    → is_unused (subscribe s masked f) ≡ false
unfolding subscribe
subscribe_used s false f = ground (arith, increment_used (callback s) f.reference_counts)
subscribe_used s true f = elim (Bool-cases (is_empty f.reference_counts)) [
  | inl e ↦ rw e (increment_used (callback s) f.masked_parent_reference_counts)
  | inr e ↦ rw e refl
]

pub or_none-IsConsistent :
    (id key : String) (m : EntityMap Subscribers)
    → IsSound m
    → IsConsistent (or_none (get_field id key m))
or_none-IsConsistent id key m sound = elim (Option-cases (get_field id key m)) [
  | inl e ↦ rw e no_subscribers-IsConsistent
  | inr (f, e) ↦ rw e (sound.kept id key f e).0
]

write-IsSound :
    (id key : String) (v : Subscribers) (m : EntityMap Subscribers)
    → IsKept v
    → IsSound m
    → IsSound (write id key v m)
write-IsSound id key v m k sound = record {
  valid = write-IsValid id key v m sound.valid;
  kept = λ j g f e. elim (write_origin j id g key v f m sound.valid e) [
    | inl same ↦ rw same k
    | inr there ↦ sound.kept j g f there
  ];
}

drop_record-IsSound :
    (id : String) (m : EntityMap Subscribers) → IsSound m → IsSound (drop_record id m)
drop_record-IsSound id m sound = record {
  valid = drop_record-IsValid id m sound.valid;
  kept = λ j g f e. sound.kept j g f (drop_record_origin j id g f m e);
}

drop_field-IsSound :
    (id key : String) (m : EntityMap Subscribers) → IsSound m → IsSound (drop_field id key m)
drop_field-IsSound id key m sound = record {
  valid = drop_field-IsValid id key m sound.valid;
  kept = λ j g f e. sound.kept j g f (drop_field_origin j id g key f m e);
}

pub add-IsSound :
    (id key : String) (s : FieldSelection) (masked : Bool) (state : Subscriptions)
    → IsSound state.subscribers
    → IsSound (add_field_subscription id key s masked state).subscribers
unfolding add_field_subscription
add-IsSound id key s masked state sound =
    let f = or_none (get_field id key state.subscribers) in
    write-IsSound id key (subscribe s masked f) state.subscribers
      (
        subscribe-IsConsistent s masked f (or_none-IsConsistent id key state.subscribers sound),
        subscribe_used s masked f,
      )
      sound

put_field-IsSound :
    (id key : String) (f : Subscribers) (m : EntityMap Subscribers)
    → IsConsistent f
    → IsSound m
    → IsSound (put_field id key f m)
unfolding put_field
put_field-IsSound id key f m c sound = elim (Bool-cases (is_unused f)) [
  | inl e ↦ rw (e, put_field) (drop_field-IsSound id key m sound)
  | inr e ↦ rw (e, put_field) (write-IsSound id key f m (c, e) sound)
]

clean-IsSound : (id : String) (m : EntityMap Subscribers) → IsSound m → IsSound (clean id m)
unfolding clean
clean-IsSound id m sound = elim (Bool-cases (is_empty (or_no_fields (get_record id m)))) [
  | inl e ↦ rw (e, clean) (drop_record-IsSound id m sound)
  | inr e ↦ rw (e, clean) sound
]

pub remove-IsSound :
    (id key : String) (specs : List Spec) (prefer_masked : Bool) (state : Subscriptions)
    → IsSound state.subscribers
    → IsSound (remove_subscribers id key specs prefer_masked state).subscribers
unfolding remove_subscribers
remove-IsSound id key specs prefer_masked state sound =
    elim (Option-cases (get_field id key state.subscribers)) [
      | inl e ↦ rw (e, remove_subscribers) sound
      | inr (f, e) ↦
          let f' = unsubscribe specs prefer_masked f in
          let c : IsConsistent f' =
            unsubscribe-IsConsistent specs prefer_masked f (sound.kept id key f e).0 in
          rw (e, remove_subscribers)
            (clean-IsSound id (put_field id key f' state.subscribers)
              (put_field-IsSound id key f' state.subscribers c sound))
    ]

copy-IsSound :
    (from to : String) (state : Subscriptions)
    → IsSound state.subscribers
    → IsSound (copy_subscribers from to state).subscribers
unfolding copy_subscribers
copy-IsSound from to state sound =
    let m = state.subscribers in
    elim (Option-cases (address from m)) [
      | inl e ↦
          rw (e, copy_subscribers)
            (record {
              valid = assign-IsValid to [] m sound.valid;
              kept = λ j g f h. sound.kept j g f (assign_origin j to g f m sound.valid h);
            })
      | inr (r, e) ↦
          rw (e, copy_subscribers)
            (record {
              valid = share-IsValid from to m sound.valid;
              kept = λ j g f h.
                  let there = share_origin j g from to f m h in sound.kept there.0 g f there.1;
            })
    ]

drop_all-IsSound :
    (ids : List String) (m : EntityMap Subscribers) → IsSound m → IsSound (drop_all ids m)
unfolding drop_all
drop_all-IsSound [] m sound = sound
drop_all-IsSound (id ∷ ids) m sound =
    drop_all-IsSound ids (drop_record id m) (drop_record-IsSound id m sound)

pub data Call : Type 0 where
  add : String → String → FieldSelection → Bool → Call
  remove : String → String → List Spec → Bool → Call
  copy : String → String → Call
  reset : Call

unfoldable pub perform : Call → Subscriptions → Subscriptions
unfolding add_field_subscription remove_subscribers copy_subscribers Removal.reset
perform (Call.add id key s masked) state = add_field_subscription id key s masked state
perform (Call.remove id key specs masked) state = remove_subscribers id key specs masked state
perform (Call.copy from to) state = copy_subscribers from to state
perform Call.reset state = (Removal.reset state).0

unfoldable pub perform_all : List Call → Subscriptions → Subscriptions
unfolding perform
perform_all [] state = state
perform_all (call ∷ calls) state = perform_all calls (perform call state)

perform-IsSound :
    (call : Call) (state : Subscriptions)
    → IsSound state.subscribers
    → IsSound (perform call state).subscribers
unfolding perform Removal.reset
perform-IsSound (Call.add id key s masked) state sound = add-IsSound id key s masked state sound
perform-IsSound (Call.remove id key specs masked) state sound =
    remove-IsSound id key specs masked state sound
perform-IsSound (Call.copy from to) state sound = copy-IsSound from to state sound
perform-IsSound Call.reset state sound =
    drop_all-IsSound (map (λ e. e.0) (select is_other (fields_of state))) state.subscribers sound

pub perform_all-IsSound :
    (calls : List Call) (state : Subscriptions)
    → IsSound state.subscribers
    → IsSound (perform_all calls state).subscribers
unfolding perform_all
perform_all-IsSound [] state sound = sound
perform_all-IsSound (call ∷ calls) state sound =
    perform_all-IsSound calls (perform call state) (perform-IsSound call state sound)

-- Whatever calls are made from an empty index, every field that it then holds has a reference, and its
-- selections hold the callbacks of its counts, each once, in the same order, masked and unmasked.
pub perform_all-new_subscriptions :
    (calls : List Call) (id key : String) (f : Subscribers)
    → get_field id key (perform_all calls new_subscriptions).subscribers ≡ some f
    → IsConsistent f × (is_unused f ≡ false)
perform_all-new_subscriptions calls =
    (perform_all-IsSound calls new_subscriptions empty-IsSound).kept
