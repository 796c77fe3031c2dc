-- ===== src/Subscriptions/Notices.antt =====
-- `all` of the class `InMemorySubscriptions`: the selections to refresh, one for each callback.
use houdini.EntityMap
use houdini.Prelude.{
  ◌≡◌, refl, ap, ◌∙◌, sym, Bool, true, false, ◌||◌, List, [], ◌∷◌, ◌++◌, map, String, ite, str_dec,
  Dict, Distinct, contains, contains-add, add, if◌then◌else◌, arith, inl, inr, Bool-cases,
}
use houdini.Subscriptions.{FieldSelection, Subscribers, Subscriptions, callback, all_of}
use houdini.Subscriptions.Counts.{callbacks-append}
use houdini.Subscriptions.Removal.{fields_of}
use mathlib.Core.List.{append_assoc}

pub record Notices : Type 0 where
  pub result : List FieldSelection
  pub notified : List String

unfoldable pub notify : FieldSelection → Notices → Notices
notify selection n = if contains (callback selection) n.notified then n else record {
  result = n.result ++ selection ∷ [];
  notified = add (callback selection) n.notified;
}

unfoldable pub notify_each : List FieldSelection → Notices → Notices
unfolding notify
notify_each [] n = n
notify_each (selection ∷ selections) n = notify_each selections (notify selection n)

-- The loop over the fields of a record.
unfoldable pub notify_fields : Bool → Dict Subscribers → Notices → Notices
unfolding notify_each
notify_fields include_masked [] n = n
notify_fields include_masked ((key, f) ∷ fields) n =
    let plain = notify_each f.selections n in
    notify_fields include_masked fields
      (if include_masked then notify_each f.masked_parent_selections plain else plain)

unfoldable pub notify_records : Bool → List (String × Dict Subscribers) → Notices → Notices
unfolding notify_fields
notify_records include_masked [] n = n
notify_records include_masked (e ∷ es) n =
    notify_records include_masked es (notify_fields include_masked e.1 n)

unfoldable pub all : Bool → Subscriptions → List FieldSelection
unfolding notify_records EntityMap.entries
all include_masked s =
    (notify_records include_masked (fields_of s) (record { result = []; notified = [] })).result

-- All that the records hold.
unfoldable pub everything : Bool → List (String × Dict Subscribers) → List FieldSelection
unfolding all_of
everything include_masked [] = []
everything include_masked (e ∷ es) = all_of include_masked e.1 ++ everything include_masked es

notify_each-append :
    (xs ys : List FieldSelection) (n : Notices)
    → notify_each (xs ++ ys) n ≡ notify_each ys (notify_each xs n)
unfolding notify_each
notify_each-append [] ys n = refl
notify_each-append (x ∷ xs) ys n = notify_each-append xs ys (notify x n)

notify_fields_lem :
    (b : Bool) (fields : Dict Subscribers) (n : Notices)
    → notify_fields b fields n ≡ notify_each (all_of b fields) n
unfolding notify_fields notify_each all_of
notify_fields_lem b [] n = refl
notify_fields_lem false ((key, f) ∷ fields) n =
    notify_fields_lem false fields (notify_each f.selections n)
    ∙ sym (notify_each-append f.selections (all_of false fields) n)
notify_fields_lem true ((key, f) ∷ fields) n =
    let plain = notify_each f.selections n in
    notify_fields_lem true fields (notify_each f.masked_parent_selections plain)
    ∙ sym (
        ap (λ xs. notify_each xs n)
          (append_assoc f.selections f.masked_parent_selections (all_of true fields))
        ∙ notify_each-append f.selections (f.masked_parent_selections ++ all_of true fields) n
        ∙ notify_each-append f.masked_parent_selections (all_of true fields) plain)

notify_records_lem :
    (b : Bool) (es : List (String × Dict Subscribers)) (n : Notices)
    → notify_records b es n ≡ notify_each (everything b es) n
unfolding notify_records everything notify_each
notify_records_lem b [] n = refl
notify_records_lem b (e ∷ es) n =
    notify_records_lem b es (notify_fields b e.1 n)
    ∙ ap (notify_each (everything b es)) (notify_fields_lem b e.1 n)
    ∙ sym (notify_each-append (all_of b e.1) (everything b es) n)

-- The callbacks of the result are those that were notified, each once.
record IsFair (n : Notices) : Type 0 where
  same : map callback n.result ≡ n.notified
  distinct : Distinct n.notified

add_absent : (k : String) (ks : List String) → contains k ks ≡ false → add k ks ≡ ks ++ k ∷ []
add_absent k [] h = refl
add_absent k (x ∷ ks) h = ground (arith, add_absent k ks)

Distinct-add : (k : String) (ks : List String) → Distinct ks → Distinct (add k ks)
Distinct-add k [] h = (refl, tt)
Distinct-add k (x ∷ ks) (a, h) =
    elim (str_dec k x) as (λ c. Distinct (ite c (x ∷ ks) (x ∷ add k ks))) [
      | yes p ↦ (a, h)
      | no p ↦ (ground (arith, contains-add x k ks, a), Distinct-add k ks h)
    ]

notify-IsFair : (s : FieldSelection) (n : Notices) → IsFair n → IsFair (notify s n)
unfolding notify
notify-IsFair s n fair = elim (Bool-cases (contains (callback s) n.notified)) [
  | inl e ↦ rw (e, notify) fair
  | inr e ↦
      rw (e, notify)
        (record {
          same =
              callbacks-append n.result (s ∷ [])
              ∙ ap (λ ks. ks ++ callback s ∷ []) fair.same
              ∙ sym (add_absent (callback s) n.notified e);
          distinct = Distinct-add (callback s) n.notified fair.distinct;
        })
]

notify_each-IsFair : (xs : List FieldSelection) (n : Notices) → IsFair n → IsFair (notify_each xs n)
unfolding notify_each
notify_each-IsFair [] n fair = fair
notify_each-IsFair (x ∷ xs) n fair = notify_each-IsFair xs (notify x n) (notify-IsFair x n fair)

contains-notify_each :
    (who : String) (xs : List FieldSelection) (n : Notices)
    → contains who (notify_each xs n).notified
      ≡ (contains who n.notified || contains who (map callback xs))
unfolding notify_each notify
contains-notify_each who [] n = ground arith
contains-notify_each who (x ∷ xs) n =
    ground
      (arith, contains-notify_each who xs (notify x n), contains-add who (callback x) n.notified)

all_lem :
    (b : Bool) (s : Subscriptions)
    → all b s
      ≡ (notify_each (everything b (fields_of s)) (record { result = []; notified = [] })).result
unfolding all
all_lem b s =
    ap (λ n. n.result) (notify_records_lem b (fields_of s) (record { result = []; notified = [] }))

-- `all` gives one selection for each callback, and for every callback that some field of some record
-- holds; the masked ones count if they are asked for.
pub all-Distinct :
    (include_masked : Bool) (s : Subscriptions)
    → Distinct (map callback (all include_masked s))
      × ((who : String)
          → contains who (map callback (all include_masked s))
            ≡ contains who (map callback (everything include_masked (fields_of s))))
all-Distinct b s =
    let start : Notices = record { result = []; notified = [] } in
    let fair : IsFair (notify_each (everything b (fields_of s)) start) =
      notify_each-IsFair (everything b (fields_of s)) start
        (record { same = refl; distinct = tt }) in
    rw (all_lem b s, fair.same)
      (fair.distinct, λ who. contains-notify_each who (everything b (fields_of s)) start)
