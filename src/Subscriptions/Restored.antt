-- ===== src/Subscriptions/Restored.antt =====
-- A subscription to a field of a record that is taken back.
use houdini.Prelude.{
  ℕ, ◌+◌, ◌-◌, ◌≡◌, refl, ap, ◌∙◌, Bool, true, false, none, some, List, [], ◌∷◌, ◌++◌, map, String,
  Dict, lookup, insert, erase, keys, contains, select, arith, inl, inr, Option-cases, lookup-insert,
}
use houdini.Subscriptions.{
  FieldSelection, Subscribers, callback, or_zero, push_new, increment, subscribe,
}
use houdini.Subscriptions.Counts.{IsMatched, insert_absent}
use houdini.Subscriptions.Fieldwise.{IsConsistent}
use houdini.Subscriptions.Ledgers.{lookup-positive, select_keeps}
use houdini.Subscriptions.Removal.{
  Ledger, ledger, release, release_in, release_all, keeps, is_zero, unsubscribe, settle,
}

erase_absent : (k : String) (d : Dict ℕ) → lookup k d ≡ none → erase k d ≡ d
unfolding lookup erase
erase_absent k [] h = refl
erase_absent k ((j, w) ∷ d) h = ground (arith, erase_absent k d)

erase_appended :
    (k : String) (v : ℕ) (d : Dict ℕ) → lookup k d ≡ none → erase k (d ++ (k, v) ∷ []) ≡ d
unfolding lookup erase
erase_appended k v [] h = ground arith
erase_appended k v ((j, w) ∷ d) h = ground (arith, erase_appended k v d)

insert_back :
    (k : String) (v n : ℕ) (d : Dict ℕ) → lookup k d ≡ some n → insert k n (insert k v d) ≡ d
unfolding lookup insert
insert_back k v n [] h = cc h
insert_back k v n ((j, w) ∷ d) h = ground (arith, insert_back k v n d)

absent : (k : String) (d : Dict ℕ) → lookup k d ≡ none → contains k (keys d) ≡ false
unfolding lookup
absent k [] h = refl
absent k ((j, w) ∷ d) h = ground (arith, absent k d)

select_pushed :
    (s : FieldSelection) (selections : List FieldSelection)
    → contains (callback s) (map callback selections) ≡ false
    → select (keeps (callback s ∷ [])) (selections ++ s ∷ []) ≡ selections
select_pushed s [] h = ground arith
select_pushed s (t ∷ selections) h = ground (arith, select_pushed s selections)

-- The ledger after the count of a callback went up and down again.
abbrev pub passing : FieldSelection → Dict ℕ → Ledger
passing s counts =
    release (callback s) (or_zero (lookup (callback s) counts) + 1)
      (ledger (increment (callback s) counts))

passing_lem :
    (s : FieldSelection) (selections : List FieldSelection) (counts : Dict ℕ)
    → IsMatched selections counts
    → ((passing s counts).counts ≡ counts)
      × (select (keeps (passing s counts).removed) (push_new s counts selections) ≡ selections)
unfolding release increment push_new
passing_lem s selections counts m = elim (Option-cases (lookup (callback s) counts)) [
  | inl e ↦
      let gone : contains (callback s) (map callback selections) ≡ false =
        ap (contains (callback s)) m.same ∙ absent (callback s) counts e in
      rw (e, push_new, insert_absent (callback s) (0 + 1) counts e)
        (erase_appended (callback s) (0 + 1) counts e, select_pushed s selections gone)
  | inr (n, e) ↦
      let p = lookup-positive (callback s) n counts m.positive e in
      let here : is_zero (n + 1 - 1) ≡ false = ground arith in
      let count : n + 1 - 1 ≡ n = omega arith in
      rw (e, push_new, here, count)
        (insert_back (callback s) (n + 1) n counts e, select_keeps selections)
]

lookup-increment :
    (who : String) (counts : Dict ℕ)
    → lookup who (increment who counts) ≡ some (or_zero (lookup who counts) + 1)
unfolding increment
lookup-increment who counts =
    ground (arith, lookup-insert who who (or_zero (lookup who counts) + 1) counts)

-- What a subscription adds to the field of a record, the removal of its spec takes away.
pub subscribe-unsubscribe :
    (s : FieldSelection) (masked : Bool) (f : Subscribers)
    → IsConsistent f
    → unsubscribe (s.spec ∷ []) masked (subscribe s masked f) ≡ f
unfolding unsubscribe release_all release_in settle subscribe
subscribe-unsubscribe s false f c =
    let both = passing_lem s f.selections f.reference_counts c.plain in
    rw (lookup-increment (callback s) f.reference_counts, release_in, both.0, both.1, select_keeps)
      refl
subscribe-unsubscribe s true f c =
    let both = passing_lem s f.masked_parent_selections f.masked_parent_reference_counts c.masked in
    rw
      (
        lookup-increment (callback s) f.masked_parent_reference_counts,
        release_in,
        both.0,
        both.1,
        select_keeps,
      )
      refl
