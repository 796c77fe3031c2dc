-- ===== src/Subscriptions/Fieldwise.antt =====
-- One field of a record under `addFieldSubscription` and `removeSubscribers`.
use houdini.Prelude.{
  ℕ, suc, ◌+◌, ◌-◌, ◌≡◌, refl, Bool, true, false, List, String, ite, str_dec, lookup, arith,
  lookup-insert,
}
use houdini.Subscriptions.{
  Spec, FieldSelection, Subscribers, callback, or_zero, increment, subscribe, no_subscribers,
}
use houdini.Subscriptions.Counts.{IsMatched, subscribe-IsMatched}
use houdini.Subscriptions.Ledgers.{
  AreSettled, ledger-IsSettled, IsSettled-IsMatched, release_all-AreSettled, held-release_all,
  mentions,
}
use houdini.Subscriptions.Removal.{Ledger, ledger, release_all, unsubscribe, settle}

-- The selections of a field and its counts hold the same callbacks, masked and unmasked.
pub record IsConsistent (f : Subscribers) : Type 0 where
  pub plain : IsMatched f.selections f.reference_counts
  pub masked : IsMatched f.masked_parent_selections f.masked_parent_reference_counts

pub no_subscribers-IsConsistent : IsConsistent no_subscribers
no_subscribers-IsConsistent = record {
  plain = record { same = refl; distinct = tt; positive = tt };
  masked = record { same = refl; distinct = tt; positive = tt };
}

pub subscribe-IsConsistent :
    (s : FieldSelection) (masked : Bool) (f : Subscribers)
    → IsConsistent f
    → IsConsistent (subscribe s masked f)
unfolding subscribe
subscribe-IsConsistent s false f c = record {
  plain = subscribe-IsMatched s f.selections f.reference_counts c.plain;
  masked = c.masked;
}
subscribe-IsConsistent s true f c = record {
  plain = c.plain;
  masked =
      subscribe-IsMatched s f.masked_parent_selections f.masked_parent_reference_counts c.masked;
}

plain_first :
    (f : Subscribers)
    → IsConsistent f
    → AreSettled f.selections f.masked_parent_selections
        (ledger f.reference_counts, ledger f.masked_parent_reference_counts)
plain_first f c = record {
  first = ledger-IsSettled f.selections f.reference_counts c.plain;
  second = ledger-IsSettled f.masked_parent_selections f.masked_parent_reference_counts c.masked;
}

masked_first :
    (f : Subscribers)
    → IsConsistent f
    → AreSettled f.masked_parent_selections f.selections
        (ledger f.masked_parent_reference_counts, ledger f.reference_counts)
masked_first f c = let both = plain_first f c in record { first = both.second; second = both.first }

pub unsubscribe-IsConsistent :
    (specs : List Spec) (prefer_masked : Bool) (f : Subscribers)
    → IsConsistent f
    → IsConsistent (unsubscribe specs prefer_masked f)
unfolding unsubscribe settle
unsubscribe-IsConsistent specs false f c =
    let ls : Ledger × Ledger =
      (ledger f.reference_counts, ledger f.masked_parent_reference_counts) in
    let after =
      release_all-AreSettled f.selections f.masked_parent_selections specs ls (plain_first f c) in
    record {
      plain = IsSettled-IsMatched f.selections (release_all specs ls.0 ls.1).0 after.first;
      masked =
          IsSettled-IsMatched f.masked_parent_selections (release_all specs ls.0 ls.1).1
            after.second;
    }
unsubscribe-IsConsistent specs true f c =
    let ls : Ledger × Ledger =
      (ledger f.masked_parent_reference_counts, ledger f.reference_counts) in
    let after =
      release_all-AreSettled f.masked_parent_selections f.selections specs ls (masked_first f c) in
    record {
      plain = IsSettled-IsMatched f.selections (release_all specs ls.0 ls.1).1 after.second;
      masked =
          IsSettled-IsMatched f.masked_parent_selections (release_all specs ls.0 ls.1).0
            after.first;
    }

-- The references that a callback has to a field, masked ones included.
unfoldable pub references : String → Subscribers → ℕ
unfolding lookup
references who f =
    or_zero (lookup who f.reference_counts) + or_zero (lookup who f.masked_parent_reference_counts)

pub references-subscribe :
    (w : String) (s : FieldSelection) (masked : Bool) (f : Subscribers)
    → references w (subscribe s masked f)
      ≡ ite (str_dec w (callback s)) (suc (references w f)) (references w f)
unfolding references subscribe increment
references-subscribe w s false f = ground (
  arith,
  lookup-insert w (callback s) (or_zero (lookup (callback s) f.reference_counts) + 1)
      f.reference_counts,
)
references-subscribe w s true f = ground (
  arith,
  lookup-insert w (callback s) (or_zero (lookup (callback s) f.masked_parent_reference_counts) + 1)
      f.masked_parent_reference_counts,
)

-- Whichever counts are preferred, a removal takes one reference for each spec, and none that is not
-- there.
pub references-unsubscribe :
    (w : String) (specs : List Spec) (prefer_masked : Bool) (f : Subscribers)
    → IsConsistent f
    → references w (unsubscribe specs prefer_masked f) ≡ references w f - mentions w specs
unfolding references unsubscribe settle
references-unsubscribe w specs false f c =
    held-release_all f.selections f.masked_parent_selections w specs
      (ledger f.reference_counts, ledger f.masked_parent_reference_counts) (plain_first f c)
references-unsubscribe w specs true f c =
    let ls : Ledger × Ledger =
      (ledger f.masked_parent_reference_counts, ledger f.reference_counts) in
    let same =
      held-release_all f.masked_parent_selections f.selections w specs ls (masked_first f c) in
    omega (arith, same)
