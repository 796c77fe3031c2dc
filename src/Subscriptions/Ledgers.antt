-- ===== src/Subscriptions/Ledgers.antt =====
-- The loop of `removeSubscribers` over the specs, and the reference counts that it leaves.
use houdini.Prelude.{
  ℕ, suc, ◌+◌, ◌-◌, ◌<◌, ◌≡◌, refl, ap, ◌∙◌, sym, some, List, [], ◌∷◌, ◌++◌, map, String, ite,
  str_dec, Dict, lookup, keys, Distinct, select, All, arith, inl, inr, Option-cases, Bool-cases,
  lookup-insert, lookup-erase, Distinct-insert, Distinct-erase, contains-append,
}
use houdini.Subscriptions.{Spec, FieldSelection, callback, or_zero}
use houdini.Subscriptions.Counts.{
  IsMatched, IsCounted, keys-insert_present, All-insert, All-erase, other_than, keys-erase,
}
use houdini.Subscriptions.Removal.{Ledger, ledger, release, release_in, release_all, keeps, is_zero}

-- The counts match what is left of the selections.
pub record IsSettled (selections : List FieldSelection) (l : Ledger) : Type 0 where
  pub same : map callback (select (keeps l.removed) selections) ≡ keys l.counts
  pub distinct : Distinct (keys l.counts)
  pub positive : All IsCounted l.counts

pub select_keeps : (selections : List FieldSelection) → select (keeps []) selections ≡ selections
select_keeps [] = refl
select_keeps (s ∷ selections) = ap (λ xs. s ∷ xs) (select_keeps selections)

select_keeps_one :
    (removed : List String) (who : String) (selections : List FieldSelection)
    → map callback (select (keeps (removed ++ who ∷ [])) selections)
      ≡ select (other_than who) (map callback (select (keeps removed) selections))
select_keeps_one removed who [] = refl
select_keeps_one removed who (s ∷ selections) = ground (
  arith,
  select_keeps_one removed who selections,
  contains-append (callback s) removed (who ∷ []),
)

pub ledger-IsSettled :
    (selections : List FieldSelection) (counts : Dict ℕ)
    → IsMatched selections counts
    → IsSettled selections (ledger counts)
ledger-IsSettled selections counts m = record {
  same = rw select_keeps m.same;
  distinct = m.distinct;
  positive = m.positive;
}

pub IsSettled-IsMatched :
    (selections : List FieldSelection) (l : Ledger)
    → IsSettled selections l
    → IsMatched (select (keeps l.removed) selections) l.counts
IsSettled-IsMatched selections l m = record {
  same = m.same;
  distinct = m.distinct;
  positive = m.positive;
}

release-IsSettled :
    (selections : List FieldSelection) (who : String) (n : ℕ) (l : Ledger)
    → lookup who l.counts ≡ some n
    → IsSettled selections l
    → IsSettled selections (release who n l)
unfolding release
release-IsSettled selections who n l h m = elim (Bool-cases (is_zero (n - 1))) [
  | inl e ↦
      rw (e, release)
        (record {
          same =
              select_keeps_one l.removed who selections
              ∙ ap (select (other_than who)) m.same
              ∙ sym (keys-erase who l.counts);
          distinct = Distinct-erase who l.counts m.distinct;
          positive = All-erase who l.counts m.positive;
        })
  | inr e ↦
      rw (e, release)
        (record {
          same = m.same ∙ sym (keys-insert_present who (n - 1) n l.counts h);
          distinct = Distinct-insert who (n - 1) l.counts m.distinct;
          positive = All-insert who (n - 1) l.counts m.positive (ground arith);
        })
]

pub lookup-positive :
    (who : String) (n : ℕ) (d : Dict ℕ) → All IsCounted d → lookup who d ≡ some n → 0 < n
unfolding lookup
lookup-positive who n [] h e = cc e
lookup-positive who n ((j, w) ∷ d) (a, h) e = elim (str_dec who j) [
  | yes p ↦ ground (arith, a)
  | no p ↦ ground (arith, lookup-positive who n d h)
]

-- Two ledgers, of unmasked and of masked references, in the order in which they are asked.
pub record AreSettled (xs ys : List FieldSelection) (ls : Ledger × Ledger) : Type 0 where
  pub first : IsSettled xs ls.0
  pub second : IsSettled ys ls.1

release_in-AreSettled :
    (xs ys : List FieldSelection) (who : String) (ls : Ledger × Ledger)
    → AreSettled xs ys ls
    → AreSettled xs ys (release_in who ls.0 ls.1)
unfolding release_in
release_in-AreSettled xs ys who ls m = elim (Option-cases (lookup who ls.0.counts)) [
  | inr (n, e) ↦
      rw (e, release_in)
        (record { first = release-IsSettled xs who n ls.0 e m.first; second = m.second })
  | inl e ↦ elim (Option-cases (lookup who ls.1.counts)) [
    | inr (n, e') ↦
        rw (e, e', release_in)
          (record { first = m.first; second = release-IsSettled ys who n ls.1 e' m.second })
    | inl e' ↦ rw (e, e', release_in) (record { first = m.first; second = m.second })
  ]
]

pub release_all-AreSettled :
    (xs ys : List FieldSelection) (specs : List Spec) (ls : Ledger × Ledger)
    → AreSettled xs ys ls
    → AreSettled xs ys (release_all specs ls.0 ls.1)
unfolding release_all
release_all-AreSettled xs ys [] ls m = record { first = m.first; second = m.second }
release_all-AreSettled xs ys (spec ∷ specs) ls m =
    release_all-AreSettled xs ys specs (release_in spec.on_message ls.0 ls.1)
      (release_in-AreSettled xs ys spec.on_message ls m)

-- The references that a callback has, masked ones included.
abbrev pub held : String → Ledger × Ledger → ℕ
held who ls = or_zero (lookup who ls.0.counts) + or_zero (lookup who ls.1.counts)

-- How many of the specs have the callback.
unfoldable pub mentions : String → List Spec → ℕ
mentions who [] = 0
mentions who (spec ∷ specs) =
    let rest = mentions who specs in ite (str_dec who spec.on_message) (suc rest) rest

lookup-release :
    (w who : String) (n : ℕ) (l : Ledger)
    → or_zero (lookup w (release who n l).counts)
      ≡ ite (str_dec w who) (n - 1) (or_zero (lookup w l.counts))
unfolding release
lookup-release w who n l =
    ground (arith, lookup-erase w who l.counts, lookup-insert w who (n - 1) l.counts)

held-release_in :
    (xs ys : List FieldSelection) (w who : String) (ls : Ledger × Ledger)
    → AreSettled xs ys ls
    → held w (release_in who ls.0 ls.1) ≡ ite (str_dec w who) (held w ls - 1) (held w ls)
unfolding release_in
held-release_in xs ys w who ls m = elim (Option-cases (lookup who ls.0.counts)) [
  | inr (n, e) ↦
      let p = lookup-positive who n ls.0.counts m.first.positive e in
      ground (arith, lookup-release w who n ls.0)
  | inl e ↦ elim (Option-cases (lookup who ls.1.counts)) [
    | inr (n, e') ↦ ground (arith, lookup-release w who n ls.1)
    | inl e' ↦ ground arith
  ]
]

pub held-release_all :
    (xs ys : List FieldSelection) (w : String) (specs : List Spec) (ls : Ledger × Ledger)
    → AreSettled xs ys ls
    → held w (release_all specs ls.0 ls.1) ≡ held w ls - mentions w specs
unfolding release_all mentions
held-release_all xs ys w [] ls m = omega arith
held-release_all xs ys w (spec ∷ specs) ls m =
    let after = release_in spec.on_message ls.0 ls.1 in
    ground (
      arith,
      held-release_all xs ys w specs after (release_in-AreSettled xs ys spec.on_message ls m),
      held-release_in xs ys w spec.on_message ls m,
    )
