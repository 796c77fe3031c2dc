-- ===== src/Lru/Calls.antt =====
-- Every sequence of calls of an LRU cache of packages/houdini/src/runtime/lru.ts, against a map that
-- forgets.
use houdini.Lru
use houdini.Lru.{
  Slot, undefined, null, value, Cache, create, find, is_undefined, is_nullish, or_undefined,
}
use houdini.Lru.Entries.{
  set-entries, set-limit, delete-entries, delete-limit, Distinct-touch, length-touch_present,
  length-erase,
}
use houdini.Lru.Keys.{
  without, newest, Distinct-without, keys-erase, keys-touch, keys-newest, lookup-newest,
  Distinct-newest, length-newest,
}
use houdini.Prelude.{
  keys, lookup-absent, if_pos, if_neg, str_dec, sym, ℕ, ◌≡◌, refl, ap, ◌∙◌, Bool, true, false, none,
  some, List, [], ◌∷◌, ◌++◌, String, Dict, lookup, insert, erase, lookup-insert, lookup-erase,
  length, contains, arith, Bool-cases, inl, inr,
}
use houdini.Lru.Memory.{Call, perform, perform_all, Memory, blank, step, step_all, Refines}

module _ {ℓ} {A : Type ℓ} (n : ℕ) where
  get-nullish :
      (key : String) (c : Cache A) → is_nullish (find key c) ≡ true → Lru.get key c ≡ (c, null)
  unfolding Lru.get
  get-nullish key c e = rw e

  get-found :
      (key : String) (c : Cache A)
      → is_nullish (find key c) ≡ false
      → Lru.get key c ≡ (Lru.put key (find key c) (Lru.drop key c), find key c)
  unfolding Lru.get
  get-found key c e = rw e

  find-present :
      (key : String) (c : Cache A)
      → is_nullish (find key c) ≡ false
      → contains key (keys c.entries) ≡ true
  find-present key c e = elim (Bool-cases (contains key (keys c.entries))) [
    | inl h ↦ h
    | inr h ↦
        let missing : find key c ≡ undefined = ap or_undefined (lookup-absent key c.entries h) in
        cc (sym (ap is_nullish missing) ∙ e)
  ]

  lookup-touch :
      (key j : String) (c : Cache A) → find j (Lru.put key (find key c) (Lru.drop key c)) ≡ find j c
  lookup-touch key j c = elim (str_dec j key) [
    | yes p ↦
        ap or_undefined (lookup-insert j key (find key c) (erase key c.entries))
        ∙ ap or_undefined
            (if_pos (str_dec j key) p (some (find key c)) (lookup j (erase key c.entries)))
        ∙ ap (λ k. find k c) (sym p)
    | no p ↦
        ap or_undefined (lookup-insert j key (find key c) (erase key c.entries))
        ∙ ap or_undefined
            (if_neg (str_dec j key) p (some (find key c)) (lookup j (erase key c.entries)))
        ∙ ap or_undefined (lookup-erase j key c.entries)
        ∙ ap or_undefined (if_neg (str_dec j key) p none (lookup j c.entries))
  ]

  get-Refines :
      (key : String) (c : Cache A) (m : Memory A)
      → Refines n c m
      → Refines n (Lru.get key c).0 (step n (Call.get key) m)
  unfolding step
  get-Refines key c m h =
      let same = ap is_nullish (h.same_held key) in
      elim (Bool-cases (is_nullish (m.held key))) [
        | inl e ↦ rw (get-nullish key c (same ∙ e), e) h
        | inr e ↦
            let found = same ∙ e in
            rw (get-found key c found, e)
              (record {
                valid = record {
                  bounded = omega (
                    arith,
                    length-touch_present key (find key c) c.entries (find-present key c found),
                    h.valid.bounded,
                  );
                  distinct = Distinct-touch key (find key c) c.entries h.valid.distinct;
                };
                same_limit = h.same_limit;
                same_order = rw (keys-touch, h.same_order) refl;
                same_held = λ j. lookup-touch key j c ∙ h.same_held j;
              })
      ]

  delete-Refines :
      (key : String) (c : Cache A) (m : Memory A)
      → Refines n c m
      → Refines n (Lru.delete key c) (step n (Call.delete key) m)
  unfolding step
  delete-Refines key c m h =
      let shape = delete-entries key c in
      record {
        valid = record {
          bounded = omega (
            arith,
            delete-limit key c,
            ap length shape,
            length-erase key c.entries,
            h.valid.bounded,
          );
          distinct =
              rw (shape, keys-erase) (Distinct-without key (keys c.entries) h.valid.distinct);
        };
        same_limit = delete-limit key c ∙ h.same_limit;
        same_order = rw (shape, keys-erase, h.same_order) refl;
        same_held = λ j. ground (arith, shape, lookup-erase j key c.entries, h.same_held j);
      }

module _ {ℓ} {A : Type ℓ} (same : A → A → Bool) (n : ℕ) where
  set-Refines :
      (key : String) (x : Slot A) (c : Cache A) (m : Memory A)
      → Refines n c m
      → Refines n (Lru.set same key x c) (step n (Call.set key x) m)
  unfolding step
  set-Refines key x c m h =
      let shape = set-entries same key x c h.valid in
      let limit = set-limit same key x c in
      let order : keys (newest c.limit (insert key x (erase key c.entries)))
          ≡ newest n (without key m.order ++ key ∷ []) =
        rw (keys-newest, keys-touch, h.same_limit, h.same_order) refl in
      record {
        valid = record {
          bounded = rw (shape, limit) (length-newest c.limit _);
          distinct =
              rw (shape, keys-newest)
                (Distinct-newest c.limit _ (Distinct-touch key x c.entries h.valid.distinct));
        };
        same_limit = limit ∙ h.same_limit;
        same_order = rw shape order;
        same_held = λ j. ground (
          arith,
          shape,
          lookup-newest j c.limit _ (Distinct-touch key x c.entries h.valid.distinct),
          keys-newest c.limit (insert key x (erase key c.entries)),
          order,
          lookup-insert j key x (erase key c.entries),
          lookup-erase j key c.entries,
          h.same_held j,
        );
      }

  pub perform-Refines :
      (call : Call A) (c : Cache A) (m : Memory A)
      → Refines n c m
      → Refines n (perform same call c) (step n call m)
  unfolding perform
  perform-Refines (Call.set key x) c m h = set-Refines key x c m h
  perform-Refines (Call.get key) c m h = get-Refines n key c m h
  perform-Refines (Call.delete key) c m h = delete-Refines n key c m h
  perform-Refines Call.clear c m h =
      unfold step Lru.clear in
      record {
        valid = record { bounded = omega arith; distinct = tt };
        same_limit = h.same_limit;
        same_order = refl;
        same_held = λ j. unfold lookup in refl;
      }

  perform_all-Refines :
      (calls : List (Call A)) (c : Cache A) (m : Memory A)
      → Refines n c m
      → Refines n (perform_all same calls c) (step_all n calls m)
  unfolding perform_all step_all
  perform_all-Refines [] c m h = h
  perform_all-Refines (call ∷ calls) c m h =
      perform_all-Refines calls (perform same call c) (step n call m) (perform-Refines call c m h)

pub create-Refines {ℓ} : {A : Type ℓ} (n : ℕ) → Refines {A = A} n (create n) blank
create-Refines n = record {
  valid = record { bounded = omega arith; distinct = tt };
  same_limit = refl;
  same_order = refl;
  same_held = λ j. unfold lookup in refl;
}

-- Whatever calls of set, get, delete and clear are made on a new cache, with whatever values, `undefined`
-- and `null` included, it holds no more entries than its capacity and one entry for a key. What it
-- holds, and the order of use, are those of a map that forgets all but the newest keys, and for which a
-- read makes the key the newest if its value is neither `undefined` nor `null`.
pub perform_all-create {ℓ} :
    {A : Type ℓ} (same : A → A → Bool) (n : ℕ) (calls : List (Call A))
    → Refines n (perform_all same calls (create n)) (step_all n calls blank)
perform_all-create same n calls =
    perform_all-Refines same n calls (create n) blank (create-Refines n)

-- `value ?? null`
abbrev pub or_null {ℓ} : {A : Type ℓ} → Slot A → Slot A
or_null undefined = null
or_null x = x

get-held {ℓ} :
    {A : Type ℓ} (n : ℕ) (key : String) (c : Cache A) (m : Memory A)
    → Refines n c m
    → (Lru.get key c).1 ≡ or_null (m.held key)
unfolding Lru.get
get-held n key c m h = go (find key c) refl
  where
    go : (x : Slot _) → find key c ≡ x → (Lru.get key c).1 ≡ or_null (m.held key)
    go undefined e = rw e (ap or_null (sym e ∙ h.same_held key))
    go null e = rw e (ap or_null (sym e ∙ h.same_held key))
    go (value a) e = rw e (ap or_null (sym e ∙ h.same_held key))

lookup-keys {ℓ} :
    {A : Type ℓ} (key : String) (d : Dict A)
    → elim (lookup key d) [ none ↦ false | some x ↦ true ] ≡ contains key (keys d)
unfolding lookup
lookup-keys key [] = refl
lookup-keys key ((k, x) ∷ d) = ground (arith, lookup-keys key d)

has-keys {ℓ} :
    {A : Type ℓ} (key : String) (c : Cache A) → Lru.has key c ≡ contains key (keys c.entries)
unfolding Lru.has
has-keys key c = lookup-keys key c.entries

-- Take any calls of set, get, delete and clear on a new cache, and a map that forgets all but the newest
-- keys, as many as the capacity, and for which a read of a value that is neither `undefined` nor `null`
-- makes the key the newest. After the calls `get` returns what the map holds for a key, with `null` for
-- `undefined` and for a key that it does not remember, and `has` says whether it remembers the key.
pub get-perform_all {ℓ} :
    {A : Type ℓ} (same : A → A → Bool) (n : ℕ) (calls : List (Call A)) (key : String)
    → ((Lru.get key (perform_all same calls (create n))).1
        ≡ or_null ((step_all n calls blank).held key))
      × (Lru.has key (perform_all same calls (create n))
          ≡ contains key (step_all n calls blank).order)
get-perform_all same n calls key =
    let h = perform_all-create same n calls in
    (
      get-held n key _ _ h,
      has-keys key (perform_all same calls (create n)) ∙ ap (contains key) h.same_order,
    )
