-- ===== src/Reading/Nested.antt =====
-- `hydrateNestedList` of packages/houdini/src/runtime/cache/index.ts.
use houdini.Prelude.{
  ◌≡◌, refl, Bool, true, false, not, ◌||◌, ◌&&◌, Option, none, some, List, [], ◌∷◌, ◌++◌, Dict,
}
use houdini.Outputs.{Output, of_outputs, to_output, null_output}
use houdini.Reading.{Outcome}
use houdini.Storage.{Storage}
use houdini.Values.{Value, Items}

pub record Hydrated : Type 0 where
  pub storage : Storage
  pub output : List Output
  pub partial : Bool
  pub stale : Bool
  pub has_data : Bool
  pub cascade_null : Bool

abbrev pub new_list : Storage → Hydrated
new_list s = record {
  storage = s;
  output = [];
  partial = false;
  stale = false;
  has_data = false;
  cascade_null = false;
}

abbrev pub is_none : Option (Dict Output) → Bool
is_none none = true
is_none (some fields) = false

-- The elements are lists.
abbrev pub AllLists : Items → Type 0
AllLists Items.nil = Unit
AllLists (Items.cons (Value.array xs) entries) = AllLists entries
AllLists (Items.cons entry entries) = ⊥

-- `read` is `getSelection` for an entry that is a link.
module _ (read : Value → Storage → Outcome) (nullable : Bool) where
  -- An entry that is a link.
  unfoldable pub hydrate_record : Value → Hydrated → Hydrated
  hydrate_record entry result =
      let outcome = read entry result.storage in
      record {
        storage = outcome.storage;
        output = result.output ++ to_output outcome.output ∷ [];
        partial = result.partial || outcome.partial;
        stale = result.stale || outcome.stale;
        has_data = result.has_data || outcome.has_data;
        cascade_null = result.cascade_null || (is_none outcome.output && not nullable);
      }

  unfoldable mutual
    unfolding hydrate_record

    pub hydrate : Items → Hydrated → Hydrated
    hydrate Items.nil result = result
    hydrate (Items.cons entry entries) result = hydrate entries (hydrate_entry entry result)

    -- Of a list in the list, `stale` and `hasData` are not looked at.
    pub hydrate_entry : Value → Hydrated → Hydrated
    hydrate_entry (Value.array entries) result =
        let nested = hydrate entries (new_list result.storage) in
        record result {
          storage = nested.storage;
          output = result.output ++ Output.elements none (of_outputs nested.output) ∷ [];
          partial = result.partial || nested.partial;
          cascade_null = result.cascade_null || nested.cascade_null;
        }
    hydrate_entry Value.null result = record result { output = result.output ++ null_output ∷ [] }
    hydrate_entry entry result = hydrate_record entry result

  hydrate-AllLists_from :
      (entries : Items) (result : Hydrated)
      → AllLists entries
      → ((hydrate entries result).stale ≡ result.stale)
        × ((hydrate entries result).has_data ≡ result.has_data)
  unfolding hydrate
  hydrate-AllLists_from Items.nil result h = (refl, refl)
  hydrate-AllLists_from (Items.cons (Value.array xs) entries) result h =
      hydrate-AllLists_from entries (hydrate_entry (Value.array xs) result) h
  hydrate-AllLists_from (Items.cons Value.null entries) result h = absurd h
  hydrate-AllLists_from (Items.cons Value.undefined entries) result h = absurd h
  hydrate-AllLists_from (Items.cons (Value.str t) entries) result h = absurd h
  hydrate-AllLists_from (Items.cons (Value.other b n) entries) result h = absurd h
  hydrate-AllLists_from (Items.cons (Value.function n) entries) result h = absurd h

  -- A list of lists is read as one that has no data and is not stale, whatever records are in the inner
  -- lists, at whatever depth, and whatever their reads find.
  pub hydrate-AllLists :
      (entries : Items) (s : Storage)
      → AllLists entries
      → ((hydrate entries (new_list s)).stale ≡ false)
        × ((hydrate entries (new_list s)).has_data ≡ false)
  hydrate-AllLists entries s h = hydrate-AllLists_from entries (new_list s) h
