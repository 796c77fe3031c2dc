-- ===== src/Reading/Verdicts.antt =====
-- What a read by `getSelection` (packages/houdini/src/runtime/cache/index.ts) says of its data, through the
-- parts of a field.
use houdini.Outputs.{Output, is_null, to_output, leaf, elements, object, references, with_id}
use houdini.Lists.{opaque_list_id}
use houdini.Prelude.{
  ◌≡◌, refl, sym, ◌∙◌, ap, inl, inr, Bool-cases, Bool, false, not, ◌&&◌, ◌||◌, Option, none, some,
  String, Dict,
}
use houdini.Reading.Nested.{Hydrated, hydrate, hydrate_entry, hydrate_record, new_list, is_none}
use houdini.Reading.{Request, Outcome, Progress, Part, is_undefined, tagged, settle_field, finish}
use houdini.Reading.Walk.{linked_part, object_part, is_empty}
use houdini.Selections.{Field, ListInfo}
use houdini.Storage.{Storage}
use houdini.Values.{Value, Items}

-- What a read says of its data, the data left out, and whether the data is null.
pub record Verdict : Type 0 where
  pub storage : Storage
  pub partial : Bool
  pub stale : Bool
  pub has_data : Bool
  pub is_nothing : Bool

abbrev pub verdict : Outcome → Verdict
verdict o = record {
  storage = o.storage;
  partial = o.partial;
  stale = o.stale;
  has_data = o.has_data;
  is_nothing = is_none o.output;
}

abbrev pub of_progress : Progress → Verdict
of_progress p = record {
  storage = p.storage;
  partial = p.partial;
  stale = p.stale;
  has_data = p.has_data;
  is_nothing = p.cascade_null;
}

abbrev of_hydrated : Hydrated → Verdict
of_hydrated h = record {
  storage = h.storage;
  partial = h.partial;
  stale = h.stale;
  has_data = h.has_data;
  is_nothing = h.cascade_null;
}

-- Of a part, the null of its output counts, too.
abbrev pub of_part : Part → Verdict × Bool
of_part a = (
  record {
    storage = a.storage;
    partial = a.partial;
    stale = a.stale;
    has_data = a.has_data;
    is_nothing = a.cascade_null;
  },
  is_null a.output,
)

is_null-with_id : (id : String) (output : Output) → is_null (with_id id output) ≡ is_null output
unfolding with_id
is_null-with_id id (leaf value) = refl
is_null-with_id id (elements key xs) = refl
is_null-with_id id (object fields) = refl
is_null-with_id id (references parent variables) = refl

is_null-tagged :
    (parent : String) (info : Option ListInfo) (output : Output)
    → is_null (tagged parent info output) ≡ is_null output
is_null-tagged parent none output = refl
is_null-tagged parent (some info) output = elim (Bool-cases info.include_list_id) [
  | inl e ↦ rw e (is_null-with_id (opaque_list_id parent info.name) output)
  | inr e ↦ rw e refl
]

is_null-to_output : (output : Option (Dict Output)) → is_null (to_output output) ≡ is_none output
is_null-to_output none = refl
is_null-to_output (some fields) = refl

-- The end of a read, on verdicts.
pub finished : Verdict → Verdict
finished v = record v { partial = v.has_data && v.partial; stale = v.has_data && v.stale }

pub verdict-finish : (p : Progress) → verdict (finish p) ≡ finished (of_progress p)
unfolding finish finished
verdict-finish p = elim (Bool-cases p.cascade_null) [ inl e ↦ rw e refl | inr e ↦ rw e refl ]

-- The end of the loop's body, on verdicts.
pub settled : Field → Bool → Value → Bool → Verdict × Bool → Verdict → Verdict
settled field cursor value is_stale (a, null) v = record {
  storage = a.storage;
  partial = v.partial || (is_undefined value && not cursor) || a.partial;
  stale = v.stale || is_stale || a.stale;
  has_data = v.has_data || a.has_data;
  is_nothing =
      v.is_nothing
      || a.is_nothing
      || ((null && not field.nullable && not cursor) && not field.abstract_has_required);
}

pub of_progress-settle_field :
    (request : Request) (parent name : String) (field : Field) (cursor : Bool) (value : Value)
    (is_stale : Bool) (a : Part) (p : Progress)
    → of_progress (settle_field request parent name field cursor value is_stale a p)
      ≡ settled field cursor value is_stale (of_part a) (of_progress p)
unfolding settle_field settled
of_progress-settle_field request parent name field cursor value is_stale a p =
    rw (is_null-tagged parent field.list a.output) refl

-- A record, in a list.
recorded : Bool → Verdict → Verdict → Verdict
recorded nullable o v = record {
  storage = o.storage;
  partial = v.partial || o.partial;
  stale = v.stale || o.stale;
  has_data = v.has_data || o.has_data;
  is_nothing = v.is_nothing || (o.is_nothing && not nullable);
}

-- The parts that a list and an object come to, on verdicts.
abbrev of_list : Items → Verdict → Verdict × Bool
of_list entries v = (record v { has_data = v.has_data || is_empty entries }, false)

abbrev of_link : Verdict → Verdict × Bool
of_link v = (record v { is_nothing = false }, v.is_nothing)

of_part-object_part : (o : Outcome) → of_part (object_part o) ≡ of_link (verdict o)
of_part-object_part o = rw (is_null-to_output o.output) refl

object_part_same :
    (o u : Outcome) → verdict o ≡ verdict u → of_part (object_part o) ≡ of_part (object_part u)
object_part_same o u h = of_part-object_part o ∙ ap of_link h ∙ sym (of_part-object_part u)

-- A list, in a list.
nested_in : Verdict → Verdict → Verdict
nested_in inner v = record v {
  storage = inner.storage;
  partial = v.partial || inner.partial;
  is_nothing = v.is_nothing || inner.is_nothing;
}

module _ (read other : Value → Storage → Outcome) (nullable : Bool)
    (same : (value : Value) (s : Storage) → verdict (read value s) ≡ verdict (other value s)) where
  hydrate_record_same :
      (entry : Value) (h k : Hydrated)
      → of_hydrated h ≡ of_hydrated k
      → of_hydrated (hydrate_record read nullable entry h)
        ≡ of_hydrated (hydrate_record other nullable entry k)
  unfolding hydrate_record recorded
  hydrate_record_same entry h k e =
      let at = ap (λ (v : Verdict). v.storage) e in
      ap (λ (o : Verdict). recorded nullable o (of_hydrated h))
        (same entry h.storage ∙ ap (λ (s : Storage). verdict (other entry s)) at)
      ∙ ap (recorded nullable (verdict (other entry k.storage))) e

  mutual
    unfolding hydrate nested_in

    hydrate_same :
        (entries : Items) (h k : Hydrated)
        → of_hydrated h ≡ of_hydrated k
        → of_hydrated (hydrate read nullable entries h)
          ≡ of_hydrated (hydrate other nullable entries k)
    hydrate_same Items.nil h k e = e
    hydrate_same (Items.cons entry entries) h k e =
        hydrate_same entries (hydrate_entry read nullable entry h)
          (hydrate_entry other nullable entry k) (hydrate_entry_same entry h k e)

    hydrate_entry_same :
        (entry : Value) (h k : Hydrated)
        → of_hydrated h ≡ of_hydrated k
        → of_hydrated (hydrate_entry read nullable entry h)
          ≡ of_hydrated (hydrate_entry other nullable entry k)
    hydrate_entry_same (Value.array entries) h k e =
        let at = ap (λ (v : Verdict). v.storage) e in
        let inner =
          hydrate_same entries (new_list h.storage) (new_list k.storage)
            (ap (λ (s : Storage). of_hydrated (new_list s)) at) in
        ap (λ (v : Verdict). nested_in v (of_hydrated h)) inner
        ∙ ap (nested_in (of_hydrated (hydrate other nullable entries (new_list k.storage)))) e
    hydrate_entry_same Value.null h k e = e
    hydrate_entry_same Value.undefined h k e = hydrate_record_same Value.undefined h k e
    hydrate_entry_same (Value.str t) h k e = hydrate_record_same (Value.str t) h k e
    hydrate_entry_same (Value.other b n) h k e = hydrate_record_same (Value.other b n) h k e
    hydrate_entry_same (Value.function n) h k e = hydrate_record_same (Value.function n) h k e

  pub linked_part_same :
      (field : Field) (value : Value) (s : Storage)
      → field.nullable ≡ nullable
      → of_part (linked_part read field value s) ≡ of_part (linked_part other field value s)
  unfolding linked_part
  linked_part_same field Value.undefined s e = refl
  linked_part_same field Value.null s e = refl
  linked_part_same field (Value.array entries) s e =
      rw e (ap (of_list entries) (hydrate_same entries (new_list s) (new_list s) refl))
  linked_part_same field (Value.str t) s e =
      object_part_same (read (Value.str t) s) (other (Value.str t) s) (same (Value.str t) s)
  linked_part_same field (Value.other b n) s e =
      object_part_same (read (Value.other b n) s) (other (Value.other b n) s)
        (same (Value.other b n) s)
  linked_part_same field (Value.function n) s e =
      object_part_same (read (Value.function n) s) (other (Value.function n) s)
        (same (Value.function n) s)
