-- ===== src/Reading/Settled.antt =====
-- What the end of the loop's body in `getSelection` (packages/houdini/src/runtime/cache/index.ts) does to the
-- object that it builds.
use houdini.Outputs.{Output, is_null, leaf}
use houdini.Prelude.{
  none, ◌≡◌, ◌≢◌, refl, ◌∙◌, Bool, true, false, not, ◌&&◌, some, [], ◌∷◌, ◌++◌, String, if_pos,
  if_neg, str_dec, arith, Dict, keys, lookup, insert, lookup-insert, contains, if◌then◌else◌,
}
use houdini.Reading.{Request, Progress, Part, is_shown, settle_field, tagged, dummy, is_missing}
use houdini.Selections.{Field}
use houdini.Values.{Value}

module _ {ℓ} {A : Type ℓ} where
  keys-insert_new :
      (k : String) (v : A) (d : Dict A)
      → contains k (keys d) ≡ false
      → keys (insert k v d) ≡ keys d ++ k ∷ []
  unfolding insert
  keys-insert_new k v [] h = refl
  keys-insert_new k v ((j, w) ∷ d) h = ground (arith, keys-insert_new k v d)

  lookup-insert_other :
      (k j : String) (v : A) (d : Dict A) → k ≢ j → lookup k (insert j v d) ≡ lookup k d
  lookup-insert_other k j v d h = lookup-insert k j v d ∙ if_neg (str_dec k j) h _ _

  keys-insert_old :
      (k : String) (v w : A) (d : Dict A) → keys (insert k w (insert k v d)) ≡ keys (insert k v d)
  unfolding insert
  keys-insert_old k v w [] = ground arith
  keys-insert_old k v w ((j, u) ∷ d) = ground (arith, keys-insert_old k v w d)

-- The two writes of one field: its value if it is shown, then the dummy.
abbrev writes : Bool → Bool → String → Output → Dict Output → Dict Output
writes again shown name output target =
    let written = if shown then insert name output target else target in
    if again then insert name dummy written else written

lookup-writes :
    (again shown : Bool) (k name : String) (output : Output) (target : Dict Output)
    → k ≢ name
    → lookup k (writes again shown name output target) ≡ lookup k target
lookup-writes true true k name output target h =
    lookup-insert_other k name dummy (insert name output target) h
    ∙ lookup-insert_other k name output target h
lookup-writes true false k name output target h = lookup-insert_other k name dummy target h
lookup-writes false true k name output target h = lookup-insert_other k name output target h
lookup-writes false false k name output target h = refl

lookup-writes_self :
    (again : Bool) (name : String) (output : Output) (target : Dict Output)
    → lookup name (writes again true name output target) ≡ some (if again then dummy else output)
lookup-writes_self true name output target = rw (lookup-insert, if_pos (str_dec name name) refl)
lookup-writes_self false name output target = rw (lookup-insert, if_pos (str_dec name name) refl)

keys-writes :
    (again : Bool) (name : String) (output : Output) (target : Dict Output)
    → contains name (keys target) ≡ false
    → keys (writes again true name output target) ≡ keys target ++ name ∷ []
keys-writes true name output target h =
    keys-insert_old name output dummy target ∙ keys-insert_new name output target h
keys-writes false name output target h = keys-insert_new name output target h

-- A value that does not make the whole null is no null, or the dummy stands in its place.
kept_value :
    (field : Field) (output : Output)
    → field.nullable ≡ false
    → (is_missing field false output && not field.abstract_has_required) ≡ false
    → is_null
        (if is_missing field false output && field.abstract_has_required then dummy else output)
      ≡ false
kept_value field output required h = ground arith

module _ (request : Request) (parent name : String) (field : Field) (cursor : Bool) (value : Value)
    (is_stale : Bool) (part : Part) (progress : Progress) where
  abbrev pub settled : Progress
  settled = settle_field request parent name field cursor value is_stale part progress

  abbrev pub output : Output
  output = tagged parent field.list part.output

  pub lookup-settle_field_other :
      (k : String) → k ≢ name → lookup k settled.target ≡ lookup k progress.target
  unfolding settle_field
  lookup-settle_field_other k h =
      lookup-writes (is_missing field cursor output && field.abstract_has_required)
        (is_shown request field) k name output progress.target h

  pub settle_field-cascade_null : settled.cascade_null ≡ false → progress.cascade_null ≡ false
  unfolding settle_field
  settle_field-cascade_null h = ground arith

  pub keys-settle_field :
      is_shown request field ≡ true
      → contains name (keys progress.target) ≡ false
      → keys settled.target ≡ keys progress.target ++ name ∷ []
  unfolding settle_field
  keys-settle_field shown fresh = rw shown (
      keys-writes (is_missing field cursor output && field.abstract_has_required) name output
        progress.target fresh)

  pub lookup-settle_field :
      is_shown request field ≡ true
      → field.nullable ≡ false
      → cursor ≡ false
      → settled.cascade_null ≡ false
      → (o : Output) × (lookup name settled.target ≡ some o) × (is_null o ≡ false)
  unfolding settle_field
  lookup-settle_field shown required inner h =
      let again = is_missing field cursor output && field.abstract_has_required in
      (
        if again then dummy else output,
        rw shown (lookup-writes_self again name output progress.target),
        rw inner (kept_value field output required (ground arith)),
      )

  pub lookup-settle_field_plain :
      (plain : Value)
      → is_shown request field ≡ true
      → field.list ≡ none
      → is_null (leaf plain) ≡ false
      → part.output ≡ leaf plain
      → lookup name settled.target ≡ some (leaf plain)
  unfolding settle_field
  lookup-settle_field_plain plain shown no_list full e =
      rw (shown, no_list, e, full) (lookup-writes_self false name (leaf plain) progress.target)
