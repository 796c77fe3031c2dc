-- ===== src/Internal/Steps.antt =====
-- One step of a walk, on the references of one callback to one field of a record.
use Prim.Native.Char.{Char}
use houdini.Internal.{
  CacheInternal, each, typename_of, value_of, subscribe_field, register_field, inner_fields,
  is_masked, or_text,
}
use houdini.Internal.Adding.{add_field}
use houdini.Internal.Removing.{remove_field}
use houdini.Internal.Tallies.{sum}
use houdini.Internal.World.{IsSame, typename_of-IsSame, register_field-IsSame}
use houdini.Json.{Json}
use houdini.Prelude.{ℕ, ◌+◌, ◌-◌, ◌≡◌, ap, ◌∙◌, Bool, Option, List, [], ◌∷◌, String, arith}
use houdini.Selections.{Selection, Field, Variables, key_of}
use houdini.Subscriptions.{Spec, FieldSelection}
use houdini.Subscriptions.Calls.{IsSound, add-IsSound, remove-IsSound}
use houdini.Subscriptions.Index.{references_at}
use houdini.Subscriptions.Unshared.{
  hits, references_at-add-hits, references_at-remove-hits, add-IsUnshared, remove-IsUnshared,
}
use houdini.Subscriptions.Apart.{IsUnshared}

-- The store is as it was at the start, the index is in order, and the callback has `n` references.
pub record Holds (start : CacheInternal) (who j g : String) (n : ℕ) (c : CacheInternal)
    : Type 0 where
  pub same : IsSame start c
  pub sound : IsSound c.subscriptions.subscribers
  pub unshared : IsUnshared c.subscriptions.subscribers
  pub count : references_at who j g c.subscriptions ≡ n

module _ (start : CacheInternal) (who j g : String) where
  pub Holds-equal :
      (m n : ℕ) (c : CacheInternal) → m ≡ n → Holds start who j g m c → Holds start who j g n c
  Holds-equal m n c e h = record {
    same = h.same;
    sound = h.sound;
    unshared = h.unshared;
    count = h.count ∙ e;
  }

  pub typename_of-Holds :
      (id : String) (n : ℕ) (c : CacheInternal)
      → Holds start who j g n c
      → Holds start who j g n (typename_of id c).0
  unfolding typename_of
  typename_of-Holds id n c h = record {
    same = typename_of-IsSame id start c h.same;
    sound = h.sound;
    unshared = h.unshared;
    count = h.count;
  }

  subscribe_field-Holds :
      (id key : String) (s : FieldSelection) (masked : Bool) (n : ℕ) (c : CacheInternal)
      → Holds start who j g n c
      → Holds start who j g (n + hits who j g s.spec id key) (subscribe_field id key s masked c)
  unfolding subscribe_field value_of typename_of
  subscribe_field-Holds id key s masked n c h = record {
    same = record { values = h.same.values; types = h.same.types };
    sound = add-IsSound id key s masked c.subscriptions h.sound;
    unshared = add-IsUnshared id key s masked c.subscriptions h.sound h.unshared;
    count =
        references_at-add-hits who j g id key s masked c.subscriptions h.sound h.unshared
        ∙ ap (λ m. m + hits who j g s.spec id key) h.count;
  }

  register_field-Holds :
      (field : Field) (selection : Option Selection) (masked : Bool) (id key parent_type : String)
      (variables : Variables) (n : ℕ) (c : CacheInternal)
      → Holds start who j g n c
      → Holds start who j g n (register_field field selection masked id key parent_type variables c)
  register_field-Holds field selection masked id key parent_type variables n c h =
      let both =
        register_field-IsSame field selection masked id key parent_type variables start c h.same in
      record {
        same = both.0;
        sound = rw both.1 h.sound;
        unshared = rw both.1 h.unshared;
        count = rw both.1 h.count;
      }

  module _ (stringify : Json → List Char) (spec : Spec) (variables : Variables) where
    pub add_field-Holds :
        (field : Field) (selection : Option Selection) (typename : Option String) (parent : String)
        (parent_type : Option String) (masked : Bool) (n : ℕ) (c : CacheInternal)
        → Holds start who j g n c
        → Holds start who j g (n + hits who j g spec parent (key_of stringify field variables)) (
            add_field stringify spec variables field selection typename parent parent_type masked c)
    unfolding add_field
    add_field-Holds field selection typename parent parent_type masked n c h =
        let key = key_of stringify field variables in
        let hidden = is_masked masked field in
        let entry : FieldSelection = record {
          spec = spec;
          fields = inner_fields selection typename;
        } in
        register_field-Holds field selection hidden parent key (or_text parent_type spec.root_type)
          variables (n + hits who j g spec parent key) (subscribe_field parent key entry hidden c)
          (subscribe_field-Holds parent key entry hidden n c h)

    pub remove_field-Holds :
        (field : Field) (id : String) (masked : Bool) (n : ℕ) (c : CacheInternal)
        → Holds start who j g n c
        → Holds start who j g
            (n - hits who j g spec id (key_of stringify field variables))
            (remove_field stringify (spec ∷ []) variables field id masked c)
    unfolding remove_field value_of typename_of
    remove_field-Holds field id masked n c h =
        let key = key_of stringify field variables in
        let hidden = is_masked masked field in
        record {
          same = record { values = h.same.values; types = h.same.types };
          sound = remove-IsSound id key (spec ∷ []) hidden c.subscriptions h.sound;
          unshared = remove-IsUnshared id key (spec ∷ []) hidden c.subscriptions h.sound h.unshared;
          count =
              references_at-remove-hits who j g id key spec hidden c.subscriptions h.sound
                h.unshared
              ∙ ap (λ m. m - hits who j g spec id key) h.count;
        }

  pub each-Holds :
      (body : String → CacheInternal → CacheInternal) (f : String → ℕ) (ids : List String)
      → ((id : String) (n : ℕ) (c : CacheInternal)
          → Holds start who j g n c
          → Holds start who j g (n + f id) (body id c))
      → (n : ℕ) (c : CacheInternal) → Holds start who j g n c
      → Holds start who j g (n + sum f ids) (each body ids c)
  each-Holds body f [] step n c h = Holds-equal n (n + 0) c (omega arith) h
  each-Holds body f (id ∷ ids) step n c h =
      Holds-equal (n + f id + sum f ids) (n + (f id + sum f ids)) (each body ids (body id c))
        (omega arith) (each-Holds body f ids step (n + f id) (body id c) (step id n c h))
