-- ===== src/Subscriptions/Apart.antt =====
-- The map of fields of one id in the index of packages/houdini/src/runtime/cache/subscription.ts, where no
-- other id shares it.
use houdini.EntityMap.{EntityMap, IsValid, address, get_field, write, drop_field, drop_record}
use houdini.EntityMap.Laws.{address-write, address-drop_record, get_field-write_other}
use houdini.EntityMap.Origins.{get_field-drop_field}
use houdini.EntityMap.Undone.{address_of_none, address-write_new}
use houdini.Prelude.{ℕ, ◌≡◌, ◌≢◌, some, String, arith, inl, inr, Option-cases}
use houdini.Subscriptions.{Subscribers}

-- No two ids have one map of fields.
pub record IsUnshared (m : EntityMap Subscribers) : Type 0 where
  pub one : (i j : String) (r : ℕ) → address i m ≡ some r → address j m ≡ some r → i ≡ j

pub write-IsUnshared :
    (id key : String) (v : Subscribers) (m : EntityMap Subscribers)
    → IsValid m
    → IsUnshared m
    → IsUnshared (write id key v m)
write-IsUnshared id key v m ok u = elim (Option-cases (address id m)) [
  | inl a ↦ record {
    one = λ i j r e e'. ground (
      arith,
      address-write_new i id key v m a,
      address-write_new j id key v m a,
      u.one i j r,
      ok.allocated i r,
      ok.allocated j r,
    );
  }
  | inr (q, a) ↦ record {
    one = λ i j r e e'.
        ground (arith, address-write i id key v m, address-write j id key v m, u.one i j r);
  }
]

pub drop_record-IsUnshared :
    (id : String) (m : EntityMap Subscribers) → IsUnshared m → IsUnshared (drop_record id m)
drop_record-IsUnshared id m u = record {
  one = λ i j r e e'.
      ground (arith, address-drop_record i id m, address-drop_record j id m, u.one i j r);
}

pub drop_field-IsUnshared :
    (id key : String) (m : EntityMap Subscribers) → IsUnshared m → IsUnshared (drop_field id key m)
unfolding drop_field address
drop_field-IsUnshared id key m u = elim (Option-cases (address id m)) [
  | inl a ↦ rw (a, drop_field) (record { one = u.one })
  | inr (q, a) ↦ rw (a, drop_field) (record { one = u.one })
]

pub get_field-drop_field_other :
    (j g id key : String) (m : EntityMap Subscribers)
    → IsUnshared m
    → j ≢ id
    → get_field j g (drop_field id key m) ≡ get_field j g m
unfolding drop_field
get_field-drop_field_other j g id key m u other = elim (Option-cases (address id m)) [
  | inl a ↦ ground arith
  | inr (r, a) ↦ elim (Option-cases (address j m)) [
    | inl b ↦ ground (arith, get_field-drop_field j id g key m r a, address_of_none j g m b)
    | inr (q, b) ↦ ground (arith, get_field-drop_field j id g key m r a, u.one j id r)
  ]
]

pub get_field-drop_field_beside :
    (g id key : String) (m : EntityMap Subscribers)
    → g ≢ key
    → get_field id g (drop_field id key m) ≡ get_field id g m
unfolding drop_field
get_field-drop_field_beside g id key m other = elim (Option-cases (address id m)) [
  | inl a ↦ ground arith
  | inr (r, a) ↦ ground (arith, get_field-drop_field id id g key m r a)
]

pub get_field-write_apart :
    (j g id key : String) (v : Subscribers) (m : EntityMap Subscribers)
    → IsValid m
    → IsUnshared m
    → j ≢ id
    → get_field j g (write id key v m) ≡ get_field j g m
get_field-write_apart j g id key v m ok u other =
    get_field-write_other j id g key v m ok other (λ s. other (u.one j id s.0 s.1 s.2))
