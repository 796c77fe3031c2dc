-- ===== src/EntityMap/Origins.antt =====
-- Where a value that is read after an operation comes from.
use houdini.EntityMap.{
  EntityMap, IsValid, address, get_field, assign, write, share, drop_record, drop_field,
}
use houdini.EntityMap.Laws.{
  get_field-assign, get_field-write, get_field-write_new, get_field-share, get_field-drop_record,
}
use houdini.Prelude.{
  ℕ, ◌≡◌, none, some, [], String, arith, ite, str_dec, if◌then◌else◌, ◌==◌, lookup, lookup-erase,
  ◌⊎◌, inl, inr, Option-cases,
}

module _ {A : Type 0} where
  -- A value after a write is the one that was written, or was there.
  pub write_origin :
      (j id g field : String) (v w : A) (m : EntityMap A)
      → IsValid m
      → get_field j g (write id field v m) ≡ some w
      → (w ≡ v) ⊎ (get_field j g m ≡ some w)
  write_origin j id g field v w m ok e = elim (Option-cases (address id m)) [
    | inl a ↦ ground (arith, get_field-write_new j id g field v m ok a)
    | inr (r, a) ↦ elim (Option-cases (address j m)) [
      | inl b ↦ ground (arith, get_field-write j id g field v m r a)
      | inr (q, b) ↦ ground (arith, get_field-write j id g field v m r a)
    ]
  ]

  pub get_field-drop_field :
      (j id g field : String) (m : EntityMap A) (r : ℕ)
      → address id m ≡ some r
      → get_field j g (drop_field id field m) ≡ elim (address j m) [
        | none ↦ none
        | some q ↦ if q == r then ite (str_dec g field) none (get_field j g m) else get_field j g m
      ]
  unfolding get_field drop_field address
  get_field-drop_field j id g field m r e = ground (arith, lookup-erase g field (m.heap.cell r))

  pub drop_field_origin :
      (j id g field : String) (w : A) (m : EntityMap A)
      → get_field j g (drop_field id field m) ≡ some w
      → get_field j g m ≡ some w
  unfolding drop_field
  drop_field_origin j id g field w m e = elim (Option-cases (address id m)) [
    | inl a ↦ ground arith
    | inr (r, a) ↦ elim (Option-cases (address j m)) [
      | inl b ↦ ground (arith, get_field-drop_field j id g field m r a)
      | inr (q, b) ↦ ground (arith, get_field-drop_field j id g field m r a)
    ]
  ]

  pub drop_record_origin :
      (j id g : String) (w : A) (m : EntityMap A)
      → get_field j g (drop_record id m) ≡ some w
      → get_field j g m ≡ some w
  drop_record_origin j id g w m e = ground (arith, get_field-drop_record j g id m)

  pub share_origin :
      (j g from to : String) (w : A) (m : EntityMap A)
      → get_field j g (share from to m) ≡ some w
      → (i : String) × (get_field i g m ≡ some w)
  share_origin j g from to w m e = elim (str_dec j to) [
    | yes p ↦ (from, ground (arith, get_field-share j g from to m))
    | no p ↦ (j, ground (arith, get_field-share j g from to m))
  ]

  pub assign_origin :
      (j id g : String) (w : A) (m : EntityMap A)
      → IsValid m
      → get_field j g (assign id [] m) ≡ some w
      → get_field j g m ≡ some w
  unfolding lookup
  assign_origin j id g w m ok e = ground (arith, get_field-assign j id g [] m ok)
