-- ===== src/EntityMap/Laws.antt =====
-- Reads of an entity map after each operation.
use houdini.EntityMap
use houdini.EntityMap.{
  EntityMap, IsValid, Shared, address, get_field, assign, write, share, drop_record, drop_field,
}
use houdini.Prelude.{
  ℕ, ◌≡◌, ◌≢◌, none, some, [], ◌∷◌, String, arith, ite, ap, ◌∙◌, str_dec, if◌then◌else◌, ◌==◌, Dict,
  lookup, lookup-insert, lookup-erase, inl, inr, Option-cases,
}

module _ {A : Type 0} where
  pub address-assign :
      (j id : String) (d : Dict A) (m : EntityMap A)
      → address j (assign id d m) ≡ ite (str_dec j id) (some m.heap.next) (address j m)
  unfolding address assign
  address-assign j id d m = ground (arith, lookup-insert j id (some m.heap.next) m.table)

  pub address-write :
      (j id field : String) (v : A) (m : EntityMap A)
      → address id m ≢ none
      → address j (write id field v m) ≡ address j m
  unfolding address write
  address-write j id field v m h = ground arith

  pub address-share :
      (j from to : String) (m : EntityMap A)
      → address j (share from to m) ≡ ite (str_dec j to) (address from m) (address j m)
  unfolding address share
  address-share j from to m = ground (arith, lookup-insert j to (address from m) m.table)

  pub address-drop_record :
      (j id : String) (m : EntityMap A)
      → address j (drop_record id m) ≡ ite (str_dec j id) none (address j m)
  unfolding address drop_record
  address-drop_record j id m = ground (arith, lookup-erase j id m.table)

  pub get_field-assign :
      (j id g : String) (d : Dict A) (m : EntityMap A)
      → IsValid m
      → get_field j g (assign id d m) ≡ ite (str_dec j id) (lookup g d) (get_field j g m)
  unfolding get_field assign
  get_field-assign j id g d m ok = elim (str_dec j id) [
    | yes p ↦ ground (arith, address-assign j id d m)
    | no p ↦ elim (Option-cases (address j m)) [
      | inl e ↦ ground (arith, address-assign j id d m)
      | inr (r, e) ↦ ground (arith, address-assign j id d m, ok.allocated j r e)
    ]
  ]

  get_field_of_none : (j g : String) (m : EntityMap A) → address j m ≡ none → get_field j g m ≡ none
  unfolding get_field
  get_field_of_none j g m e = ground arith

  -- A write is seen under the id that it goes to, and under every id that shares the record.
  pub get_field-write :
      (j id g field : String) (v : A) (m : EntityMap A) (r : ℕ)
      → address id m ≡ some r
      → get_field j g (write id field v m) ≡ elim (address j m) [
        | none ↦ none
        | some q ↦
            if q == r then ite (str_dec g field) (some v) (get_field j g m) else get_field j g m
      ]
  unfolding get_field write
  get_field-write j id g field v m r e =
      ground (arith, address-write j id field v m, lookup-insert g field v (m.heap.cell r))

  -- Where the id has no record, the write starts one, and no other id sees it.
  pub get_field-write_new :
      (j id g field : String) (v : A) (m : EntityMap A)
      → IsValid m
      → address id m ≡ none
      → get_field j g (write id field v m)
        ≡ ite (str_dec j id) (ite (str_dec g field) (some v) none) (get_field j g m)
  unfolding write lookup
  get_field-write_new j id g field v m ok e =
      rw (e, write) (get_field-assign j id g ((field, v) ∷ []) m ok)

  pub get_field-assign_self :
      (id g : String) (d : Dict A) (m : EntityMap A) → get_field id g (assign id d m) ≡ lookup g d
  unfolding get_field assign
  get_field-assign_self id g d m = ground (arith, address-assign id id d m)

  -- Under the id itself a write changes that field alone.
  pub get_field-write_self :
      (id g field : String) (v : A) (m : EntityMap A)
      → get_field id g (write id field v m) ≡ ite (str_dec g field) (some v) (get_field id g m)
  unfolding get_field write assign lookup
  get_field-write_self id g field v m = elim (Option-cases (address id m)) [
    | inl e ↦ ground (arith, address-assign id id ((field, v) ∷ []) m)
    | inr (r, e) ↦ ground (arith, get_field-write id id g field v m r e)
  ]

  -- No id but the one written to, and those that share its record, sees a write.
  pub get_field-write_other :
      (j id g field : String) (v : A) (m : EntityMap A)
      → IsValid m
      → j ≢ id
      → ¬ (Shared j id m)
      → get_field j g (write id field v m) ≡ get_field j g m
  get_field-write_other j id g field v m ok other apart = elim (Option-cases (address id m)) [
    | inl e ↦ ground (arith, get_field-write_new j id g field v m ok e)
    | inr (r, e) ↦ elim (Option-cases (address j m)) [
      | inl e' ↦ ground (arith, get_field-write j id g field v m r e, get_field_of_none j g m e')
      | inr (q, e') ↦
          ground (
            arith,
            get_field-write j id g field v m r e,
            λ (p : q ≡ r). apart (r, e' ∙ ap some p, e),
          )
    ]
  ]

  pub empty-IsValid : IsValid (EntityMap.empty {A = A})
  unfolding address lookup
  empty-IsValid = record { allocated = λ id r e. ground arith }

  pub assign-IsValid :
      (id : String) (d : Dict A) (m : EntityMap A) → IsValid m → IsValid (assign id d m)
  unfolding assign
  assign-IsValid id d m ok = record {
    allocated = λ j r e. ground (arith, address-assign j id d m, ok.allocated j r);
  }

  pub write-IsValid :
      (id field : String) (v : A) (m : EntityMap A) → IsValid m → IsValid (write id field v m)
  unfolding write
  write-IsValid id field v m ok = elim (Option-cases (address id m)) [
    | inl e ↦ rw (e, write) (assign-IsValid id ((field, v) ∷ []) m ok)
    | inr (q, e) ↦ record {
      allocated = λ j r e'. ground (arith, address-write j id field v m, ok.allocated j r);
    }
  ]

  pub share-IsValid : (from to : String) (m : EntityMap A) → IsValid m → IsValid (share from to m)
  unfolding share
  share-IsValid from to m ok = record {
    allocated =
        λ j r e. ground (arith, address-share j from to m, ok.allocated j r, ok.allocated from r);
  }

  pub drop_record-IsValid : (id : String) (m : EntityMap A) → IsValid m → IsValid (drop_record id m)
  unfolding drop_record
  drop_record-IsValid id m ok = record {
    allocated = λ j r e. ground (arith, address-drop_record j id m, ok.allocated j r);
  }

  pub get_field-share :
      (j g from to : String) (m : EntityMap A)
      → get_field j g (share from to m) ≡ ite (str_dec j to) (get_field from g m) (get_field j g m)
  unfolding get_field share
  get_field-share j g from to m = ground (arith, address-share j from to m)

  pub get_field-drop_record :
      (j g id : String) (m : EntityMap A)
      → get_field j g (drop_record id m) ≡ ite (str_dec j id) none (get_field j g m)
  unfolding get_field drop_record
  get_field-drop_record j g id m = ground (arith, address-drop_record j id m)

  -- A write through one of two ids that share a record is read through the other.
  pub get_field-write-Shared :
      (i j field : String) (v : A) (m : EntityMap A)
      → Shared i j m
      → get_field i field (write j field v m) ≡ some v
  get_field-write-Shared i j field v m (r, ei, ej) =
      ground (arith, get_field-write i j field field v m r ej)

  pub share-Shared :
      (from to : String) (m : EntityMap A) (r : ℕ)
      → address from m ≡ some r
      → Shared from to (share from to m)
  share-Shared from to m r e =
      (r, ground (arith, address-share from from to m), ground (arith, address-share to from to m))

  pub drop_field-IsValid :
      (id field : String) (m : EntityMap A) → IsValid m → IsValid (drop_field id field m)
  unfolding drop_field address
  drop_field-IsValid id field m ok = elim (Option-cases (address id m)) [
    | inl e ↦ rw (e, drop_field) ok
    | inr (q, e) ↦ rw (e, drop_field) (record { allocated = λ j r a. ok.allocated j r a })
  ]
