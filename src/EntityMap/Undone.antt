-- ===== src/EntityMap/Undone.antt =====
-- A write that is taken back.
use houdini.EntityMap.{EntityMap, IsValid, address, get_field, write, drop_field}
use houdini.EntityMap.Laws.{address-assign, address-write, get_field-write, get_field-write_new}
use houdini.EntityMap.Origins.{get_field-drop_field}
use houdini.Prelude.{
  ℕ, ◌≡◌, true, none, some, [], ◌∷◌, String, arith, ite, ◌∙◌, str_dec, ◌==◌, inl, inr, Option-cases,
}

module _ {A : Type 0} where
  -- Two ids with one address have the same fields.
  get_field_same :
      (j id g : String) (q r : ℕ) (m : EntityMap A)
      → address id m ≡ some r
      → address j m ≡ some q
      → (q == r) ≡ true
      → get_field j g m ≡ get_field id g m
  unfolding get_field
  get_field_same j id g q r m a b e = ground arith

  pub address-write_new :
      (j id key : String) (v : A) (m : EntityMap A)
      → address id m ≡ none
      → address j (write id key v m) ≡ ite (str_dec j id) (some m.heap.next) (address j m)
  unfolding write
  address-write_new j id key v m a = ground (arith, address-assign j id ((key, v) ∷ []) m)

  pub address_of_none :
      (id g : String) (m : EntityMap A) → address id m ≡ none → get_field id g m ≡ none
  unfolding get_field
  address_of_none id g m a = ground arith

  address-write_same :
      (j id key : String) (v : A) (m : EntityMap A) (r : ℕ)
      → address id m ≡ some r
      → address j (write id key v m) ≡ address j m
  address-write_same j id key v m r a = address-write j id key v m (ground arith)

  -- A field that is written and written back.
  pub get_field-write-write :
      (j id g key : String) (v w : A) (m : EntityMap A)
      → get_field id key m ≡ some w
      → get_field j g (write id key w (write id key v m)) ≡ get_field j g m
  get_field-write-write j id g key v w m h = elim (Option-cases (address id m)) [
    | inl a ↦ ground (arith, address_of_none id key m a)
    | inr (r, a) ↦
        let m' : EntityMap A = write id key v m in
        let a' : address id m' ≡ some r = address-write_same id id key v m r a ∙ a in
        elim (Option-cases (address j m)) [
          | inl b ↦
              let b' : address j m' ≡ none = address-write_same j id key v m r a ∙ b in
              ground (arith, get_field-write j id g key w m' r a', address_of_none j g m b)
          | inr (q, b) ↦
              let b' : address j m' ≡ some q = address-write_same j id key v m r a ∙ b in
              ground (
                arith,
                get_field-write j id g key w m' r a',
                get_field-write j id g key v m r a,
                get_field_same j id g q r m a b,
              )
        ]
  ]

  -- A field that is written where there was none, and deleted.
  pub get_field-drop_field-write :
      (j id g key : String) (v : A) (m : EntityMap A)
      → IsValid m
      → get_field id key m ≡ none
      → get_field j g (drop_field id key (write id key v m)) ≡ get_field j g m
  get_field-drop_field-write j id g key v m ok h =
      let m' : EntityMap A = write id key v m in
      elim (Option-cases (address id m)) [
        | inl a ↦
            let a' : address id m' ≡ some m.heap.next =
              ground (arith, address-write_new id id key v m a) in
            elim (str_dec j id) [
              | yes p ↦ ground (
                arith,
                get_field-drop_field j id g key m' m.heap.next a',
                get_field-write_new j id g key v m ok a,
                address_of_none id g m a,
              )
              | no p ↦ elim (Option-cases (address j m)) [
                | inl b ↦ ground (
                  arith,
                  get_field-drop_field j id g key m' m.heap.next a',
                  address-write_new j id key v m a,
                  address_of_none j g m b,
                )
                | inr (q, b) ↦ ground (
                  arith,
                  get_field-drop_field j id g key m' m.heap.next a',
                  address-write_new j id key v m a,
                  get_field-write_new j id g key v m ok a,
                  ok.allocated j q b,
                )
              ]
            ]
        | inr (r, a) ↦
            let a' : address id m' ≡ some r = address-write_same id id key v m r a ∙ a in
            elim (Option-cases (address j m)) [
              | inl b ↦
                  let b' : address j m' ≡ none = address-write_same j id key v m r a ∙ b in
                  ground (arith, get_field-drop_field j id g key m' r a', address_of_none j g m b)
              | inr (q, b) ↦
                  let b' : address j m' ≡ some q = address-write_same j id key v m r a ∙ b in
                  ground (
                    arith,
                    get_field-drop_field j id g key m' r a',
                    get_field-write j id g key v m r a,
                    get_field_same j id g q r m a b,
                  )
            ]
      ]
