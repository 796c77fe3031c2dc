-- ===== src/Lists/Deleted.antt =====
-- `deleteField` of the class `ListManager`: what is left in the collections.
use houdini.Lists.{Handler, ListManager, collection, includes, delete_list_with_key}
use houdini.Lists.Deletion.{delete_handler, delete_handlers}
use houdini.Lists.Members.{
  IsSeparate, has, refill, forget, has-refill, has-forget, forget-IsSeparate, fields-forget,
  fewer-IsSeparate, collection-refill, includes-delete, members_lem, cell_of,
}
use houdini.Prelude.{
  ℕ, ◌≡◌, refl, ap, ◌∙◌, sym, true, false, none, some, List, [], ◌∷◌, map, String, ite, str_dec,
  contains, All, arith, inl, inr, Option-cases, Bool-cases,
}

includes-nil : (j : String) → includes j [] ≡ false
unfolding includes
includes-nil j = refl

refill-IsSeparate :
    (r : ℕ) (hs : List Handler) (m : ListManager) → IsSeparate m → IsSeparate (refill r hs m)
refill-IsSeparate r hs m s =
    fewer-IsSeparate m (refill r hs m) refl (λ n p q e. sym (collection-refill n p r hs m) ∙ e) s

-- The manager after the collection of a handler has others, or none.
abbrev settled : List Handler → Handler → ℕ → ListManager → ListManager
settled left h r m =
    let m' = refill r left m in elim left [ [] ↦ forget h.name h.record_id m' | _ ↦ m' ]

delete_handler_lem :
    (field : String) (h : Handler) (m : ListManager) (r : ℕ)
    → collection h.name h.record_id m ≡ some r
    → delete_handler field h m ≡ settled (delete_list_with_key field (m.collections.cell r)) h r m
unfolding delete_handler
delete_handler_lem field h m r e = rw (e, delete_handler) refl

delete_handler-none :
    (field : String) (h : Handler) (m : ListManager)
    → collection h.name h.record_id m ≡ none
    → delete_handler field h m ≡ m
unfolding delete_handler
delete_handler-none field h m e = rw (e, delete_handler) refl

has-settled :
    (j n p : String) (left : List Handler) (h : Handler) (r : ℕ) (m : ListManager)
    → IsSeparate m
    → collection h.name h.record_id m ≡ some r
    → has j n p (settled left h r m)
      ≡ ite
          (str_dec n h.name)
          (ite (str_dec p h.record_id) (includes j left) (has j n p m))
          (has j n p m)
has-settled j n p [] h r m separate e = ground (
  arith,
  has-forget j n p h.name h.record_id (refill r [] m),
  has-refill j n p h.name h.record_id r [] m separate e,
  includes-nil j,
)
has-settled j n p (x ∷ xs) h r m separate e =
    has-refill j n p h.name h.record_id r (x ∷ xs) m separate e

settled-IsSeparate :
    (left : List Handler) (h : Handler) (r : ℕ) (m : ListManager)
    → IsSeparate m
    → IsSeparate (settled left h r m)
settled-IsSeparate [] h r m separate =
    forget-IsSeparate h.name h.record_id (refill r [] m) (refill-IsSeparate r [] m separate)
settled-IsSeparate (x ∷ xs) h r m separate = refill-IsSeparate r (x ∷ xs) m separate

settled-fields :
    (left : List Handler) (h : Handler) (r : ℕ) (m : ListManager)
    → (settled left h r m).lists_by_field ≡ m.lists_by_field
settled-fields [] h r m = fields-forget h.name h.record_id (refill r [] m)
settled-fields (x ∷ xs) h r m = refl

-- In the collection of the handler the handlers for the key go, and the others stay.
has-delete_handler :
    (j n p field : String) (h : Handler) (m : ListManager)
    → IsSeparate m
    → has j n p (delete_handler field h m)
      ≡ ite
          (str_dec n h.name)
          (ite (str_dec p h.record_id) (ite (str_dec j field) false (has j n p m)) (has j n p m))
          (has j n p m)
has-delete_handler j n p field h m separate =
    elim (Option-cases (collection h.name h.record_id m)) [
      | inl e ↦
          let nobody : has j h.name h.record_id m ≡ false =
            ap (includes j) (members_lem h.name h.record_id m ∙ ap (λ o. cell_of o m) e)
            ∙ includes-nil j in
          ground (arith, delete_handler-none field h m e, nobody)
      | inr (r, e) ↦
          let there : has j h.name h.record_id m ≡ includes j (m.collections.cell r) =
            ap (includes j) (members_lem h.name h.record_id m ∙ ap (λ o. cell_of o m) e) in
          ground (
            arith,
            delete_handler_lem field h m r e,
            has-settled j n p (delete_list_with_key field (m.collections.cell r)) h r m separate e,
            includes-delete j field (m.collections.cell r),
            there,
          )
    ]

delete_handler-IsSeparate :
    (field : String) (h : Handler) (m : ListManager)
    → IsSeparate m
    → IsSeparate (delete_handler field h m)
delete_handler-IsSeparate field h m separate =
    elim (Option-cases (collection h.name h.record_id m)) [
      | inl e ↦ rw (delete_handler-none field h m e) separate
      | inr (r, e) ↦
          rw (delete_handler_lem field h m r e)
            (settled-IsSeparate (delete_list_with_key field (m.collections.cell r)) h r m separate)
    ]

delete_handler-fields :
    (field : String) (h : Handler) (m : ListManager)
    → (delete_handler field h m).lists_by_field ≡ m.lists_by_field
delete_handler-fields field h m = elim (Option-cases (collection h.name h.record_id m)) [
  | inl e ↦ rw (delete_handler-none field h m e) refl
  | inr (r, e) ↦
      rw (delete_handler_lem field h m r e)
        (settled-fields (delete_list_with_key field (m.collections.cell r)) h r m)
]

pub delete_handlers-IsSeparate :
    (field : String) (hs : List Handler) (m : ListManager)
    → IsSeparate m
    → IsSeparate (delete_handlers field hs m)
unfolding delete_handlers
delete_handlers-IsSeparate field [] m separate = separate
delete_handlers-IsSeparate field (h ∷ hs) m separate =
    delete_handlers-IsSeparate field hs (delete_handler field h m)
      (delete_handler-IsSeparate field h m separate)

pub delete_handlers-fields :
    (field : String) (hs : List Handler) (m : ListManager)
    → (delete_handlers field hs m).lists_by_field ≡ m.lists_by_field
unfolding delete_handlers
delete_handlers-fields field [] m = refl
delete_handlers-fields field (h ∷ hs) m =
    delete_handlers-fields field hs (delete_handler field h m) ∙ delete_handler-fields field h m

-- The loop takes no handler for another key and adds none.
pub has-delete_handlers :
    (j n p field : String) (hs : List Handler) (m : ListManager)
    → IsSeparate m
    → has j n p (delete_handlers field hs m) ≡ true
    → has j n p m ≡ true
unfolding delete_handlers
has-delete_handlers j n p field [] m separate e = e
has-delete_handlers j n p field (h ∷ hs) m separate e =
    let before =
      has-delete_handlers j n p field hs (delete_handler field h m)
        (delete_handler-IsSeparate field h m separate) e in
    ground (arith, before, has-delete_handler j n p field h m separate)

-- Every collection of a parent whose name is among those of the handlers loses the key.
pub has-delete_handlers_named :
    (n p field : String) (hs : List Handler) (m : ListManager)
    → IsSeparate m
    → All (λ h. h.record_id ≡ p) hs
    → contains n (map (λ h. h.name) hs) ≡ true
    → has field n p (delete_handlers field hs m) ≡ false
unfolding delete_handlers
has-delete_handlers_named n p field [] m separate recorded c = cc c
has-delete_handlers_named n p field (h ∷ hs) m separate (at, recorded) c =
    let m' = delete_handler field h m in
    let separate' = delete_handler-IsSeparate field h m separate in
    elim (str_dec n h.name) [
      | yes q ↦ elim (Bool-cases (has field n p (delete_handlers field hs m'))) [
        | inr e ↦ e
        | inl e ↦
            let still = has-delete_handlers field n p field hs m' separate' e in
            ground (arith, still, has-delete_handler field n p field h m separate, at)
      ]
      | no q ↦ has-delete_handlers_named n p field hs m' separate' recorded (ground (arith, c))
    ]

-- Under other parents, and for other keys, everything stays.
pub has-delete_handlers_other :
    (j n q p field : String) (hs : List Handler) (m : ListManager)
    → IsSeparate m
    → All (λ h. h.record_id ≡ p) hs
    → ite (str_dec q p) (ite (str_dec j field) false true) true ≡ true
    → has j n q (delete_handlers field hs m) ≡ has j n q m
unfolding delete_handlers
has-delete_handlers_other j n q p field [] m separate recorded other = refl
has-delete_handlers_other j n q p field (h ∷ hs) m separate (at, recorded) other =
    let later =
      has-delete_handlers_other j n q p field hs (delete_handler field h m)
        (delete_handler-IsSeparate field h m separate) recorded other in
    ground (arith, later, has-delete_handler j n q field h m separate, at, other)
