-- ===== src/Lists/Conditions.antt =====
-- `validateWhen` of the class `List`, and `when` of `ListCollection`.
use houdini.Json.{Json, Entries, find, deep_equals}
use houdini.Lists.{ListWhen, Handler}
use houdini.Prelude.{
  ◌≡◌, refl, ◌↔◌, Bool, true, false, not, ◌&&◌, Option, none, some, List, String, select, inl, inr,
  Bool-cases,
}
use houdini.Selections.{or_undefined}

-- The `reduce` over `must`
unfoldable pub all_equal : Entries → Entries → Bool → Bool
unfolding find deep_equals
all_equal targets Entries.nil prev = prev
all_equal targets (Entries.cons key value entries) prev =
    all_equal targets entries (prev && deep_equals (or_undefined (find key targets)) value)

-- The `reduce` over `must_not`
unfoldable pub none_equal : Entries → Entries → Bool → Bool
unfolding find deep_equals
none_equal targets Entries.nil prev = prev
none_equal targets (Entries.cons key value entries) prev =
    none_equal targets entries (prev && not (deep_equals (or_undefined (find key targets)) value))

abbrev pub first_given : Option ListWhen → Option ListWhen → Option ListWhen
first_given none other = other
first_given (some when) other = some when

unfoldable pub check_must : Option Entries → Option Entries → Bool
unfolding all_equal
check_must (some must) (some targets) = all_equal targets must true
check_must none targets = true
check_must (some must) none = true

unfoldable pub check_must_not : Option Entries → Option Entries → Bool → Bool
unfolding none_equal
check_must_not none targets ok = ok
check_must_not (some must_not) none ok = true
check_must_not (some must_not) (some targets) ok = none_equal targets must_not ok

unfoldable pub validate_when : Option ListWhen → Handler → Bool
unfolding check_must check_must_not
validate_when when list = elim (first_given when list.when) [
  | none ↦ true
  | some filters ↦
      check_must_not filters.must_not list.filters (check_must filters.must list.filters)
]

-- `ListCollection.when`
unfoldable pub when : Option ListWhen → List Handler → List Handler
unfolding validate_when
when condition lists = select (validate_when condition) lists

-- Every entry of an object.
abbrev pub Each : (String → Json → Type 0) → Entries → Type 0
Each P Entries.nil = Unit
Each P (Entries.cons key value entries) = P key value × Each P entries

-- The filter of the list under the key equals the value, or not.
abbrev pub Agrees : Entries → String → Json → Type 0
Agrees targets key value = deep_equals (or_undefined (find key targets)) value ≡ true

abbrev pub Differs : Entries → String → Json → Type 0
Differs targets key value = deep_equals (or_undefined (find key targets)) value ≡ false

abbrev pub EachOf : (String → Json → Type 0) → Option Entries → Type 0
EachOf P none = Unit
EachOf P (some entries) = Each P entries

all_equal_lem :
    (targets entries : Entries) (prev : Bool)
    → (all_equal targets entries prev ≡ true) ↔ ((prev ≡ true) × Each (Agrees targets) entries)
unfolding all_equal
all_equal_lem targets Entries.nil prev = (λ h. (h, tt), λ h. h.0)
all_equal_lem targets (Entries.cons key value entries) prev =
    let same = deep_equals (or_undefined (find key targets)) value in
    let rest = all_equal_lem targets entries (prev && same) in
    elim (Bool-cases prev) [
      | inl p ↦ elim (Bool-cases same) [
        | inl e ↦ (λ h. (p, (e, (rest.0 h).1)), λ h. rest.1 (rw (p, e) refl, h.1.1))
        | inr e ↦ (λ h. cc (e, p, (rest.0 h).0), λ h. cc (e, h.1.0))
      ]
      | inr p ↦ (λ h. cc (p, (rest.0 h).0), λ h. cc (p, h.0))
    ]

none_equal_lem :
    (targets entries : Entries) (prev : Bool)
    → (none_equal targets entries prev ≡ true) ↔ ((prev ≡ true) × Each (Differs targets) entries)
unfolding none_equal
none_equal_lem targets Entries.nil prev = (λ h. (h, tt), λ h. h.0)
none_equal_lem targets (Entries.cons key value entries) prev =
    let same = deep_equals (or_undefined (find key targets)) value in
    let rest = none_equal_lem targets entries (prev && not same) in
    elim (Bool-cases prev) [
      | inl p ↦ elim (Bool-cases same) [
        | inr e ↦ (λ h. (p, (e, (rest.0 h).1)), λ h. rest.1 (rw (p, e) refl, h.1.1))
        | inl e ↦ (λ h. cc (e, p, (rest.0 h).0), λ h. cc (e, h.1.0))
      ]
      | inr p ↦ (λ h. cc (p, (rest.0 h).0), λ h. cc (p, h.0))
    ]

-- What a condition asks of the filters of a list: without a condition or without filters, nothing.
abbrev pub Satisfied : Option ListWhen → Option Entries → Type 0
Satisfied none filters = Unit
Satisfied (some when) none = Unit
Satisfied (some when) (some filters) =
    EachOf (Agrees filters) when.must × EachOf (Differs filters) when.must_not

satisfied_lem :
    (filters must must_not : Option Entries)
    → (check_must_not must_not filters (check_must must filters) ≡ true)
      ↔ Satisfied (some (record { must = must; must_not = must_not })) filters
unfolding check_must check_must_not
satisfied_lem none none none = (λ h. tt, λ h. refl)
satisfied_lem none none (some mn) = (λ h. tt, λ h. refl)
satisfied_lem none (some m) none = (λ h. tt, λ h. refl)
satisfied_lem none (some m) (some mn) = (λ h. tt, λ h. refl)
satisfied_lem (some t) none none = (λ h. (tt, tt), λ h. refl)
satisfied_lem (some t) none (some mn) =
    let n = none_equal_lem t mn true in (λ h. (tt, (n.0 h).1), λ h. n.1 (refl, h.1))
satisfied_lem (some t) (some m) none =
    let e = all_equal_lem t m true in (λ h. ((e.0 h).1, tt), λ h. e.1 (refl, h.0))
satisfied_lem (some t) (some m) (some mn) =
    let e = all_equal_lem t m true in
    let n = none_equal_lem t mn (all_equal t m true) in
    (λ h. ((e.0 (n.0 h).0).1, (n.0 h).1), λ h. n.1 (e.1 (refl, h.0), h.1))

-- A list takes part in an operation just if its filters have the values that the condition asks for
-- and none of those that it excludes. The condition that is given counts, and without one that of the
-- list. With no condition, or with no filters, the list takes part.
pub validate_when-Satisfied :
    (condition : Option ListWhen) (list : Handler)
    → (validate_when condition list ≡ true)
      ↔ Satisfied (first_given condition list.when) list.filters
unfolding validate_when
validate_when-Satisfied condition list = go (first_given condition list.when) refl
  where
    go :
        (w : Option ListWhen)
        → first_given condition list.when ≡ w
        → (validate_when condition list ≡ true)
          ↔ Satisfied (first_given condition list.when) list.filters
    go none e = rw (e, validate_when) (λ h. tt, λ h. refl)
    go (some w) e = rw (e, validate_when) (satisfied_lem list.filters w.must w.must_not)
