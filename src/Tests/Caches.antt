-- ===== src/Tests/Caches.antt =====
-- An LRU cache of packages/houdini/src/runtime/lru.ts at concrete inputs.
use houdini.Lru
use houdini.Lru.{Slot, null, value, create}
use houdini.Lru.Accounts.{arrivals, evictions-perform_all}
use houdini.Lru.Calls.{or_null, perform_all-create, get-perform_all}
use houdini.Lru.Memory.{Call, perform, perform_all, blank, step, step_all, Refines}
use houdini.Lru.Evictions.{count, count_entries}
use houdini.Prelude.{
  ◌≡◌, ◌+◌, refl, Bool, true, false, List, [], ◌∷◌, String, lookup, insert, erase, contains, ite,
  str_dec,
}

-- What a run of a cache computes with.
program : Unit {0}
unfolding str_dec lookup insert erase Lru.delete Lru.evict_first Lru.trim Lru.get Lru.has Lru.clear
    Lru.replace Lru.set perform perform_all step step_all arrivals
program = tt

abbrev same : String → String → Bool
same a b = ite (str_dec a b) true false

same-equal : (a b : String) → same a b ≡ true → a ≡ b
same-equal a b h = go (str_dec a b) h
  where
    go : (d : Dec (a ≡ b)) → ite d true false ≡ true → a ≡ b
    go (yes p) e = p
    go (no p) e = cc e

-- The value of `c` evicts that of `b`, since `a` is read in between.
abbrev calls : List (Call String)
calls =
    Call.set "a" (value "1")
    ∷ Call.set "b" (value "2")
    ∷ Call.get "a"
    ∷ Call.set "c" null
    ∷ Call.get "c"
    ∷ Call.set "a" (value "4")
    ∷ []

abbrev log : List (Slot String × String)
log = (value "2", "b") ∷ (value "1", "a") ∷ []

calls_run : (perform_all same calls (create 2)).evicted ≡ log
unfolding program
calls_run = refl

perform_all-create_example : Refines 2 (perform_all same calls (create 2)) (step_all 2 calls blank)
perform_all-create_example = perform_all-create same 2 calls

get-perform_all_example :
    ((Lru.get "b" (perform_all same calls (create 2))).1
      ≡ or_null ((step_all 2 calls blank).held "b"))
    × (Lru.has "b" (perform_all same calls (create 2))
        ≡ contains "b" (step_all 2 calls blank).order)
get-perform_all_example = get-perform_all same 2 calls "b"

abbrev any : Slot String × String → Bool
any e = true

evictions-perform_all_example :
    count any (perform_all same calls (create 2)).evicted
      + count_entries any (perform_all same calls (create 2)).entries
    ≡ count any (arrivals same calls (create 2))
evictions-perform_all_example =
    evictions-perform_all same 2 calls any same-equal (refl, (refl, (tt, (refl, (tt, (refl, tt))))))
