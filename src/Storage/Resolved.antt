-- ===== src/Storage/Resolved.antt =====
-- What `InMemoryStorage.resolveLayer` of packages/houdini/src/runtime/cache/storage.ts does to the stack
-- of layers.
use houdini.Layer.{Layer}
use houdini.Prelude.{
  ℕ, suc, ◌≡◌, ◌≢◌, refl, sym, ap, ◌∙◌, true, false, none, some, List, [], ◌∷◌, ◌++◌, ok, throw,
  no_layer, ◌>>=◌, bind_assoc, All, length, arith, length-append,
}
use houdini.Storage.{Storage, get_layer, find_layer}
use houdini.Storage.Resolve.{find_index, settle, is_optimistic_at, resolve_layer}
use houdini.Storage.Merging.{
  merge_all, Firm, Starts, merge_from-merge_all, merge_from-over, find_index-append, settle-append,
  settled, with_layers, append_one, starting_firm, starting_over,
}

module _ (n : ℕ) (s : Storage) (below : List Layer) (under l : Layer) (run rest : List Layer) where
  find_above :
      s.layers ≡ below ++ under ∷ l ∷ (run ++ rest)
      → All (λ m. m.id ≢ n) (below ++ under ∷ [])
      → l.id ≡ n
      → find_index n s.layers ≡ some (suc (length below))
  find_above shape others this =
      ap (find_index n) (shape ∙ sym (append_one below under (l ∷ (run ++ rest))))
      ∙ find_index-append n (below ++ under ∷ []) l (run ++ rest) others this
      ∙ ap some (omega (arith, length-append below (under ∷ [])))

  settle_above :
      s.layers ≡ below ++ under ∷ l ∷ (run ++ rest)
      → settle (suc (length below)) s.layers ≡ below ++ under ∷ settled l ∷ (run ++ rest)
  settle_above shape =
      ap (settle (suc (length below))) (shape ∙ sym (append_one below under (l ∷ (run ++ rest))))
      ∙ ap (λ (i : ℕ). settle i ((below ++ under ∷ []) ++ l ∷ (run ++ rest)))
          (omega (arith, length-append below (under ∷ [])))
      ∙ settle-append (below ++ under ∷ []) l (run ++ rest)
      ∙ append_one below under (settled l ∷ (run ++ rest))

  -- To resolve a layer over one that is not optimistic merges it into that one, and after it every
  -- further layer up to the next optimistic one: the layers below and from there on stay as they are.
  pub resolve_layer-merges :
      s.layers ≡ below ++ under ∷ l ∷ (run ++ rest)
      → All (λ m. m.id ≢ n) (below ++ under ∷ [])
      → l.id ≡ n
      → under.optimistic ≡ false
      → Firm run
      → Starts rest
      → resolve_layer n s
        ≡ (merge_all under (settled l ∷ run) >>= λ b. ok (with_layers s (below ++ b ∷ rest)))
  unfolding resolve_layer
  resolve_layer-merges shape others this firm fs h =
      rw (find_above shape others this, resolve_layer, settle_above shape)
        (rw (starting_firm below under (settled l ∷ (run ++ rest)) firm) (
          ap (λ m. m >>= λ ls. ok (with_layers s ls))
            (merge_from-merge_all below under (settled l ∷ run) rest firm (refl, fs) h)
          ∙ bind_assoc (merge_all under (settled l ∷ run)) (λ b. ok (below ++ b ∷ rest))
              (λ ls. ok (with_layers s ls))))

  -- To resolve a layer over an optimistic one leaves that one alone: the further layers up to the
  -- next optimistic one are merged into the resolved layer.
  pub resolve_layer-over_optimistic :
      s.layers ≡ below ++ under ∷ l ∷ (run ++ rest)
      → All (λ m. m.id ≢ n) (below ++ under ∷ [])
      → l.id ≡ n
      → under.optimistic ≡ true
      → Firm run
      → Starts rest
      → resolve_layer n s
        ≡ (merge_all (settled l) run >>= λ b. ok (with_layers s (below ++ under ∷ b ∷ rest)))
  unfolding resolve_layer
  resolve_layer-over_optimistic shape others this firm fs h =
      rw (find_above shape others this, resolve_layer, settle_above shape)
        (rw (starting_over below under (settled l ∷ (run ++ rest)) firm) (
          ap (λ m. m >>= λ ls. ok (with_layers s ls))
            (merge_from-over below under (settled l) run rest refl fs h)
          ∙ bind_assoc (merge_all (settled l) run) (λ b. ok (below ++ under ∷ b ∷ rest))
              (λ ls. ok (with_layers s ls))))

-- To resolve the base layer merges into it the further layers up to the next optimistic one.
pub resolve_layer-base :
    (n : ℕ) (s : Storage) (l : Layer) (run rest : List Layer)
    → s.layers ≡ l ∷ (run ++ rest)
    → l.id ≡ n
    → Firm run
    → Starts rest
    → resolve_layer n s ≡ (merge_all (settled l) run >>= λ b. ok (with_layers s (b ∷ rest)))
unfolding resolve_layer is_optimistic_at
resolve_layer-base n s l run rest shape this fs h =
    let found : find_index n s.layers ≡ some 0 =
      ap (find_index n) shape ∙ find_index-append n [] l (run ++ rest) tt this in
    let first : settle 0 s.layers ≡ settled l ∷ (run ++ rest) =
      ap (settle 0) shape ∙ settle-append [] l (run ++ rest) in
    rw (found, resolve_layer, first)
      (ap (λ m. m >>= λ ls. ok (with_layers s ls))
          (merge_from-merge_all [] (settled l) run rest refl fs h)
        ∙ bind_assoc (merge_all (settled l) run) (λ b. ok (b ∷ rest)) (λ ls. ok (with_layers s ls)))

find_index-missing : (n : ℕ) (ls : List Layer) → All (λ m. m.id ≢ n) ls → find_index n ls ≡ none
unfolding find_index
find_index-missing n [] h = refl
find_index-missing n (l ∷ ls) (h, hs) = ground (arith, find_index-missing n ls hs)

find_layer-missing :
    (n : ℕ) (ls : List Layer) → All (λ m. m.id ≢ n) ls → find_layer n ls ≡ throw (no_layer n)
unfolding find_layer
find_layer-missing n [] h = refl
find_layer-missing n (l ∷ ls) (h, hs) = ground (arith, find_layer-missing n ls hs)

-- To look up or to resolve a layer that is not on the stack throws.
layer-missing :
    (n : ℕ) (s : Storage)
    → All (λ m. m.id ≢ n) s.layers
    → (get_layer n s ≡ throw (no_layer n)) × (resolve_layer n s ≡ throw (no_layer n))
unfolding get_layer resolve_layer
layer-missing n s h =
    (find_layer-missing n s.layers h, rw (find_index-missing n s.layers h, resolve_layer))
