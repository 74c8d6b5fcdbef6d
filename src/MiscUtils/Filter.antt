-- ===== src/MiscUtils/Filter.antt =====
-- Which entries `filterMapBy` and `omit` keep.
use vinium_lending.Prelude.{
  String, ◌≡◌, refl, ◌∙◌, Bool, false, not, none, some, List, [], ◌∷◌, ◌++◌, arith, if◌then◌else◌,
  Bool-cases, Option-cases, inl, inr, eq_iff, includes, keys, lookup, insert, lookup-insert, Object,
  IsObject, append-nil, append_assoc,
}
use vinium_lending.MiscUtils.{filter_keys, copy_keys, filter_map_by, omit_from, omit}

module _ {ℓ} {V : Type ℓ} where
  -- The entries whose key passes.
  abbrev pub filter_entries : (String → Bool) → Object V → Object V
  filter_entries fn [] = []
  filter_entries fn ((k, v) ∷ o) =
      if fn k then (k, v) ∷ filter_entries fn o else filter_entries fn o

  insert_new :
      (k : String) (v : V) (o : Object V) → lookup k o ≡ none → insert k v o ≡ o ++ (k, v) ∷ []
  insert_new k v [] h = refl
  insert_new k v ((j, w) ∷ o) h = ground (arith, insert_new k v o)

  -- An entry of `raw` that is not yet copied to `acc`.
  abbrev IsCopied : Object V → Object V → Object V → Type ℓ
  IsCopied raw acc [] = Unit
  IsCopied raw acc ((k, v) ∷ o) =
      (lookup k raw ≡ some v) × (lookup k acc ≡ none) × IsCopied raw acc o

  IsCopied-cons :
      (k : String) (v : V) (raw acc o : Object V)
      → includes (keys o) k ≡ false
      → IsCopied raw acc o
      → IsCopied ((k, v) ∷ raw) acc o
  IsCopied-cons k v raw acc [] f h = tt
  IsCopied-cons k v raw acc ((j, w) ∷ o) f h =
      ground (arith, eq_iff j k, eq_iff k j, IsCopied-cons k v raw acc o)

  IsCopied-insert :
      (k : String) (v : V) (raw acc o : Object V)
      → includes (keys o) k ≡ false
      → IsCopied raw acc o
      → IsCopied raw (insert k v acc) o
  IsCopied-insert k v raw acc [] f h = tt
  IsCopied-insert k v raw acc ((j, w) ∷ o) f h =
      ground (arith, eq_iff j k, eq_iff k j, lookup-insert k j v acc, IsCopied-insert k v raw acc o)

  IsCopied-self : (o : Object V) → IsObject o → IsCopied o [] o
  IsCopied-self [] h = tt
  IsCopied-self ((k, v) ∷ o) h =
      ground (arith, eq_iff k k, IsCopied-cons k v o [] o h.0 (IsCopied-self o h.1))

  copy_keys_lem :
      (fn : String → Bool) (raw acc o : Object V)
      → IsObject o
      → IsCopied raw acc o
      → copy_keys raw (filter_keys fn (keys o)) acc ≡ acc ++ filter_entries fn o
  unfolding copy_keys filter_keys
  copy_keys_lem fn raw acc [] h c = rw append-nil
  copy_keys_lem fn raw acc ((k, v) ∷ o) h c = elim (Bool-cases (fn k)) [
    | inl keep ↦
        rw (keep, c.0, copy_keys)
          (copy_keys_lem fn raw (insert k v acc) o h.1 (IsCopied-insert k v raw acc o h.0 c.2)
            ∙ rw (insert_new k v acc c.1, append_assoc))
    | inr pass ↦ rw pass (copy_keys_lem fn raw acc o h.1 c.2)
  ]

  -- On an object, `filterMapBy` returns exactly the entries whose key passes, in their order.
  pub filter_map_by-eq-filter_entries :
      (raw : Object V) (fn : String → Bool)
      → IsObject raw
      → filter_map_by raw fn ≡ filter_entries fn raw
  unfolding filter_map_by
  filter_map_by-eq-filter_entries raw fn h = copy_keys_lem fn raw [] raw h (IsCopied-self raw h)

  omit_from-eq-copy_keys :
      (obj : Object V) (dropped ks : List String) (acc : Object V)
      → omit_from obj dropped ks acc
        ≡ copy_keys obj (filter_keys (λ k. not (includes dropped k)) ks) acc
  unfolding omit_from copy_keys filter_keys
  omit_from-eq-copy_keys obj dropped [] acc = refl
  omit_from-eq-copy_keys obj dropped (k ∷ ks) acc = elim (Bool-cases (includes dropped k)) [
    | inl out ↦ rw out (omit_from-eq-copy_keys obj dropped ks acc)
    | inr kept ↦ elim (Option-cases (lookup k obj)) [
      | inl missing ↦ rw (kept, missing, copy_keys) (omit_from-eq-copy_keys obj dropped ks acc)
      | inr (v, found) ↦
          rw (kept, found, copy_keys) (omit_from-eq-copy_keys obj dropped ks (insert k v acc))
    ]
  ]

  -- On an object, `omit` returns exactly the entries whose key is not dropped, in their order.
  pub omit-eq-filter_entries :
      (obj : Object V) (dropped : List String)
      → IsObject obj
      → omit obj dropped ≡ filter_entries (λ k. not (includes dropped k)) obj
  unfolding omit
  omit-eq-filter_entries obj dropped h =
      omit_from-eq-copy_keys obj dropped (keys obj) []
      ∙ copy_keys_lem (λ k. not (includes dropped k)) obj [] obj h (IsCopied-self obj h)
