-- ===== src/Prelude/GoMap.antt =====
-- Go's `map[string]V` as an association list, with its key set in place of its random order: a
-- function that ranges over a map takes the order of the visits as an argument.
use text.Mathlib.TextPositions.{eq_refl}
use veritra.Prelude.{
  ℕ, ◌+◌, ◌≤◌, String, ◌≡◌, inl, inr, refl, subst, Option, none, some, List, [], ◌∷◌, arith, str_eq,
  eq_iff, if◌then◌else◌, length, Bool-cases,
}

abbrev pub Map {ℓ} : Type ℓ → Type ℓ
Map V = List (String × V)

module _ {ℓ} {V : Type ℓ} where
  -- v, ok := m[key]
  unfoldable pub lookup : String → Map V → Option V
  lookup key [] = none
  lookup key ((at, value) ∷ rest) = if str_eq at key then some value else lookup key rest

  -- m[key] = value
  unfoldable pub insert : String → V → Map V → Map V
  insert key value [] = (key, value) ∷ []
  insert key value ((at, old) ∷ rest) =
      let after = insert key value rest in
      if str_eq at key then (key, value) ∷ rest else (at, old) ∷ after

  -- delete(m, key)
  unfoldable pub delete : String → Map V → Map V
  delete key [] = []
  delete key ((at, old) ∷ rest) =
      let after = delete key rest in if str_eq at key then after else (at, old) ∷ after

  pub lookup-insert :
      (key other : String) (value : V) (table : Map V)
      → lookup other (insert key value table)
        ≡ (if str_eq key other then some value else lookup other table)
  unfolding lookup insert
  lookup-insert key other value [] = refl
  lookup-insert key other value ((at, old) ∷ rest) =
      ground (
        arith,
        lookup-insert key other value rest,
        eq_iff at key,
        eq_iff at other,
        eq_iff key other,
      )

  pub lookup-delete :
      (k j : String) (m : Map V) → lookup j (delete k m) ≡ (if str_eq k j then none else lookup j m)
  unfolding lookup delete
  lookup-delete k j [] = ground arith
  lookup-delete k j ((i, w) ∷ m) =
      ground (arith, eq_iff k j, eq_iff i k, eq_iff i j, lookup-delete k j m)

  -- A key's presence, as a number.
  abbrev pub present : Option V → ℕ
  present none = 0
  present (some v) = 1

  pub length-insert :
      (k : String) (v : V) (m : Map V) → length (insert k v m) + present (lookup k m) ≡ length m + 1
  unfolding lookup insert
  length-insert k v [] = omega arith
  length-insert k v ((i, w) ∷ m) = ground (arith, length-insert k v m)

  pub length-delete_le : (k : String) (m : Map V) → length (delete k m) ≤ length m
  unfolding delete
  length-delete_le k [] = omega arith
  length-delete_le k ((i, w) ∷ m) = ground (arith, length-delete_le k m)

  -- Deleting a key that is present shrinks the map.
  pub length-delete_lt :
      (k : String) (m : Map V) → length (delete k m) + present (lookup k m) ≤ length m
  unfolding delete lookup
  length-delete_lt k [] = omega arith
  length-delete_lt k ((i, w) ∷ m) = ground (arith, length-delete_lt k m, length-delete_le k m)

  pub lookup-insert_same : (k : String) (v : V) (m : Map V) → lookup k (insert k v m) ≡ some v
  lookup-insert_same k v m = rw (lookup-insert, eq_refl) refl

  pub length-insert_le : (k : String) (v : V) (m : Map V) → length (insert k v m) ≤ length m + 1
  length-insert_le k v m = omega (arith, length-insert k v m)

  pub length-insert_present :
      (k : String) (v w : V) (m : Map V) → lookup k m ≡ some w → length (insert k v m) ≡ length m
  length-insert_present k v w m h = ground (arith, length-insert k v m, h)

pub ruleset map_laws = (lookup-insert, lookup-delete)

-- No key stands twice.
abbrev pub HasUniqueKeys {ℓ} : {V : Type ℓ} → Map V → Type ℓ
HasUniqueKeys [] = Unit
HasUniqueKeys ((k, v) ∷ m) = (lookup k m ≡ none) × HasUniqueKeys m

module _ {ℓ} {V : Type ℓ} where
  pub insert-HasUniqueKeys :
      (k : String) (v : V) (m : Map V) → HasUniqueKeys m → HasUniqueKeys (insert k v m)
  unfolding insert lookup
  insert-HasUniqueKeys k v [] u = (refl, tt)
  insert-HasUniqueKeys k v ((j, w) ∷ m) u = elim (Bool-cases (str_eq j k)) [
    | inl e ↦ rw e (subst (λ (z : String). lookup z m ≡ none) ((eq_iff j k).0 e) u.0, u.1)
    | inr e ↦ rw e (
      ground (arith, lookup-insert k j v m, eq_iff k j, eq_iff j k, u.0),
      insert-HasUniqueKeys k v m u.1,
    )
  ]

  pub delete-HasUniqueKeys : (k : String) (m : Map V) → HasUniqueKeys m → HasUniqueKeys (delete k m)
  unfolding delete lookup
  delete-HasUniqueKeys k [] u = tt
  delete-HasUniqueKeys k ((j, w) ∷ m) u = elim (Bool-cases (str_eq j k)) [
    | inl e ↦ rw e (delete-HasUniqueKeys k m u.1)
    | inr e ↦ rw e (
      ground (arith, lookup-delete k j m, eq_iff k j, eq_iff j k, u.0),
      delete-HasUniqueKeys k m u.1,
    )
  ]
