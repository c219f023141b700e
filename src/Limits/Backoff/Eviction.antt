-- ===== src/Limits/Backoff/Eviction.antt =====
-- What `evictOneLocked` takes out, and that it makes room.
use veritra.Prelude.{
  ℕ, suc, ◌≤◌, ◌<◌, ◌≡◌, ◌≢◌, refl, String, true, false, List, [], ◌∷◌, some, none, arith, ltb, leb,
  eq_iff, length, if_cases, Bool-cases, Option-cases, inl, inr, ◌⊎◌, lt→ltb, tests,
}
use veritra.Prelude.GoMap.{lookup, delete, lookup-delete, length-delete_lt}
use veritra.Limits.Backoff.{
  LoginBackoffEntry, LoginBackoff, Table, Victim, evicts_before, better, evict_loop,
  evict_one_locked, take_out, is_live, seen_before, backoff_eviction_sample_size,
}

-- `evicts_before` is a strict order: no entry goes before itself, and the order is transitive.
pub evicts_before_irrefl : (now : ℕ) (a : LoginBackoffEntry) → evicts_before now a a ≡ false
unfolding evicts_before
evicts_before_irrefl now a = ground arith

pub evicts_before_trans :
    (now : ℕ) (a b c : LoginBackoffEntry)
    → evicts_before now a b ≡ true
    → evicts_before now b c ≡ true
    → evicts_before now a c ≡ true
unfolding evicts_before
evicts_before_trans now a b c h k = ground arith

-- A live victim that the table holds.
abbrev pub IsHeld : ℕ → Table → Victim → Type 0
IsHeld now t none = Unit
IsHeld now t (some (k, e)) = (lookup k t ≡ some e) × (is_live e now ≡ true)

better-IsHeld :
    (now : ℕ) (t : Table) (k : String) (e : LoginBackoffEntry) (v : Victim)
    → lookup k t ≡ some e
    → is_live e now ≡ true
    → IsHeld now t v
    → IsHeld now t (better now k e v)
unfolding better
better-IsHeld now t k e none h l i = (h, l)
better-IsHeld now t k e (some (w, we)) h l i =
    if_cases (IsHeld now t) (evicts_before now e we) _ _ (λ x. (h, l)) (λ x. i)

delete-IsHeld :
    (now : ℕ) (t : Table) (k : String) (e : LoginBackoffEntry) (v : Victim)
    → lookup k t ≡ some e
    → is_live e now ≡ false
    → IsHeld now t v
    → IsHeld now (delete k t) v
delete-IsHeld now t k e none h l i = tt
delete-IsHeld now t k e (some (w, we)) h l i =
    (ground (arith, lookup-delete k w t, eq_iff k w, i.0, i.1), i.1)

-- The table without the victim is below the bound, or nothing was found.
abbrev MadeRoom : ℕ → Table × Victim → Type 0
MadeRoom max (t, v) = length (take_out v t) < max

better-ne-none :
    (now : ℕ) (k : String) (e : LoginBackoffEntry) (v : Victim) → better now k e v ≢ none
unfolding better
better-ne-none now k e none h = cc
better-ne-none now k e (some (w, we)) h = ground arith

-- Taking out a victim that the table holds makes it smaller.
held_shrinks :
    (max now : ℕ) (t : Table) (v : Victim)
    → length t ≡ max
    → IsHeld now t v
    → v ≢ none
    → length (take_out v t) < max
held_shrinks max now t none l h n = absurd (n refl)
held_shrinks max now t (some (k, e)) l h n = ground (arith, length-delete_lt k t, h.0)

-- A victim was found already, or a key of the table is still to be visited.
abbrev pub WillFind : List String → Table → Victim → Type 0
WillFind ks t v =
    (v ≢ none)
    ⊎ ((k : String) × (e : LoginBackoffEntry) × (seen_before k ks ≡ true) × (lookup k t ≡ some e))

skip_missing :
    (k : String) (ks : List String) (t : Table) (v : Victim)
    → lookup k t ≡ none
    → WillFind (k ∷ ks) t v
    → WillFind ks t v
skip_missing k ks t v h (inl n) = inl n
skip_missing k ks t v h (inr (j, e, s, l)) = inr (j, e, ground (arith, eq_iff k j), l)

evict_loop-MadeRoom :
    (max now : ℕ) (ks : List String) (sampled : ℕ) (v : Victim) (t : Table)
    → length t ≡ max
    → IsHeld now t v
    → WillFind ks t v
    → MadeRoom max (evict_loop max now ks sampled v t)
unfolding evict_loop
evict_loop-MadeRoom max now [] sampled v t len held (inl n) = held_shrinks max now t v len held n
evict_loop-MadeRoom max now [] sampled v t len held (inr (k, e, s, l)) = cc
evict_loop-MadeRoom max now (k ∷ ks) sampled v t len held found = elim (Option-cases (lookup k t)) [
  | inl none_there ↦
      rw (none_there, evict_loop)
        (evict_loop-MadeRoom max now ks sampled v t len held
          (skip_missing k ks t v none_there found))
  | inr (e, there) ↦
      rw (there, evict_loop)
        (elim (Bool-cases (is_live e now)) [
          | inl live ↦
              let held' = better-IsHeld now t k e v there live held in
              rw live (elim (Bool-cases (leb backoff_eviction_sample_size (suc sampled))) [
                | inl full ↦ rw full (held_shrinks max now t _ len held' (better-ne-none now k e v))
                | inr more ↦ rw more (
                    evict_loop-MadeRoom max now ks (suc sampled) (better now k e v) t len held'
                      (inl (better-ne-none now k e v)))
              ])
          | inr dead ↦
              let smaller : length (delete k t) < max =
                ground (arith, length-delete_lt k t, there) in
              rw (dead, lt→ltb _ _ smaller) smaller
        ])
]

-- The order of the visits produces every key of the map.
abbrev pub Visits : (Table → List String) → Type 0
Visits order =
    (t : Table) (k : String) (e : LoginBackoffEntry)
    → lookup k t ≡ some e
    → seen_before k (order t) ≡ true

some_key :
    (t : Table) → 0 < length t → (k : String) × (e : LoginBackoffEntry) × (lookup k t ≡ some e)
unfolding lookup
some_key [] h = absurd (omega arith)
some_key ((k, e) ∷ t) h = (k, e, ground (arith, eq_iff k k))

-- In a backoff table within its bound, an eviction leaves fewer entries than the bound, if the
-- visits cover the keys.
pub evict_one_locked-MadeRoom :
    (order : Table → List String) (now : ℕ) (b : LoginBackoff)
    → Visits order
    → 0 < b.max_entries
    → length b.by_id ≤ b.max_entries
    → (length (evict_one_locked order now b).by_id < b.max_entries)
      × ((evict_one_locked order now b).max_entries ≡ b.max_entries)
unfolding evict_one_locked
evict_one_locked-MadeRoom order now b visits pos bound =
    if_cases
      (λ (x : LoginBackoff). (length x.by_id < b.max_entries) × (x.max_entries ≡ b.max_entries))
      (ltb (length b.by_id) b.max_entries) _ _ (λ h. (omega tests, refl))
      (λ h.
        let full : length b.by_id ≡ b.max_entries = omega tests in
        let (k, e, l) = some_key b.by_id (omega arith) in
        (
          evict_loop-MadeRoom b.max_entries now (order b.by_id) 0 none b.by_id full tt
              (inr (k, e, visits b.by_id k e l, l)),
          refl,
        ))
