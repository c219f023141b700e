-- ===== src/Limits/Rate/Evict.antt =====
-- What an eviction from a bucket table takes out, and that it makes room.
use veritra.Prelude.{
  ℕ, suc, ◌≤◌, ◌<◌, ◌≡◌, String, Bool, true, false, List, [], ◌∷◌, some, none, arith, ltb, leb,
  eq_iff, length, if_cases, Bool-cases, Option-cases, inl, inr, tests,
}
use veritra.Prelude.GoMap.{Map, lookup, delete, lookup-delete, length-delete_lt, length-delete_le}
use veritra.Limits.Rate.Buckets.{
  Bucket, Victim, Sampled, made_room, chosen, after, spares, lighter, considered, evict_loop,
  after_sample, evict_one_locked, rate_limit_eviction_sample_size,
}

-- A victim is a live bucket of the table without a use of the credential budgets.
abbrev pub IsHeld : ℕ → Map Bucket → Victim → Type 0
IsHeld now t none = Unit
IsHeld now t (some (k, l)) =
    (b : Bucket) × (lookup k t ≡ some b) × (after b.reset now ≡ true) × (spares b ≡ true)

considered-IsHeld :
    (now : ℕ) (t : Map Bucket) (k : String) (b : Bucket) (v : Victim)
    → lookup k t ≡ some b
    → after b.reset now ≡ true
    → IsHeld now t v
    → IsHeld now t (considered k b v)
unfolding considered lighter
considered-IsHeld now t k b none h live i =
    if_cases (IsHeld now t) (spares b) _ _ (λ s. (b, h, live, s)) (λ s. i)
considered-IsHeld now t k b (some (w, l)) h live i =
    if_cases (IsHeld now t) (spares b) _ _
      (λ s. if_cases (IsHeld now t) (ltb _ l) _ _ (λ x. (b, h, live, s)) (λ x. i)) (λ s. i)

delete-IsHeld :
    (now : ℕ) (t : Map Bucket) (k : String) (b : Bucket) (v : Victim)
    → lookup k t ≡ some b
    → after b.reset now ≡ false
    → IsHeld now t v
    → IsHeld now (delete k t) v
delete-IsHeld now t k b none h dead i = tt
delete-IsHeld now t k b (some (w, l)) h dead (c, there, live, s) =
    (c, ground (arith, lookup-delete k w t, eq_iff k w), live, s)

-- What holds of every run of the loop, its step from each of its branches: the invariant of the
-- loop is `Inv`, and `Goal` is what its result gives.
module _ (max now : ℕ) (Goal : Map Bucket × Sampled → Type 0) (Inv : Map Bucket → Type 0)
    (dropped : (t : Map Bucket) (k : String) (b : Bucket)
      → lookup k t ≡ some b
      → after b.reset now ≡ false
      → Inv t
      → Inv (delete k t))
    (early : (t : Map Bucket) → Inv t → length t < max → Goal (t, made_room))
    (late : (t : Map Bucket) (v : Victim) → Inv t → IsHeld now t v → Goal (t, chosen v)) where
  evict_loop_run :
      (ks : List String) (sampled : ℕ) (v : Victim) (t : Map Bucket)
      → Inv t
      → IsHeld now t v
      → Goal (evict_loop max now ks sampled v t)
  unfolding evict_loop
  evict_loop_run [] sampled v t i held = late t v i held
  evict_loop_run (k ∷ ks) sampled v t i held = elim (Option-cases (lookup k t)) [
    | inl missing ↦ rw (missing, evict_loop) (evict_loop_run ks sampled v t i held)
    | inr (b, there) ↦
        rw (there, evict_loop)
          (elim (Bool-cases (after b.reset now)) [
            | inl live ↦
                let held' = considered-IsHeld now t k b v there live held in
                rw live (elim (Bool-cases (leb rate_limit_eviction_sample_size (suc sampled))) [
                  | inl full ↦ rw full (late t _ i held')
                  | inr more ↦
                      rw more (evict_loop_run ks (suc sampled) (considered k b v) t i held')
                ])
            | inr dead ↦
                let i' = dropped t k b there dead i in
                rw dead (elim (Bool-cases (ltb (length (delete k t)) max)) [
                  | inl room ↦ rw room (early _ i' (omega tests))
                  | inr full ↦ rw full (
                      evict_loop_run ks sampled v (delete k t) i'
                        (delete-IsHeld now t k b v there dead held))
                ])
          ])
  ]

-- Where there is room, the table is below the bound.
abbrev pub HasRoom : ℕ → Map Bucket × Bool × ℕ → Type 0
HasRoom max (t, true, n) = length t < max
HasRoom max (t, false, n) = length t ≤ max

abbrev pub Protects : String → Bucket → Map Bucket × Bool × ℕ → Type 0
Protects x c (t, ok, n) = lookup x t ≡ some c

sample-HasRoom :
    (max now : ℕ) (t : Map Bucket) (v : Victim)
    → length t ≤ max
    → IsHeld now t v
    → HasRoom max (after_sample (t, chosen v))
unfolding after_sample
sample-HasRoom max now t none l i = l
sample-HasRoom max now t (some (k, least)) l (b, there, live, s) =
    ground (arith, length-delete_lt k t)

pub evict_one_locked-HasRoom :
    (order : Map Bucket → List String) (max now : ℕ) (t : Map Bucket)
    → length t ≤ max
    → HasRoom max (evict_one_locked order max now t)
unfolding evict_one_locked after_sample
evict_one_locked-HasRoom order max now t l =
    if_cases (HasRoom max) (ltb (length t) max) _ _ (λ h. omega tests)
      (λ h.
        evict_loop_run max now (λ r. HasRoom max (after_sample r)) (λ s. length s ≤ max)
          (λ s k b there dead i. ground (arith, length-delete_le k s)) (λ s i room. room)
          (λ s v i held. sample-HasRoom max now s v i held) (order t) 0 none t l tt)

sample-Protects :
    (now : ℕ) (t : Map Bucket) (v : Victim) (x : String) (c : Bucket)
    → lookup x t ≡ some c
    → spares c ≡ false
    → IsHeld now t v
    → Protects x c (after_sample (t, chosen v))
unfolding after_sample
sample-Protects now t none x c there s i = there
sample-Protects now t (some (k, least)) x c there s (b, held, live, spared) =
    ground (arith, lookup-delete k x t, eq_iff k x)

-- An eviction from a bucket table, in any order of the visits, never takes out a live bucket that
-- has used a credential or an enrollment budget.
pub evict_one_locked-Protects :
    (order : Map Bucket → List String) (max now : ℕ) (t : Map Bucket) (x : String) (c : Bucket)
    → lookup x t ≡ some c
    → after c.reset now ≡ true
    → spares c ≡ false
    → Protects x c (evict_one_locked order max now t)
unfolding evict_one_locked after_sample
evict_one_locked-Protects order max now t x c there live s =
    if_cases (Protects x c) (ltb (length t) max) _ _ (λ h. there)
      (λ h.
        evict_loop_run max now (λ r. Protects x c (after_sample r)) (λ u. lookup x u ≡ some c)
          (λ u k b here dead i. ground (arith, lookup-delete k x u, eq_iff k x)) (λ u i room. i)
          (λ u v i held. sample-Protects now u v x c i s held) (order t) 0 none t there tt)
