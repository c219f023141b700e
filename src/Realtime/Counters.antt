-- ===== src/Realtime/Counters.antt =====
-- The hub's maps of counters, and the two ways they change.
use veritra.Prelude.{
  ℕ, ◌+◌, ◌-◌, ◌≡◌, ◌≢◌, String, some, arith, str_eq, eq_iff, if◌then◌else◌, Bool-cases, inl, inr,
}
use veritra.Prelude.GoMap.{Map, lookup, lookup-insert, lookup-delete}
use veritra.Realtime.Hub.{or_zero, bump, unbump}

abbrev pub count_at : String → Map ℕ → ℕ
count_at k m = or_zero (lookup k m)

-- 1 where the two keys are the same.
abbrev pub hit : String → String → ℕ
hit k j = if str_eq k j then 1 else 0

pub count_at-bump : (k j : String) (m : Map ℕ) → count_at j (bump k m) ≡ count_at j m + hit k j
count_at-bump k j m = rw lookup-insert (ground (arith, eq_iff k j))

pub count_at-unbump : (k j : String) (m : Map ℕ) → count_at j (unbump k m) ≡ count_at j m - hit k j
count_at-unbump k j m =
    ground (arith, eq_iff k j, lookup-insert k j (or_zero (lookup k m) - 1) m, lookup-delete k j m)

-- No counter of 0 is kept.
abbrev pub IsTidy : Map ℕ → Type 0
IsTidy m = (k : String) → lookup k m ≢ some 0

pub bump-IsTidy : (k : String) (m : Map ℕ) → IsTidy m → IsTidy (bump k m)
bump-IsTidy k m t j = rw lookup-insert (ground (arith, t j))

pub unbump-IsTidy : (k : String) (m : Map ℕ) → IsTidy m → IsTidy (unbump k m)
unbump-IsTidy k m t j =
    ground (arith, t j, lookup-insert k j (or_zero (lookup k m) - 1) m, lookup-delete k j m)

-- The prefix counters skip the empty key.
abbrev pub hit_prefix : String → String → ℕ
hit_prefix p j = if str_eq p "" then 0 else hit p j

module _ (p : String) (m : Map ℕ) where
  pub count_at-skip_unbump :
      (j : String)
      → count_at j (if str_eq p "" then m else unbump p m) ≡ count_at j m - hit_prefix p j
  count_at-skip_unbump j = elim (Bool-cases (str_eq p "")) [
    | inl e ↦ rw e (omega arith)
    | inr e ↦ rw e (count_at-unbump p j m)
  ]

  pub count_at-skip_bump :
      (j : String)
      → count_at j (if str_eq p "" then m else bump p m) ≡ count_at j m + hit_prefix p j
  count_at-skip_bump j = elim (Bool-cases (str_eq p "")) [
    | inl e ↦ rw e (omega arith)
    | inr e ↦ rw e (count_at-bump p j m)
  ]

  pub skip_unbump-IsTidy : IsTidy m → IsTidy (if str_eq p "" then m else unbump p m)
  skip_unbump-IsTidy t = elim (Bool-cases (str_eq p "")) [
    | inl e ↦ rw e t
    | inr e ↦ rw e (unbump-IsTidy p m t)
  ]

  pub skip_bump-IsTidy : IsTidy m → IsTidy (if str_eq p "" then m else bump p m)
  skip_bump-IsTidy t = elim (Bool-cases (str_eq p "")) [
    | inl e ↦ rw e t
    | inr e ↦ rw e (bump-IsTidy p m t)
  ]
