-- ===== src/Realtime/Index.antt =====
-- Counting the clients in the hub's index: a weight per client, summed over every set.
use veritra.Prelude.{
  ℕ, ◌+◌, ◌≡◌, refl, ap, String, true, List, [], ◌∷◌, some, none, arith, str_eq, ◌≢◌, ◌==◌, eq_iff,
  ==→eq, if◌then◌else◌, length, Bool-cases, inl, inr,
}
use text.Mathlib.TextPositions.{eq_refl}
use veritra.Prelude.GoMap.{
  Map, lookup, insert, delete, HasUniqueKeys, lookup-insert, lookup-delete, insert-HasUniqueKeys,
  delete-HasUniqueKeys,
}
use veritra.Realtime.Client.{Client, same_client, same_client-eq}
use veritra.Realtime.Hub.{contains, erase, or_empty, settle}

abbrev pub Weight : Type 0
Weight = Client → ℕ

abbrev pub weigh : Weight → List Client → ℕ
weigh w [] = 0
weigh w (c ∷ cs) = w c + weigh w cs

abbrev pub weight : Weight → Map (List Client) → ℕ
weight w [] = 0
weight w ((k, cs) ∷ m) = weigh w cs + weight w m

pub weight-insert :
    (w : Weight) (k : String) (cs : List Client) (m : Map (List Client))
    → weight w (insert k cs m) + weigh w (or_empty (lookup k m)) ≡ weight w m + weigh w cs
unfolding insert lookup
weight-insert w k cs [] = omega arith
weight-insert w k cs ((j, ds) ∷ m) = ground (arith, weight-insert w k cs m)

-- A key that is missing has nothing to delete.
weight-delete_absent :
    (w : Weight) (k : String) (m : Map (List Client))
    → lookup k m ≡ none
    → weight w (delete k m) ≡ weight w m
unfolding delete lookup
weight-delete_absent w k [] h = refl
weight-delete_absent w k ((j, ds) ∷ m) h = ground (arith, weight-delete_absent w k m)

pub weight-delete :
    (w : Weight) (k : String) (m : Map (List Client))
    → HasUniqueKeys m
    → weight w (delete k m) + weigh w (or_empty (lookup k m)) ≡ weight w m
unfolding delete lookup
weight-delete w k [] u = refl
weight-delete w k ((j, ds) ∷ m) u =
    ground (arith, weight-delete w k m u.1, weight-delete_absent w k m, eq_iff j k)

pub weigh-erase :
    (w : Weight) (c : Client) (cs : List Client)
    → contains c cs ≡ true
    → weigh w (erase c cs) + w c ≡ weigh w cs
weigh-erase w c [] h = ground arith
weigh-erase w c (d ∷ ds) h = elim (Bool-cases (same_client c d)) [
  | inl e ↦ rw (e, same_client-eq c d e) (omega arith)
  | inr e ↦ rw e (omega (arith, weigh-erase w c ds (rw e at h)))
]

zero-length : (cs : List Client) → length cs ≡ 0 → cs ≡ []
zero-length [] h = refl
zero-length (c ∷ cs) h = absurd (omega arith)

module _ (account : String) (left : List Client) (m : Map (List Client)) where
  abbrev settled : Map (List Client)
  settled = settle account account left m

  pub lookup-settle :
      (a : String)
      → or_empty (lookup a settled) ≡ (if str_eq account a then left else or_empty (lookup a m))
  lookup-settle a = elim (Bool-cases (length left == 0)) [
    | inl e ↦ rw (e, lookup-delete, lookup-insert) (ground (arith, zero-length left (==→eq _ _ e)))
    | inr e ↦ rw (e, lookup-insert) (ground arith)
  ]

  pub settle-HasUniqueKeys : HasUniqueKeys m → HasUniqueKeys settled
  settle-HasUniqueKeys u = elim (Bool-cases (length left == 0)) [
    | inl e ↦ rw e (delete-HasUniqueKeys account _ (insert-HasUniqueKeys account left m u))
    | inr e ↦ rw e (insert-HasUniqueKeys account left m u)
  ]

  deleted :
      (w : Weight)
      → HasUniqueKeys m
      → weight w (delete account (insert account left m)) + weigh w left
        ≡ weight w (insert account left m)
  deleted w u =
      rw (lookup-insert, eq_refl) at
        (weight-delete w account (insert account left m) (insert-HasUniqueKeys account left m u))

  pub weight-settle :
      (w : Weight)
      → HasUniqueKeys m
      → weight w settled + weigh w (or_empty (lookup account m)) ≡ weight w m + weigh w left
  weight-settle w u =
      let inserted = weight-insert w account left m in
      elim (Bool-cases (length left == 0)) [
        | inl e ↦
            rw e
              (omega (arith, inserted, ap (weigh w) (zero-length left (==→eq _ _ e)), deleted w u))
        | inr e ↦ rw e inserted
      ]

  pub settle_tidy :
      ((a : String) → lookup a m ≢ some []) → (a : String) → lookup a settled ≢ some []
  settle_tidy t a = elim (Bool-cases (length left == 0)) [
    | inl e ↦ rw (e, lookup-delete, lookup-insert) (ground (arith, t a))
    | inr e ↦ rw (e, lookup-insert) (ground (arith, t a))
  ]
