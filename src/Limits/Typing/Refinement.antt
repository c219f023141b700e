-- ===== src/Limits/Typing/Refinement.antt =====
-- The two generations decide as one table with the time of every pair's last admitted update.
use veritra.Prelude.{
  ℕ, ◌+◌, ◌*◌, ◌≤◌, ◌<◌, ◌≡◌, ◌⊎◌, inl, refl, sym, subst, String, Bool, true, false, Option, some,
  none, List, [], ◌∷◌, arith, length, leb, if◌then◌else◌, if_cases, leb→le,
}
use veritra.Prelude.GoMap.{
  Map, lookup, insert, delete, lookup-insert, lookup-delete, length-insert, length-delete_le,
}
use veritra.Limits.Typing.Bound.{rotate-entries}
use veritra.Limits.Typing.{
  TypingLimiter, zero_limiter, typing_interval, typing_max_entries, throttles, rotate, admit, allow,
  entries,
}

-- The specification: every pair's last admitted update, kept for ever.
unfoldable pub spec_allow : Map ℕ → String → ℕ → Map ℕ × Bool
spec_allow m key now = if throttles (lookup key m) now then (m, false) else (insert key now m, true)

-- What the limiter holds for a key.
abbrev pub held : Map ℕ → Map ℕ → String → Option ℕ
held current previous k = elim (lookup k current) [ none ↦ lookup k previous | some t ↦ some t ]

-- An entry that is not held is too old to throttle.
abbrev pub Known : Option ℕ → Option ℕ → ℕ → Type 0
Known have want now =
    (have ≡ want) ⊎ ((have ≡ none) × (t : ℕ) × (want ≡ some t) × (t + typing_interval ≤ now))

abbrev pub Below : Option ℕ → ℕ → Type 0
Below none b = Unit
Below (some t) b = t < b

-- The two generations, seen at `now`, agree with the specification's table.
pub record Agrees (current previous : Map ℕ) (current_at now : ℕ) (m : Map ℕ) : Type 0 where
  pub known : (k : String) → Known (held current previous k) (lookup k m) now
  pub apart : (k : String) → (lookup k current ≡ none) ⊎ (lookup k previous ≡ none)
  pub young : (k : String) → Below (lookup k current) (current_at + typing_interval)
  pub old : (k : String) → Below (lookup k previous) current_at

abbrev pub generation : Option (Map ℕ) → Map ℕ
generation none = []
generation (some m) = m

-- The limiter, whose last call was at `now`, agrees with the table.
pub record Simulates (l : TypingLimiter) (now : ℕ) (m : Map ℕ) : Type 0 where
  pub agrees : Agrees (generation l.current) l.previous l.current_at now m
  pub started : l.current ≡ none → m ≡ []

-- Rotation forgets nothing that could throttle, and leaves a generation that is young.
module _ (at before now : ℕ) (current previous m : Map ℕ)
    (a : Agrees current previous at before m) where
  drop_both : at + 2 * typing_interval ≤ now → before ≤ now → Agrees [] [] now now m
  unfolding lookup
  drop_both h b = record {
    known = λ k. ground (arith, a.known k, a.young k, a.old k);
    apart = λ k. inl refl;
    young = λ k. tt;
    old = λ k. tt;
  }

  drop_one : at + typing_interval ≤ now → before ≤ now → Agrees [] current now now m
  unfolding lookup
  drop_one h b = record {
    known = λ k. ground (arith, a.known k, a.young k, a.old k);
    apart = λ k. inl refl;
    young = λ k. tt;
    old = λ k. ground (arith, a.young k);
  }

  keep_both : before ≤ now → Agrees current previous at now m
  keep_both b = record {
    known = λ k. ground (arith, a.known k);
    apart = a.apart;
    young = a.young;
    old = a.old;
  }

abbrev Fresh : Map ℕ → ℕ → Map ℕ × Map ℕ × ℕ → Type 0
Fresh m now r = Agrees r.0 r.1 r.2 now m × (now < r.2 + typing_interval)

empty_start : (now : ℕ) → Fresh [] now ([], [], now)
unfolding lookup
empty_start now = (
  record { known = λ k. inl refl; apart = λ k. inl refl; young = λ k. tt; old = λ k. tt },
  omega arith,
)

rotate-Fresh :
    (l : TypingLimiter) (before now : ℕ) (m : Map ℕ)
    → before ≤ now
    → Simulates l before m
    → Fresh m now (rotate l now)
unfolding rotate
rotate-Fresh l before now m b s = go l.current s.agrees s.started
  where
    go :
        (o : Option (Map ℕ))
        → Agrees (generation o) l.previous l.current_at before m
        → (o ≡ none → m ≡ [])
        → Fresh m now (rotate (record l { current = o }) now)
    go none a e = subst (λ (t : Map ℕ). Fresh t now ([], [], now)) (sym (e refl)) (empty_start now)
    go (some c) a e =
        if_cases (Fresh m now) (leb (l.current_at + 2 * typing_interval) now) _ _
          (λ h. (drop_both l.current_at before now c l.previous m a (leb→le _ _ h) b, omega arith))
          (λ f.
            if_cases (Fresh m now) (leb (l.current_at + typing_interval) now) _ _
              (λ h.
                (drop_one l.current_at before now c l.previous m a (leb→le _ _ h) b, omega arith))
              (λ h. (keep_both l.current_at before now c l.previous m a b, ground arith)))

module _ (current previous : Map ℕ) (current_at now : ℕ) (m : Map ℕ) (key : String)
    (room : length current + length previous < typing_max_entries)
    (young : now < current_at + typing_interval)
    (a : Agrees current previous current_at now m) where
  abbrev kept : TypingLimiter
  kept = record { current = some current; previous = previous; current_at = current_at }

  abbrev updated : TypingLimiter
  updated = record {
    current = some (insert key now current);
    previous = delete key previous;
    current_at = current_at;
  }

  admit_refused :
      throttles (lookup key m) now ≡ true
      → admit current previous current_at key now ≡ (kept, false)
  unfolding admit
  admit_refused h = ground (arith, a.known key, a.apart key)

  admit_admitted :
      throttles (lookup key m) now ≡ false
      → admit current previous current_at key now ≡ (updated, true)
  unfolding admit
  admit_admitted h = ground (arith, a.known key, a.apart key)

  updated-Agrees :
      Agrees (insert key now current) (delete key previous) current_at now (insert key now m)
  updated-Agrees = record {
    known = λ k. ground (
      arith,
      a.known k,
      lookup-insert key k now current,
      lookup-delete key k previous,
      lookup-insert key k now m,
    );
    apart = λ k. rw (lookup-insert, lookup-delete) (ground (arith, a.apart k));
    young = λ k. rw lookup-insert (ground (arith, a.young k));
    old = λ k. rw lookup-delete (ground (arith, a.old k));
  }

  -- One call decides as the specification and keeps the agreement.
  abbrev Matches : TypingLimiter × Bool → Map ℕ × Bool → Type 0
  Matches x y = (x.1 ≡ y.1) × Simulates x.0 now y.0

  admit-Matches : Matches (admit current previous current_at key now) (spec_allow m key now)
  unfolding spec_allow
  admit-Matches =
      if_cases (Matches (admit current previous current_at key now)) (throttles (lookup key m) now)
        _ _ (λ h. rw (admit_refused h) (refl, record { agrees = a; started = λ e. cc }))
        (λ h. rw (admit_admitted h) (refl, record { agrees = updated-Agrees; started = λ e. cc }))

-- The number of entries grows by at most one with a call.
pub entries-allow_le :
    (l : TypingLimiter) (key : String) (now : ℕ) → entries (allow l key now).0 ≤ entries l + 1
unfolding allow admit entries
entries-allow_le l key now = ground (
  arith,
  rotate-entries l now,
  length-insert key now (rotate l now).0,
  length-delete_le key (rotate l now).1,
)

-- With room in the table, a call decides as the one table does, and both go on in agreement.
pub allow-spec_allow :
    (l : TypingLimiter) (before now : ℕ) (m : Map ℕ) (key : String)
    → before ≤ now
    → entries l < typing_max_entries
    → Simulates l before m
    → ((allow l key now).1 ≡ (spec_allow m key now).1)
      × Simulates (allow l key now).0 now (spec_allow m key now).0
unfolding allow
allow-spec_allow l before now m key b room s =
    let (a, young) = rotate-Fresh l before now m b s in
    admit-Matches (rotate l now).0 (rotate l now).1 (rotate l now).2 now m key
      (omega (arith, rotate-entries l now)) young a

-- A trace of calls: what each of them answered.
abbrev pub Call : Type 0
Call = String × ℕ

unfoldable pub allow_all : TypingLimiter → List Call → List Bool
allow_all l [] = []
allow_all l ((key, now) ∷ calls) = let (l', answer) = allow l key now in answer ∷ allow_all l' calls

unfoldable pub spec_all : Map ℕ → List Call → List Bool
spec_all m [] = []
spec_all m ((key, now) ∷ calls) =
    let (m', answer) = spec_allow m key now in answer ∷ spec_all m' calls

-- The clock does not go back.
abbrev pub IsOrdered : ℕ → List Call → Type 0
IsOrdered before [] = Unit
IsOrdered before ((key, now) ∷ calls) = (before ≤ now) × IsOrdered now calls

traces_agree :
    (l : TypingLimiter) (before : ℕ) (m : Map ℕ) (calls : List Call)
    → IsOrdered before calls
    → entries l + length calls ≤ typing_max_entries
    → Simulates l before m
    → allow_all l calls ≡ spec_all m calls
unfolding allow_all spec_all
traces_agree l before m [] o room s = refl
traces_agree l before m ((key, now) ∷ calls) o room s =
    let (same, sim) = allow-spec_allow l before now m key o.0 (omega arith) s in
    let rest =
      traces_agree (allow l key now).0 now (spec_allow m key now).0 calls o.1
        (omega (arith, entries-allow_le l key now)) sim in
    cc (same, rest)

-- On any calls at times that do not go back, at most as many as the table may hold, the two-
-- generation typing limiter gives the answers of one table of time stamps per key.
pub allow_all-eq-spec_all :
    (calls : List Call)
    → IsOrdered 0 calls
    → length calls ≤ typing_max_entries
    → allow_all zero_limiter calls ≡ spec_all [] calls
unfolding entries lookup
allow_all-eq-spec_all calls o room =
    traces_agree zero_limiter 0 [] calls o (omega arith)
      (record { agrees = (empty_start 0).0; started = λ e. refl })
