-- ===== src/Limits/Typing.antt =====
-- The limiter of typing updates (server/internal/httpapi/typing_limiter.go). A call holds the lock.
pub mod Bound
pub mod Refinement
mod Tests
use veritra.Prelude.{
  ℕ, zero, suc, ◌+◌, ◌-◌, ◌*◌, String, Bool, true, false, not, ◌&&◌, ◌||◌, List, [], ◌∷◌, Option,
  some, none, ltb, leb, if◌then◌else◌, length,
}
use veritra.Prelude.GoMap.{Map, lookup, insert, delete}

abbrev pub second : ℕ
second = 1_000_000_000

abbrev pub typing_interval : ℕ
typing_interval = 2 * second

abbrev pub typing_max_entries : ℕ
typing_max_entries = 50_000

-- `current` is nil until the first call.
pub record TypingLimiter : Type 0 where
  pub current : Option (Map ℕ)
  pub previous : Map ℕ
  pub current_at : ℕ

abbrev pub zero_limiter : TypingLimiter
zero_limiter = record { current = none; previous = []; current_at = 0 }

-- The switch at the head of `allow`: the two generations that the rest of the call sees.
unfoldable pub rotate : TypingLimiter → ℕ → Map ℕ × Map ℕ × ℕ
rotate l now = elim l.current [
  | none ↦ ([], [], now)
  | some current ↦
      if leb (l.current_at + 2 * typing_interval) now
      then ([], [], now)
      else if leb (l.current_at + typing_interval) now
      then ([], current, now)
      else (current, l.previous, l.current_at)
]

-- `last, in := m[key]; in && now.Sub(last) < typingInterval`. A negative difference is below the
-- interval too, as the truncated one is.
abbrev pub throttles : Option ℕ → ℕ → Bool
throttles none now = false
throttles (some last) now = ltb (now - last) typing_interval

abbrev pub is_some : Option ℕ → Bool
is_some none = false
is_some (some t) = true

-- The rest of `allow`, over the rotated generations.
unfoldable pub admit : Map ℕ → Map ℕ → ℕ → String → ℕ → TypingLimiter × Bool
admit current previous current_at key now =
    let kept : TypingLimiter = record {
      current = some current;
      previous = previous;
      current_at = current_at;
    } in
    if throttles (lookup key current) now
    then (kept, false)
    else if throttles (lookup key previous) now
    then (kept, false)
    else if not (is_some (lookup key current))
        && (not (is_some (lookup key previous))
            && leb typing_max_entries (length current + length previous))
    then (kept, false)
    else (
      record {
        current = some (insert key now current);
        previous = delete key previous;
        current_at = current_at;
      },
      true,
    )

unfoldable pub allow : TypingLimiter → String → ℕ → TypingLimiter × Bool
allow l key now =
    let (current, previous, current_at) = rotate l now in admit current previous current_at key now

abbrev pub current_entries : Option (Map ℕ) → ℕ
current_entries none = 0
current_entries (some m) = length m

unfoldable pub entries : TypingLimiter → ℕ
entries l = current_entries l.current + length l.previous
