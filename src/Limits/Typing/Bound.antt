-- ===== src/Limits/Typing/Bound.antt =====
-- The table of the typing limiter never grows past its bound.
use veritra.Prelude.{ℕ, ◌+◌, ◌≤◌, String, arith, length}
use veritra.Prelude.GoMap.{Map, length-insert, length-delete_lt}
use veritra.Limits.Typing.{TypingLimiter, typing_max_entries, rotate, admit, allow, entries}

pub rotate-entries :
    (l : TypingLimiter) (now : ℕ) → length (rotate l now).0 + length (rotate l now).1 ≤ entries l
unfolding rotate entries
rotate-entries l now = ground arith

entries-admit :
    (current previous : Map ℕ) (current_at : ℕ) (key : String) (now : ℕ)
    → length current + length previous ≤ typing_max_entries
    → entries (admit current previous current_at key now).0 ≤ typing_max_entries
unfolding admit entries
entries-admit current previous current_at key now h =
    ground (arith, length-insert key now current, length-delete_lt key previous)

-- From a typing limiter within its bound, every call leaves one within the bound.
pub entries-allow :
    (l : TypingLimiter) (key : String) (now : ℕ)
    → entries l ≤ typing_max_entries
    → entries (allow l key now).0 ≤ typing_max_entries
unfolding allow
entries-allow l key now h = entries-admit _ _ _ key now (omega (arith, rotate-entries l now))
