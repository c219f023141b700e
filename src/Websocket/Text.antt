-- ===== src/Websocket/Text.antt =====
-- The checks of text in the frame reader (server/internal/realtime/websocket.go). The package
-- unicode/utf8 is a parameter.
use veritra.Prelude.{
  ℕ, zero, suc, ◌+◌, Bool, true, false, ◌&&◌, ◌||◌, not, List, [], ◌∷◌, ◌++◌, ltb, ◌==◌,
  if◌then◌else◌, length, drop,
}

-- What `checkUTF8Prefix` and the frame reader use of unicode/utf8: DecodeRune returns the rune and
-- its size.
pub record Utf8 : Type 0 where
  pub valid : List ℕ → Bool
  pub full_rune : List ℕ → Bool
  pub decode_rune : List ℕ → ℕ × ℕ

abbrev pub rune_self : ℕ
rune_self = 128

abbrev pub utf_max : ℕ
utf_max = 4

abbrev pub rune_error : ℕ
rune_error = 65533

-- r == utf8.RuneError && size == 1
abbrev pub is_error : ℕ × ℕ → Bool
is_error (r, size) = r == rune_error && size == 1

-- Appends 0x80 until the probe is a full rune or has four bytes; four rounds are enough.
unfoldable pub complete_probe : Utf8 → ℕ → List ℕ → List ℕ
complete_probe u zero probe = probe
complete_probe u (suc fuel) probe =
    let longer = complete_probe u fuel (probe ++ 128 ∷ []) in
    if ltb (length probe) utf_max && not (u.full_rune probe) then longer else probe

abbrev pub is_candidate : Utf8 → List ℕ → Bool
is_candidate u tail =
    let probe = complete_probe u utf_max tail in
    not (is_error (u.decode_rune probe)) && (u.decode_rune probe).1 == length probe

unfoldable pub valid_utf8_start : Utf8 → List ℕ → Bool
valid_utf8_start u [] = is_candidate u []
valid_utf8_start u (b ∷ []) =
    is_candidate u (b ∷ 128 ∷ [])
    || (is_candidate u (b ∷ 144 ∷ []) || is_candidate u (b ∷ 160 ∷ []))
valid_utf8_start u (b ∷ c ∷ bs) = is_candidate u (b ∷ c ∷ bs)

-- The loop from offset i, over b[i:]. A size is at least 1, so the length of the tail is fuel
-- enough.
unfoldable pub check_from : Utf8 → ℕ → ℕ → List ℕ → ℕ × Bool
check_from u zero i tail = (i, true)
check_from u (suc fuel) i [] = (i, true)
check_from u (suc fuel) i (b ∷ bs) =
    let (r, size) = u.decode_rune (b ∷ bs) in
    let next = check_from u fuel (i + 1) bs in
    let after = check_from u fuel (i + size) (drop size (b ∷ bs)) in
    if ltb b rune_self
    then next
    else if not (u.full_rune (b ∷ bs))
    then (i, valid_utf8_start u (b ∷ bs))
    else if is_error (r, size)
    then (i, false)
    else after

unfoldable pub check_utf8_prefix : Utf8 → List ℕ → ℕ → ℕ × Bool
check_utf8_prefix u b from = check_from u (length b) from (drop from b)
