-- ===== src/Mlswire/Reader.antt =====
-- The reader of TLS presentation-language values (server/internal/mlswire/keypackage.go). Bytes are
-- numbers. Go's methods change the receiver; here they return it.
use veritra.Prelude.{
  ℕ, ◌+◌, ◌*◌, ◌%◌, ◌^◌, Bool, false, ◌&&◌, List, [], ◌∷◌, ltb, leb, if◌then◌else◌, length, take,
  drop,
}

pub record Reader : Type 0 where
  pub bytes : List ℕ  -- the field `data`
  pub ok : Bool

abbrev pub failed : Reader → Reader
failed r = record r { ok = false }

-- The length is never negative, so the test `n < 0` has no counterpart.
unfoldable pub take_bytes : ℕ → Reader → List ℕ × Reader
take_bytes n r =
    if r.ok && leb n (length r.bytes)
    then (take n r.bytes, record r { bytes = drop n r.bytes })
    else ([], failed r)

-- b[i]; the callers have checked the length.
abbrev pub byte_at : List ℕ → ℕ
byte_at [] = 0
byte_at (b ∷ bs) = b

unfoldable pub uint8 : Reader → ℕ × Reader
uint8 r = let (b, r') = take_bytes 1 r in if r'.ok then (byte_at b, r') else (0, r')

unfoldable pub uint16 : Reader → ℕ × Reader
uint16 r =
    let (b, r') = take_bytes 2 r in
    if r'.ok then (byte_at b * 256 + byte_at (drop 1 b), r') else (0, r')

abbrev pub big_endian : ℕ → List ℕ → ℕ
big_endian acc [] = acc
big_endian acc (b ∷ bs) = big_endian (acc * 256 + b) bs

-- The second and third case of the switch: the bytes of the length that follow the first, and the
-- least length that needs so many.
unfoldable pub long_vector : ℕ → ℕ → ℕ → Reader → List ℕ × Reader
long_vector high more least r =
    let (rest, r') = take_bytes more r in
    let len = big_endian high rest in
    if r'.ok then (if ltb len least then ([], failed r') else take_bytes len r') else ([], r')

-- A length in 1, 2 or 4 bytes whose top two bits give the size, then that many bytes.
unfoldable pub vector : Reader → List ℕ × Reader
vector r =
    let (first, r') = uint8 r in
    let len = first % 64 in
    if r'.ok
    then (if ltb first 64
        then take_bytes len r'
        else if ltb first 128
        then long_vector len 1 (2 ^ 6) r'
        else if ltb first 192
        then long_vector len 3 (2 ^ 14) r'
        else ([], failed r'))
    else ([], r')
