-- ===== src/Mlswire/Vector.antt =====
-- What one read of the reader accepts, against the vector encoding of RFC 9420 section 2.1.2.
use veritra.Prelude.{
  ℕ, ◌+◌, ◌*◌, ◌/◌, ◌%◌, ◌^◌, ◌≤◌, ◌<◌, ◌≡◌, refl, ap, ◌∙◌, Bool, true, false, List, [], ◌∷◌, ◌++◌,
  arith, ltb, lt→ltb, le→ltb_false, tests, le→leb, if◌then◌else◌, length, All, length-take,
  take-append-drop, take-length-append, drop-length-append, length-append, Bool-cases, inl, inr,
  append_assoc,
}
use veritra.Mlswire.Reader.{Reader, take_bytes, uint8, uint16, vector, long_vector, failed}
use native.Mathlib.Nat.{mod-eq_of_lt}

abbrev pub IsByte : ℕ → Type 0
IsByte b = b < 256

abbrev pub on : List ℕ → Reader
on bs = record { bytes = bs; ok = true }

-- A successful read took what stood in front.
pub record Took (r : Reader) (v : List ℕ) (r' : Reader) : Type 0 where
  pub was_ok : r.ok ≡ true
  pub is_ok : r'.ok ≡ true
  pub split : r.bytes ≡ v ++ r'.bytes

pub take_bytes-Took :
    (n : ℕ) (r : Reader)
    → (take_bytes n r).1.ok ≡ true
    → Took r (take_bytes n r).0 (take_bytes n r).1 × (length (take_bytes n r).0 ≡ n)
unfolding take_bytes
take_bytes-Took n r h = ground (arith, length-take n r.bytes, take-append-drop n r.bytes)

pub take_bytes-append : (v rest : List ℕ) → take_bytes (length v) (on (v ++ rest)) ≡ (v, on rest)
unfolding take_bytes
take_bytes-append v rest =
    rw (le→leb (length v) (length (v ++ rest)) (omega (arith, length-append v rest)))
      (rw (take-length-append, drop-length-append) refl)

-- The minimal encoding of a length: 6, 14 or 30 bits behind the two that give the size.
unfoldable pub encode_length : ℕ → List ℕ
encode_length n =
    if ltb n (2 ^ 6)
    then n ∷ []
    else if ltb n (2 ^ 14)
    then (64 + n / 256) ∷ n % 256 ∷ []
    else (128 + n / 2 ^ 24) ∷ n / 2 ^ 16 % 256 ∷ n / 2 ^ 8 % 256 ∷ n % 256 ∷ []

unfoldable pub encode_vector : List ℕ → List ℕ
unfolding encode_length
encode_vector v = encode_length (length v) ++ v

-- One byte or two that the reader takes in front.
pub uint8-on : (b : ℕ) (rest : List ℕ) → uint8 (on (b ∷ rest)) ≡ (b, on rest)
unfolding uint8 take_bytes
uint8-on b rest = ground arith

pub uint16-on : (a b : ℕ) (rest : List ℕ) → uint16 (on (a ∷ b ∷ rest)) ≡ (a * 256 + b, on rest)
unfolding uint16 take_bytes
uint16-on a b rest = ground arith

-- What `vector` does for each size, from its first byte on.
vector_short :
    (first : ℕ) (bs : List ℕ) → first < 64 → vector (on (first ∷ bs)) ≡ take_bytes first (on bs)
unfolding vector
vector_short first bs h = rw (uint8-on, lt→ltb first 64 h) (rw (mod-eq_of_lt h) refl)

take_one : (b : ℕ) (bs : List ℕ) → take_bytes 1 (on (b ∷ bs)) ≡ (b ∷ [], on bs)
take_one b bs = take_bytes-append (b ∷ []) bs

take_three :
    (b c d : ℕ) (bs : List ℕ) → take_bytes 3 (on (b ∷ c ∷ d ∷ bs)) ≡ (b ∷ c ∷ d ∷ [], on bs)
take_three b c d bs = take_bytes-append (b ∷ c ∷ d ∷ []) bs

abbrev at_least : ℕ → ℕ → List ℕ → List ℕ × Reader
at_least least n bs = if ltb n least then ([], failed (on bs)) else take_bytes n (on bs)

vector_mid :
    (first b : ℕ) (bs : List ℕ)
    → 64 ≤ first
    → first < 128
    → vector (on (first ∷ b ∷ bs)) ≡ at_least 64 (first % 64 * 256 + b) bs
unfolding vector long_vector
vector_mid first b bs l h =
    rw (uint8-on, le→ltb_false first 64 l, lt→ltb first 128 h, take_one) refl

vector_long :
    (first b c d : ℕ) (bs : List ℕ)
    → 128 ≤ first
    → first < 192
    → vector (on (first ∷ b ∷ c ∷ d ∷ bs))
      ≡ at_least 16384 (((first % 64 * 256 + b) * 256 + c) * 256 + d) bs
unfolding vector long_vector
vector_long first b c d bs l h =
    rw
      (
        uint8-on,
        le→ltb_false first 64 (omega arith),
        le→ltb_false first 128 l,
        lt→ltb first 192 h,
        take_three,
      )
      refl

at_least_back :
    (least n : ℕ) (v rest : List ℕ)
    → n ≡ length v
    → least ≤ n
    → at_least least n (v ++ rest) ≡ (v, on rest)
at_least_back least n v rest e l = rw (le→ltb_false n least l, e) (take_bytes-append v rest)

-- A vector shorter than 2^30 in its minimal encoding is read back, with what follows left in the
-- reader.
pub vector-encode_vector :
    (v rest : List ℕ) → length v < 2 ^ 30 → vector (on (encode_vector v ++ rest)) ≡ (v, on rest)
unfolding encode_vector
vector-encode_vector v rest h = elim (Bool-cases (ltb (length v) 64)) [
  | inl s ↦ rw s (vector_short (length v) (v ++ rest) (omega tests) ∙ take_bytes-append v rest)
  | inr s ↦ elim (Bool-cases (ltb (length v) 16384)) [
    | inl m ↦
        rw (s, m)
          (vector_mid _ _ (v ++ rest) (omega tests) (omega tests)
            ∙ at_least_back 64 _ v rest (omega tests) (omega tests))
    | inr m ↦
        rw (s, m)
          (vector_long _ _ _ _ (v ++ rest) (omega tests) (omega tests)
            ∙ at_least_back 16384 _ v rest (omega tests) (omega tests))
  ]
]

-- A successful read of a vector took its minimal encoding from the front.
pub record TookVector (bs : List ℕ) (x : List ℕ × Reader) : Type 0 where
  pub is_ok : x.1.ok ≡ true
  pub split : bs ≡ encode_vector x.0 ++ x.1.bytes
  pub short : length x.0 < 2 ^ 30

took_exactly :
    (n : ℕ) (bs head tail : List ℕ)
    → head ≡ encode_length n
    → bs ≡ head ++ tail
    → n < 2 ^ 30
    → (take_bytes n (on tail)).1.ok ≡ true
    → TookVector bs (take_bytes n (on tail))
unfolding encode_vector
took_exactly n bs head tail eh eb small h =
    let (t, len) = take_bytes-Took n (on tail) h in
    record {
      is_ok = h;
      split = eb ∙ ap (λ (z : List ℕ). head ++ z) t.split ∙ rw (eh, len, append_assoc) refl;
      short = omega (arith, len);
    }

took_at_least :
    (least n : ℕ) (bs head tail : List ℕ)
    → (least ≤ n → head ≡ encode_length n)
    → bs ≡ head ++ tail
    → n < 2 ^ 30
    → (at_least least n tail).1.ok ≡ true
    → TookVector bs (at_least least n tail)
took_at_least least n bs head tail eh eb small = elim (Bool-cases (ltb n least)) [
  | inl e ↦ rw e (λ h. cc)
  | inr e ↦ rw e (λ h. took_exactly n bs head tail (eh (omega tests)) eb small h)
]

-- The inputs on which no vector is read: nothing, a truncated length, the prefix 0b11.
vector_empty : (vector (on [])).1.ok ≡ false
unfolding vector uint8 take_bytes
vector_empty = refl

vector_mid_cut : (first : ℕ) → 64 ≤ first → first < 128 → (vector (on (first ∷ []))).1.ok ≡ false
unfolding vector long_vector take_bytes
vector_mid_cut first l h = rw (uint8-on, le→ltb_false first 64 l, lt→ltb first 128 h) refl

vector_long_cut :
    (first : ℕ) (bs : List ℕ)
    → 128 ≤ first
    → first < 192
    → length bs < 3
    → (vector (on (first ∷ bs))).1.ok ≡ false
unfolding vector long_vector take_bytes
vector_long_cut first bs l h few =
    rw (uint8-on, le→ltb_false first 64 (omega arith), le→ltb_false first 128 l, lt→ltb first 192 h)
      (ground arith)

vector_reserved : (first : ℕ) (bs : List ℕ) → 192 ≤ first → (vector (on (first ∷ bs))).1.ok ≡ false
unfolding vector
vector_reserved first bs l =
    rw
      (
        uint8-on,
        le→ltb_false first 64 (omega arith),
        le→ltb_false first 128 (omega arith),
        le→ltb_false first 192 l,
      )
      refl

abbrev Sound : List ℕ → Type 0
Sound bs = (vector (on bs)).1.ok ≡ true → TookVector bs (vector (on bs))

Sound-cut : (bs : List ℕ) → (vector (on bs)).1.ok ≡ false → Sound bs
Sound-cut bs e h = cc

Sound-short : (first : ℕ) (bs : List ℕ) → first < 64 → Sound (first ∷ bs)
unfolding encode_length
Sound-short first bs l = rw (vector_short first bs l) (
    took_exactly first (first ∷ bs) (first ∷ []) bs (rw (lt→ltb first 64 l) refl) refl
      (omega arith))

Sound-mid :
    (first : ℕ) (bs : List ℕ) → All IsByte bs → 64 ≤ first → first < 128 → Sound (first ∷ bs)
unfolding encode_length
Sound-mid first [] b l h = Sound-cut _ (vector_mid_cut first l h)
Sound-mid first (c ∷ bs) b l h = rw (vector_mid first c bs l h) (
    took_at_least 64 _ (first ∷ c ∷ bs) (first ∷ c ∷ []) bs
      (λ m.
        rw (le→ltb_false _ 64 m, lt→ltb (first % 64 * 256 + c) 16384 (omega (arith, b.0)))
          (ground (arith, b.0)))
      refl (omega (arith, b.0)))

Sound-long :
    (first : ℕ) (bs : List ℕ) → All IsByte bs → 128 ≤ first → first < 192 → Sound (first ∷ bs)
unfolding encode_length
Sound-long first [] b l h = Sound-cut _ (vector_long_cut first _ l h (omega arith))
Sound-long first (c ∷ []) b l h = Sound-cut _ (vector_long_cut first _ l h (omega arith))
Sound-long first (c ∷ d ∷ []) b l h = Sound-cut _ (vector_long_cut first _ l h (omega arith))
Sound-long first (c ∷ d ∷ e ∷ bs) b l h =
    let n : ℕ = ((first % 64 * 256 + c) * 256 + d) * 256 + e in
    rw (vector_long first c d e bs l h) (
      took_at_least 16384 n (first ∷ c ∷ d ∷ e ∷ bs) (first ∷ c ∷ d ∷ e ∷ []) bs
        (λ m. rw (le→ltb_false n 64 (omega arith), le→ltb_false n 16384 m) (ground (arith, b))) refl
        (omega (arith, b)))

vector-Sound : (bs : List ℕ) → All IsByte bs → Sound bs
vector-Sound [] b = Sound-cut [] vector_empty
vector-Sound (first ∷ bs) b = elim (Bool-cases (ltb first 64)) [
  | inl s ↦ Sound-short first bs (omega tests)
  | inr s ↦ elim (Bool-cases (ltb first 128)) [
    | inl m ↦ Sound-mid first bs b.1 (omega tests) (omega tests)
    | inr m ↦ elim (Bool-cases (ltb first 192)) [
      | inl t ↦ Sound-long first bs b.1 (omega tests) (omega tests)
      | inr t ↦ Sound-cut _ (vector_reserved first bs (omega tests))
    ]
  ]
]

pub vector_failed : (r : Reader) → r.ok ≡ false → (vector r).1.ok ≡ false
unfolding vector uint8 take_bytes
vector_failed r e = ground arith

vector_from :
    (bs : List ℕ) (k : Bool)
    → All IsByte bs
    → (vector (record { bytes = bs; ok = k })).1.ok ≡ true
    → TookVector bs (vector (record { bytes = bs; ok = k }))
vector_from bs true b h = vector-Sound bs b h
vector_from bs false b h = cc (vector_failed (record { bytes = bs; ok = false }) refl)

-- A read of a vector from bytes that succeeds took the minimal encoding of a vector from the
-- front of the reader.
pub vector-TookVector :
    (r : Reader) → All IsByte r.bytes → (vector r).1.ok ≡ true → TookVector r.bytes (vector r)
vector-TookVector r b h = vector_from r.bytes r.ok b h
