-- ===== src/Prelude/Fields.antt =====
-- Fields of bytes behind their lengths, and that they can be told apart again.
use veritra.Prelude.{
  ℕ, ◌/◌, ◌%◌, ◌≡◌, ◌<◌, refl, sym, ◌∙◌, List, [], ◌∷◌, ◌++◌, length, arith, append_assoc,
}
use veritra.Prelude.Rows.{Bytes}

-- binary.BigEndian.PutUint16 of a length
abbrev pub put_uint16 : ℕ → Bytes
put_uint16 n = n % 65536 / 256 ∷ n % 256 ∷ []

-- binary.BigEndian.PutUint32
abbrev pub put_uint32 : ℕ → Bytes
put_uint32 n = n % 4294967296 / 16777216 ∷ n / 65536 % 256 ∷ n / 256 % 256 ∷ n % 256 ∷ []

-- A field behind its length, which `put` writes.
abbrev pub prefixed_by : (ℕ → Bytes) → Bytes → Bytes
prefixed_by put field = put (length field) ++ field

cons_injective : {A : Type 0} (a b : A) (xs ys : List A) → a ∷ xs ≡ b ∷ ys → (a ≡ b) × (xs ≡ ys)
cons_injective a b xs ys h = (cc, cc)

-- Two lists that start with parts of one length have equal parts.
pub append_cancel :
    {A : Type 0} (front other : List A) (xs ys : List A)
    → length front ≡ length other
    → front ++ xs ≡ other ++ ys
    → (front ≡ other) × (xs ≡ ys)
append_cancel [] [] xs ys l h = (refl, h)
append_cancel [] (b ∷ other) xs ys l h = absurd (omega arith)
append_cancel (a ∷ front) [] xs ys l h = absurd (omega arith)
append_cancel (a ∷ front) (b ∷ other) xs ys l h =
    let (head, tail) = cons_injective a b (front ++ xs) (other ++ ys) h in
    let (fronts, rests) = append_cancel front other xs ys (omega arith) tail in
    (rw (head, fronts) refl, rests)

-- A way to write lengths below a bound: as many bytes for each, and different ones.
pub record IsLengthCode (put : ℕ → Bytes) (bound : ℕ) : Type 0 where
  pub same_width : (m n : ℕ) → length (put m) ≡ length (put n)
  pub injective : (m n : ℕ) → m < bound → n < bound → put m ≡ put n → m ≡ n

bytes_of_16 :
    (m n : ℕ)
    → m < 65536
    → n < 65536
    → m % 65536 / 256 ≡ n % 65536 / 256
    → m % 256 ≡ n % 256
    → m ≡ n
bytes_of_16 m n a b h l = omega arith

pub put_uint16-IsLengthCode : IsLengthCode put_uint16 65536
put_uint16-IsLengthCode = record {
  same_width = λ m n. refl;
  injective = λ m n a b h.
      let (high, rest) = cons_injective _ _ _ _ h in
      let (low, end) = cons_injective _ _ _ _ rest in bytes_of_16 m n a b high low;
}

bytes_of_32 :
    (m n : ℕ)
    → m < 4294967296
    → n < 4294967296
    → m % 4294967296 / 16777216 ≡ n % 4294967296 / 16777216
    → m / 65536 % 256 ≡ n / 65536 % 256
    → m / 256 % 256 ≡ n / 256 % 256
    → m % 256 ≡ n % 256
    → m ≡ n
bytes_of_32 m n a b h i j l = omega arith

pub put_uint32-IsLengthCode : IsLengthCode put_uint32 4294967296
put_uint32-IsLengthCode = record {
  same_width = λ m n. refl;
  injective = λ m n a b h.
      let (first, rest) = cons_injective _ _ _ _ h in
      let (second, more) = cons_injective _ _ _ _ rest in
      let (third, last) = cons_injective _ _ _ _ more in
      let (fourth, end) = cons_injective _ _ _ _ last in
      bytes_of_32 m n a b first second third fourth;
}

-- Two texts that start with a field behind its length have the same field and the same rest.
pub prefixed_by_cancel :
    (put : ℕ → Bytes) (bound : ℕ) (f g x y : Bytes)
    → IsLengthCode put bound
    → length f < bound
    → length g < bound
    → prefixed_by put f ++ x ≡ prefixed_by put g ++ y
    → (f ≡ g) × (x ≡ y)
prefixed_by_cancel put bound f g x y code in_f in_g h =
    let (lengths, rest) =
      append_cancel (put (length f)) (put (length g)) (f ++ x) (g ++ y)
        (code.same_width (length f) (length g))
        (sym (append_assoc (put (length f)) f x) ∙ h ∙ append_assoc (put (length g)) g y) in
    append_cancel f g x y (code.injective (length f) (length g) in_f in_g lengths) rest
