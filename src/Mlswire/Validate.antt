-- ===== src/Mlswire/Validate.antt =====
-- `ValidateKeyPackage` against the grammar of a KeyPackage (RFC 9420 sections 7.2 and 10).
use veritra.Prelude.{
  ℕ, ◌≤◌, ◌≡◌, refl, sym, ◌∙◌, ap, subst, true, false, ◌||◌, List, [], ◌∷◌, ◌++◌, append-nil, arith,
  ltb, ◌==◌, ◌%◌, length, Option, some, none, All, if◌then◌else◌, ◌≢◌, eq→==, ==→eq,
}
use veritra.Mlswire.Reader.{Reader}
use veritra.Mlswire.Vector.{IsByte, on}
use veritra.Mlswire.KeyPackage.{
  min_key_package_bytes, max_key_package_bytes, checked_vector, has_length, has_even_length,
  is_nonempty, valid_extensions, read_leaf_node, read_key_package, validate_key_package, at_end,
}
use veritra.Mlswire.Format.{
  Language, ◌⋅◌, Times, Bytes, Uint8, Uint16, VectorOf, Reads, Reads-chain,
}
use veritra.Mlswire.Extensions.{IsExtensions, valid_extensions_complete, valid_extensions_sound}
use veritra.Mlswire.Checks.{
  Decides, Reads-vector, Reads-uint16, Reads-uint8, Reads-skip, Reads-lists,
}

abbrev pub EvenLength : Language
EvenLength v = length v % 2 ≡ 0

abbrev pub NonEmpty : Language
NonEmpty v = length v ≢ 0

-- A leaf node whose source is key_package: the two keys, a basic credential with an identity, five
-- lists of 16-bit values, the source, the lifetime, the extensions, the signature.
abbrev pub LeafNode : Language
LeafNode =
    VectorOf (Bytes 32)
    ⋅ VectorOf (Bytes 32)
    ⋅ Uint16 1
    ⋅ VectorOf NonEmpty
    ⋅ Times 5 (VectorOf EvenLength)
    ⋅ Uint8 1
    ⋅ (Bytes 16 ⋅ VectorOf IsExtensions)
    ⋅ VectorOf (Bytes 64)

-- A key package of version 1 and suite 1: the init key, the leaf node, the extensions, the
-- signature.
abbrev pub KeyPackage : Language
KeyPackage =
    Uint16 1
    ⋅ Uint16 1
    ⋅ VectorOf (Bytes 32)
    ⋅ LeafNode
    ⋅ VectorOf IsExtensions
    ⋅ VectorOf (Bytes 64)

length-Decides : (n : ℕ) → Decides (has_length n) (Bytes n)
length-Decides n = record { yields = λ v b h. ==→eq _ _ h; holds = λ v h. eq→== _ _ h }

even-Decides : Decides has_even_length EvenLength
even-Decides = record { yields = λ v b h. ==→eq _ _ h; holds = λ v h. eq→== _ _ h }

nonempty-Decides : Decides is_nonempty NonEmpty
nonempty-Decides = record { yields = λ v b h. ground arith; holds = λ v h. ground arith }

IsExtensions-Decides : Decides valid_extensions IsExtensions
IsExtensions-Decides = record { yields = valid_extensions_sound; holds = valid_extensions_complete }

fixed : (n : ℕ) → Reads (checked_vector (has_length n)) (VectorOf (Bytes n))
fixed n = Reads-vector _ _ (length-Decides n)

read_leaf_node-Reads : Reads read_leaf_node LeafNode
unfolding read_leaf_node
read_leaf_node-Reads = Reads-chain _ _ _ _ (fixed 32) (
    Reads-chain _ _ _ _ (fixed 32) (
      Reads-chain _ _ _ _ (Reads-uint16 1 (omega arith) (omega arith)) (
        Reads-chain _ _ _ _ (Reads-vector _ _ nonempty-Decides) (
          Reads-chain _ _ _ _ (Reads-lists 5 EvenLength even-Decides) (
            Reads-chain _ _ _ _ (Reads-uint8 1 (omega arith))
              (Reads-chain _ _ _ _ (Reads-skip 16 _ _ IsExtensions-Decides) (fixed 64)))))))

read_key_package-Reads : Reads read_key_package KeyPackage
unfolding read_key_package
read_key_package-Reads = Reads-chain _ _ _ _ (Reads-uint16 1 (omega arith) (omega arith)) (
    Reads-chain _ _ _ _ (Reads-uint16 1 (omega arith) (omega arith)) (
      Reads-chain _ _ _ _ (fixed 32) (
        Reads-chain _ _ _ _ read_leaf_node-Reads
          (Reads-chain _ _ _ _ (Reads-vector _ _ IsExtensions-Decides) (fixed 64)))))

-- Bytes within the size bounds that are a key package of the grammar are accepted.
pub validate_key_package_complete :
    (b : List ℕ)
    → All IsByte b
    → min_key_package_bytes ≤ length b
    → length b ≤ max_key_package_bytes
    → KeyPackage b
    → validate_key_package b ≡ true
unfolding validate_key_package
validate_key_package_complete b bytes lo hi k =
    let done : read_key_package (on b) ≡ some (on []) =
      rw append-nil at (read_key_package-Reads.complete b [] bytes k) in
    ground (arith, done)

empty : (v : List ℕ) → (length v == 0) ≡ true → v ≡ []
empty [] h = refl
empty (x ∷ v) h = ground arith

accepted :
    (b : List ℕ) (o : Option Reader)
    → (if ltb (length b) min_key_package_bytes || ltb max_key_package_bytes (length b)
        then false
        else at_end o)
      ≡ true
    → (min_key_package_bytes ≤ length b)
      × (length b ≤ max_key_package_bytes)
      × (r : Reader) × (o ≡ some r)
      × (r.bytes ≡ [])
accepted b none h = ground arith
accepted b (some r) h = (ground arith, ground arith, r, refl, empty r.bytes (ground arith))

-- Bytes that the key-package check accepts are, within the size bounds, one string of an
-- independent grammar of key packages (version, suite, init key, leaf node, extensions without
-- repeated types, signature, minimal vector lengths) with nothing after it.
pub validate_key_package_sound :
    (b : List ℕ)
    → All IsByte b
    → validate_key_package b ≡ true
    → (min_key_package_bytes ≤ length b) × (length b ≤ max_key_package_bytes) × KeyPackage b
unfolding validate_key_package
validate_key_package_sound b bytes h =
    let (lo, hi, r, e, rest) = accepted b (read_key_package (on b)) h in
    let (x, split, k) = read_key_package-Reads.sound (on b) r bytes e in
    (lo, hi, subst KeyPackage (sym (split ∙ ap (λ (z : List ℕ). x ++ z) rest ∙ append-nil x)) k)
