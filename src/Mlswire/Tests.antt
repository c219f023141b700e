-- ===== src/Mlswire/Tests.antt =====
-- A key package on which the checks and their theorems run.
use veritra.Prelude.{
  ℕ, ◌≤◌, ◌≡◌, refl, Bool, true, ◌&&◌, List, [], ◌∷◌, ◌++◌, arith, ltb, ltb→lt, &&-parts, All,
  length, replicate,
}
use veritra.Mlswire.Reader.{uint8, uint16, take_bytes, vector, long_vector}
use veritra.Mlswire.Vector.{
  IsByte, TookVector, on, encode_vector, vector-encode_vector, vector-TookVector,
}
use veritra.Mlswire.KeyPackage.{
  min_key_package_bytes, max_key_package_bytes, validate_key_package, read_key_package,
  read_leaf_node, checked_vector, checked_uint16, checked_uint8, capability_lists, valid_extensions,
  extension_loop,
}
use veritra.Mlswire.Extensions.{IsExtensions, valid_extensions_sound}
use veritra.Mlswire.Validate.{KeyPackage, validate_key_package_complete, validate_key_package_sound}

all_bytes : List ℕ → Bool
all_bytes [] = true
all_bytes (b ∷ bs) = ltb b 256 && all_bytes bs

all_bytes-All : (bs : List ℕ) → all_bytes bs ≡ true → All IsByte bs
unfolding all_bytes
all_bytes-All [] h = tt
all_bytes-All (b ∷ bs) h =
    let (x, y) = &&-parts (ltb b 256) (all_bytes bs) h in (ltb→lt b 256 x, all_bytes-All bs y)

abbrev key : ℕ → List ℕ
key b = 32 ∷ replicate 32 b

abbrev sig : ℕ → List ℕ
sig b = 64 ∷ 64 ∷ replicate 64 b

abbrev two_extensions : List ℕ
two_extensions = 0 ∷ 3 ∷ 2 ∷ 9 ∷ 9 ∷ 10 ∷ 10 ∷ 0 ∷ []

abbrev sample : List ℕ
sample =
    0
    ∷ 1
    ∷ 0
    ∷ 1
    ∷ (key 5
        ++ (key 6
            ++ (key 7
                ++ (0
                    ∷ 1
                    ∷ 2
                    ∷ b'i'
                    ∷ b'd'
                    ∷ 2
                    ∷ 0
                    ∷ 1
                    ∷ 0
                    ∷ 0
                    ∷ 4
                    ∷ 1
                    ∷ 2
                    ∷ 3
                    ∷ 4
                    ∷ 0
                    ∷ 1
                    ∷ (replicate 16 0 ++ (8 ∷ (two_extensions ++ (sig 8 ++ (0 ∷ sig 9)))))))))

sample_accepted : validate_key_package sample ≡ true
unfolding validate_key_package read_key_package read_leaf_node checked_vector checked_uint16
    checked_uint8 capability_lists valid_extensions extension_loop vector uint8 uint16 take_bytes
    long_vector
sample_accepted = refl

sample_bytes : All IsByte sample
unfolding all_bytes
sample_bytes = all_bytes-All sample refl

validate_key_package_sound_example :
    (min_key_package_bytes ≤ length sample)
    × (length sample ≤ max_key_package_bytes)
    × KeyPackage sample
validate_key_package_sound_example = validate_key_package_sound sample sample_bytes sample_accepted

validate_key_package_complete_example : validate_key_package sample ≡ true
validate_key_package_complete_example =
    validate_key_package_complete sample sample_bytes (omega arith) (omega arith)
      (validate_key_package_sound sample sample_bytes sample_accepted).2

vector-encode_vector_example :
    vector (on (encode_vector (replicate 70 1) ++ 4 ∷ [])) ≡ (replicate 70 1, on (4 ∷ []))
vector-encode_vector_example = vector-encode_vector (replicate 70 1) (4 ∷ []) (omega arith)

vector-TookVector_example : TookVector (key 5) (vector (on (key 5)))
unfolding all_bytes vector uint8 take_bytes
vector-TookVector_example = vector-TookVector (on (key 5)) (all_bytes-All (key 5) refl) refl

two_extensions-IsExtensions : IsExtensions two_extensions
unfolding all_bytes valid_extensions extension_loop uint16 vector uint8 take_bytes
two_extensions-IsExtensions =
    valid_extensions_sound two_extensions (all_bytes-All two_extensions refl) refl

two_accepted : valid_extensions two_extensions ≡ true
unfolding valid_extensions extension_loop uint16 vector uint8 take_bytes
two_accepted = refl

two_bytes : All IsByte two_extensions
unfolding all_bytes
two_bytes = all_bytes-All two_extensions refl
