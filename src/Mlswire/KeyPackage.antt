-- ===== src/Mlswire/KeyPackage.antt =====
-- `ValidateKeyPackage` and its parts (server/internal/mlswire/keypackage.go). A check that returns
-- false, or the error, is `none`; one that passes hands the reader on.
use veritra.Prelude.{
  ℕ, zero, suc, ◌*◌, ◌%◌, Bool, true, false, not, ◌&&◌, ◌||◌, Option, none, some, List, [], ◌∷◌,
  ltb, ◌==◌, if◌then◌else◌, length, ◌>>=◌,
}
use veritra.Mlswire.Reader.{Reader, take_bytes, uint8, uint16, vector}

abbrev pub min_key_package_bytes : ℕ
min_key_package_bytes = 64

abbrev pub max_key_package_bytes : ℕ
max_key_package_bytes = 48 * 1024

-- The constants of the header, all of one value or size in the source.
abbrev pub protocol_version_mls10 : ℕ
protocol_version_mls10 = 1

abbrev pub cipher_suite_x25519_aes128_ed25519 : ℕ
cipher_suite_x25519_aes128_ed25519 = 1

abbrev pub credential_type_basic : ℕ
credential_type_basic = 1

abbrev pub leaf_node_source_key_package : ℕ
leaf_node_source_key_package = 1

abbrev pub hpke_public_key_bytes : ℕ
hpke_public_key_bytes = 32

abbrev pub signature_public_bytes : ℕ
signature_public_bytes = 32

abbrev pub signature_bytes : ℕ
signature_bytes = 64

abbrev pub lifetime_bytes : ℕ
lifetime_bytes = 16

abbrev pub capability_lists_in_leaf : ℕ
capability_lists_in_leaf = 5

-- `if v := r.vector(); !r.ok || !p(v) { return false }`
unfoldable pub checked_vector : (List ℕ → Bool) → Reader → Option Reader
checked_vector p r = let (v, r') = vector r in if r'.ok && p v then some r' else none

-- `if r.uint16() != k { return false }`
unfoldable pub checked_uint16 : ℕ → Reader → Option Reader
checked_uint16 k r = let (n, r') = uint16 r in if n == k then some r' else none

unfoldable pub checked_uint8 : ℕ → Reader → Option Reader
checked_uint8 k r = let (n, r') = uint8 r in if n == k then some r' else none

abbrev pub has_length : ℕ → List ℕ → Bool
has_length n v = length v == n

abbrev pub has_even_length : List ℕ → Bool
has_even_length v = length v % 2 == 0

abbrev pub is_nonempty : List ℕ → Bool
is_nonempty v = not (length v == 0)

-- The map `seen`, by its keys.
abbrev pub seen_before : ℕ → List ℕ → Bool
seen_before t [] = false
seen_before t (s ∷ seen) = s == t || seen_before t seen

-- The loop of `validExtensions`. Each round takes a byte or stops the loop, so the length of the
-- input and one more round are enough.
unfoldable pub extension_loop : ℕ → List ℕ → Reader → Bool
extension_loop zero seen r = false
extension_loop (suc fuel) seen r =
    let (t, r1) = uint16 r in
    let (v, r2) = vector r1 in
    let rest = extension_loop fuel (t ∷ seen) r2 in
    if r.ok && ltb 0 (length r.bytes) then (if seen_before t seen then false else rest) else r.ok

unfoldable pub valid_extensions : List ℕ → Bool
valid_extensions b = extension_loop (suc (length b)) [] (record { bytes = b; ok = true })

-- The loop over the capability lists, each of 16-bit values.
unfoldable pub capability_lists : ℕ → Reader → Option Reader
capability_lists zero r = some r
capability_lists (suc n) r = do r' ← checked_vector has_even_length r; capability_lists n r'

unfoldable pub read_leaf_node : Reader → Option Reader
read_leaf_node r = do
  r ← checked_vector (has_length hpke_public_key_bytes) r
  r ← checked_vector (has_length signature_public_bytes) r
  r ← checked_uint16 credential_type_basic r
  r ← checked_vector is_nonempty r
  r ← capability_lists capability_lists_in_leaf r
  r ← checked_uint8 leaf_node_source_key_package r
  r ← checked_vector valid_extensions (take_bytes lifetime_bytes r).1
  checked_vector (has_length signature_bytes) r

-- The checks between the bounds on the length and the end of the input.
unfoldable pub read_key_package : Reader → Option Reader
read_key_package r = do
  r ← checked_uint16 protocol_version_mls10 r
  r ← checked_uint16 cipher_suite_x25519_aes128_ed25519 r
  r ← checked_vector (has_length hpke_public_key_bytes) r
  r ← read_leaf_node r
  r ← checked_vector valid_extensions r
  checked_vector (has_length signature_bytes) r

abbrev pub at_end : Option Reader → Bool
at_end none = false
at_end (some r) = length r.bytes == 0

-- True where the function returns no error.
unfoldable pub validate_key_package : List ℕ → Bool
validate_key_package b =
    if ltb (length b) min_key_package_bytes || ltb max_key_package_bytes (length b)
    then false
    else at_end (read_key_package (record { bytes = b; ok = true }))
