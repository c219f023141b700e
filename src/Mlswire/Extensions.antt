-- ===== src/Mlswire/Extensions.antt =====
-- The extension lists of a key package: `validExtensions` against a list of extensions.
use veritra.Prelude.{
  ℕ, zero, suc, ◌+◌, ◌*◌, ◌/◌, ◌%◌, ◌^◌, ◌<◌, ◌≡◌, refl, sym, ◌∙◌, subst, Bool, true, false, List,
  [], ◌∷◌, ◌++◌, arith, lt→ltb, if◌then◌else◌, length, length-append, All, All-append_right,
  Bool-cases, inl, inr,
}
use veritra.Mlswire.Reader.{Reader, uint16, take_bytes, vector, failed}
use veritra.Mlswire.Vector.{
  IsByte, on, uint16-on, encode_vector, vector-encode_vector, vector-TookVector, vector_failed,
}
use veritra.Mlswire.KeyPackage.{extension_loop, valid_extensions, seen_before}

pub record Extension : Type 0 where
  pub kind : ℕ  -- the extension's type
  pub body : List ℕ

abbrev pub encode_extensions : List Extension → List ℕ
encode_extensions [] = []
encode_extensions (e ∷ es) =
    e.kind / 256 ∷ e.kind % 256 ∷ (encode_vector e.body ++ encode_extensions es)

-- Types and bodies are in range, and no type is among those seen or repeated.
abbrev pub AreFresh : List ℕ → List Extension → Type 0
AreFresh seen [] = Unit
AreFresh seen (e ∷ es) =
    (e.kind < 65536)
    × (length e.body < 2 ^ 30)
    × (seen_before e.kind seen ≡ false)
    × AreFresh (e.kind ∷ seen) es

abbrev pub IsExtensions : List ℕ → Type 0
IsExtensions b = (es : List Extension) × (b ≡ encode_extensions es) × AreFresh [] es

loop_failed :
    (fuel : ℕ) (seen : List ℕ) (r : Reader) → r.ok ≡ false → extension_loop fuel seen r ≡ false
unfolding extension_loop
loop_failed zero seen r e = refl
loop_failed (suc fuel) seen r e = rw e

loop_zero : (seen : List ℕ) (r : Reader) → extension_loop zero seen r ≡ false
unfolding extension_loop
loop_zero seen r = refl

loop_end : (fuel : ℕ) (seen : List ℕ) → extension_loop (suc fuel) seen (on []) ≡ true
unfolding extension_loop
loop_end fuel seen = refl

loop_one :
    (fuel a b : ℕ) (seen bs : List ℕ)
    → extension_loop (suc fuel) seen (on (a ∷ b ∷ bs)) ≡ (
        if seen_before (a * 256 + b) seen
        then false
        else extension_loop fuel ((a * 256 + b) ∷ seen) (vector (on bs)).1)
unfolding extension_loop
loop_one fuel a b seen bs = rw (uint16-on, lt→ltb 0 (suc (suc (length bs))) (omega arith)) refl

loop_cut : (fuel a : ℕ) (seen : List ℕ) → extension_loop (suc fuel) seen (on (a ∷ [])) ≡ false
unfolding extension_loop uint16 take_bytes
loop_cut fuel a seen =
    let stuck : Reader = failed (on (a ∷ [])) in
    ground (arith, vector_failed stuck refl, loop_failed fuel (0 ∷ seen) (vector stuck).1)

passed :
    (t : ℕ) (seen : List ℕ) (rest : Bool)
    → (if seen_before t seen then false else rest) ≡ true
    → (seen_before t seen ≡ false) × (rest ≡ true)
passed t seen rest h = ground arith

ran : (fuel : ℕ) (seen : List ℕ) (r : Reader) → extension_loop fuel seen r ≡ true → r.ok ≡ true
ran fuel seen r h = elim (Bool-cases r.ok) [ inl e ↦ e | inr e ↦ cc (loop_failed fuel seen r e) ]

on-bytes : (r : Reader) → r.ok ≡ true → r ≡ on r.bytes
on-bytes r e = ground arith

loop_sound :
    (fuel : ℕ) (seen bs : List ℕ)
    → All IsByte bs
    → extension_loop fuel seen (on bs) ≡ true
    → (es : List Extension) × (bs ≡ encode_extensions es) × AreFresh seen es
loop_sound zero seen bs b h = cc (loop_zero seen (on bs))
loop_sound (suc fuel) seen [] b h = ([], refl, tt)
loop_sound (suc fuel) seen (x ∷ []) b h = cc (loop_cut fuel x seen)
loop_sound (suc fuel) seen (x ∷ y ∷ bs) b h =
    let t : ℕ = x * 256 + y in
    let (fresh, more) = passed t seen _ (sym (loop_one fuel x y seen bs) ∙ h) in
    let ok : (vector (on bs)).1.ok ≡ true = ran fuel (t ∷ seen) (vector (on bs)).1 more in
    let took = vector-TookVector (on bs) b.1.1 ok in
    let (es, split, rest) =
      loop_sound fuel (t ∷ seen) (vector (on bs)).1.bytes
        (All-append_right IsByte (encode_vector (vector (on bs)).0) (vector (on bs)).1.bytes
          (subst (All IsByte) took.split b.1.1))
        (subst (λ z. extension_loop fuel (t ∷ seen) z ≡ true) (on-bytes _ ok) more) in
    (
      record { kind = t; body = (vector (on bs)).0 } ∷ es,
      ground (arith, b, took.split, split),
      (omega (arith, b), took.short, fresh, rest),
    )

loop_complete :
    (fuel : ℕ) (seen : List ℕ) (es : List Extension)
    → AreFresh seen es
    → length (encode_extensions es) < fuel
    → extension_loop fuel seen (on (encode_extensions es)) ≡ true
loop_complete zero seen es fresh l = absurd (omega arith)
loop_complete (suc fuel) seen [] fresh l = loop_end fuel seen
loop_complete (suc fuel) seen (e ∷ es) fresh l =
    let kind : e.kind / 256 * 256 + e.kind % 256 ≡ e.kind = omega arith in
    let short = length-append (encode_vector e.body) (encode_extensions es) in
    rw (loop_one, kind, fresh.2, vector-encode_vector e.body (encode_extensions es) fresh.1)
      (loop_complete fuel (e.kind ∷ seen) es fresh.3 (omega (arith, short)))

-- The encoding of a list of extensions with distinct types is accepted; the fuel of the loop is
-- enough.
pub valid_extensions_complete : (b : List ℕ) → IsExtensions b → valid_extensions b ≡ true
unfolding valid_extensions
valid_extensions_complete b (es, e, fresh) = rw e (loop_complete _ [] es fresh (omega arith))

-- Bytes that the extension check accepts are the encoding of a list of extensions with distinct
-- types.
pub valid_extensions_sound :
    (b : List ℕ) → All IsByte b → valid_extensions b ≡ true → IsExtensions b
unfolding valid_extensions
valid_extensions_sound b bytes h = loop_sound _ [] b bytes h
