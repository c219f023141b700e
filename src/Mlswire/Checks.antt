-- ===== src/Mlswire/Checks.antt =====
-- Each check of the key-package reader accepts just its language.
use veritra.Prelude.{
  ℕ, zero, suc, ◌+◌, ◌*◌, ◌/◌, ◌%◌, ◌<◌, ◌≡◌, refl, ap, ◌∙◌, subst, Bool, true, false, ◌&&◌, List,
  [], ◌∷◌, ◌++◌, append_assoc, arith, if◌then◌else◌, length, All, All-append_right, Bool-cases, inl,
  inr, some, none, eq→==, All-append_left,
}
use veritra.Mlswire.Reader.{Reader, uint8, uint16, take_bytes, vector}
use veritra.Mlswire.Vector.{
  IsByte, on, uint8-on, uint16-on, encode_vector, encode_length, vector-encode_vector,
  vector-TookVector, vector_failed, take_bytes-append, take_bytes-Took,
}
use veritra.Mlswire.KeyPackage.{
  checked_vector, checked_uint8, checked_uint16, capability_lists, has_even_length,
}
use veritra.Mlswire.Format.{
  ◌⋅◌, Times, Bytes, Uint8, Uint16, VectorOf, Reads, Reads-chain, Reads-some,
}

-- A check of a vector's content that decides `P`.
pub record Decides (p : List ℕ → Bool) (P : List ℕ → Type 0) : Type 0 where
  pub yields : (v : List ℕ) → All IsByte v → p v ≡ true → P v
  pub holds : (v : List ℕ) → P v → p v ≡ true

body_bytes : (v : List ℕ) → All IsByte (encode_vector v) → All IsByte v
unfolding encode_vector
body_bytes v h = All-append_right IsByte (encode_length (length v)) v h

passes :
    (p : List ℕ → Bool) (x : List ℕ × Reader) (r' : Reader)
    → (if x.1.ok && p x.0 then some x.1 else none) ≡ some r'
    → (x.1.ok ≡ true) × (p x.0 ≡ true) × (x.1 ≡ r')
passes p x r' h = ground arith

pub Reads-vector :
    (p : List ℕ → Bool) (P : List ℕ → Type 0) → Decides p P → Reads (checked_vector p) (VectorOf P)
unfolding checked_vector
Reads-vector p P d = record {
  complete = λ x rest bytes l.
      let (v, e, short, pv) = l in rw (e, vector-encode_vector v rest short, d.holds v pv) refl;
  sound = λ r r' bytes h.
      let (ok, pv, e) = passes p (vector r) r' h in
      let t = vector-TookVector r bytes ok in
      let inside = subst (All IsByte) t.split bytes in
      (
        encode_vector (vector r).0,
        t.split ∙ ap (λ (z : Reader). encode_vector (vector r).0 ++ z.bytes) e,
        (
          (vector r).0,
          refl,
          t.short,
          d.yields (vector r).0
              (body_bytes (vector r).0 (All-append_left IsByte _ (vector r).1.bytes inside)) pv,
        ),
      );
}

uint16_sound :
    (k : ℕ) (bs : List ℕ) (o : Bool) (r' : Reader)
    → 0 < k
    → All IsByte bs
    → checked_uint16 k (record { bytes = bs; ok = o }) ≡ some r'
    → bs ≡ k / 256 ∷ k % 256 ∷ r'.bytes
unfolding checked_uint16 uint16 take_bytes
uint16_sound k [] o r' l bytes h = ground arith
uint16_sound k (x ∷ []) o r' l bytes h = ground arith
uint16_sound k (x ∷ y ∷ bs) true r' l bytes h = ground (arith, bytes)
uint16_sound k (x ∷ y ∷ bs) false r' l bytes h = ground arith

pub Reads-uint16 : (k : ℕ) → 0 < k → k < 65536 → Reads (checked_uint16 k) (Uint16 k)
unfolding checked_uint16
Reads-uint16 k l m = record {
  complete =
      λ x rest bytes e. rw (e, uint16-on, eq→== (k / 256 * 256 + k % 256) k (omega arith)) refl;
  sound = λ r r' bytes h. (k / 256 ∷ k % 256 ∷ [], uint16_sound k r.bytes r.ok r' l bytes h, refl);
}

uint8_sound :
    (k : ℕ) (bs : List ℕ) (o : Bool) (r' : Reader)
    → 0 < k
    → checked_uint8 k (record { bytes = bs; ok = o }) ≡ some r'
    → bs ≡ k ∷ r'.bytes
unfolding checked_uint8 uint8 take_bytes
uint8_sound k [] o r' l h = ground arith
uint8_sound k (x ∷ bs) true r' l h = ground arith
uint8_sound k (x ∷ bs) false r' l h = ground arith

pub Reads-uint8 : (k : ℕ) → 0 < k → Reads (checked_uint8 k) (Uint8 k)
unfolding checked_uint8
Reads-uint8 k l = record {
  complete = λ x rest bytes e. rw (e, uint8-on, eq→== k k refl) refl;
  sound = λ r r' bytes h. (k ∷ [], uint8_sound k r.bytes r.ok r' l h, refl);
}

skip_complete :
    (n : ℕ) (a : List ℕ) (rest : List ℕ)
    → length a ≡ n
    → (take_bytes n (on (a ++ rest))).1 ≡ on rest
skip_complete n a rest e = rw (← e) (rw (take_bytes-append a rest) refl)

-- A reader that has failed passes no check, so the bytes were there.
was_ok : (p : List ℕ → Bool) (r r' : Reader) → checked_vector p r ≡ some r' → r.ok ≡ true
unfolding checked_vector
was_ok p r r' h = elim (Bool-cases r.ok) [
  | inl e ↦ e
  | inr e ↦ cc ((passes p (vector r) r' h).0, vector_failed r e)
]

-- Bytes that are skipped before the next check; the check sees whether there were enough.
pub Reads-skip :
    (n : ℕ) (p : List ℕ → Bool) (P : List ℕ → Type 0)
    → Decides p P
    → Reads (λ r. checked_vector p (take_bytes n r).1) (Bytes n ⋅ VectorOf P)
Reads-skip n p P d = record {
  complete = λ x rest bytes l.
      let (a, b, e, la, mb) = l in
      let bs = subst (All IsByte) e bytes in
      rw (e, append_assoc, skip_complete n a (b ++ rest) la)
        ((Reads-vector p P d).complete b rest (All-append_right IsByte a b bs) mb);
  sound = λ r r' bytes h.
      let (t, len) = take_bytes-Took n r (was_ok p (take_bytes n r).1 r' h) in
      let a : List ℕ = (take_bytes n r).0 in
      let (y, ey, my) =
        (Reads-vector p P d).sound (take_bytes n r).1 r'
          (All-append_right IsByte a (take_bytes n r).1.bytes (subst (All IsByte) t.split bytes))
          h in
      (
        a ++ y,
        t.split ∙ ap (λ (z : List ℕ). a ++ z) ey ∙ rw append_assoc refl,
        (a, y, refl, len, my),
      );
}

pub Reads-lists :
    (n : ℕ) (P : List ℕ → Type 0)
    → Decides has_even_length P
    → Reads (capability_lists n) (Times n (VectorOf P))
unfolding capability_lists
Reads-lists zero P d = Reads-some
Reads-lists (suc n) P d =
    Reads-chain (checked_vector has_even_length) (capability_lists n) _ _ (Reads-vector _ P d)
      (Reads-lists n P d)
