-- ===== src/Mlswire/Format.antt =====
-- A grammar of byte strings, independent of the reader, and what it means that a check of the
-- reader accepts just the strings of a language.
use veritra.Prelude.{
  ℕ, zero, suc, ◌/◌, ◌%◌, ◌^◌, ◌<◌, ◌≡◌, refl, ◌∙◌, ap, subst, List, [], ◌∷◌, ◌++◌, append_assoc,
  arith, Option, some, length, All, All-append_left, All-append_right, ◌>>=◌, >>=-eq-some,
}
use veritra.Mlswire.Reader.{Reader}
use veritra.Mlswire.Vector.{IsByte, on, encode_vector}

abbrev pub Language : Type 1
Language = List ℕ → Type 0

-- One string of `L`, then one of `M`.
infixr 60 ◌⋅◌
abbrev pub ◌⋅◌ : Language → Language → Language
(L ⋅ M) x = (a : List ℕ) × (b : List ℕ) × (x ≡ a ++ b) × L a × M b

abbrev pub Empty : Language
Empty x = x ≡ []

abbrev pub Times : ℕ → Language → Language
Times zero L = Empty
Times (suc n) L = L ⋅ Times n L

-- Exactly n bytes.
abbrev pub Bytes : ℕ → Language
Bytes n x = length x ≡ n

abbrev pub Uint8 : ℕ → Language
Uint8 k x = x ≡ k ∷ []

abbrev pub Uint16 : ℕ → Language
Uint16 k x = x ≡ k / 256 ∷ k % 256 ∷ []

-- The minimal encoding of a vector with the property.
abbrev pub VectorOf : (List ℕ → Type 0) → Language
VectorOf P x = (v : List ℕ) × (x ≡ encode_vector v) × (length v < 2 ^ 30) × P v

-- The check accepts a string of the language whatever follows it, and it accepts nothing else.
pub record Reads (f : Reader → Option Reader) (L : Language) : Type 0 where
  pub complete : (x rest : List ℕ) → All IsByte x → L x → f (on (x ++ rest)) ≡ some (on rest)
  pub sound :
      (r r' : Reader)
      → All IsByte r.bytes
      → f r ≡ some r'
      → (x : List ℕ) × (r.bytes ≡ x ++ r'.bytes) × L x

abbrev pub chain : (Reader → Option Reader) → (Reader → Option Reader) → Reader → Option Reader
chain f g r = f r >>= g

pub Reads-chain :
    (f g : Reader → Option Reader) (L M : Language)
    → Reads f L
    → Reads g M
    → Reads (chain f g) (L ⋅ M)
Reads-chain f g L M p q = record {
  complete = λ x rest bytes l.
      let (a, b, e, la, mb) = l in
      let bs = subst (All IsByte) e bytes in
      rw (e, append_assoc)
        (rw (p.complete a (b ++ rest) (All-append_left IsByte a b bs) la)
          (q.complete b rest (All-append_right IsByte a b bs) mb));
  sound = λ r r' bytes h.
      let (m, em, hm) = >>=-eq-some (f r) g h in
      let (x, ex, lx) = p.sound r m bytes em in
      let (y, ey, my) =
        q.sound m r' (All-append_right IsByte x m.bytes (subst (All IsByte) ex bytes)) hm in
      (x ++ y, ex ∙ ap (λ (z : List ℕ). x ++ z) ey ∙ rw append_assoc refl, (x, y, refl, lx, my));
}

pub Reads-some : Reads (λ r. some r) Empty
Reads-some = record {
  complete = λ x rest bytes e. rw e refl;
  sound = λ r r' bytes h. ([], ground arith, refl);
}
