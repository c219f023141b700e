-- ===== src/Limits/Typing/Tests.antt =====
-- The typing limiter on a short trace.
use veritra.Prelude.{◌*◌, ◌≡◌, refl, true, false, List, [], ◌∷◌, arith}
use veritra.Prelude.GoMap.{lookup, insert, delete}
use veritra.Limits.Typing.{zero_limiter, second, rotate, admit, allow}
use veritra.Limits.Typing.Refinement.{Call, allow_all, spec_all, allow_all-eq-spec_all}

abbrev calls : List Call
calls =
    ("a", 10 * second)
    ∷ ("b", 11 * second)
    ∷ ("a", 11 * second)
    ∷ ("a", 12 * second)
    ∷ ("b", 12 * second)
    ∷ ("b", 13 * second)
    ∷ ("a", 20 * second)
    ∷ []

answers : allow_all zero_limiter calls ≡ true ∷ true ∷ false ∷ true ∷ false ∷ true ∷ true ∷ []
unfolding allow_all allow rotate admit lookup insert delete
answers = refl

allow_all-eq-spec_all_example : allow_all zero_limiter calls ≡ spec_all [] calls
allow_all-eq-spec_all_example = allow_all-eq-spec_all calls (omega arith) (omega arith)
