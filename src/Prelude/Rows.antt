-- ===== src/Prelude/Rows.antt =====
-- The rows of a table as a list, and the queries and updates that SQL statements make of them.
use veritra.Prelude.{
  ℕ, ◌+◌, ◌≡◌, refl, inl, inr, Bool, true, false, not, ◌&&◌, ◌||◌, List, [], ◌∷◌, ◌++◌, Option,
  none, some, ◌==◌, if◌then◌else◌, Bool-cases, arith,
}

abbrev pub Bytes : Type 0
Bytes = List ℕ

-- bytes.Equal
unfoldable pub bytes_equal : Bytes → Bytes → Bool
bytes_equal [] [] = true
bytes_equal [] (b ∷ bs) = false
bytes_equal (a ∷ xs) [] = false
bytes_equal (a ∷ xs) (b ∷ bs) = a == b && bytes_equal xs bs

pub bytes_equal_same : (bs : Bytes) → bytes_equal bs bs ≡ true
unfolding bytes_equal
bytes_equal_same [] = refl
bytes_equal_same (b ∷ bs) = ground (arith, bytes_equal_same bs)

pub bytes_equal→eq : (xs bs : Bytes) → bytes_equal xs bs ≡ true → xs ≡ bs
unfolding bytes_equal
bytes_equal→eq [] [] h = refl
bytes_equal→eq [] (b ∷ bs) h = cc
bytes_equal→eq (a ∷ xs) [] h = cc
bytes_equal→eq (a ∷ xs) (b ∷ bs) h = ground (arith, bytes_equal→eq xs bs)

module _ {ℓ} {A : Type ℓ} where
  -- SELECT EXISTS(SELECT 1 FROM rows WHERE p)
  unfoldable pub any : (A → Bool) → List A → Bool
  any p [] = false
  any p (row ∷ rows) = p row || any p rows

  -- SELECT * FROM rows WHERE p, where the statement picks at most one row
  unfoldable pub find : (A → Bool) → List A → Option A
  find p [] = none
  find p (row ∷ rows) = if p row then some row else find p rows

  -- SELECT * FROM rows WHERE p
  unfoldable pub select : (A → Bool) → List A → List A
  select p [] = []
  select p (row ∷ rows) = let rest = select p rows in if p row then row ∷ rest else rest

  -- SELECT COUNT(*) FROM rows WHERE p
  unfoldable pub count : (A → Bool) → List A → ℕ
  count p [] = 0
  count p (row ∷ rows) = (if p row then 1 else 0) + count p rows

  -- UPDATE rows SET f WHERE p
  unfoldable pub update : (A → Bool) → (A → A) → List A → List A
  update p f [] = []
  update p f (row ∷ rows) = (if p row then f row else row) ∷ update p f rows

  -- DELETE FROM rows WHERE p
  abbrev pub delete_rows : (A → Bool) → List A → List A
  delete_rows p rows = select (λ row. not (p row)) rows

module _ {ℓ} {A : Type ℓ} where
  pub any-append : (p : A → Bool) (xs ys : List A) → any p (xs ++ ys) ≡ (any p xs || any p ys)
  unfolding any
  any-append p [] ys = refl
  any-append p (x ∷ xs) ys = ground (arith, any-append p xs ys)

  pub count-append : (p : A → Bool) (xs ys : List A) → count p (xs ++ ys) ≡ count p xs + count p ys
  unfolding count
  count-append p [] ys = omega arith
  count-append p (x ∷ xs) ys = omega (arith, count-append p xs ys)

  -- A query that finds a row is answered by rows added later in the same way.
  pub find-append_some :
      (p : A → Bool) (xs ys : List A) (x : A) → find p xs ≡ some x → find p (xs ++ ys) ≡ some x
  unfolding find
  find-append_some p [] ys x h = cc
  find-append_some p (y ∷ xs) ys x h = ground (arith, find-append_some p xs ys x)

  pub find-append_none :
      (p : A → Bool) (xs ys : List A) → find p xs ≡ none → find p (xs ++ ys) ≡ find p ys
  unfolding find
  find-append_none p [] ys h = refl
  find-append_none p (x ∷ xs) ys h = ground (arith, find-append_none p xs ys)

  pub find-any : (p : A → Bool) (xs : List A) → find p xs ≡ none → any p xs ≡ false
  unfolding find any
  find-any p [] h = refl
  find-any p (x ∷ xs) h = ground (arith, find-any p xs)

  pub find-Holds : (p : A → Bool) (xs : List A) (x : A) → find p xs ≡ some x → p x ≡ true
  unfolding find
  find-Holds p [] x h = cc
  find-Holds p (y ∷ xs) x h = ground (arith, find-Holds p xs x)

  pub any_found : (p : A → Bool) (xs : List A) (x : A) → find p xs ≡ some x → any p xs ≡ true
  unfolding find any
  any_found p [] x h = cc
  any_found p (y ∷ xs) x h = ground (arith, any_found p xs x)

  pub any_false→count : (p : A → Bool) (xs : List A) → any p xs ≡ false → count p xs ≡ 0
  unfolding any count
  any_false→count p [] h = refl
  any_false→count p (x ∷ xs) h = ground (arith, any_false→count p xs)

  -- Two tests that agree on every row have the same answers.
  pub any_congr : (p q : A → Bool) (xs : List A) → ((x : A) → p x ≡ q x) → any p xs ≡ any q xs
  unfolding any
  any_congr p q [] h = refl
  any_congr p q (x ∷ xs) h = rw (h x, any_congr p q xs h) refl

  -- An update that keeps what a query reads does not change its answer.
  pub any-update :
      (q p : A → Bool) (f : A → A) (xs : List A)
      → ((x : A) → p x ≡ true → q (f x) ≡ q x)
      → any q (update p f xs) ≡ any q xs
  unfolding any update
  any-update q p f [] h = refl
  any-update q p f (x ∷ xs) h = elim (Bool-cases (p x)) [
    | inl e ↦ rw (e, h x e, any-update q p f xs h) refl
    | inr e ↦ rw (e, any-update q p f xs h) refl
  ]
