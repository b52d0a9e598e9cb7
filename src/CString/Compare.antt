-- ===== src/CString/Compare.antt =====
-- What the comparisons of C strings decide.
use hispec_tib.Prelude.{ℕ, zero, suc, ◌≡◌, ◌↔◌, refl, true, [], ◌∷◌, arith, take, map}
use hispec_tib.CString.{CString, strcmp_eq, strncmp_eq, strcasecmp_eq, tolower}

strcmp_eq_refl : (a : CString) → strcmp_eq a a ≡ true
unfolding strcmp_eq
strcmp_eq_refl [] = refl
strcmp_eq_refl (x ∷ xs) = ground (arith, strcmp_eq_refl xs)

pub eq_of_strcmp : (a b : CString) → strcmp_eq a b ≡ true → a ≡ b
unfolding strcmp_eq
eq_of_strcmp [] [] h = refl
eq_of_strcmp [] (y ∷ ys) h = cc
eq_of_strcmp (x ∷ xs) [] h = cc
eq_of_strcmp (x ∷ xs) (y ∷ ys) h = ground (arith, eq_of_strcmp xs ys)

strncmp_eq_refl : (n : ℕ) (a : CString) → strncmp_eq n a a ≡ true
unfolding strncmp_eq
strncmp_eq_refl zero a = refl
strncmp_eq_refl (suc n) [] = refl
strncmp_eq_refl (suc n) (x ∷ xs) = ground (arith, strncmp_eq_refl n xs)

-- `strncmp` compares the first `n` bytes.
take_of_strncmp : (n : ℕ) (a b : CString) → strncmp_eq n a b ≡ true → take n a ≡ take n b
unfolding strncmp_eq
take_of_strncmp zero a b h = refl
take_of_strncmp (suc n) [] [] h = refl
take_of_strncmp (suc n) [] (y ∷ ys) h = cc
take_of_strncmp (suc n) (x ∷ xs) [] h = cc
take_of_strncmp (suc n) (x ∷ xs) (y ∷ ys) h = ground (arith, take_of_strncmp n xs ys)

strncmp_of_take : (n : ℕ) (a b : CString) → take n a ≡ take n b → strncmp_eq n a b ≡ true
unfolding strncmp_eq
strncmp_of_take zero a b h = refl
strncmp_of_take (suc n) [] [] h = refl
strncmp_of_take (suc n) [] (y ∷ ys) h = cc
strncmp_of_take (suc n) (x ∷ xs) [] h = cc
strncmp_of_take (suc n) (x ∷ xs) (y ∷ ys) h = ground (arith, strncmp_of_take n xs ys)

pub strncmp_iff : (n : ℕ) (a b : CString) → (strncmp_eq n a b ≡ true) ↔ (take n a ≡ take n b)
strncmp_iff n a b = (take_of_strncmp n a b, strncmp_of_take n a b)

pub strncmp_trans :
    (n : ℕ) (a b c : CString) → strncmp_eq n a b ≡ true → strncmp_eq n b c ≡ strncmp_eq n a c
unfolding strncmp_eq
strncmp_trans zero a b c h = refl
strncmp_trans (suc n) [] [] c h = refl
strncmp_trans (suc n) [] (y ∷ ys) c h = cc
strncmp_trans (suc n) (x ∷ xs) [] c h = cc
strncmp_trans (suc n) (x ∷ xs) (y ∷ ys) [] h = refl
strncmp_trans (suc n) (x ∷ xs) (y ∷ ys) (z ∷ zs) h = ground (arith, strncmp_trans n xs ys zs)

-- `strcasecmp` compares the strings in lower case.
lower_of_strcasecmp : (a b : CString) → strcasecmp_eq a b ≡ true → map tolower a ≡ map tolower b
unfolding strcasecmp_eq
lower_of_strcasecmp [] [] h = refl
lower_of_strcasecmp [] (y ∷ ys) h = cc
lower_of_strcasecmp (x ∷ xs) [] h = cc
lower_of_strcasecmp (x ∷ xs) (y ∷ ys) h = ground (arith, lower_of_strcasecmp xs ys)

pub strncmp_eq-sym : (n : ℕ) (a b : CString) → strncmp_eq n a b ≡ strncmp_eq n b a
unfolding strncmp_eq
strncmp_eq-sym zero a b = refl
strncmp_eq-sym (suc n) [] [] = refl
strncmp_eq-sym (suc n) [] (y ∷ ys) = refl
strncmp_eq-sym (suc n) (x ∷ xs) [] = refl
strncmp_eq-sym (suc n) (x ∷ xs) (y ∷ ys) = ground (arith, strncmp_eq-sym n xs ys)
