-- ===== src/Maiman/Registers.antt =====
-- The lookup of a register by its name, and the status bits.
use hispec_tib.Prelude.{
  ℕ, suc, ap, ◌∙◌, ◌≡◌, ◌↔◌, refl, inl, inr, true, List, [], ◌∷◌, some, arith, map, Bool-cases,
  get_elem?, All, All-get_elem?,
}
use hispec_tib.CString.{CString, tolower}
use hispec_tib.Maiman.{
  MaimanRegister, strcaseeq, find_register, maiman_get_register_address, register_table,
}

lower_of_strcaseeq : (a b : CString) → strcaseeq a b ≡ true → map tolower a ≡ map tolower b
unfolding strcaseeq
lower_of_strcaseeq [] [] h = refl
lower_of_strcaseeq [] (y ∷ ys) h = cc
lower_of_strcaseeq (x ∷ xs) [] h = cc
lower_of_strcaseeq (x ∷ xs) (y ∷ ys) h = ground (arith, lower_of_strcaseeq xs ys)

strcaseeq_lower : (a b c : CString) → map tolower a ≡ map tolower b → strcaseeq a c ≡ strcaseeq b c
unfolding strcaseeq
strcaseeq_lower [] [] c h = refl
strcaseeq_lower [] (y ∷ ys) c h = cc
strcaseeq_lower (x ∷ xs) [] c h = cc
strcaseeq_lower (x ∷ xs) (y ∷ ys) [] h = refl
strcaseeq_lower (x ∷ xs) (y ∷ ys) (z ∷ zs) h = ground (arith, strcaseeq_lower xs ys zs)

find_register_lower :
    (rs : List MaimanRegister) (a b : CString)
    → map tolower a ≡ map tolower b
    → find_register rs a ≡ find_register rs b
unfolding find_register
find_register_lower [] a b h = refl
find_register_lower (r ∷ rs) a b h =
    rw (strcaseeq_lower a b r.name h, find_register_lower rs a b h) refl

-- An entry of the table has the address, and the name in upper or lower case.
abbrev pub Listed : List MaimanRegister → CString → ℕ → Type 0
Listed rs name address =
    (i : ℕ) × (r : MaimanRegister) × (get_elem? rs i ≡ some r)
    × (map tolower name ≡ map tolower r.name)
    × (r.address ≡ address)

find_register_sound :
    (rs : List MaimanRegister) (name : CString) (address : ℕ)
    → find_register rs name ≡ some address
    → Listed rs name address
unfolding find_register
find_register_sound [] name address h = cc
find_register_sound (r ∷ rs) name address h = elim (Bool-cases (strcaseeq name r.name)) [
  | inl e ↦ (0, r, refl, lower_of_strcaseeq name r.name e, ground arith)
  | inr e ↦
      let (i, r', at, same, f) = find_register_sound rs name address (ground arith) in
      (suc i, r', at, same, f)
]

abbrev IsOwn : MaimanRegister → Type 0
IsOwn r = maiman_get_register_address r.name ≡ some r.address

IsOwn-address : All IsOwn register_table
unfolding maiman_get_register_address register_table find_register strcaseeq tolower
IsOwn-address = (
  refl,
  (
    refl,
    (
      refl,
      (
        refl,
        (
          refl,
          (
            refl,
            (refl, (refl, (refl, (refl, (refl, (refl, (refl, (refl, (refl, (refl, tt)))))))))),
          ),
        ),
      ),
    ),
  ),
)

-- `maiman_get_register_address` finds an address exactly for the names of the table, in upper or lower
-- case, and it is the address that the table lists for the name.
pub maiman_get_register_address_iff :
    (name : CString) (address : ℕ)
    → (maiman_get_register_address name ≡ some address) ↔ Listed register_table name address
unfolding maiman_get_register_address
maiman_get_register_address_iff name address = (
  find_register_sound register_table name address,
  λ (i, r, at, same, f).
      find_register_lower register_table name r.name same
      ∙ (All-get_elem? IsOwn register_table i r IsOwn-address at ∙ ap some f),
)
