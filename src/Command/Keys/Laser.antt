-- ===== src/Command/Keys/Laser.antt =====
-- `get_laser_channel`: the channels that its names have.
use hispec_tib.Prelude.{
  ℕ, zero, suc, ◌<◌, ◌≡◌, refl, ◌≢◌, ◌↔◌, ◌⊎◌, true, [], ◌∷◌, map, arith, length,
}
use hispec_tib.CString.{CString, text, tolower, strncasecmp_eq}
use hispec_tib.Command.Keys.{get_laser_channel, laser_unknown}

-- With more bytes than a string has, `strncasecmp` decides whether two strings are equal in lower case.
pub strncasecmp_iff :
    (n : ℕ) (a p : CString)
    → length p < n
    → (strncasecmp_eq n a p ≡ true) ↔ (map tolower a ≡ map tolower p)
unfolding strncasecmp_eq
strncasecmp_iff zero a p h = absurd (omega arith)
strncasecmp_iff (suc n) [] [] h = (λ e. refl, λ e. refl)
strncasecmp_iff (suc n) [] (y ∷ p) h = (λ e. cc, λ e. cc)
strncasecmp_iff (suc n) (x ∷ a) [] h = (λ e. cc, λ e. cc)
strncasecmp_iff (suc n) (x ∷ a) (y ∷ p) h =
    let (f, g) = strncasecmp_iff n a p (omega arith) in
    (λ e. ground (arith, f), λ e. ground (arith, g))

abbrev Reads : CString → CString → Type 0
Reads name p = (strncasecmp_eq 7 name p ≡ true) ↔ (map tolower name ≡ p)

module _ (name : CString) where
  Reads-1028y : Reads name (text "1028y")
  unfolding tolower
  Reads-1028y = strncasecmp_iff 7 name (text "1028y") (omega arith)

  Reads-1270j : Reads name (text "1270j")
  unfolding tolower
  Reads-1270j = strncasecmp_iff 7 name (text "1270j") (omega arith)

  Reads-1430yj : Reads name (text "1430yj")
  unfolding tolower
  Reads-1430yj = strncasecmp_iff 7 name (text "1430yj") (omega arith)

  Reads-1510h : Reads name (text "1510h")
  unfolding tolower
  Reads-1510h = strncasecmp_iff 7 name (text "1510h") (omega arith)

  Reads-2330k : Reads name (text "2330k")
  unfolding tolower
  Reads-2330k = strncasecmp_iff 7 name (text "2330k") (omega arith)

-- The channel that a name in lower case has.
pub HasChannel : CString → ℕ → Type 0
HasChannel name k =
    ((name ≡ text "1028y") × (k ≡ 1))
    ⊎ (((name ≡ text "1270j") × (k ≡ 1))
        ⊎ (((name ≡ text "1430yj") × (k ≡ 2))
            ⊎ (((name ≡ text "1510h") × (k ≡ 4)) ⊎ ((name ≡ text "2330k") × (k ≡ 5)))))

-- A channel other than `LASER_UNKNOWN` is given exactly to the names 1028y, 1270j, 1430yj, 1510h and
-- 2330k, in any mixture of cases, with the channels 1, 1, 2, 4 and 5.
pub get_laser_channel_iff :
    (name : CString) (k : ℕ)
    → k ≢ laser_unknown
    → (get_laser_channel name ≡ k) ↔ HasChannel (map tolower name) k
unfolding get_laser_channel HasChannel
get_laser_channel_iff name k known = (
  λ e. ground (
    arith,
    Reads-1028y name,
    Reads-1270j name,
    Reads-1430yj name,
    Reads-1510h name,
    Reads-2330k name,
  ),
  λ c. ground (
    arith,
    Reads-1028y name,
    Reads-1270j name,
    Reads-1430yj name,
    Reads-1510h name,
    Reads-2330k name,
  ),
)
