-- ===== src/MsgQueue.antt =====
-- The kernel's message queues (`k_msgq`), which main.c, command.c and photodiode.c share.
-- The kernel is not part of this repository: an implementation is a value of this record.
use hispec_tib.Prelude.{
  ℕ, ◌≤◌, ◌<◌, ◌≡◌, refl, ◌⊎◌, inl, inr, List, [], ◌∷◌, ◌++◌, Option, none, some, arith, length,
  ltb, if◌then◌else◌, Bool-cases, ltb→lt,
}

-- `put` and `get` are called with K_NO_WAIT; `none` is the error that there is no room, or nothing.
pub record MsgQueue (Q A : Type 0) : Type 0 where
  pub depth : ℕ
  pub contents : Q → List A
  pub put : Q → A → Option Q
  pub get : Q → Option (A × Q)
  pub purge : Q → Q
  pub put_lem :
      (q : Q) (a : A)
      → ((depth ≤ length (contents q)) × (put q a ≡ none))
        ⊎ ((q' : Q) × (length (contents q) < depth)
            × (put q a ≡ some q')
            × (contents q' ≡ contents q ++ (a ∷ [])))
  pub get_lem :
      (q : Q)
      → ((contents q ≡ []) × (get q ≡ none))
        ⊎ ((a : A) × (q' : Q) × (get q ≡ some (a, q')) × (contents q ≡ a ∷ contents q'))
  pub purge_lem : (q : Q) → contents (purge q) ≡ []

-- A list with a bound is such a queue.
module _ (A : Type 0) (depth : ℕ) where
  unfoldable pub list_put : List A → A → Option (List A)
  list_put q a = if ltb (length q) depth then some (q ++ (a ∷ [])) else none

  unfoldable pub list_get : List A → Option (A × List A)
  list_get [] = none
  list_get (a ∷ q) = some (a, q)

  pub list_put_lem :
      (q : List A) (a : A)
      → ((depth ≤ length q) × (list_put q a ≡ none))
        ⊎ ((q' : List A) × (length q < depth) × (list_put q a ≡ some q') × (q' ≡ q ++ (a ∷ [])))
  unfolding list_put
  list_put_lem q a = elim (Bool-cases (ltb (length q) depth)) [
    | inl e ↦ inr (q ++ (a ∷ []), ltb→lt _ _ e, rw e, refl)
    | inr e ↦ inl (ground arith, rw e)
  ]

  pub list_get_lem :
      (q : List A)
      → ((q ≡ []) × (list_get q ≡ none))
        ⊎ ((a : A) × (q' : List A) × (list_get q ≡ some (a, q')) × (q ≡ a ∷ q'))
  unfolding list_get
  list_get_lem [] = inl (refl, refl)
  list_get_lem (a ∷ q) = inr (a, q, refl, refl)

  abbrev pub list_queue : MsgQueue (List A) A
  list_queue = record {
    depth = depth;
    contents = λ q. q;
    put = list_put;
    get = list_get;
    purge = λ q. [];
    put_lem = list_put_lem;
    get_lem = list_get_lem;
    purge_lem = λ q. refl;
  }
