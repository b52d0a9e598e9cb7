-- ===== src/Photodiode/Sampling.antt =====
-- The sampling thread's store of its message, and its samples.
use hispec_tib.Prelude.{
  ◌≤◌, ◌<◌, ◌≡◌, refl, ◌∙◌, ◌⊎◌, inl, inr, [], ◌∷◌, ◌++◌, some, arith, length, ap,
}
use hispec_tib.MsgQueue.{MsgQueue}
use hispec_tib.Command.Types.{OutMsg}
use hispec_tib.Photodiode.{put_purging}

module _ {P : Type 0} (pdq : MsgQueue P OutMsg) (room : 0 < pdq.depth) where
  -- On a queue with room for one message at least, the loop of `photodiode_thread` ends after two
  -- attempts at most: the message is the last of the queue, after all others if there was room, and
  -- alone otherwise.
  pub put_purging_lem :
      (q : P) (m : OutMsg)
      → (q' : P) × (put_purging pdq 2 q m ≡ some q')
        × (((length (pdq.contents q) < pdq.depth) × (pdq.contents q' ≡ pdq.contents q ++ (m ∷ [])))
            ⊎ ((pdq.depth ≤ length (pdq.contents q)) × (pdq.contents q' ≡ m ∷ [])))
  unfolding put_purging
  put_purging_lem q m = elim (pdq.put_lem q m) [
    | inr (j, fits, f, back) ↦ (j, rw (f, put_purging) refl, inl (fits, back))
    | inl (full, n) ↦ elim (pdq.put_lem (pdq.purge q) m) [
      | inr (j, fits, f, back) ↦ (
        j,
        rw (n, f, put_purging) refl,
        inr (full, back ∙ ap (λ xs. xs ++ (m ∷ [])) (pdq.purge_lem q)),
      )
      | inl (still, n') ↦ absurd (ground (arith, pdq.purge_lem q))
    ]
  ]
