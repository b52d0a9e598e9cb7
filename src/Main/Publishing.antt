-- ===== src/Main/Publishing.antt =====
-- The message ids that the main loop gives out.
use hispec_tib.Prelude.{
  ℕ, zero, suc, ◌+◌, ◌%◌, ◌^◌, ◌<◌, ◌≡◌, refl, ap, ap₂, ◌∙◌, List, [], ◌∷◌, ◌++◌, arith, length,
  map,
}
use hispec_tib.Command.Types.{OutMsg}
use hispec_tib.Main.{Published, drain}

abbrev pub id_after : ℕ → ℕ → ℕ
id_after start n = (start + n) % 2 ^ 16

-- The ids of `n` messages from the index `i` on.
abbrev pub ids : ℕ → ℕ → ℕ → List ℕ
ids start i zero = []
ids start i (suc n) = id_after start i ∷ ids start (suc i) n

-- One message more is published last, with the counter's value as its id.
pub drain-append :
    (start : ℕ) (oms : List OutMsg) (om : OutMsg)
    → ((drain start (oms ++ (om ∷ []))).0
        ≡ (drain start oms).0 ++ (record { message_id = (drain start oms).1; msg = om } ∷ []))
      × ((drain start (oms ++ (om ∷ []))).1 ≡ ((drain start oms).1 + 1) % 2 ^ 16)
unfolding drain
drain-append start [] om = (refl, refl)
drain-append start (x ∷ oms) om =
    let (a, b) = drain-append ((start + 1) % 2 ^ 16) oms om in
    (ap (◌∷◌ (record { message_id = start; msg = x })) a, b)

-- One queue after the other.
pub drain_both :
    (start : ℕ) (xs ys : List OutMsg)
    → (drain start (xs ++ ys)).0 ≡ (drain start xs).0 ++ (drain (drain start xs).1 ys).0
unfolding drain
drain_both start [] ys = refl
drain_both start (x ∷ xs) ys =
    ap (◌∷◌ (record { message_id = start; msg = x })) (drain_both ((start + 1) % 2 ^ 16) xs ys)

drain-msgs :
    (start : ℕ) (oms : List OutMsg) → map (λ (p : Published). p.msg) (drain start oms).0 ≡ oms
unfolding drain
drain-msgs start [] = refl
drain-msgs start (x ∷ oms) = ap (◌∷◌ x) (drain-msgs ((start + 1) % 2 ^ 16) oms)

id_after-suc : (start n : ℕ) → id_after ((start + 1) % 2 ^ 16) n ≡ id_after start (suc n)
id_after-suc start n = omega arith

drain-counter :
    (start : ℕ) (oms : List OutMsg)
    → start < 2 ^ 16
    → (drain start oms).1 ≡ id_after start (length oms)
unfolding drain
drain-counter start [] h = omega arith
drain-counter start (x ∷ oms) h =
    drain-counter ((start + 1) % 2 ^ 16) oms (omega arith) ∙ id_after-suc start (length oms)

ids-suc : (start i n : ℕ) → ids ((start + 1) % 2 ^ 16) i n ≡ ids start (suc i) n
ids-suc start i zero = refl
ids-suc start i (suc n) = ap₂ (◌∷◌) (id_after-suc start i) (ids-suc start (suc i) n)

drain-ids :
    (start : ℕ) (oms : List OutMsg)
    → start < 2 ^ 16
    → map (λ (p : Published). p.message_id) (drain start oms).0 ≡ ids start 0 (length oms)
unfolding drain
drain-ids start [] h = refl
drain-ids start (x ∷ oms) h =
    ap₂ ◌∷◌ (omega arith)
      (drain-ids ((start + 1) % 2 ^ 16) oms (omega arith) ∙ ids-suc start 0 (length oms))

-- From a counter of 16 bits, draining publishes exactly the messages of the queue in their order; their
-- ids are start, start + 1 and so on modulo 65536, and the counter ends at start + the number of
-- messages modulo 65536.
pub drain_lem :
    (start : ℕ) (oms : List OutMsg)
    → start < 2 ^ 16
    → (map (λ (p : Published). p.msg) (drain start oms).0 ≡ oms)
      × (map (λ (p : Published). p.message_id) (drain start oms).0 ≡ ids start 0 (length oms))
      × ((drain start oms).1 ≡ id_after start (length oms))
drain_lem start oms h = (drain-msgs start oms, drain-ids start oms h, drain-counter start oms h)
