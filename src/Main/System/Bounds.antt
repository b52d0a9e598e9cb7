-- ===== src/Main/System/Bounds.antt =====
-- Whatever the threads' interleaving, the ids of the published messages count on.
use hispec_tib.Prelude.{
  ℕ, zero, suc, ◌+◌, ◌^◌, ◌≤◌, ◌<◌, ◌≡◌, ◌≢◌, refl, ap, ap₂, sym, subst, ◌∙◌, List, [], ◌∷◌, ◌++◌,
  arith, map, length, take, length-append, All,
}
use hispec_tib.Board.{Env}
use hispec_tib.MsgQueue.{MsgQueue}
use hispec_tib.Command.Types.{Command, OutMsg}
use hispec_tib.Main.{Published}
use hispec_tib.Main.Publishing.{id_after, ids}
use hispec_tib.Main.System.{
  System, Step, receive, fetch, deliver, sampled, forward, publish, Reach, here, next,
}

-- Each number differs from the `w` numbers after it.
abbrev pub IsSpread : ℕ → List ℕ → Type 0
IsSpread w [] = Unit
IsSpread w (x ∷ xs) = All (λ y. x ≢ y) (take w xs) × IsSpread w xs

abbrev ids_of : List Published → List ℕ
ids_of ps = map (λ (p : Published). p.message_id) ps

ids_of-append :
    (ps : List Published) (p : Published)
    → ids_of (ps ++ (p ∷ [])) ≡ ids_of ps ++ (p.message_id ∷ [])
ids_of-append [] p = refl
ids_of-append (q ∷ ps) p = ap (◌∷◌ q.message_id) (ids_of-append ps p)

ids-snoc : (start i n : ℕ) → ids start i (suc n) ≡ ids start i n ++ (id_after start (i + n) ∷ [])
ids-snoc start i zero = ap (λ k. id_after start k ∷ []) (omega arith)
ids-snoc start i (suc n) =
    let same : i + suc n ≡ suc i + n = omega arith in
    ap (◌∷◌ (id_after start i)) (
      subst (λ k. ids start (suc i) (suc n) ≡ ids start (suc i) n ++ (id_after start k ∷ []))
        (sym same) (ids-snoc start (suc i) n))

ids-apart :
    (start k i n w : ℕ)
    → k < i
    → i + w ≤ k + 2 ^ 16
    → All (λ y. id_after start k ≢ y) (take w (ids start i n))
ids-apart start k i zero zero h g = tt
ids-apart start k i zero (suc w) h g = tt
ids-apart start k i (suc n) zero h g = tt
ids-apart start k i (suc n) (suc w) h g =
    (λ e. omega arith, ids-apart start k (suc i) n w (omega arith) (omega arith))

ids-IsSpread : (start i n w : ℕ) → w < 2 ^ 16 → IsSpread w (ids start i n)
ids-IsSpread start i zero w h = tt
ids-IsSpread start i (suc n) w h =
    (ids-apart start i (suc i) n w (omega arith) (omega arith), ids-IsSpread start (suc i) n w h)

module _ {D I O P : Type 0} (env : Env D) (inq : MsgQueue I Command) (outq : MsgQueue O OutMsg)
    (pdq : MsgQueue P OutMsg) where
  -- The ids count from `start`, and no two are the same in 65536 messages one after the other.
  pub record IsOrderly (start : ℕ) (s : System D I O P) : Type 0 where
    pub published : ids_of s.published ≡ ids start 0 (length s.published)
    pub counter : s.msg_id ≡ id_after start (length s.published)
    pub spread : IsSpread 65535 (ids_of s.published)

  abbrev Counts : ℕ → System D I O P → Type 0
  Counts start s =
      (ids_of s.published ≡ ids start 0 (length s.published))
      × (s.msg_id ≡ id_after start (length s.published))

  Step-Counts :
      (start : ℕ) (s t : System D I O P)
      → Step env inq outq pdq s t
      → Counts start s
      → Counts start t
  Step-Counts start s t (receive p e) v = rw e v
  Step-Counts start s t (fetch om i tib free f e) v = rw e v
  Step-Counts start s t (deliver om o busy f e) v = rw e v
  Step-Counts start s t (sampled om q yj hk seconds made f e) v = rw e v
  Step-Counts start s t (forward om q f e) v = rw e v
  Step-Counts start s t (publish om o f e) (v, c) =
      let p : Published = record { message_id = s.msg_id; msg = om } in
      let n : length (s.published ++ (p ∷ [])) ≡ suc (length s.published) =
        omega (arith, length-append s.published (p ∷ [])) in
      rw e (
        ids_of-append s.published p
            ∙ ap₂ (λ xs x. xs ++ (x ∷ [])) v c
            ∙ sym (
                ap (ids start 0) n
                ∙ ids-snoc start 0 (length s.published)
                ∙ ap (λ k. ids start 0 (length s.published) ++ (id_after start k ∷ []))
                    (omega arith)),
        omega (arith, c, n),
      )

  Reach-Counts :
      (s t : System D I O P)
      → s.msg_id < 2 ^ 16
      → s.published ≡ []
      → Reach env inq outq pdq s t
      → Counts s.msg_id t
  Reach-Counts s t h e here = rw e (refl, omega arith)
  Reach-Counts s t h e (next {t = u} r step) =
      Step-Counts s.msg_id u t step (Reach-Counts s u h e r)

  -- From a state in which nothing was published, with a counter of 16 bits, whatever the order of the
  -- threads' steps: the ids of the messages published so far are the first value of the counter, the next
  -- number and so on, modulo 65536; the counter is the number that comes next; and any two of 65536
  -- messages that are published one after the other have different ids.
  pub Reach-IsOrderly :
      (s t : System D I O P)
      → s.msg_id < 2 ^ 16
      → s.published ≡ []
      → Reach env inq outq pdq s t
      → IsOrderly s.msg_id t
  Reach-IsOrderly s t h e r =
      let (v, c) = Reach-Counts s t h e r in
      record {
        published = v;
        counter = c;
        spread =
            subst (IsSpread 65535) (sym v)
              (ids-IsSpread s.msg_id 0 (length t.published) 65535 (omega arith));
      }
