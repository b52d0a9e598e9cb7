-- ===== src/Commons/Network/Waiting.antt =====
-- How long the network functions wait, and what they answer then.
use hispec_tib.Prelude.{
  ℕ, zero, suc, ◌+◌, ◌*◌, ◌%◌, ◌^◌, ◌≤◌, ◌<◌, ◌≡◌, ◌≢◌, refl, subst, ◌⊎◌, inl, inr, ℤ, pos, Bool,
  true, false, not, ◌&&◌, Option, none, some, arith, ltb, ◌==◌, if◌then◌else◌, Bool-cases,
}
use hispec_tib.Commons.Network.{
  neg, etimedout, eagain, wait_until, wait_forever, coo_network_wait_ready, Sent, bytes, errno,
  send_from, coo_net_send_retry,
}

module _ (online : ℕ → Bool) where
  -- The network is down at `n` tests from the test `k` on.
  abbrev Offline : ℕ → ℕ → Type 0
  Offline k zero = Unit
  Offline k (suc n) = (online k ≡ false) × Offline (suc k) n

  -- How the loop ends that began at the test `k`, with `elapsed`: after `sleeps` more tests.
  record Ends (timeout elapsed k : ℕ) (out : Option ℕ) : Type 0 where
    sleeps : ℕ
    last : ℕ
    counted : last ≡ k + sleeps
    result : out ≡ some last
    offline : Offline k sleeps
    in_time : elapsed + 100 * sleeps < timeout + 100
    why : (online last ≡ true) ⊎ ((online last ≡ false) × (timeout ≤ elapsed + 100 * sleeps))

  wait_until-Ends :
      (fuel timeout elapsed k : ℕ)
      → elapsed < timeout + 100
      → timeout + 100 ≤ elapsed + 100 * fuel
      → timeout + 100 ≤ 2 ^ 32
      → Ends timeout elapsed k (wait_until online fuel timeout elapsed k)
  unfolding wait_until
  wait_until-Ends zero timeout elapsed k early enough small = absurd (omega arith)
  wait_until-Ends (suc fuel) timeout elapsed k early enough small =
      elim (Bool-cases (not (online k) && ltb elapsed timeout)) [
        | inl e ↦
            let v =
              wait_until-Ends fuel timeout ((elapsed + 100) % 2 ^ 32) (suc k) (ground arith)
                (ground arith) small in
            record {
              sleeps = suc v.sleeps;
              last = v.last;
              counted = ground (arith, v.counted);
              result = rw e v.result;
              offline = (ground arith, v.offline);
              in_time = ground (arith, v.in_time);
              why = ground (arith, v.why);
            }
        | inr e ↦ record {
          sleeps = 0;
          last = k;
          counted = omega arith;
          result = rw e refl;
          offline = tt;
          in_time = ground arith;
          why = ground arith;
        }
      ]

  -- What `coo_network_wait_ready` answers after it slept `sleeps` times for 100 ms.
  pub record Waited (after : ℕ → Bool) (timeout : ℕ) (out : Option (ℤ × ℕ)) : Type 0 where
    pub sleeps : ℕ
    pub rc : ℤ
    pub result : out ≡ some (rc, sleeps)
    pub offline : Offline 0 sleeps
    pub in_time : 100 * sleeps < timeout + 100
    pub why : (online sleeps ≡ true) ⊎ ((online sleeps ≡ false) × (timeout ≤ 100 * sleeps))
    pub answer :
        ((after sleeps ≡ true) × (rc ≡ pos 0)) ⊎ ((after sleeps ≡ false) × (rc ≡ neg etimedout))

  -- With a timeout from 1 to 2 ^ 32 - 100 ms, `coo_network_wait_ready` ends (fuel for one test more than
  -- the timeout has periods of 100 ms is enough). It tests every 100 ms and sleeps until the first test
  -- at which the network is up; or, if there is none, until the timeout has passed, less than 100 ms ago.
  -- It answers 0 if the network is up when the flag is read after that, and -ETIMEDOUT if it is not; so
  -- if the flag is still what the last test found, it answers 0 in the first case and -ETIMEDOUT in the
  -- second.
  pub coo_network_wait_ready-Waited :
      (after : ℕ → Bool) (fuel timeout : ℕ)
      → 0 < timeout
      → timeout + 100 ≤ 2 ^ 32
      → timeout + 100 ≤ 100 * fuel
      → Waited after timeout (coo_network_wait_ready online after fuel timeout)
  unfolding coo_network_wait_ready
  coo_network_wait_ready-Waited after fuel timeout set small enough =
      let v = wait_until-Ends fuel timeout 0 0 (omega arith) (omega arith) small in
      record {
        sleeps = v.last;
        rc = if not (after v.last) then neg etimedout else pos 0;
        result = ground (arith, v.result);
        offline = subst (Offline 0) (omega (arith, v.counted)) v.offline;
        in_time = ground (arith, v.in_time, v.counted);
        why = ground (arith, v.why, v.counted);
        answer = ground arith;
      }

module _ (answers : ℕ → Sent) where
  -- The answers from the call `k` on are EAGAIN, `n` times.
  abbrev pub Busy : ℕ → ℕ → Type 0
  Busy k zero = Unit
  Busy k (suc n) = (answers k ≡ errno eagain) × Busy (suc k) n

  -- The result after `n` calls that were told to try again, where `left` calls are allowed.
  pub record Retried (k left : ℕ) (out : ℤ × ℕ) : Type 0 where
    pub tries : ℕ
    pub count : out.1 ≡ k + tries
    pub busy : Busy k tries
    pub why :
        ((tries ≡ left) × (out.0 ≡ neg etimedout))
        ⊎ ((tries < left)
            × (((n : ℕ) × (answers out.1 ≡ bytes n) × (out.0 ≡ pos n))
                ⊎ ((e : ℕ) × (answers out.1 ≡ errno e) × (e ≢ eagain) × (out.0 ≡ neg e))))

  sent_cases : (k : ℕ) → ((n : ℕ) × (answers k ≡ bytes n)) ⊎ ((e : ℕ) × (answers k ≡ errno e))
  sent_cases k = cases (answers k)
    where
      cases : (s : Sent) → ((n : ℕ) × (s ≡ bytes n)) ⊎ ((e : ℕ) × (s ≡ errno e))
      cases (bytes n) = inl (n, refl)
      cases (errno e) = inr (e, refl)

  send_from-Retried : (left k : ℕ) → Retried k left (send_from answers left k)
  unfolding send_from
  send_from-Retried zero k = record {
    tries = 0;
    count = omega arith;
    busy = tt;
    why = inl (refl, refl);
  }
  send_from-Retried (suc left) k = elim (sent_cases k) [
    | inl (n, f) ↦
        rw (f, send_from)
          (record {
            tries = 0;
            count = omega arith;
            busy = tt;
            why = inr (omega arith, inl (n, f, refl));
          })
    | inr (e, f) ↦ elim (Bool-cases (e == eagain)) [
      | inl again ↦
          let v = send_from-Retried left (suc k) in
          rw (f, again, send_from)
            (record {
              tries = suc v.tries;
              count = ground (arith, v.count);
              busy = (ground arith, v.busy);
              why = ground (arith, v.why);
            })
      | inr other ↦
          rw (f, other, send_from)
            (record {
              tries = 0;
              count = omega arith;
              busy = tt;
              why = inr (omega arith, inr (e, f, ground arith, refl));
            })
    ]
  ]

  -- `coo_net_send_retry` calls `send` until it is answered otherwise than with EAGAIN, and `max_retries`
  -- times at most; it returns the bytes sent, or that error, or -ETIMEDOUT if all these calls were
  -- answered with EAGAIN. It has slept once for each EAGAIN.
  pub coo_net_send_retry-Retried :
      (max_retries : ℕ) → Retried 0 max_retries (coo_net_send_retry answers max_retries)
  unfolding coo_net_send_retry
  coo_net_send_retry-Retried max_retries = send_from-Retried max_retries 0

off_before :
    (online : ℕ → Bool) (fuel k : ℕ)
    → online k ≡ false
    → ((n : ℕ) → n < fuel → online (suc k + n) ≡ false)
    → (n : ℕ) → n < suc fuel
    → online (k + n) ≡ false
off_before online fuel k down off zero h =
    let same : k ≡ k + 0 = omega arith in subst (λ x. online x ≡ false) same down
off_before online fuel k down off (suc n) h =
    let same : suc k + n ≡ k + suc n = omega arith in
    subst (λ x. online x ≡ false) same (off n (omega arith))

-- The wait tests every state until the network is up.
pub wait_forever-found :
    (online : ℕ → Bool) (fuel k : ℕ)
    → (wait_forever online fuel k ≡ none) × ((n : ℕ) → n < fuel → online (k + n) ≡ false)
      ⊎ ((m : ℕ) × (wait_forever online fuel k ≡ some m) × (online m ≡ true))
unfolding wait_forever
wait_forever-found online zero k = inl (refl, λ n h. absurd (omega arith))
wait_forever-found online (suc fuel) k = elim (Bool-cases (online k)) [
  | inl up ↦ inr (k, rw up refl, up)
  | inr down ↦ elim (wait_forever-found online fuel (suc k)) [
    | inr (m, e, up) ↦ inr (m, rw down e, up)
    | inl (e, off) ↦ inl (rw down e, off_before online fuel k down off)
  ]
]
