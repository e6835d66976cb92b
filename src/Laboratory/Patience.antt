-- ===== src/Laboratory/Patience.antt =====
-- How long the probe waits, and what it then returns.
use aiops_control_lab.Base.{
  ◌≡◌, refl, ap, ◌∙◌, arith, ◌⊎◌, inl, inr, Bool-cases, ℕ, zero, suc, ◌+◌, ◌-◌, ◌≤◌, ◌<◌, max, Bool,
  true, false,
}
use native.Mathlib.Decide.{dec_le}
use mathlib.Core.Logic.{⊎_elim}
use aiops_control_lab.Laboratory.{LabObservation}
use aiops_control_lab.Laboratory.Probe.{Probe, same, probe_once, poll, wait_for}

same-true : (a b : Bool) → same a b ≡ true → a ≡ b
same-true true b h = ground arith
same-true false b h = ground arith

same_self : (a : Bool) → same a a ≡ true
same_self true = refl
same_self false = refl

module _ (p : Probe) (expected : Bool) where
  -- None of `k` requests from the n-th on gives the expected health.
  unfoldable pub Unexpected : ℕ → ℕ → Type 0
  Unexpected zero n = Unit
  Unexpected (suc k) n = (same (probe_once p n).healthy expected ≡ false) × Unexpected k (suc n)

  -- The result is the observation of the request after `k` unexpected ones. It is the expected one
  -- unless as many requests were sent as there may be.
  pub record Waited (rounds n : ℕ) (out : LabObservation × ℕ) : Type 0 where
    pub k : ℕ
    pub few : k ≤ rounds
    pub missed : Unexpected k n
    pub last : out.0 ≡ probe_once p (n + k)
    pub sent : out.1 ≡ suc (n + k)
    pub settled : (out.0.healthy ≡ expected) ⊎ (k ≡ rounds)

  poll-Waited : (rounds n : ℕ) → Waited rounds n (poll p rounds expected (probe_once p n) (suc n))
  unfolding poll Unexpected
  poll-Waited zero n = record {
    k = 0;
    few = omega arith;
    missed = tt;
    last = ap (probe_once p) (omega arith);
    sent = omega arith;
    settled = inr refl;
  }
  poll-Waited (suc rounds) n = elim (Bool-cases (same (probe_once p n).healthy expected)) [
    | inl found ↦
        rw (found, poll)
          (record {
            k = 0;
            few = omega arith;
            missed = tt;
            last = ap (probe_once p) (omega arith);
            sent = omega arith;
            settled = inl (same-true (probe_once p n).healthy expected found);
          })
    | inr other ↦
        let w = poll-Waited rounds (suc n) in
        rw (other, poll)
          (record {
            k = suc w.k;
            few = omega (arith, w.few);
            missed = (other, w.missed);
            last = w.last ∙ ap (probe_once p) (omega arith);
            sent = omega (arith, w.sent);
            settled = ⊎_elim inl (λ e. inr (ap suc e)) w.settled;
          })
  ]

  Unexpected-at :
      (k j n : ℕ) → j < k → Unexpected k n → same (probe_once p (n + j)).healthy expected ≡ false
  unfolding Unexpected
  Unexpected-at zero j n h u = absurd (omega arith)
  Unexpected-at (suc k) zero n h u = let e : n + zero ≡ n = omega arith in rw e u.0
  Unexpected-at (suc k) (suc j) n h u =
      let e : n + suc j ≡ suc n + j = omega arith in
      rw e (Unexpected-at k j (suc n) (omega arith) u.1)

  -- If one of the requests that it may send is answered as expected, the probe returns an observation
  -- of the expected health, after no more requests than up to that one.
  pub wait_for_finds :
      (n j : ℕ)
      → j < max p.attempts 1
      → (probe_once p (n + j)).healthy ≡ expected
      → ((wait_for p expected n).0.healthy ≡ expected) × ((wait_for p expected n).1 ≤ suc (n + j))
  unfolding wait_for
  wait_for_finds n j h found =
      let w = poll-Waited (p.attempts - 1) n in
      let seen : same (probe_once p (n + j)).healthy expected ≡ true =
        rw found (same_self expected) in
      elim (dec_le w.k j) [
        | no later ↦ cc (seen, Unexpected-at w.k j n (omega arith) w.missed)
        | yes first ↦ elim w.settled [
          | inl good ↦ (good, omega (arith, w.sent))
          | inr all_used ↦
              let e : w.k ≡ j = omega arith in
              (ap (λ (o : LabObservation). o.healthy) w.last ∙ rw e found, omega (arith, w.sent))
        ]
      ]
