-- ===== src/Gateway/Loop/Sending.antt =====
-- The loop of `VioletGW::run` that sends a batch: how it runs and ends, over any port.
use violet_gw.Prelude.{
  ℕ, zero, suc, List, [], ◌∷◌, ◌≡◌, arith, ap, ◌-◌, ◌==◌, ◌≤◌, length, drop, Bool-cases,
  length-drop, inl, inr,
}
use violet_gw.Dpdk.{Mbuf}
use violet_gw.Gateway.Loop.{Port, send_loop, send_all}

-- A run of the loop over a port, by its calls: each is given what the port has not taken yet, and the
-- loop ends where nothing is left or where the port takes nothing. With what is left, the state of
-- the port after the last call, and the number of calls.
pub data Sends {S : Type 0} (port : Port S) : S → List Mbuf → List Mbuf × S → ℕ → Type 0 where
  done : {s : S} → Sends port s [] ([], s) 0
  refused :
      {s s' : S} {m : Mbuf} {tx : List Mbuf}
      → port.send_burst s (m ∷ tx) ≡ (0, s')
      → Sends port s (m ∷ tx) (m ∷ tx, s') 1
  turn :
      {s s' : S} {m : Mbuf} {tx : List Mbuf} {k n : ℕ} {r : List Mbuf × S}
      → port.send_burst s (m ∷ tx) ≡ (suc k, s')
      → Sends port s' (drop k tx) r n
      → Sends port s (m ∷ tx) r (suc n)

module _ {S : Type 0} (port : Port S) where
  send_loop-Sends :
      (fuel : ℕ) (s : S) (tx : List Mbuf)
      → length tx ≤ fuel
      → (n : ℕ) × (n ≤ length tx) × Sends port s tx (send_loop port fuel s tx) n
  unfolding send_loop
  send_loop-Sends zero s [] enough = (0, omega arith, done)
  send_loop-Sends zero s (m ∷ tx) enough = absurd (omega arith)
  send_loop-Sends (suc fuel) s [] enough = (0, omega arith, done)
  send_loop-Sends (suc fuel) s (m ∷ tx) enough =
      let r = port.send_burst s (m ∷ tx) in
      elim (Bool-cases (r.0 == 0)) [
        | inl over ↦
            let e : r.0 ≡ 0 = ground arith in
            rw (over, send_loop) (1, omega arith, refused (ap (λ k. (k, r.1)) e))
        | inr on ↦
            let e : r.0 ≡ suc (r.0 - 1) = ground arith in
            let shorter = length-drop (r.0 - 1) tx in
            let (n, few, rest) =
              send_loop-Sends fuel r.1 (drop (r.0 - 1) tx) (omega (arith, shorter, enough)) in
            let same : drop r.0 (m ∷ tx) ≡ drop (r.0 - 1) tx = ap (λ k. drop k (m ∷ tx)) e in
            rw (on, send_loop)
              (rw same (suc n, omega (arith, few, shorter), turn (ap (λ k. (k, r.1)) e) rest))
      ]

  -- The loop that sends a batch ends, after at most as many calls of the port as the batch has
  -- packets: each call is given what the earlier ones have left, and what is freed in the end is
  -- nothing or what the port has just refused to take any packet of.
  pub send_all-Sends :
      (s : S) (tx : List Mbuf) → (n : ℕ) × (n ≤ length tx) × Sends port s tx (send_all port s tx) n
  unfolding send_all
  send_all-Sends s tx = send_loop-Sends (length tx) s tx (omega arith)
