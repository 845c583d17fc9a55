-- ===== src/Index/Waiting.antt =====
-- The wait of `Index/Wait` ends, after few attempts, with a decision read from the disk.
use graphatlas.Prelude.{
  ℕ, zero, suc, ◌+◌, ◌-◌, ◌*◌, ◌≤◌, ◌<◌, min, true, false, ◌≡◌, refl, ◌⊎◌, inl, inr, arith,
  Bool-cases, leb, ltb, ltb→lt,
}
use graphatlas.Index.Disk.{Disk, Env, Error, Result, ok, err}
use graphatlas.Index.Metadata.{SchemaDecision, cold_load}
use graphatlas.Index.Wait.{
  Peers, sleep_cap, is_final, Waited, decided, load_failed, out_of_fuel, Wait, wait_loop,
  wait_for_complete_decision,
}

-- The k-th sleep, and the time asked of the k sleeps before it.
abbrev sleep_at : ℕ → ℕ
sleep_at zero = 100
sleep_at (suc zero) = 200
sleep_at (suc (suc zero)) = 400
sleep_at (suc (suc (suc zero))) = 800
sleep_at (suc (suc (suc (suc zero)))) = 1600
sleep_at (suc (suc (suc (suc (suc k))))) = 2000

abbrev slept : ℕ → ℕ
slept zero = 0
slept (suc k) = slept k + sleep_at k

sleep_at-suc : (k : ℕ) → min (sleep_at k * 2) sleep_cap ≡ sleep_at (suc k)
sleep_at-suc zero = refl
sleep_at-suc (suc zero) = refl
sleep_at-suc (suc (suc zero)) = refl
sleep_at-suc (suc (suc (suc zero))) = refl
sleep_at-suc (suc (suc (suc (suc zero)))) = refl
sleep_at-suc (suc (suc (suc (suc (suc k))))) = refl

slept-late : (k : ℕ) → slept (suc (suc (suc (suc (suc k))))) ≡ 3100 + 2000 * k
slept-late zero = refl
slept-late (suc k) = omega (arith, slept-late k)

sleep_at-pos : (k : ℕ) → 1 ≤ sleep_at k
sleep_at-pos zero = omega arith
sleep_at-pos (suc zero) = omega arith
sleep_at-pos (suc (suc zero)) = omega arith
sleep_at-pos (suc (suc (suc zero))) = omega arith
sleep_at-pos (suc (suc (suc (suc zero)))) = omega arith
sleep_at-pos (suc (suc (suc (suc (suc k))))) = omega arith

-- What the loop's outcome has to do with the disk that it saw last.
abbrev pub ReadFrom : Env → ℕ → Waited → Disk → Type 0
ReadFrom env binary (decided decision) d = (cold_load env binary d).0 ≡ ok decision
ReadFrom env binary (load_failed e) d = (cold_load env binary d).0 ≡ err e
ReadFrom env binary out_of_fuel d = ⊥

module _ (env : Env) (binary budget : ℕ) (peers : Peers) where
  abbrev IsBounded : ℕ → Wait → Type 0
  IsBounded k w = (w.attempts ≡ suc k) ⊎ (slept (w.attempts - 2) < budget)

  wait_stops_err :
      (fuel k elapsed sleep : ℕ) (d : Disk) (e : Error)
      → (cold_load env binary d).0 ≡ err e
      → wait_loop env binary budget peers (suc fuel) k elapsed sleep d
        ≡ record { outcome = load_failed e; attempts = suc k; disk = d }
  unfolding wait_loop
  wait_stops_err fuel k elapsed sleep d e p = rw (p, wait_loop)

  wait_stops :
      (fuel k elapsed sleep : ℕ) (d : Disk) (decision : SchemaDecision)
      → (cold_load env binary d).0 ≡ ok decision
      → (is_final decision ≡ true) ⊎ (leb budget elapsed ≡ true)
      → wait_loop env binary budget peers (suc fuel) k elapsed sleep d
        ≡ record { outcome = decided decision; attempts = suc k; disk = d }
  unfolding wait_loop
  wait_stops fuel k elapsed sleep d decision p q = rw (p, wait_loop) (ground arith)

  wait_goes_on :
      (fuel k elapsed sleep : ℕ) (d : Disk) (decision : SchemaDecision)
      → (cold_load env binary d).0 ≡ ok decision
      → is_final decision ≡ false
      → leb budget elapsed ≡ false
      → wait_loop env binary budget peers (suc fuel) k elapsed sleep d
        ≡ wait_loop env binary budget peers fuel
            (suc k)
            (elapsed + sleep + peers.lag k)
            (min (sleep * 2) sleep_cap)
            (peers.meanwhile k d)
  unfolding wait_loop
  wait_goes_on fuel k elapsed sleep d decision p q r = rw (p, wait_loop) (rw q (rw r refl))

  abbrev WaitsWell : ℕ → Wait → Type 0
  WaitsWell k w = ReadFrom env binary w.outcome w.disk × IsBounded k w

  WaitsWell-suc : (k : ℕ) (w : Wait) → slept k < budget → WaitsWell (suc k) w → WaitsWell k w
  WaitsWell-suc k w h (r, inl e) = (r, inr (rw e (rw (two k) h)))
    where
      two : (k : ℕ) → suc (suc k) - 2 ≡ k
      two k = omega arith
  WaitsWell-suc k w h (r, inr b) = (r, inr b)

  stops_WaitsWell :
      (fuel k elapsed : ℕ) (d : Disk) (decision : SchemaDecision)
      → (cold_load env binary d).0 ≡ ok decision
      → (is_final decision ≡ true) ⊎ (leb budget elapsed ≡ true)
      → WaitsWell k (wait_loop env binary budget peers (suc fuel) k elapsed (sleep_at k) d)
  stops_WaitsWell fuel k elapsed d decision p q =
      rw (wait_stops fuel k elapsed (sleep_at k) d decision p q) (p, inl refl)

  abbrev Rest : ℕ → ℕ → ℕ → Disk → Type 0
  Rest fuel k elapsed d = WaitsWell (suc k) (
      wait_loop env binary budget peers fuel (suc k) (elapsed + sleep_at k + peers.lag k)
        (sleep_at (suc k)) (peers.meanwhile k d))

  -- One round, with the rest of the loop given for the case that it goes on.
  round_WaitsWell :
      (fuel k elapsed : ℕ) (d : Disk)
      → slept k ≤ elapsed
      → (leb budget elapsed ≡ false → Rest fuel k elapsed d)
      → (r : Result SchemaDecision) → (cold_load env binary d).0 ≡ r
      → WaitsWell k (wait_loop env binary budget peers (suc fuel) k elapsed (sleep_at k) d)
  round_WaitsWell fuel k elapsed d s rest (err e) p =
      rw (wait_stops_err fuel k elapsed (sleep_at k) d e p) (p, inl refl)
  round_WaitsWell fuel k elapsed d s rest (ok decision) p = elim (Bool-cases (is_final decision)) [
    | inl f ↦ stops_WaitsWell fuel k elapsed d decision p (inl f)
    | inr f ↦ elim (Bool-cases (leb budget elapsed)) [
      | inl l ↦ stops_WaitsWell fuel k elapsed d decision p (inr l)
      | inr l ↦
          rw (wait_goes_on fuel k elapsed (sleep_at k) d decision p f l)
            (WaitsWell-suc k _ (ground arith) (rw (sleep_at-suc k) (rest l)))
    ]
  ]

  -- The fuel lasts: each round takes a millisecond at least.
  wait_loop-WaitsWell :
      (fuel k elapsed : ℕ) (d : Disk)
      → slept k ≤ elapsed
      → budget ≤ elapsed + fuel
      → WaitsWell k (wait_loop env binary budget peers (suc fuel) k elapsed (sleep_at k) d)
  wait_loop-WaitsWell zero k elapsed d s b =
      round_WaitsWell zero k elapsed d s (λ l. absurd (ground arith)) _ refl
  wait_loop-WaitsWell (suc fuel) k elapsed d s b =
      round_WaitsWell (suc fuel) k elapsed d s
        (λ l.
          wait_loop-WaitsWell fuel (suc k) (elapsed + sleep_at k + peers.lag k)
            (peers.meanwhile k d) (omega arith) (omega (arith, sleep_at-pos k)))
        _ refl

late : (n : ℕ) → 19 ≤ n → 30000 ≤ slept n
late (suc (suc (suc (suc (suc k))))) h = omega (arith, slept-late k)
late _ h = omega arith

early : (n : ℕ) → slept n < 30000 → n < 19
early n h = elim (Bool-cases (ltb n 19)) [
  | inl e ↦ ltb→lt n 19 e
  | inr e ↦ absurd (omega (arith, late n (ground arith)))
]

few : (budget a : ℕ) → budget ≤ 30000 → (a ≡ 1) ⊎ (slept (a - 2) < budget) → a ≤ 20
few budget a h (inl e) = omega arith
few budget a h (inr b) = omega (arith, early (a - 2) (omega arith))

-- Whatever the other processes do, the wait ends with a decision, or a load error, that was read
-- from the disk in its last attempt; under a budget of at most 30 s it makes at most 20 attempts.
pub wait_for_complete_decision_ends :
    (env : Env) (binary budget : ℕ) (peers : Peers) (d : Disk)
    → budget ≤ 30000
    → let w = wait_for_complete_decision env binary budget peers d in
      ReadFrom env binary w.outcome w.disk × (w.attempts ≤ 20)
unfolding wait_for_complete_decision
wait_for_complete_decision_ends env binary budget peers d h =
    let w = wait_for_complete_decision env binary budget peers d in
    let (r, b) =
      wait_loop-WaitsWell env binary budget peers budget 0 0 d (omega arith) (omega arith) in
    (r, few budget w.attempts h b)
