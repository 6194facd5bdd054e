-- ===== src/Bandwidth/Latency.antt =====
-- `latency_test` on a device that works.
use network_optimization.Prelude.{
  ℕ, zero, suc, ◌+◌, ◌*◌, ◌<◌, ◌≡◌, refl, [], ◌∷◌, replicate, Bool, true, false, ◌==◌,
  if◌then◌else◌, arith,
}
use network_optimization.Verbs.{returned}
use network_optimization.Bandwidth.{
  Bench, control_request, latency_round, latency_loop, latency_test,
}
use network_optimization.Bandwidth.Waiting.{IsReady}
use network_optimization.Bandwidth.Progress.{
  IsReady-le, Did, Did-nothing, Did-trans, pp_wait_completions-Did,
}
use network_optimization.Bandwidth.Experiment.{Did-at, report}

-- What round `i` of `iters` waits for: the server's first round has one more, its last one less.
abbrev first_wait : ℕ → ℕ
first_wait zero = 1
first_wait (suc i) = 0

abbrev last_wait : ℕ → ℕ → ℕ
last_wait i iters = if i + 1 == iters then 1 else 2

abbrev waits_of : Bool → ℕ → ℕ → ℕ
waits_of true i iters = 2
waits_of false i iters = first_wait i + last_wait i iters

not_first : (i : ℕ) → (suc i == 0) ≡ false
not_first i = ground arith

round_lem :
    (is_client : Bool) (b : Bench) (i iters more : ℕ)
    → IsReady b (waits_of is_client i iters + more)
    → (b' : Bench) × (latency_round is_client b i iters ≡ returned (0, b'))
      × IsReady b' more
      × Did b b' (control_request b ∷ []) (waits_of is_client i iters)
unfolding latency_round
round_lem true b i iters more r =
    let (b1, b2, e1, e2, r2, did2) = report b 2 more r in (b2, rw (e1, e2) refl, r2, did2)
round_lem false b zero iters more r =
    let (b1, e1, r1, did1) =
      pp_wait_completions-Did b 1 (last_wait 0 iters + more)
        (IsReady-le (1 + (last_wait 0 iters + more)) (omega arith) r) in
    let (b2, b3, e2, e3, r3, did3) = report b1 (last_wait 0 iters) more r1 in
    (b3, rw (e1, e2, e3) refl, r3, Did-trans did1 (rw did1.control_same at did3))
round_lem false b (suc i) iters more r =
    let (b2, b3, e2, e3, r3, did3) =
      report b (last_wait (suc i) iters) more
        (IsReady-le (last_wait (suc i) iters + more) (omega arith) r) in
    (b3, rw (not_first i, e2, e3) refl, r3, Did-at (omega arith) did3)

-- What the rounds from round `i` on wait for.
abbrev rest_of : Bool → ℕ → ℕ → ℕ
rest_of true i n = 2 * n
rest_of false i zero = 0
rest_of false i (suc n) = first_wait i + 2 * n + 1

rest_lem :
    (is_client : Bool) (i n iters : ℕ)
    → i + suc n ≡ iters
    → rest_of is_client i (suc n) ≡ waits_of is_client i iters + rest_of is_client (suc i) n
rest_lem true i n iters e = omega arith
rest_lem false i zero iters e = ground arith
rest_lem false i (suc n) iters e = ground arith

loop_lem :
    (is_client : Bool) (b : Bench) (n i iters more : ℕ)
    → i + n ≡ iters
    → IsReady b (rest_of is_client i n + more)
    → (b' : Bench) × (latency_loop is_client b n i iters ≡ returned (0, b'))
      × IsReady b' more
      × Did b b' (replicate n (control_request b)) (rest_of is_client i n)
unfolding latency_loop
loop_lem true b zero i iters more e r = (b, refl, IsReady-le more (omega arith) r, Did-nothing b)
loop_lem false b zero i iters more e r = (b, refl, IsReady-le more (omega arith) r, Did-nothing b)
loop_lem is_client b (suc n) i iters more e r =
    let count = rest_lem is_client i n iters e in
    let (b1, e1, r1, did1) = round_lem is_client b i iters (rest_of is_client (suc i) n + more) (
      IsReady-le (waits_of is_client i iters + (rest_of is_client (suc i) n + more))
        (omega (arith, count)) r) in
    let (b2, e2, r2, did2) = loop_lem is_client b1 n (suc i) iters more (omega (arith, e)) r1 in
    (b2, rw e1 e2, r2, Did-at count (Did-trans did1 (rw did1.control_same at did2)))

-- On a device that works, `latency_test` of one round or more returns 0: client and server both
-- have posted one control message in each round, and both have taken two completions for each
-- round, one of a message sent and one of a message received.
pub latency_test-IsReady :
    (is_client : Bool) (b : Bench) (iters more : ℕ)
    → 0 < iters
    → IsReady b (2 * iters + more)
    → (b' : Bench) × (latency_test is_client b iters ≡ returned (0, b'))
      × IsReady b' more
      × Did b b' (replicate iters (control_request b)) (2 * iters)
unfolding latency_test
latency_test-IsReady is_client b zero more pos_iters r = absurd (omega arith)
latency_test-IsReady true b (suc n) more pos_iters r =
    loop_lem true b (suc n) 0 (suc n) more (omega arith) r
latency_test-IsReady false b (suc n) more pos_iters r =
    let count : 2 * suc n ≡ rest_of false 0 (suc n) = omega arith in
    let (b', e, r', did) =
      loop_lem false b (suc n) 0 (suc n) more (omega arith)
        (IsReady-le (rest_of false 0 (suc n) + more) (omega (arith, count)) r) in
    (b', e, r', Did-at count did)
