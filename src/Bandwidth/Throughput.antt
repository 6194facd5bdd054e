-- ===== src/Bandwidth/Throughput.antt =====
-- `throughput_test` and the whole measurement on a device that works.
use network_optimization.Prelude.{
  ℕ, suc, ◌+◌, ◌*◌, ◌<◌, ◌≡◌, refl, List, [], ◌∷◌, ◌++◌, replicate, Bool, true, false, arith,
}
use network_optimization.Verbs.{returned}
use network_optimization.Bandwidth.{
  Request, Bench, control_request, trials, list_message_sizes, throughput_test, num_of_warmup,
  measure,
}
use network_optimization.Bandwidth.Waiting.{IsReady}
use network_optimization.Bandwidth.Progress.{IsReady-le, Did, Did-nothing, Did-trans}
use network_optimization.Bandwidth.Experiment.{
  posts_of, takes_of, perform_single_experiment-IsReady,
}
use network_optimization.Bandwidth.Latency.{latency_test-IsReady}

-- What the trials post, and how many completions they take.
abbrev pub trial_posts : Bool → Bench → ℕ → List ℕ → List Request
trial_posts is_client b iters [] = []
trial_posts is_client b iters (size ∷ sizes) =
    posts_of is_client b iters size ++ trial_posts is_client b iters sizes

abbrev pub trial_takes : Bool → ℕ → List ℕ → ℕ
trial_takes is_client iters [] = 0
trial_takes is_client iters (size ∷ sizes) =
    takes_of is_client iters + trial_takes is_client iters sizes

-- What is posted depends on what requests are made of alone.
posts_of_same :
    (is_client : Bool) (b b' : Bench) (rs : List Request) (n iters size : ℕ)
    → Did b b' rs n
    → posts_of is_client b' iters size ≡ posts_of is_client b iters size
posts_of_same true b b' rs n iters size d = rw (d.writes_same size, d.control_same) refl
posts_of_same false b b' rs n iters size d = rw d.control_same refl

trial_posts_same :
    (is_client : Bool) (b b' : Bench) (rs : List Request) (n iters : ℕ) (sizes : List ℕ)
    → Did b b' rs n
    → trial_posts is_client b' iters sizes ≡ trial_posts is_client b iters sizes
trial_posts_same is_client b b' rs n iters [] d = refl
trial_posts_same is_client b b' rs n iters (size ∷ sizes) d =
    rw
      (
        posts_of_same is_client b b' rs n iters size d,
        trial_posts_same is_client b b' rs n iters sizes d,
      )
      refl

trials_lem :
    (is_client : Bool) (b : Bench) (d iters more : ℕ) (sizes : List ℕ)
    → IsReady b (trial_takes is_client iters sizes + more)
    → (b' : Bench) × (trials is_client b (suc d) iters sizes ≡ returned b')
      × IsReady b' more
      × Did b b' (trial_posts is_client b iters sizes) (trial_takes is_client iters sizes)
unfolding trials
trials_lem is_client b d iters more [] r = (b, refl, IsReady-le more (omega arith) r, Did-nothing b)
trials_lem is_client b d iters more (size ∷ sizes) r =
    let rest = trial_takes is_client iters sizes + more in
    let (b1, e1, r1, did1) =
      perform_single_experiment-IsReady is_client b d iters size rest
        (IsReady-le (takes_of is_client iters + rest) (omega arith) r) in
    let (b2, e2, r2, did2) = trials_lem is_client b1 d iters more sizes r1 in
    (
      b2,
      rw e1 e2,
      r2,
      Did-trans did1 (
          rw
            (trial_posts_same is_client b b1 (posts_of is_client b iters size)
              (takes_of is_client iters) iters sizes did1)
            at did2),
    )

-- What the whole measurement posts, and how many completions it takes.
abbrev pub measure_posts : Bool → Bench → ℕ → List Request
measure_posts is_client b iters =
    replicate num_of_warmup (control_request b)
    ++ (trial_posts is_client b iters list_message_sizes ++ replicate iters (control_request b))

abbrev pub measure_takes : Bool → ℕ → ℕ
measure_takes is_client iters =
    2 * num_of_warmup + (trial_takes is_client iters list_message_sizes + 2 * iters)

-- On a device that works, with a depth of 1 or more and one round or more, the measurement ends: the
-- requests posted are those of the warm-up, of one trial for each message size, in their order, and
-- of the latency rounds, and exactly as many completions are taken as these give, the peer's
-- messages included.
pub measure-IsReady :
    (is_client : Bool) (b : Bench) (d iters more : ℕ)
    → 0 < iters
    → IsReady b (measure_takes is_client iters + more)
    → (b' : Bench) × (measure is_client b (suc d) iters ≡ returned b')
      × IsReady b' more
      × Did b b' (measure_posts is_client b iters) (measure_takes is_client iters)
unfolding measure throughput_test
measure-IsReady is_client b d iters more some_rounds r =
    let takes = trial_takes is_client iters list_message_sizes in
    let (b1, e1, r1, did1) =
      latency_test-IsReady is_client b num_of_warmup (takes + (2 * iters + more)) (omega arith)
        (IsReady-le (2 * num_of_warmup + (takes + (2 * iters + more))) (omega arith) r) in
    let (b2, e2, r2, did2) =
      trials_lem is_client b1 d iters (2 * iters + more) list_message_sizes r1 in
    let (b3, e3, r3, did3) = latency_test-IsReady is_client b2 iters more some_rounds r2 in
    let same =
      trial_posts_same is_client b b1 (replicate num_of_warmup (control_request b))
        (2 * num_of_warmup) iters list_message_sizes did1 in
    (
      b3,
      rw (e1, e2, e3) refl,
      r3,
      Did-trans did1
          (Did-trans (rw same at did2) (rw (did2.control_same, did1.control_same) at did3)),
    )
