-- ===== src/Bandwidth/Batches.antt =====
-- Optimization/bw_template.c: the batches of `pp_wait_completions` against one pass over the
-- completions.
use network_optimization.Prelude.{
  ℕ, zero, suc, ◌+◌, ◌-◌, ◌≤◌, ◌≡◌, refl, sym, ap, ◌∙◌, inl, inr, List, [], ◌∷◌, ◌++◌, Bool-cases,
  ◌==◌, take, drop, arith,
}
use network_optimization.Verbs.{Outcome, returned, missing, decrement}
use network_optimization.Bandwidth.{
  Bench, Completion, WrId, pingpong_send_wrid, pingpong_recv_wrid, other_wrid, Poll, failed, ready,
  post_recv_loop, pp_post_recv, fill_up, by_wr_id, runs_low, process, process_batch, num_entries,
  wait_loop, pp_wait_completions,
}

-- The context without its completion queue.
abbrev pub core : Bench → Bench
core b = record b { queue = []; polls = [] }

abbrev with_queue : List Completion → List Poll → Bench → Bench
with_queue q ps b = record b { queue = q; polls = ps }

-- The work on completions does not look at the queue.
module _ (q : List Completion) (ps : List Poll) where
  abbrev lifted : ℕ × Bench → ℕ × Bench
  lifted r = (r.0, with_queue q ps r.1)

  post_recv_loop-queue :
      (b : Bench) (n i : ℕ) → post_recv_loop (with_queue q ps b) n i ≡ lifted (post_recv_loop b n i)
  unfolding post_recv_loop
  post_recv_loop-queue b zero i = refl
  post_recv_loop-queue b (suc n) i = elim (Bool-cases (b.post_recv_result b.num_post_recv == 0)) [
    | inl posted ↦ rw posted (
        post_recv_loop-queue (record b { held = b.held + 1; num_post_recv = b.num_post_recv + 1 }) n
          (i + 1))
    | inr refused ↦ rw refused refl
  ]

  fill_up-queue : (b : Bench) → fill_up (with_queue q ps b) ≡ lifted (fill_up b)
  unfolding fill_up pp_post_recv
  fill_up-queue b = rw (post_recv_loop-queue b (missing b.rx_depth b.routs) 0) refl

  by_wr_id-queue : (b : Bench) (w : WrId) → by_wr_id (with_queue q ps b) w ≡ lifted (by_wr_id b w)
  unfolding by_wr_id
  by_wr_id-queue b pingpong_send_wrid = refl
  by_wr_id-queue b pingpong_recv_wrid =
      let b' = record b { routs = decrement b.routs; held = b.held - 1 } in
      elim (Bool-cases (runs_low b'.routs)) [
        | inl low ↦ rw low (fill_up-queue b')
        | inr high ↦ rw high refl
      ]
  by_wr_id-queue b other_wrid = refl

  process-queue :
      (b : Bench) (w : Completion) → process (with_queue q ps b) w ≡ lifted (process b w)
  unfolding process
  process-queue b w = elim (Bool-cases w.is_success) [
    | inl good ↦ rw good (by_wr_id-queue b w.wr_id)
    | inr bad ↦ rw bad refl
  ]

  process_batch-queue :
      (b : Bench) (ws : List Completion)
      → process_batch (with_queue q ps b) ws ≡ lifted (process_batch b ws)
  unfolding process_batch
  process_batch-queue b [] = refl
  process_batch-queue b (w ∷ ws) = elim (Bool-cases ((process b w).0 == 0)) [
    | inl on ↦ rw (process-queue b w, on) (process_batch-queue (process b w).1 ws)
    | inr stop ↦ rw (process-queue b w, stop) refl
  ]

process_batch-append :
    (b : Bench) (xs ys : List Completion)
    → (process_batch b xs).0 ≡ 0
    → process_batch b (xs ++ ys) ≡ process_batch (process_batch b xs).1 ys
unfolding process_batch
process_batch-append b [] ys e = refl
process_batch-append b (w ∷ xs) ys e = elim (Bool-cases ((process b w).0 == 0)) [
  | inl on ↦ rw on (process_batch-append (process b w).1 xs ys (rw on at e))
  | inr stop ↦ absurd (ground (arith, rw stop at e))
]

take-nil {ℓ} : {A : Type ℓ} (k : ℕ) → take {A = A} k [] ≡ []
take-nil zero = refl
take-nil (suc k) = refl

drop-nil {ℓ} : {A : Type ℓ} (k : ℕ) → drop {A = A} k [] ≡ []
drop-nil zero = refl
drop-nil (suc k) = refl

take-split {ℓ} :
    {A : Type ℓ} (m n : ℕ) (xs : List A)
    → m ≤ n
    → (take n xs ≡ take m xs ++ take (n - m) (drop m xs)) × (drop n xs ≡ drop (n - m) (drop m xs))
take-split zero n xs le = let same : n - 0 ≡ n = omega arith in rw same (refl, refl)
take-split (suc m) zero xs le = absurd (omega arith)
take-split (suc m) (suc n) [] le = (sym (take-nil (suc n - suc m)), sym (drop-nil (suc n - suc m)))
take-split (suc m) (suc n) (x ∷ xs) le =
    let same : suc n - suc m ≡ n - m = omega arith in
    let (t, d) = take-split m n xs (omega arith) in rw same (ap (λ ys. x ∷ ys) t, d)

num_entries-le : (b : Bench) (left k : ℕ) → num_entries b left k ≤ left
num_entries-le b left k = ground arith

one_ne : {b b' : Bench} → ◌≡◌ {A = Outcome (ℕ × Bench)} (returned (1, b)) (returned (0, b')) → ⊥
one_ne e = cc

same_end :
    {b b' : Bench} → ◌≡◌ {A = Outcome (ℕ × Bench)} (returned (0, b)) (returned (0, b')) → b ≡ b'
same_end e = cc

wait_loop_lem :
    (b : Bench) (n : ℕ) (ps : List Poll) (b' : Bench)
    → wait_loop b n ps ≡ returned (0, b')
    → (process_batch (core b) (take n b.queue) ≡ (0, core b')) × (b'.queue ≡ drop n b.queue)
unfolding wait_loop process_batch
wait_loop_lem b zero ps b' e =
    (ap (λ x. (0, core x)) (same_end e), sym (ap (λ x. x.queue) (same_end e)))
wait_loop_lem b (suc left) [] b' e = cc
wait_loop_lem b (suc left) (failed ∷ ps) b' e = absurd (one_ne e)
wait_loop_lem b (suc left) (ready k ∷ ps) b' e =
    let ne = num_entries b (suc left) k in
    let rest = drop ne b.queue in
    let first = process_batch (core b) (take ne b.queue) in
    let moved = process_batch-queue rest b.polls (core b) (take ne b.queue) in
    let still = process_batch-queue [] [] (core b) (take ne b.queue) in
    elim (Bool-cases (first.0 == 0)) [
      | inl on ↦
          let after : Bench = with_queue rest b.polls first.1 in
          let (same, taken) = wait_loop_lem after (suc left - ne) ps b' (rw (moved, on) at e) in
          let (t, d) = take-split ne (suc left) b.queue (num_entries-le b (suc left) k) in
          (
            rw t (
                process_batch-append (core b) (take ne b.queue) (take (suc left - ne) rest)
                  (ground (arith, on))
                ∙ ap (λ x. process_batch x (take (suc left - ne) rest)) (ap (λ r. r.1) still)
                ∙ same),
            taken ∙ sym d,
          )
      | inr stop ↦ absurd (one_ne (rw (moved, stop) at e))
    ]

-- Whatever the polls bring at a time: when `pp_wait_completions` returns 0, it has done the same work
-- as one pass over the completions that it was asked for, and has taken these from the queue.
pub pp_wait_completions-process_batch :
    (b : Bench) (n : ℕ) (b' : Bench)
    → pp_wait_completions b n ≡ returned (0, b')
    → (process_batch (core b) (take n b.queue) ≡ (0, core b')) × (b'.queue ≡ drop n b.queue)
unfolding pp_wait_completions
pp_wait_completions-process_batch b n b' e = wait_loop_lem b n b.polls b' e
