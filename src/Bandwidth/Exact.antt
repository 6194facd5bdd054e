-- ===== src/Bandwidth/Exact.antt =====
-- `pp_wait_completions` on any device.
use network_optimization.Prelude.{
  ℕ, zero, suc, ◌+◌, ◌-◌, ◌≡◌, refl, sym, ap, ◌∙◌, inl, inr, List, [], ◌∷◌, ◌++◌, append_assoc,
  true, Bool-cases, ◌==◌, length, length-append, length-take, take, drop, arith,
}
use network_optimization.Verbs.{Outcome, returned, waiting, fault, decrement, missing}
use network_optimization.Bandwidth.{
  runs_low, WrId, pingpong_send_wrid, pingpong_recv_wrid, other_wrid, Completion, Poll, failed,
  ready, Bench, post_recv_loop, pp_post_recv, fill_up, by_wr_id, process, process_batch,
  num_entries, wait_loop, pp_wait_completions,
}
use network_optimization.Bandwidth.Waiting.{IsKnown, AllGood, num_entries_le}

queue-post_recv_loop : (b : Bench) (n i : ℕ) → (post_recv_loop b n i).1.queue ≡ b.queue
unfolding post_recv_loop
queue-post_recv_loop b zero i = refl
queue-post_recv_loop b (suc n) i = ground (
  arith,
  queue-post_recv_loop (record b { held = b.held + 1; num_post_recv = b.num_post_recv + 1 }) n
      (i + 1),
)

queue-by_wr_id : (b : Bench) (w : WrId) → (by_wr_id b w).1.queue ≡ b.queue
unfolding by_wr_id fill_up pp_post_recv
queue-by_wr_id b pingpong_send_wrid = refl
queue-by_wr_id b other_wrid = refl
queue-by_wr_id b pingpong_recv_wrid =
    let b' : Bench = record b { routs = decrement b.routs; held = b.held - 1 } in
    elim (Bool-cases (runs_low b'.routs)) [
      | inl low ↦ rw low (queue-post_recv_loop b' (missing b'.rx_depth b'.routs) 0)
      | inr high ↦ rw high refl
    ]

one_ne : ◌≡◌ {A = ℕ} 1 0 → ⊥
one_ne e = omega arith

code-by_wr_id : (b : Bench) (w : WrId) → (by_wr_id b w).0 ≡ 0 → IsKnown w
unfolding by_wr_id
code-by_wr_id b pingpong_send_wrid e = tt
code-by_wr_id b pingpong_recv_wrid e = tt
code-by_wr_id b other_wrid e = one_ne e

-- A completion leaves the queue alone; its code is 0 only for a good one.
process_lem :
    (b : Bench) (w : Completion)
    → ((process b w).1.queue ≡ b.queue)
      × ((process b w).0 ≡ 0 → (w.is_success ≡ true) × IsKnown w.wr_id)
unfolding process
process_lem b w = elim (Bool-cases w.is_success) [
  | inl e ↦ (rw e (queue-by_wr_id b w.wr_id), λ z. (e, code-by_wr_id b w.wr_id (rw e at z)))
  | inr e ↦ (rw e refl, λ z. absurd (one_ne (rw e at z)))
]

batch_lem :
    (b : Bench) (ws : List Completion)
    → ((process_batch b ws).1.queue ≡ b.queue) × ((process_batch b ws).0 ≡ 0 → AllGood ws)
unfolding process_batch
batch_lem b [] = (refl, λ e. tt)
batch_lem b (w ∷ ws) = elim (Bool-cases ((process b w).0 == 0)) [
  | inl z ↦
      let (q, good) = process_lem b w in
      let (q', good') = batch_lem (process b w).1 ws in
      let code : (process b w).0 ≡ 0 = ground arith in
      (rw z (q' ∙ q), λ e. ((good code).0, (good code).1, good' (rw z at e)))
  | inr nz ↦ (rw nz (process_lem b w).0, λ e. absurd (one_ne (rw nz at e)))
]

take-drop {ℓ} : {A : Type ℓ} (n : ℕ) (xs : List A) → xs ≡ take n xs ++ drop n xs
take-drop zero xs = refl
take-drop (suc n) [] = refl
take-drop (suc n) (x ∷ xs) = ap (λ ys. x ∷ ys) (take-drop n xs)

AllGood-append : (ws vs : List Completion) → AllGood ws → AllGood vs → AllGood (ws ++ vs)
AllGood-append [] vs h h' = h'
AllGood-append (w ∷ ws) vs (a, b, h) h' = (a, b, AllGood-append ws vs h h')

-- What a wait has taken from a queue.
abbrev pub Taken : ℕ → List Completion → List Completion → Type 0
Taken n q q' = (used : List Completion) × (q ≡ used ++ q') × (length used ≡ n) × AllGood used

abbrev code_of : Outcome (ℕ × Bench) → ℕ
code_of (returned (code, b)) = code
code_of waiting = 0
code_of fault = 0

abbrev queue_of : Outcome (ℕ × Bench) → List Completion
queue_of (returned (code, b)) = b.queue
queue_of waiting = []
queue_of fault = []

wait_loop_exact :
    (b b' : Bench) (left : ℕ) (ps : List Poll)
    → wait_loop b left ps ≡ returned (0, b')
    → Taken left b.queue b'.queue
unfolding wait_loop
wait_loop_exact b b' zero ps e = ([], ap queue_of e, refl, tt)
wait_loop_exact b b' (suc left) [] e = cc
wait_loop_exact b b' (suc left) (failed ∷ ps) e = absurd (one_ne (ap code_of e))
wait_loop_exact b b' (suc left) (ready k ∷ ps) e =
    let ne = num_entries b (suc left) k in
    let first : ℕ × Bench =
      process_batch (record b { queue = drop ne b.queue }) (take ne b.queue) in
    let (q, good) = batch_lem (record b { queue = drop ne b.queue }) (take ne b.queue) in
    let bounds = num_entries_le b (suc left) k in
    elim (Bool-cases (first.0 == 0)) [
      | inl z ↦
          let code : first.0 ≡ 0 = ground arith in
          let (used, split, count, good') =
            wait_loop_exact first.1 b' (suc left - ne) ps (rw z at e) in
          (
            take ne b.queue ++ used,
            take-drop ne b.queue
                ∙ ap (λ r. take ne b.queue ++ r) (sym q ∙ split)
                ∙ sym (append_assoc (take ne b.queue) used b'.queue),
            omega (
              arith,
              length-append (take ne b.queue) used,
              length-take ne b.queue,
              count,
              bounds,
            ),
            AllGood-append (take ne b.queue) used (good code) good',
          )
      | inr nz ↦ absurd (one_ne (ap code_of (rw nz at e)))
    ]

-- Whatever the device answers: when `pp_wait_completions` returns 0, it has taken exactly as many
-- completions from the queue as it was asked for, and all of them were good.
pub pp_wait_completions-Taken :
    (b b' : Bench) (iters : ℕ)
    → pp_wait_completions b iters ≡ returned (0, b')
    → Taken iters b.queue b'.queue
unfolding pp_wait_completions
pp_wait_completions-Taken b b' iters e = wait_loop_exact b b' iters b.polls e
