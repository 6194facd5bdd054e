-- ===== src/Verbs/Receiving.antt =====
-- The receive queue: `routs` counts the requests that the device holds, and a connection that
-- has not failed never runs out of them.
use network_optimization.Prelude.{
  ℕ, zero, suc, ◌+◌, ◌-◌, ◌≤◌, ◌<◌, ◌≡◌, ◌≢◌, refl, sym, ◌∙◌, ap, ◌⊎◌, inl, inr, List, [], ◌∷◌,
  ◌++◌, Bool, true, false, ◌==◌, arith, Bool-cases,
}
use network_optimization.Prelude.Int.{pos}
use network_optimization.Verbs.{
  WcOpcode, wc_recv, WorkCompletion, PollResult, failed, entries, Outcome, returned, waiting, fault,
  PingpongContext, refill_rwr_thres, ReceiveCode, problem, success, post_recv_loop, after_posting,
  missing, pp_post_recv, refill, taken, by_opcode, process_received, receive_loop,
  poll_next_receive_wc, refilled, decrement, needs_refill,
}

-- `routs` is right, above the threshold, and not above the depth.
pub record IsFilled (c : PingpongContext) : Type 0 where
  pub tracked : c.routs ≡ pos c.outstanding
  pub above : refill_rwr_thres < c.outstanding
  pub within : c.outstanding ≤ c.rx_depth

-- The loop answers 0 or 1, and 0 only after all its requests were accepted.
post_recv_loop_lem :
    (n p code q : ℕ) (rs rest : List ℕ)
    → post_recv_loop n p rs ≡ returned (code, q, rest)
    → ((code ≡ 0) × (q ≡ p + n)) ⊎ (code ≡ 1)
unfolding post_recv_loop
post_recv_loop_lem zero p code q rs rest e = inl (ground arith, ground arith)
post_recv_loop_lem (suc n) p code q [] rest e = cc
post_recv_loop_lem (suc n) p code q (r ∷ rs) rest e = elim (Bool-cases (r == 0)) [
  | inl hit ↦ elim (post_recv_loop_lem n (p + 1) code q rs rest (rw hit at e)) [
    | inl (z, s) ↦ inl (z, omega arith)
    | inr o ↦ inr o
  ]
  | inr miss ↦ inr (
      let e' : ◌≡◌ {A = Outcome (ℕ × ℕ × List ℕ)} (returned (1, p, rs)) (returned (code, q, rest)) =
        rw miss at e in
      ground arith)
]

after_posting_lem :
    (c c' : PingpongContext) (code : ℕ) (o : Outcome (ℕ × ℕ × List ℕ))
    → after_posting c o ≡ returned (code, c')
    → (q : ℕ) × (rest : List ℕ) × (o ≡ returned (code, q, rest))
      × (c'.outstanding ≡ c.outstanding + q)
      × (c'.rx_depth ≡ c.rx_depth)
      × (code ≡ 0 → c'.routs ≡ pos c.rx_depth)
unfolding after_posting
after_posting_lem c c' code (returned (k, q, rest)) e =
    let same : k ≡ code = ground arith in
    (q, rest, ap (λ m. returned (m, q, rest)) same, ground arith, ground arith, (λ z. ground arith))
after_posting_lem c c' code waiting e = cc
after_posting_lem c c' code fault e = cc

-- A successful `pp_post_recv` fills the queue to its depth.
pub pp_post_recv_lem :
    (c c' : PingpongContext) (code : ℕ)
    → c.routs ≡ pos c.outstanding
    → c.outstanding ≤ c.rx_depth
    → pp_post_recv c ≡ returned (code, c')
    → ((code ≡ 0)
        × (c'.routs ≡ pos c.rx_depth)
        × (c'.outstanding ≡ c.rx_depth)
        × (c'.rx_depth ≡ c.rx_depth))
      ⊎ (code ≡ 1)
unfolding pp_post_recv
pp_post_recv_lem c c' code t le e =
    let (q, rest, loop, out, depth, routs) = after_posting_lem c c' code _ e in
    elim (post_recv_loop_lem (missing c.rx_depth c.routs) 0 code q c.post_recv_results rest loop) [
      | inl (z, n) ↦
          let gap : missing c.rx_depth c.routs ≡ c.rx_depth - c.outstanding =
            ap (missing c.rx_depth) t in
          inl (z, routs z, omega arith, depth)
      | inr o ↦ inr o
    ]

refilled_lem :
    (o : Outcome (ℕ × PingpongContext)) (code : ReceiveCode) (c' : PingpongContext)
    → refilled o ≡ returned (code, c')
    → code ≢ problem
    → (code ≡ success) × (o ≡ returned (0, c'))
unfolding refilled
refilled_lem (returned (k, d)) code c' e ne = elim (Bool-cases (k == 0)) [
  | inl z ↦ (ground arith, ground arith)
  | inr nz ↦ absurd (ne (ground arith))
]
refilled_lem waiting code c' e ne = cc
refilled_lem fault code c' e ne = cc

decrement_pos : (n : ℕ) → 0 < n → decrement (pos n) ≡ pos (n - 1)
unfolding decrement
decrement_pos zero h = absurd (omega arith)
decrement_pos (suc n) h = ap pos (omega arith)

refill_lem :
    (c c' : PingpongContext) (code : ReceiveCode)
    → c.routs ≡ pos c.outstanding
    → c.outstanding ≤ c.rx_depth
    → refill_rwr_thres < c.rx_depth
    → refill c ≡ returned (code, c')
    → code ≢ problem
    → IsFilled c' × (c'.rx_depth ≡ c.rx_depth) × (code ≡ success)
unfolding refill
refill_lem c c' code t le deep e ne = elim (Bool-cases (needs_refill c.routs)) [
  | inl low ↦
      let (s, posted) = refilled_lem (pp_post_recv c) code c' (rw low at e) ne in
      elim (pp_post_recv_lem c c' 0 t le posted) [
        | inl (z, r, o, d) ↦ (
          record { tracked = r ∙ ap pos (sym o); above = omega arith; within = omega arith },
          d,
          s,
        )
        | inr one ↦ absurd (omega arith)
      ]
  | inr high ↦
      let many : needs_refill (pos c.outstanding) ≡ false = ap needs_refill (sym t) ∙ high in
      let e' : ◌≡◌ {A = Outcome (ReceiveCode × PingpongContext)} (returned (success, c))
          (returned (code, c')) =
        rw high at e in
      (unfold needs_refill in ground arith)
]

problem-eq :
    {c c' : PingpongContext} {code : ReceiveCode}
    → ◌≡◌ {A = Outcome (ReceiveCode × PingpongContext)}
        (returned (problem, c))
        (returned (code, c'))
    → code ≡ problem
problem-eq e = ground arith

by_opcode_lem :
    (c c' : PingpongContext) (w : WorkCompletion) (o : WcOpcode) (code : ReceiveCode)
    → IsFilled c
    → refill_rwr_thres < c.rx_depth
    → by_opcode c w o ≡ returned (code, c')
    → code ≢ problem
    → IsFilled c' × (c'.rx_depth ≡ c.rx_depth) × (code ≡ success)
unfolding by_opcode taken
by_opcode_lem c c' w wc_recv code v deep e ne =
    refill_lem (taken c w) c' code
      (ap decrement v.tracked ∙ decrement_pos c.outstanding (omega (arith, v.above)))
      (omega (arith, v.within)) deep e ne
by_opcode_lem c c' w _ code v deep e ne = absurd (ne (problem-eq e))

-- The part behind the polling loop keeps the queue filled.
process_received_lem :
    (c c' : PingpongContext) (w : WorkCompletion) (code : ReceiveCode)
    → IsFilled c
    → refill_rwr_thres < c.rx_depth
    → process_received c w ≡ returned (code, c')
    → code ≢ problem
    → IsFilled c' × (c'.rx_depth ≡ c.rx_depth) × (code ≡ success)
unfolding process_received taken
process_received_lem c c' w code v deep e ne = elim (Bool-cases w.is_success) [
  | inl good ↦ by_opcode_lem c c' w w.opcode code v deep (rw good at e) ne
  | inr bad ↦ absurd (ne (problem-eq (rw bad at e)))
]

with_polls-IsFilled :
    (c : PingpongContext) (ps : List PollResult)
    → IsFilled c
    → IsFilled (record c { receive_polls = ps })
with_polls-IsFilled c ps v = record { tracked = v.tracked; above = v.above; within = v.within }

receive_loop_lem :
    (b : Bool) (c c' : PingpongContext) (ps : List PollResult) (code : ReceiveCode)
    → IsFilled c
    → refill_rwr_thres < c.rx_depth
    → receive_loop b c ps ≡ returned (code, c')
    → code ≢ problem
    → IsFilled c' × (c'.rx_depth ≡ c.rx_depth)
unfolding receive_loop
receive_loop_lem b c c' [] code v deep e ne = cc
receive_loop_lem true c c' (failed ∷ ps) code v deep e ne =
    receive_loop_lem true c c' ps code v deep e ne
receive_loop_lem true c c' (entries [] ∷ ps) code v deep e ne =
    receive_loop_lem true c c' ps code v deep e ne
receive_loop_lem false c c' (failed ∷ ps) code v deep e ne = absurd (ne (problem-eq e))
receive_loop_lem false c c' (entries [] ∷ ps) code v deep e ne = ground arith
receive_loop_lem true c c' (entries (w ∷ ws) ∷ ps) code v deep e ne =
    let (f, d, _) =
      process_received_lem (record c { receive_polls = ps }) c' w code (with_polls-IsFilled c ps v)
        deep e ne in
    (f, d)
receive_loop_lem false c c' (entries (w ∷ ws) ∷ ps) code v deep e ne =
    let (f, d, _) =
      process_received_lem (record c { receive_polls = ps }) c' w code (with_polls-IsFilled c ps v)
        deep e ne in
    (f, d)

-- With more receive requests than the threshold in the queue, and a depth above it, a call of
-- `poll_next_receive_wc` that returns without a problem leaves `routs` right, above the threshold
-- and not above the depth.
pub poll_next_receive_wc-IsFilled :
    (c c' : PingpongContext) (blocking : Bool) (code : ReceiveCode)
    → IsFilled c
    → refill_rwr_thres < c.rx_depth
    → poll_next_receive_wc c blocking ≡ returned (code, c')
    → code ≢ problem
    → IsFilled c' × (c'.rx_depth ≡ c.rx_depth)
unfolding poll_next_receive_wc
poll_next_receive_wc-IsFilled c c' b code v deep e ne =
    receive_loop_lem b c c' c.receive_polls code v deep e ne

-- Answers that are errors or empty.
abbrev pub AllIdle : List PollResult → Type 0
AllIdle [] = Unit {0}
AllIdle (failed ∷ ps) = AllIdle ps
AllIdle (entries [] ∷ ps) = AllIdle ps
AllIdle (entries (w ∷ ws) ∷ ps) = ⊥

blocked :
    (c : PingpongContext) (ps qs rs : List PollResult)
    → AllIdle ps
    → receive_loop true (record c { receive_polls = rs }) (ps ++ qs)
      ≡ receive_loop true (record c { receive_polls = qs }) qs
unfolding receive_loop
blocked c [] [] rs h = refl
blocked c [] (failed ∷ qs) rs h = blocked c [] qs rs h ∙ sym (blocked c [] qs (failed ∷ qs) h)
blocked c [] (entries [] ∷ qs) rs h =
    blocked c [] qs rs h ∙ sym (blocked c [] qs (entries [] ∷ qs) h)
blocked c [] (entries (w ∷ ws) ∷ qs) rs h = refl
blocked c (failed ∷ ps) qs rs h = blocked c ps qs rs h
blocked c (entries [] ∷ ps) qs rs h = blocked c ps qs rs h
blocked c (entries (w ∷ ws) ∷ ps) qs rs h = absurd h

-- A blocking call never reports an error of the queue: it goes on polling through any row of
-- errors and empty answers, as if they had not been given.
pub poll_next_receive_wc-blocking :
    (c : PingpongContext) (ps qs : List PollResult)
    → AllIdle ps
    → poll_next_receive_wc (record c { receive_polls = ps ++ qs }) true
      ≡ poll_next_receive_wc (record c { receive_polls = qs }) true
unfolding poll_next_receive_wc
poll_next_receive_wc-blocking c ps qs h = blocked c ps qs (ps ++ qs) h
