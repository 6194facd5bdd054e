-- ===== src/Verbs/Polling.antt =====
-- `poll_n_send_wc` takes exactly the completions that it was asked for off the queue.
use network_optimization.Prelude.{
  ℕ, ◌+◌, ◌-◌, ◌≤◌, ◌<◌, ◌≡◌, refl, ap, ◌⊎◌, inl, inr, none, some, List, [], ◌∷◌, ◌++◌, true, false,
  leb, ltb, length, min, arith, Bool-cases, Option-cases, ltb→lt,
}
use network_optimization.Verbs.{
  WcOpcode, wc_send, wc_rdma_write, wc_rdma_read, wc_recv, wc_other, WorkCompletion, PollResult,
  failed, entries, Outcome, returned, fault, is_send_opcode, count_completed, poll_send_loop,
  send_num_poll, wc_batch,
}

-- The completions in a row of answers.
abbrev pub total : List PollResult → ℕ
total [] = 0
total (failed ∷ ps) = total ps
total (entries ws ∷ ps) = length ws + total ps

-- A send, an RDMA write or an RDMA read.
abbrev pub Sends : WcOpcode → Type 0
Sends wc_send = Unit {0}
Sends wc_rdma_write = Unit {0}
Sends wc_rdma_read = Unit {0}
Sends wc_recv = ⊥
Sends wc_other = ⊥

is_send_opcode_of : (o : WcOpcode) → Sends o → is_send_opcode o ≡ true
unfolding is_send_opcode
is_send_opcode_of wc_send h = refl
is_send_opcode_of wc_rdma_write h = refl
is_send_opcode_of wc_rdma_read h = refl
is_send_opcode_of wc_recv h = absurd h
is_send_opcode_of wc_other h = absurd h

Sends-of : (o : WcOpcode) → is_send_opcode o ≡ true → Sends o
unfolding is_send_opcode
Sends-of wc_send h = tt
Sends-of wc_rdma_write h = tt
Sends-of wc_rdma_read h = tt
Sends-of wc_recv h = cc
Sends-of wc_other h = cc

abbrev pub IsGoodEntry : WorkCompletion → Type 0
IsGoodEntry w = (w.is_success ≡ true) × Sends w.opcode

abbrev pub AllGoodEntries : List WorkCompletion → Type 0
AllGoodEntries [] = Unit {0}
AllGoodEntries (w ∷ ws) = IsGoodEntry w × AllGoodEntries ws

-- No answer is an error, and no completion has failed.
abbrev pub AllGood : List PollResult → Type 0
AllGood [] = Unit {0}
AllGood (failed ∷ ps) = ⊥
AllGood (entries ws ∷ ps) = AllGoodEntries ws × AllGood ps

-- `ibv_poll_cq` answers no more completions than it was asked for: at most a batch, and at most
-- what is left to poll.
abbrev pub Bounded : ℕ → ℕ → List PollResult → Type 0
Bounded n c [] = Unit {0}
Bounded n c (failed ∷ ps) = Bounded n c ps
Bounded n c (entries ws ∷ ps) =
    (c < n → length ws ≤ min wc_batch (n - c)) × Bounded n (c + length ws) ps

pub count_completed-good :
    (c : ℕ) (ws : List WorkCompletion)
    → AllGoodEntries ws
    → count_completed c ws ≡ some (c + length ws)
unfolding count_completed
count_completed-good c [] h = ground arith
count_completed-good c (w ∷ ws) ((s, o), h) =
    rw (s, is_send_opcode_of w.opcode o, count_completed-good (c + 1) ws h) (ground arith)

count_completed-bad :
    (c : ℕ) (w : WorkCompletion) (ws : List WorkCompletion)
    → (w.is_success ≡ false) ⊎ (is_send_opcode w.opcode ≡ false)
    → count_completed c (w ∷ ws) ≡ none
unfolding count_completed
count_completed-bad c w ws bad = ground arith

count_completed-some :
    (c d : ℕ) (ws : List WorkCompletion)
    → count_completed c ws ≡ some d
    → (AllGoodEntries ws) × (d ≡ c + length ws)
unfolding count_completed
count_completed-some c d [] h = (tt, ground arith)
count_completed-some c d (w ∷ ws) h = elim (Bool-cases w.is_success) [
  | inr bad ↦ cc (h, count_completed-bad c w ws (inl bad))
  | inl s ↦ elim (Bool-cases (is_send_opcode w.opcode)) [
    | inr bad ↦ cc (h, count_completed-bad c w ws (inr bad))
    | inl o ↦
        let (good, e) = count_completed-some (c + 1) d ws (rw (s, o) at h) in
        (((s, Sends-of w.opcode o), good), omega arith)
  ]
]

not_ltb : (m n : ℕ) → n ≤ m → ltb m n ≡ false
not_ltb m n le = ground arith

fits : (n c k : ℕ) → k ≤ min wc_batch (n - c) → leb k (send_num_poll n c) ≡ true
fits n c k le = ground arith

-- If no answer is bad and there are enough completions, polling returns 0, and takes exactly as
-- many completions as were left to poll.
pub poll_send_loop-good :
    (n c : ℕ) (ps : List PollResult)
    → c ≤ n
    → AllGood ps
    → Bounded n c ps
    → n ≤ c + total ps
    → (rest : List PollResult) × (poll_send_loop n c ps ≡ returned (0, rest))
      × (c + total ps ≡ n + total rest)
unfolding poll_send_loop
poll_send_loop-good n c [] le good bound enough = ([], rw (not_ltb c n (omega arith)), omega arith)
poll_send_loop-good n c (failed ∷ ps) le good bound enough = absurd good
poll_send_loop-good n c (entries ws ∷ ps) le (gw, good) (bw, bound) enough =
    elim (Bool-cases (ltb c n)) [
      | inr done ↦ (entries ws ∷ ps, rw done, ground arith)
      | inl more ↦
          let short : length ws ≤ min wc_batch (n - c) = bw (ltb→lt c n more) in
          let (rest, e, t) =
            poll_send_loop-good n (c + length ws) ps (omega (arith, ltb→lt c n more)) good bound
              (omega arith) in
          (
            rest,
            rw (more, fits n c (length ws) short, count_completed-good c ws gw, poll_send_loop) e,
            omega arith,
          )
    ]

-- No call of `ibv_poll_cq` that returned brought more than was asked for.
within : (n c k : ℕ) → leb k (send_num_poll n c) ≡ true → k ≤ n - c
within n c k e = ground arith

ltb-false : (m n : ℕ) → ltb m n ≡ false → n ≤ m
ltb-false m n h = ground arith

returned-rest :
    (ps qs : List PollResult)
    → ◌≡◌ {A = Outcome (ℕ × List PollResult)} (returned (0, ps)) (returned (0, qs))
    → ps ≡ qs
returned-rest ps qs e = cc

code-ne :
    (ps qs : List PollResult)
    → ¬ (◌≡◌ {A = Outcome (ℕ × List PollResult)} (returned (1, ps)) (returned (0, qs)))
code-ne ps qs e = ground arith

fault-ne :
    (qs : List PollResult) → ¬ (◌≡◌ {A = Outcome (ℕ × List PollResult)} fault (returned (0, qs)))
fault-ne qs e = cc

-- When polling returns 0, it took exactly as many completions as were asked for, and each of them
-- was a success of a send, an RDMA write or an RDMA read.
pub poll_send_loop-exact :
    (n c : ℕ) (ps : List PollResult) (rest : List PollResult)
    → c ≤ n
    → poll_send_loop n c ps ≡ returned (0, rest)
    → (used : List PollResult) × (ps ≡ used ++ rest) × AllGood used × (c + total used ≡ n)
unfolding poll_send_loop
poll_send_loop-exact n c [] rest le e = elim (Bool-cases (ltb c n)) [
  | inl more ↦ cc (rw more at e)
  | inr done ↦ ([], returned-rest [] rest (rw done at e), tt, omega (arith, ltb-false c n done))
]
poll_send_loop-exact n c (failed ∷ ps) rest le e = elim (Bool-cases (ltb c n)) [
  | inl more ↦ absurd (code-ne _ _ (rw more at e))
  | inr done ↦
      ([], returned-rest (failed ∷ ps) rest (rw done at e), tt, omega (arith, ltb-false c n done))
]
poll_send_loop-exact n c (entries ws ∷ ps) rest le e = elim (Bool-cases (ltb c n)) [
  | inr done ↦ (
    [],
    returned-rest (entries ws ∷ ps) rest (rw done at e),
    tt,
    omega (arith, ltb-false c n done),
  )
  | inl more ↦ elim (Bool-cases (leb (length ws) (send_num_poll n c))) [
    | inr over ↦ absurd (fault-ne _ (rw (more, over) at e))
    | inl room ↦ elim (Option-cases (count_completed c ws)) [
      | inl bad ↦ absurd (code-ne _ _ (rw (more, room, bad) at e))
      | inr (d, counted) ↦
          let short = within n c (length ws) room in
          let (good, at_d) = count_completed-some c d ws counted in
          let next : poll_send_loop n (c + length ws) ps ≡ returned (0, rest) =
            rw at_d at (rw (more, room, counted, poll_send_loop) at e) in
          let (used, split, all, sum) =
            poll_send_loop-exact n (c + length ws) ps rest (omega (arith, ltb→lt c n more)) next in
          (entries ws ∷ used, ap (λ qs. entries ws ∷ qs) split, (good, all), omega arith)
    ]
  ]
]
