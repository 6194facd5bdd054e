-- ===== src/Bandwidth/Waiting.antt =====
-- `pp_wait_completions` on a device that works.
use network_optimization.Prelude.{
  ℕ, zero, suc, ◌+◌, ◌-◌, ◌≤◌, ◌<◌, ◌≡◌, refl, sym, ap, ◌∙◌, inl, inr, List, [], ◌∷◌, true,
  Bool-cases, leb, length, length-drop, take, drop, arith,
}
use network_optimization.Prelude.Int.{pos}
use network_optimization.Protocol.RoundTrip.{drop-drop}
use network_optimization.Verbs.{returned, missing, decrement}
use network_optimization.Bandwidth.{
  refill_rwr_thres, runs_low, WrId, pingpong_send_wrid, pingpong_recv_wrid, other_wrid, Completion,
  Poll, failed, ready, Bench, post_recv_loop, pp_post_recv, add_ℕ, is_below, fill_up, by_wr_id,
  process, process_batch, num_entries, wait_loop, pp_wait_completions,
}

-- The completion of a send, a write or a receive.
abbrev pub IsKnown : WrId → Type 0
IsKnown pingpong_send_wrid = Unit {0}
IsKnown pingpong_recv_wrid = Unit {0}
IsKnown other_wrid = ⊥

abbrev pub AllGood : List Completion → Type 0
AllGood [] = Unit {0}
AllGood (w ∷ ws) = (w.is_success ≡ true) × IsKnown w.wr_id × AllGood ws

-- No poll fails; some may bring nothing.
abbrev pub NoFailure : List Poll → Type 0
NoFailure [] = Unit {0}
NoFailure (failed ∷ ps) = ⊥
NoFailure (ready k ∷ ps) = NoFailure ps

-- 1 for a poll that finds something.
abbrev pub finds_one : ℕ → ℕ
finds_one zero = 0
finds_one (suc k) = 1

-- The number of polls that find something.
abbrev pub productive : List Poll → ℕ
productive [] = 0
productive (failed ∷ ps) = productive ps
productive (ready k ∷ ps) = finds_one k + productive ps

-- `routs` is right and above the threshold, and the device accepts every receive request.
pub record IsFilled (b : Bench) : Type 0 where
  pub tracked : b.routs ≡ pos b.held
  pub above : refill_rwr_thres < b.held
  pub within : b.held ≤ b.rx_depth
  pub accepts : (n : ℕ) → b.post_recv_result n ≡ 0

-- The context with another number of receive requests in the queue.
abbrev pub holding : Bench → ℕ → ℕ → Bench
holding b h m = record b { routs = pos h; held = h; num_post_recv = m }

abbrev pub IsEnough : Bench → ℕ → Type 0
IsEnough b h = (refill_rwr_thres < h) × (h ≤ b.rx_depth)

post_recv_loop_lem :
    (b : Bench) (n i : ℕ)
    → ((k : ℕ) → b.post_recv_result k ≡ 0)
    → post_recv_loop b n i
      ≡ (i + n, record b { held = b.held + n; num_post_recv = b.num_post_recv + n })
unfolding post_recv_loop
post_recv_loop_lem b zero i acc = ground arith
post_recv_loop_lem b (suc n) i acc =
    let b' : Bench = record b { held = b.held + 1; num_post_recv = b.num_post_recv + 1 } in
    rw (acc b.num_post_recv, post_recv_loop_lem b' n (i + 1) acc) (ground arith)

fill_up_lem :
    (b : Bench) (h m : ℕ)
    → h ≤ b.rx_depth
    → ((k : ℕ) → b.post_recv_result k ≡ 0)
    → fill_up (holding b h m) ≡ (0, holding b b.rx_depth (m + (b.rx_depth - h)))
unfolding fill_up pp_post_recv missing add_ℕ is_below
fill_up_lem b h m le acc =
    let whole : h + (b.rx_depth - h) ≡ b.rx_depth = omega arith in
    rw (post_recv_loop_lem (holding b h m) (b.rx_depth - h) 0 acc) (ground arith)

-- One good completion keeps the queue of receive requests filled.
by_wr_id_lem :
    (b : Bench) (h m : ℕ) (w : WrId)
    → IsEnough b h
    → ((k : ℕ) → b.post_recv_result k ≡ 0)
    → refill_rwr_thres < b.rx_depth
    → IsKnown w
    → (h' : ℕ) × (m' : ℕ) × (by_wr_id (holding b h m) w ≡ (0, holding b h' m')) × IsEnough b h'
unfolding by_wr_id decrement runs_low
by_wr_id_lem b h m pingpong_send_wrid (lt, le) acc deep known = (h, m, refl, (lt, le))
by_wr_id_lem b zero m pingpong_recv_wrid (lt, le) acc deep known = absurd (omega arith)
by_wr_id_lem b (suc h) m pingpong_recv_wrid (lt, le) acc deep known =
    let back : suc h - 1 ≡ h = omega arith in
    elim (Bool-cases (leb h refill_rwr_thres)) [
      | inl low ↦ (
        b.rx_depth,
        m + (b.rx_depth - h),
        rw (back, low) (fill_up_lem b h m (omega arith) acc),
        (deep, omega arith),
      )
      | inr high ↦ (h, m, rw (back, high) refl, (ground arith, omega arith))
    ]
by_wr_id_lem b h m other_wrid (lt, le) acc deep known = absurd known

batch_lem :
    (b : Bench) (h m : ℕ) (ws : List Completion)
    → IsEnough b h
    → ((k : ℕ) → b.post_recv_result k ≡ 0)
    → refill_rwr_thres < b.rx_depth
    → AllGood ws
    → (h' : ℕ) × (m' : ℕ) × (process_batch (holding b h m) ws ≡ (0, holding b h' m'))
      × IsEnough b h'
unfolding process_batch process
batch_lem b h m [] enough acc deep good = (h, m, refl, enough)
batch_lem b h m (w ∷ ws) enough acc deep (ok_w, known, good) =
    let (h1, m1, e1, enough1) = by_wr_id_lem b h m w.wr_id enough acc deep known in
    let (h2, m2, e2, enough2) = batch_lem b h1 m1 ws enough1 acc deep good in
    (h2, m2, rw (ok_w, e1) e2, enough2)

AllGood-take : (n : ℕ) (ws : List Completion) → AllGood ws → AllGood (take n ws)
AllGood-take zero ws h = tt
AllGood-take (suc n) [] h = tt
AllGood-take (suc n) (w ∷ ws) (a, b, h) = (a, b, AllGood-take n ws h)

pub AllGood-drop : (n : ℕ) (ws : List Completion) → AllGood ws → AllGood (drop n ws)
AllGood-drop zero ws h = h
AllGood-drop (suc n) [] h = tt
AllGood-drop (suc n) (w ∷ ws) (a, b, h) = AllGood-drop n ws h

-- The context when a wait has taken `n` completions.
abbrev pub waited : Bench → ℕ → ℕ → ℕ → List Poll → Bench
waited b n h m ps = record b {
  routs = pos h;
  held = h;
  num_post_recv = m;
  queue = drop n b.queue;
  polls = ps;
}

pub num_entries_le :
    (b : Bench) (left k : ℕ)
    → (num_entries b left k ≤ left) × (num_entries b left k ≤ length b.queue)
num_entries_le b left k = ground arith

finds_one_le :
    (b : Bench) (left k : ℕ) → 0 < left → left ≤ length b.queue → finds_one k ≤ num_entries b left k
finds_one_le b left zero l fits = omega arith
finds_one_le b left (suc k) l fits = ground arith

wait_loop_lem :
    (b : Bench) (h m left : ℕ) (ps : List Poll)
    → IsEnough b h
    → ((k : ℕ) → b.post_recv_result k ≡ 0)
    → refill_rwr_thres < b.rx_depth
    → AllGood b.queue
    → left ≤ length b.queue
    → NoFailure ps
    → left ≤ productive ps
    → (h' : ℕ) × (m' : ℕ) × (ps' : List Poll) × (wait_loop (holding b h m) left ps
        ≡ returned (0, waited b left h' m' ps'))
      × IsEnough b h'
      × NoFailure ps'
      × (productive ps ≤ productive ps' + left)
unfolding wait_loop
wait_loop_lem b h m zero ps enough acc deep good fits rd many =
    (h, m, ps, refl, enough, rd, omega arith)
wait_loop_lem b h m (suc left) [] enough acc deep good fits rd many = absurd (omega arith)
wait_loop_lem b h m (suc left) (failed ∷ ps) enough acc deep good fits rd many = absurd rd
wait_loop_lem b h m (suc left) (ready k ∷ ps) enough acc deep good fits rd many =
    let ne = num_entries b (suc left) k in
    let bounds = num_entries_le b (suc left) k in
    let positive = finds_one_le b (suc left) k (omega arith) fits in
    let sum : ne + (suc left - ne) ≡ suc left = omega (arith, bounds) in
    let (h1, m1, e1, enough1) =
      batch_lem (record b { queue = drop ne b.queue }) h m (take ne b.queue) enough acc deep
        (AllGood-take ne b.queue good) in
    let (h2, m2, ps2, e2, enough2, rd2, n2) =
      wait_loop_lem (record b { queue = drop ne b.queue }) h1 m1 (suc left - ne) ps enough1 acc deep
        (AllGood-drop ne b.queue good) (omega (arith, bounds, length-drop ne b.queue)) rd
        (omega (arith, positive, bounds)) in
    (
      h2,
      m2,
      ps2,
      rw e1 (
          e2
          ∙ ap
              (λ q. returned (
                0,
                record b { routs = pos h2; held = h2; num_post_recv = m2; queue = q; polls = ps2 },
              ))
              (sym (drop-drop ne (suc left - ne) b.queue) ∙ ap (λ n. drop n b.queue) sum)),
      enough2,
      rd2,
      omega (arith, bounds, positive),
    )

-- The device works, at least `n` completions are still to come, and as many polls that find something.
pub record IsReady (b : Bench) (n : ℕ) : Type 0 where
  pub filled : IsFilled b
  pub good : AllGood b.queue
  pub arrived : n ≤ length b.queue
  pub finds : NoFailure b.polls
  pub many : n ≤ productive b.polls
  pub sends : (k : ℕ) → b.post_send_result k ≡ 0

-- On a device that works, with completions enough, `pp_wait_completions` returns 0 when it has taken
-- exactly as many completions as it was asked for, and the device is ready for the others; the queue
-- of receive requests stays filled above the threshold.
pub pp_wait_completions-IsReady :
    (b : Bench) (n more : ℕ)
    → IsReady b (n + more)
    → (h : ℕ) × (m : ℕ) × (ps : List Poll) × (pp_wait_completions b n
        ≡ returned (0, waited b n h m ps))
      × IsReady (waited b n h m ps) more
unfolding pp_wait_completions
pp_wait_completions-IsReady b n more r =
    let (h, m, ps, e, enough, finds, many) =
      wait_loop_lem b b.held b.num_post_recv n b.polls (r.filled.above, r.filled.within)
        r.filled.accepts (omega (arith, r.filled.above, r.filled.within)) r.good
        (omega (arith, r.arrived)) r.finds (omega (arith, r.many)) in
    (
      h,
      m,
      ps,
      ap (λ t. wait_loop (record b { routs = t }) n b.polls) r.filled.tracked ∙ e,
      record {
        filled = record {
          tracked = refl;
          above = enough.0;
          within = enough.1;
          accepts = r.filled.accepts;
        };
        good = AllGood-drop n b.queue r.good;
        arrived = omega (arith, r.arrived, length-drop n b.queue);
        finds = finds;
        many = omega (arith, r.many);
        sends = r.sends;
      },
    )
