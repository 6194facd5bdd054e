-- ===== src/Bandwidth.antt =====
-- Optimization/bw_template.c: the measurement program. Posting, the wait for completions, and one
-- experiment of each kind, without the clock.
pub mod Waiting
pub mod Batches
pub mod Exact
pub mod Progress
pub mod Experiment
pub mod Latency
pub mod Throughput
pub mod Tests
use network_optimization.Prelude.{
  ℕ, zero, suc, ◌+◌, ◌-◌, ◌%◌, List, [], ◌∷◌, ◌++◌, Bool, true, false, ◌==◌, ltb, leb, min,
  if◌then◌else◌, length, take, drop,
}
use network_optimization.Prelude.Int.{ℤ, pos, negsuc}
use network_optimization.Prelude.Strings.{swap_bytes}
use network_optimization.Verbs.{Outcome, returned, waiting, fault, missing, decrement}
use network_optimization.Server.{◌>>=◌}

abbrev pub wc_batch : ℕ
wc_batch = 10

abbrev pub refill_rwr_thres : ℕ
refill_rwr_thres = 100

pub data WrId : Type 0 where
  pingpong_send_wrid pingpong_recv_wrid other_wrid : WrId

pub record Completion : Type 0 where
  pub is_success : Bool
  pub wr_id : WrId

-- A call of `ibv_poll_cq` fails, or finds that so many completions have arrived.
pub data Poll : Type 0 where
  failed : Poll
  ready : ℕ → Poll

-- What `ibv_post_send` is given: an RDMA write, or a control message of the context's size.
pub data Request : Type 0 where
  write : (size : ℕ) (is_inline : Bool) (remote_addr rkey : ℕ) → Request
  control : (size : ℕ) (is_inline : Bool) → Request

-- The context, `rem_dest`, and the device: `held` is the number of receive requests that it holds,
-- `queue` its completions in their order, `polls` what its polls find, and `post_recv_result` and
-- `post_send_result` its answers to each post in turn.
pub record Bench : Type 0 where
  pub size : ℕ
  pub rx_depth : ℕ
  pub routs : ℤ
  pub max_inline : ℕ
  pub buf_va : ℕ
  pub buf_rkey : ℕ
  pub sent : List Request
  pub held : ℕ
  pub queue : List Completion
  pub polls : List Poll
  pub post_recv_result : ℕ → ℕ
  pub post_send_result : ℕ → ℕ
  pub num_post_recv : ℕ
  pub num_post_send : ℕ

-- The posting loop ends at the first failure; the answer is the number of posts that were accepted.
unfoldable pub post_recv_loop : Bench → ℕ → ℕ → ℕ × Bench
post_recv_loop b zero i = (i, b)
post_recv_loop b (suc n) i =
    let b' = record b { num_post_recv = b.num_post_recv + 1 } in
    let rest = post_recv_loop (record b' { held = b.held + 1 }) n (i + 1) in
    if b.post_recv_result b.num_post_recv == 0 then rest else (i, b')

unfoldable pub pp_post_recv : Bench → ℕ → ℕ × Bench
pp_post_recv b n = post_recv_loop b n 0

pub post_request : Bench → Request → ℕ × Bench
post_request b request =
    let answer = b.post_send_result b.num_post_send in
    let b' = record b { num_post_send = b.num_post_send + 1 } in
    (answer, if answer == 0 then record b' { sent = b.sent ++ (request ∷ []) } else b')

abbrev pub write_request : Bench → ℕ → Request
write_request b message_size =
    write message_size (leb message_size b.max_inline) (swap_bytes 8 b.buf_va)
      (swap_bytes 4 b.buf_rkey)

abbrev pub control_request : Bench → Request
control_request b = control b.size (leb b.size b.max_inline)

pub pp_post_rdma_write : Bench → ℕ → ℕ × Bench
pp_post_rdma_write b message_size = post_request b (write_request b message_size)

pub pp_post_send : Bench → ℕ × Bench
pp_post_send b = post_request b (control_request b)

-- `routs += n`
pub add_ℕ : ℤ → ℕ → ℤ
add_ℕ (pos m) n = pos (m + n)
add_ℕ (negsuc m) n = if leb n m then negsuc (m - n) else pos (n - m - 1)

-- `routs < rx_depth`
pub is_below : ℤ → ℕ → Bool
is_below (pos n) depth = ltb n depth
is_below (negsuc n) depth = true

-- `routs <= REFILL_RWR_THRES`
pub runs_low : ℤ → Bool
runs_low (pos n) = leb n refill_rwr_thres
runs_low (negsuc n) = true

-- The refill after a receive completed.
pub fill_up : Bench → ℕ × Bench
fill_up b =
    let (posted, b') = pp_post_recv b (missing b.rx_depth b.routs) in
    let b'' = record b' { routs = add_ℕ b.routs posted } in
    (if is_below b''.routs b.rx_depth then 1 else 0, b'')

-- One completion: 0 goes on, and 1 ends the wait.
pub by_wr_id : Bench → WrId → ℕ × Bench
by_wr_id b pingpong_send_wrid = (0, b)
by_wr_id b pingpong_recv_wrid =
    let b' = record b { routs = decrement b.routs; held = b.held - 1 } in
    if runs_low b'.routs then fill_up b' else (0, b')
by_wr_id b other_wrid = (1, b)

pub process : Bench → Completion → ℕ × Bench
process b w = if w.is_success then by_wr_id b w.wr_id else (1, b)

pub process_batch : Bench → List Completion → ℕ × Bench
process_batch b [] = (0, b)
process_batch b (w ∷ ws) =
    let (code, b') = process b w in
    let rest = process_batch b' ws in if code == 0 then rest else (1, b')

-- `num_poll`: at most a batch, and no more than are still waited for.
abbrev pub num_poll : ℕ → ℕ
num_poll left = if ltb left wc_batch then left else wc_batch

-- The number of completions that a poll brings.
abbrev pub num_entries : Bench → ℕ → ℕ → ℕ
num_entries b left k = min (num_poll left) (min k (length b.queue))

-- `left` is `iters - rcnt - scnt`. A poll that brings nothing is repeated.
pub wait_loop : Bench → ℕ → List Poll → Outcome (ℕ × Bench)
wait_loop b zero polls = returned (0, record b { polls = polls })
wait_loop b (suc left) [] = waiting
wait_loop b (suc left) (failed ∷ polls) = returned (1, record b { polls = polls })
wait_loop b (suc left) (ready k ∷ polls) =
    let ne = num_entries b (suc left) k in
    let (code, b') = process_batch (record b { queue = drop ne b.queue }) (take ne b.queue) in
    let rest = wait_loop b' (suc left - ne) polls in
    if code == 0 then rest else returned (1, record b' { polls = polls })

pub pp_wait_completions : Bench → ℕ → Outcome (ℕ × Bench)
pp_wait_completions b iters = wait_loop b iters b.polls

-- The wait in front of post `i`, whose code is not looked at: the number of completions that were
-- waited for, and the context.
pub wait_for_depth : Bench → ℕ → ℕ → ℕ → Outcome (ℕ × Bench)
wait_for_depth b tx_depth zero num_complete = returned (num_complete, b)
wait_for_depth b zero (suc i) num_complete = fault
wait_for_depth b (suc d) (suc i) num_complete =
    if suc i % suc d == 0
    then (do (code, b') ← pp_wait_completions b (suc d); returned (num_complete + suc d, b'))
    else returned (num_complete, b)

-- The client's posts `i` to `i + n - 1`: a code, `num_complete` and the context.
pub post_writes : Bench → ℕ → ℕ → ℕ → ℕ → ℕ → Outcome (ℕ × ℕ × Bench)
post_writes b tx_depth message_size zero i num_complete = returned (0, num_complete, b)
post_writes b tx_depth message_size (suc n) i num_complete = do
  (num_complete', b1) ← wait_for_depth b tx_depth i num_complete
  let posted = pp_post_rdma_write b1 message_size
  let rest = post_writes posted.1 tx_depth message_size n (suc i) num_complete'
  if posted.0 == 0 then rest else returned (1, num_complete', posted.1)

pub client_experiment : Bench → ℕ → ℕ → ℕ → Outcome (ℕ × Bench)
client_experiment b tx_depth iters message_size = do
  (code, num_complete, b1) ← post_writes b tx_depth message_size iters 0 0
  let posted = pp_post_send b1
  if code == 0
      then (if posted.0 == 0
          then (do
            (waited, b2) ← pp_wait_completions posted.1 (iters - num_complete + 2)
            returned (0, b2))
          else returned (1, posted.1))
      else returned (1, b1)

pub server_experiment : Bench → Outcome (ℕ × Bench)
server_experiment b = do
  (waited, b1) ← pp_wait_completions b 1
  let posted = pp_post_send b1
  if posted.0 == 0
      then (do (waited', b2) ← pp_wait_completions posted.1 1; returned (0, b2))
      else returned (1, posted.1)

-- `servername` tells a client from the server.
pub perform_single_experiment : Bool → Bench → ℕ → ℕ → ℕ → Outcome (ℕ × Bench)
perform_single_experiment is_client b tx_depth iters message_size =
    if is_client then client_experiment b tx_depth iters message_size else server_experiment b

-- One round of `latency_test`, round `i` of `iters`.
pub latency_round : Bool → Bench → ℕ → ℕ → Outcome (ℕ × Bench)
latency_round true b i iters =
    let posted = pp_post_send b in
    if posted.0 == 0
    then (do (waited, b1) ← pp_wait_completions posted.1 2; returned (0, b1))
    else returned (1, posted.1)
latency_round false b i iters = do
  b1 ← if i == 0 then (do (waited, b') ← pp_wait_completions b 1; returned b') else returned b
  let posted = pp_post_send b1
  if posted.0 == 0
      then (do
        (waited', b2) ← pp_wait_completions posted.1 (if i + 1 == iters then 1 else 2)
        returned (0, b2))
      else returned (1, posted.1)

pub latency_loop : Bool → Bench → ℕ → ℕ → ℕ → Outcome (ℕ × Bench)
latency_loop is_client b zero i iters = returned (0, b)
latency_loop is_client b (suc n) i iters = do
  (code, b1) ← latency_round is_client b i iters
  let rest = latency_loop is_client b1 n (suc i) iters
  if code == 0 then rest else returned (1, b1)

pub latency_test : Bool → Bench → ℕ → Outcome (ℕ × Bench)
latency_test is_client b iters = latency_loop is_client b iters 0 iters

-- The trials of `throughput_test` for a list of message sizes, whose codes are not looked at.
pub trials : Bool → Bench → ℕ → ℕ → List ℕ → Outcome Bench
trials is_client b tx_depth iters [] = returned b
trials is_client b tx_depth iters (message_size ∷ sizes) = do
  (code, b1) ← perform_single_experiment is_client b tx_depth iters message_size
  trials is_client b1 tx_depth iters sizes

abbrev pub list_message_sizes : List ℕ
list_message_sizes =
    1 ∷ 2 ∷ 4 ∷ 8 ∷ 16 ∷ 32 ∷ 64 ∷ 128 ∷ 256 ∷ 512 ∷ 1024 ∷ 2048 ∷ 4096 ∷ 8192 ∷ 16384 ∷ 32768
    ∷ 65536 ∷ 131072 ∷ 262144 ∷ 524288 ∷ 1048576 ∷ []

pub throughput_test : Bool → Bench → ℕ → ℕ → Outcome Bench
throughput_test is_client b tx_depth iters = trials is_client b tx_depth iters list_message_sizes

-- `NUM_OF_WARMUP`
abbrev pub num_of_warmup : ℕ
num_of_warmup = 500

-- The part of `main` between the connection and its end: the warm-up, and the two measurements.
pub measure : Bool → Bench → ℕ → ℕ → Outcome Bench
measure is_client b tx_depth iters = do
  (code, b1) ← latency_test is_client b num_of_warmup
  b2 ← throughput_test is_client b1 tx_depth iters
  (code', b3) ← latency_test is_client b2 iters
  returned b3
