-- ===== src/Verbs.antt =====
-- LowLatencyProtocols/ib_functions.c and ib_functions.h: work requests and completions.
-- The verbs library is the environment: what its calls answer, in the order of the calls, stands in
-- lists of the context. A call whose answer is not in the list has not returned yet (`waiting`).
pub mod Swap
pub mod Polling
pub mod Receiving
pub mod Sending
pub mod Tests
use network_optimization.Prelude.{
  ℕ, zero, suc, ◌+◌, ◌-◌, ◌%◌, ◌^◌, ◌≡◌, Option, none, some, List, [], ◌∷◌, ◌++◌, Bool, true, false,
  ◌==◌, leb, ltb, if◌then◌else◌, length, take, drop,
}
use network_optimization.Prelude.Int.{ℤ, pos, negsuc}
use network_optimization.Prelude.Strings.{swap_bytes}

pub data WcOpcode : Type 0 where
  wc_send wc_rdma_write wc_rdma_read wc_recv wc_other : WcOpcode

-- An `ibv_wc`. Of the status the code asks only whether it is IBV_WC_SUCCESS. `payload` is what the
-- device has placed in the receive region by the time that a receive completes.
pub record WorkCompletion : Type 0 where
  pub is_success : Bool
  pub opcode : WcOpcode
  pub payload : List ℕ

-- What `ibv_poll_cq` answers: a negative number, or the completions that it took off the queue.
pub data PollResult : Type 0 where
  failed : PollResult
  entries : List WorkCompletion → PollResult

pub data RdmaOpcode : Type 0 where
  rdma_write rdma_read : RdmaOpcode

-- What `ibv_post_send` is given, with the bytes that a send takes from the control region.
pub data SendRequest : Type 0 where
  send : (bytes : List ℕ) (is_inline : Bool) → SendRequest
  rdma : RdmaOpcode → (start_ptr size remote_addr rkey : ℕ) → SendRequest

-- The result of a call: it returned, it has not returned yet, or it was undefined.
pub data Outcome {ℓ} (A : Type ℓ) : Type ℓ where
  returned : A → Outcome A
  waiting : Outcome A
  fault : Outcome A

-- `struct pingpong_context`. `work` is the buffer with the send region first and the receive region
-- behind it; `outstanding` is the number of receive requests that the device holds, which the code
-- follows in `routs`.
pub record PingpongContext : Type 0 where
  pub work : List ℕ
  pub mr_control_send_size : ℕ
  pub mr_control_receive_size : ℕ
  pub rx_depth : ℕ
  pub routs : ℤ
  pub mr_rdma_start_ptr : ℕ
  pub mr_rdma_size : ℕ
  pub remote_buf_va : ℕ
  pub remote_buf_rkey : ℕ
  pub max_inline : ℕ
  pub sent : List SendRequest
  pub outstanding : ℕ
  pub post_send_results : List ℕ
  pub post_recv_results : List ℕ
  pub send_polls : List PollResult
  pub receive_polls : List PollResult

abbrev pub wc_batch : ℕ
wc_batch = 10

abbrev pub refill_rwr_thres : ℕ
refill_rwr_thres = 10

-- A request goes to the device if the post answers 0.
unfoldable pub post_request :
    PingpongContext → SendRequest → ℕ → List ℕ → Outcome (ℕ × PingpongContext)
post_request c request failure [] = waiting
post_request c request failure (r ∷ rs) =
    if r == 0
    then returned (0, record c { sent = c.sent ++ (request ∷ []); post_send_results = rs })
    else returned (if failure == 0 then r else failure, record c { post_send_results = rs })

-- The request carries the whole send region, inline if it is small enough; every failure is 1.
unfoldable pub pp_post_send : PingpongContext → Outcome (ℕ × PingpongContext)
unfolding post_request
pp_post_send c =
    post_request c
      (send (take c.mr_control_send_size c.work) (leb c.mr_control_send_size c.max_inline)) 1
      c.post_send_results

-- Address and key come in network order, and `length` of an `ibv_sge` has 32 bits; the answer is that
-- of `ibv_post_send`.
pub pp_post_rdma : PingpongContext → RdmaOpcode → Outcome (ℕ × PingpongContext)
unfolding post_request
pp_post_rdma c opcode =
    post_request c
      (rdma opcode c.mr_rdma_start_ptr (c.mr_rdma_size % 2 ^ 32) (swap_bytes 8 c.remote_buf_va)
        (swap_bytes 4 c.remote_buf_rkey))
      0 c.post_send_results

unfoldable pub is_send_opcode : WcOpcode → Bool
is_send_opcode wc_send = true
is_send_opcode wc_rdma_write = true
is_send_opcode wc_rdma_read = true
is_send_opcode wc_recv = false
is_send_opcode wc_other = false

-- The loop over one batch: `none` is `return 1`.
unfoldable pub count_completed : ℕ → List WorkCompletion → Option ℕ
unfolding is_send_opcode
count_completed completed [] = some completed
count_completed completed (w ∷ ws) =
    let rest = count_completed (completed + 1) ws in
    if w.is_success then (if is_send_opcode w.opcode then rest else none) else none

-- `num_poll`: at most a batch, and no more than are still to be completed.
abbrev pub send_num_poll : ℕ → ℕ → ℕ
send_num_poll n completed = if ltb (n - completed) wc_batch then n - completed else wc_batch

-- The loops of `poll_n_send_wc`: an empty answer is polled again. `ibv_poll_cq` answers no more than
-- `num_poll` completions: more would be written past what it was given.
unfoldable pub poll_send_loop : ℕ → ℕ → List PollResult → Outcome (ℕ × List PollResult)
poll_send_loop n completed [] = if ltb completed n then waiting else returned (0, [])
poll_send_loop n completed (failed ∷ polls) =
    if ltb completed n then returned (1, polls) else returned (0, failed ∷ polls)
poll_send_loop n completed (entries ws ∷ polls) =
    if ltb completed n
    then (if leb (length ws) (send_num_poll n completed)
        then elim (count_completed completed ws) [
          | none ↦ returned (1, polls)
          | some completed' ↦ poll_send_loop n completed' polls
        ]
        else fault)
    else returned (0, entries ws ∷ polls)

unfoldable pub with_send_polls :
    PingpongContext → Outcome (ℕ × List PollResult) → Outcome (ℕ × PingpongContext)
with_send_polls c (returned (code, polls)) = returned (code, record c { send_polls = polls })
with_send_polls c waiting = waiting
with_send_polls c fault = fault

unfoldable pub poll_n_send_wc : PingpongContext → ℕ → Outcome (ℕ × PingpongContext)
unfolding poll_send_loop with_send_polls
poll_n_send_wc c n_complete = with_send_polls c (poll_send_loop n_complete 0 c.send_polls)

-- `rx_depth - routs`, and 0 where that is negative: so often the posting loop runs.
unfoldable pub missing : ℕ → ℤ → ℕ
missing depth (pos n) = depth - n
missing depth (negsuc n) = depth + n + 1

-- The answer, the number of requests that were accepted, and the answers that are left.
unfoldable pub post_recv_loop : ℕ → ℕ → List ℕ → Outcome (ℕ × ℕ × List ℕ)
post_recv_loop zero posted rs = returned (0, posted, rs)
post_recv_loop (suc n) posted [] = waiting
post_recv_loop (suc n) posted (r ∷ rs) =
    let rest = post_recv_loop n (posted + 1) rs in if r == 0 then rest else returned (1, posted, rs)

-- Only the full loop sets `routs`.
unfoldable pub after_posting :
    PingpongContext → Outcome (ℕ × ℕ × List ℕ) → Outcome (ℕ × PingpongContext)
after_posting c (returned (code, posted, rs)) =
    let c' = record c { outstanding = c.outstanding + posted; post_recv_results = rs } in
    returned (code, if code == 0 then record c' { routs = pos c.rx_depth } else c')
after_posting c waiting = waiting
after_posting c fault = fault

unfoldable pub pp_post_recv : PingpongContext → Outcome (ℕ × PingpongContext)
unfolding missing post_recv_loop after_posting
pp_post_recv c = after_posting c (post_recv_loop (missing c.rx_depth c.routs) 0 c.post_recv_results)

-- -1, -2 and 0.
pub data ReceiveCode : Type 0 where
  problem no_results success : ReceiveCode

unfoldable pub decrement : ℤ → ℤ
decrement (pos zero) = negsuc 0
decrement (pos (suc n)) = pos n
decrement (negsuc n) = negsuc (n + 1)

unfoldable pub needs_refill : ℤ → Bool
needs_refill (pos n) = leb n refill_rwr_thres
needs_refill (negsuc n) = true

unfoldable pub refilled : Outcome (ℕ × PingpongContext) → Outcome (ReceiveCode × PingpongContext)
refilled (returned (code, c)) = returned (if code == 0 then success else problem, c)
refilled waiting = waiting
refilled fault = fault

-- The message as it lies in the receive region, behind the send region.
abbrev pub place : PingpongContext → List ℕ → List ℕ
place c payload =
    take c.mr_control_send_size c.work
    ++ (payload ++ drop (c.mr_control_send_size + length payload) c.work)

-- A receive that completed: its message is there, and one request less is in the queue.
unfoldable pub taken : PingpongContext → WorkCompletion → PingpongContext
unfolding decrement
taken c w = record c {
  routs = decrement c.routs;
  outstanding = c.outstanding - 1;
  work = place c w.payload;
}

-- The queue is filled up again if few requests are left.
unfoldable pub refill : PingpongContext → Outcome (ReceiveCode × PingpongContext)
unfolding needs_refill refilled
refill c = if needs_refill c.routs then refilled (pp_post_recv c) else returned (success, c)

unfoldable pub by_opcode :
    PingpongContext → WorkCompletion → WcOpcode → Outcome (ReceiveCode × PingpongContext)
by_opcode c w wc_recv = refill (taken c w)
by_opcode c w _ = returned (problem, c)

-- What follows the polling loop.
unfoldable pub process_received :
    PingpongContext → WorkCompletion → Outcome (ReceiveCode × PingpongContext)
unfolding by_opcode
process_received c w = if w.is_success then by_opcode c w w.opcode else returned (problem, c)

-- Blocking, every answer below 1 is polled again, an error too. Otherwise one answer decides.
unfoldable pub receive_loop :
    Bool → PingpongContext → List PollResult → Outcome (ReceiveCode × PingpongContext)
unfolding process_received
receive_loop blocking c [] = waiting
receive_loop true c (failed ∷ polls) = receive_loop true c polls
receive_loop true c (entries [] ∷ polls) = receive_loop true c polls
receive_loop false c (failed ∷ polls) = returned (problem, record c { receive_polls = polls })
receive_loop false c (entries [] ∷ polls) =
    returned (no_results, record c { receive_polls = polls })
receive_loop blocking c (entries (w ∷ ws) ∷ polls) =
    process_received (record c { receive_polls = polls }) w

unfoldable pub poll_next_receive_wc :
    PingpongContext → Bool → Outcome (ReceiveCode × PingpongContext)
unfolding receive_loop
poll_next_receive_wc c blocking = receive_loop blocking c c.receive_polls
