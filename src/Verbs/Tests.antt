-- ===== src/Verbs/Tests.antt =====
-- Contexts and answers of the device at work.
use network_optimization.Prelude.{◌+◌, ◌^◌, ◌<◌, ◌≡◌, refl, List, [], ◌∷◌, ◌++◌, true, arith}
use network_optimization.Prelude.Int.{pos}
use network_optimization.Prelude.Strings.{swap_bytes}
use network_optimization.Verbs.{
  wc_send, wc_rdma_write, wc_recv, PollResult, failed, entries, PingpongContext, success,
  count_completed, is_send_opcode, poll_send_loop, poll_next_receive_wc, receive_loop,
  process_received, by_opcode, taken, decrement, refill, needs_refill,
}
use network_optimization.Verbs.Swap.{swap_bytes-swap_bytes}
use network_optimization.Verbs.Polling.{total, AllGood, poll_send_loop-exact}
use network_optimization.Verbs.Receiving.{
  IsFilled, poll_next_receive_wc-IsFilled, poll_next_receive_wc-blocking,
}

swap_bytes_example : (swap_bytes 4 (swap_bytes 4 258) ≡ 258) × (swap_bytes 4 258 < 256 ^ 4)
swap_bytes_example = swap_bytes-swap_bytes 4 258 (omega arith)

abbrev sends : List PollResult
sends =
    entries []
    ∷ entries (record { is_success = true; opcode = wc_send; payload = [] } ∷ [])
    ∷ entries (record { is_success = true; opcode = wc_rdma_write; payload = [] } ∷ [])
    ∷ failed
    ∷ []

abbrev good_sends : List PollResult
good_sends =
    entries []
    ∷ entries (record { is_success = true; opcode = wc_send; payload = [] } ∷ [])
    ∷ entries (record { is_success = true; opcode = wc_rdma_write; payload = [] } ∷ [])
    ∷ []

poll_send_loop-exact_example :
    (used : List PollResult) × (sends ≡ used ++ (failed ∷ [])) × AllGood used × (0 + total used ≡ 2)
unfolding poll_send_loop count_completed is_send_opcode
poll_send_loop-exact_example = poll_send_loop-exact 2 0 sends (failed ∷ []) (omega arith) refl

-- Twelve receive requests are left of thirteen.
abbrev context : PingpongContext
context = record {
  work = [];
  mr_control_send_size = 0;
  mr_control_receive_size = 0;
  rx_depth = 13;
  routs = pos 12;
  mr_rdma_start_ptr = 0;
  mr_rdma_size = 0;
  remote_buf_va = 0;
  remote_buf_rkey = 0;
  max_inline = 64;
  sent = [];
  outstanding = 12;
  post_send_results = [];
  post_recv_results = 0 ∷ 0 ∷ [];
  send_polls = [];
  receive_polls = entries (record { is_success = true; opcode = wc_recv; payload = [] } ∷ []) ∷ [];
}

abbrev context' : PingpongContext
context' = record context { routs = pos 11; outstanding = 11; receive_polls = [] }

poll_next_receive_wc-IsFilled_example : IsFilled context' × (context'.rx_depth ≡ context.rx_depth)
unfolding poll_next_receive_wc receive_loop process_received by_opcode taken decrement refill
    needs_refill
poll_next_receive_wc-IsFilled_example =
    poll_next_receive_wc-IsFilled context context' true success
      (record { tracked = refl; above = omega arith; within = omega arith }) (omega arith) refl
      (λ e. cc)

poll_next_receive_wc-blocking_example :
    poll_next_receive_wc
      (record context { receive_polls = failed ∷ entries [] ∷ context.receive_polls })
      true
    ≡ poll_next_receive_wc context true
poll_next_receive_wc-blocking_example =
    poll_next_receive_wc-blocking context (failed ∷ entries [] ∷ []) context.receive_polls tt
