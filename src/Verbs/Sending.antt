-- ===== src/Verbs/Sending.antt =====
-- Sending one message, when the device takes and completes it.
use network_optimization.Prelude.{ℕ, ◌%◌, ◌^◌, ◌≡◌, refl, List, [], ◌∷◌, ◌++◌, leb, take}
use network_optimization.Verbs.{
  WorkCompletion, PollResult, failed, entries, RdmaOpcode, send, rdma, returned, PingpongContext,
  pp_post_send, pp_post_rdma, poll_n_send_wc, poll_send_loop, with_send_polls,
}
use network_optimization.Prelude.Strings.{swap_bytes}
use network_optimization.Verbs.Polling.{IsGoodEntry, count_completed-good}

pub pp_post_send_lem :
    (c : PingpongContext) (rs : List ℕ)
    → c.post_send_results ≡ 0 ∷ rs
    → pp_post_send c
      ≡ returned (
        0,
        record c {
          sent =
              c.sent
              ++ (send
                    (take c.mr_control_send_size c.work)
                    (leb c.mr_control_send_size c.max_inline)
                  ∷ []);
          post_send_results = rs;
        },
      )
unfolding pp_post_send
pp_post_send_lem c rs e = rw e

loop_done : (ps : List PollResult) → poll_send_loop 1 1 ps ≡ returned (0, ps)
unfolding poll_send_loop
loop_done [] = refl
loop_done (failed ∷ ps) = refl
loop_done (entries ws ∷ ps) = refl

loop_one :
    (w : WorkCompletion) (ps : List PollResult)
    → IsGoodEntry w
    → poll_send_loop 1 0 (entries (w ∷ []) ∷ ps) ≡ returned (0, ps)
unfolding poll_send_loop
loop_one w ps good = rw (count_completed-good 0 (w ∷ []) (good, tt)) (loop_done ps)

pub poll_one :
    (c : PingpongContext) (w : WorkCompletion) (ps : List PollResult)
    → IsGoodEntry w
    → c.send_polls ≡ entries (w ∷ []) ∷ ps
    → poll_n_send_wc c 1 ≡ returned (0, record c { send_polls = ps })
unfolding poll_n_send_wc with_send_polls
poll_one c w ps good e = rw (e, loop_one w ps good)

pub pp_post_rdma_lem :
    (c : PingpongContext) (opcode : RdmaOpcode) (rs : List ℕ)
    → c.post_send_results ≡ 0 ∷ rs
    → pp_post_rdma c opcode
      ≡ returned (
        0,
        record c {
          sent =
              c.sent
              ++ (rdma opcode c.mr_rdma_start_ptr
                    (c.mr_rdma_size % 2 ^ 32)
                    (swap_bytes 8 c.remote_buf_va)
                    (swap_bytes 4 c.remote_buf_rkey)
                  ∷ []);
          post_send_results = rs;
        },
      )
unfolding pp_post_rdma
pp_post_rdma_lem c opcode rs e = rw e
