-- ===== src/Setup.antt =====
-- LowLatencyProtocols/ib_functions.c: `pp_init_ctx`, which takes the device's resources one by one.
pub mod Laws
pub mod Tests
use network_optimization.Prelude.{
  ℕ, ◌+◌, ◌-◌, ◌*◌, ◌/◌, Option, none, some, List, [], ◌∷◌, ◌++◌, replicate, Bool, true, false,
  ◌==◌, ◌&&◌, if◌then◌else◌,
}
use network_optimization.Prelude.Int.{ℤ, pos}
use network_optimization.Verbs.{PollResult, PingpongContext}
use network_optimization.Connect.{
  Resource, qp, send_cq, receive_cq, mr_control_send, mr_control_receive, buffer, pd, channel,
  device, ctx_struct,
}

-- A call that takes a resource: regions with their place in the buffer and their size.
pub data Acquisition : Type 0 where
  calloc_ctx open_device create_comp_channel alloc_pd : Acquisition
  malloc_buffer : (buffer_size fill : ℕ) → Acquisition
  reg_send_mr reg_receive_mr : (offset size : ℕ) → Acquisition
  create_send_cq create_receive_cq : (cqe : ℕ) → Acquisition
  create_qp : (max_send_wr max_recv_wr : ℕ) → Acquisition

abbrev pub resource_of : Acquisition → Resource
resource_of calloc_ctx = ctx_struct
resource_of open_device = device
resource_of create_comp_channel = channel
resource_of alloc_pd = pd
resource_of (malloc_buffer buffer_size fill) = buffer
resource_of (reg_send_mr offset size) = mr_control_send
resource_of (reg_receive_mr offset size) = mr_control_receive
resource_of (create_send_cq cqe) = send_cq
resource_of (create_receive_cq cqe) = receive_cq
resource_of (create_qp max_send_wr max_recv_wr) = qp

-- What the device answers: whether a call gives a resource, the answers to the step to "init" for a
-- port and to the query, the largest inline size, and what its queues will answer later.
pub record Device : Type 0 where
  pub gives : Acquisition → Bool
  pub modify_to_init : ℕ → ℕ
  pub query_qp : ℕ
  pub max_inline_data : ℕ
  pub post_send_results : List ℕ
  pub post_recv_results : List ℕ
  pub send_polls : List PollResult
  pub receive_polls : List PollResult

pub record Settings : Type 0 where
  pub mr_control_size : ℕ
  pub rx_depth : ℕ
  pub tx_depth : ℕ
  pub port : ℕ
  pub use_event : Bool
  pub is_server : Bool
  pub page_size : ℕ

-- The macro of sys/param.h, for a `y` above 0.
abbrev pub roundup : ℕ → ℕ → ℕ
roundup x y = (x + (y - 1)) / y * y

abbrev pub buffer_size_of : Settings → ℕ
buffer_size_of s = roundup (s.mr_control_size + s.mr_control_size) s.page_size

abbrev pub fill_of : Settings → ℕ
fill_of s = 123 + (if s.is_server then 1 else 0)

-- The calls in their order.
abbrev pub acquisitions : Settings → List Acquisition
acquisitions s =
    calloc_ctx ∷ open_device ∷ (if s.use_event then create_comp_channel ∷ [] else [])
    ++ (alloc_pd
        ∷ malloc_buffer (buffer_size_of s) (fill_of s)
        ∷ reg_send_mr 0 s.mr_control_size
        ∷ reg_receive_mr s.mr_control_size s.mr_control_size
        ∷ create_send_cq (s.tx_depth + 1)
        ∷ create_receive_cq (s.rx_depth + 1)
        ∷ create_qp s.tx_depth s.rx_depth
        ∷ [])

-- The first NULL ends the initialization; the result comes with what was taken until then.
unfoldable pub acquire_all : (Acquisition → Bool) → List Acquisition → Bool × List Acquisition
acquire_all gives [] = (true, [])
acquire_all gives (a ∷ as') =
    let rest = acquire_all gives as' in if gives a then (rest.0, a ∷ rest.1) else (false, [])

abbrev pub new_context : Device → Settings → PingpongContext
new_context dev s = record {
  work = replicate (buffer_size_of s) (fill_of s);
  mr_control_send_size = s.mr_control_size;
  mr_control_receive_size = s.mr_control_size;
  rx_depth = s.rx_depth;
  routs = pos 0;
  mr_rdma_start_ptr = 0;
  mr_rdma_size = 0;
  remote_buf_va = 0;
  remote_buf_rkey = 0;
  max_inline = dev.max_inline_data;
  sent = [];
  outstanding = 0;
  post_send_results = dev.post_send_results;
  post_recv_results = dev.post_recv_results;
  send_polls = dev.send_polls;
  receive_polls = dev.receive_polls;
}

-- The context, `none` for NULL, and what was taken.
unfoldable pub pp_init_ctx : Device → Settings → Option PingpongContext × List Acquisition
pp_init_ctx dev s =
    let (done, taken) = acquire_all dev.gives (acquisitions s) in
    (
      if done && dev.modify_to_init s.port == 0 && dev.query_qp == 0
          then some (new_context dev s)
          else none,
      taken,
    )
