-- ===== src/Template/Context.antt =====
-- Optimization/bw_template.c: `pp_init_ctx`, which takes the device's resources one by one, and
-- `pp_close_ctx`. The buffer holds the control messages first, and the region for RDMA writes behind.
use network_optimization.Prelude.{
  ℕ, ◌+◌, Option, none, some, List, [], ◌∷◌, ◌++◌, Bool, true, false, ◌==◌, ◌&&◌, if◌then◌else◌,
}
use network_optimization.Prelude.Int.{ℤ, pos}
use network_optimization.Setup.{roundup}
use network_optimization.Release.{close_all}

-- What a context holds.
pub data Resource : Type 0 where
  qp cq mr_control_send mr_rdma_write pd channel device buffer ctx_struct : Resource

-- A call that takes a resource: regions with their place in the buffer and their size.
pub data Acquisition : Type 0 where
  calloc_ctx open_device create_comp_channel alloc_pd : Acquisition
  malloc_buffer : (size fill : ℕ) → Acquisition
  reg_control_mr reg_rdma_mr : (offset size : ℕ) → Acquisition
  create_cq : (cqe : ℕ) → Acquisition
  create_qp : (max_send_wr max_recv_wr : ℕ) → Acquisition

abbrev pub resource_of : Acquisition → Resource
resource_of calloc_ctx = ctx_struct
resource_of open_device = device
resource_of create_comp_channel = channel
resource_of alloc_pd = pd
resource_of (malloc_buffer size fill) = buffer
resource_of (reg_control_mr offset size) = mr_control_send
resource_of (reg_rdma_mr offset size) = mr_rdma_write
resource_of (create_cq cqe) = cq
resource_of (create_qp max_send_wr max_recv_wr) = qp

-- The answer of every call but one is compared with NULL.
abbrev pub tested : Acquisition → Bool
tested (reg_rdma_mr offset size) = false
tested a = true

pub record Settings : Type 0 where
  pub size : ℕ
  pub rdma_write_mr_size : ℕ
  pub rx_depth : ℕ
  pub tx_depth : ℕ
  pub port : ℕ
  pub use_event : Bool
  pub is_server : Bool
  pub page_size : ℕ

-- What the device answers: whether a call gives a resource, the answers to the step to "init" for a
-- port and to the query, and the largest inline size.
pub record Device : Type 0 where
  pub gives : Acquisition → Bool
  pub modify_to_init : ℕ → ℕ
  pub query_qp : ℕ
  pub max_inline_data : ℕ

abbrev pub buffer_size_of : Settings → ℕ
buffer_size_of s = roundup (s.size + s.rdma_write_mr_size) s.page_size

-- The byte that the buffer is filled with, as far as the two regions go.
abbrev pub fill_of : Settings → ℕ
fill_of s = 123 + (if s.is_server then 1 else 0)

-- The calls in their order.
abbrev pub acquisitions : Settings → List Acquisition
acquisitions s =
    calloc_ctx
      ∷ malloc_buffer (buffer_size_of s) (fill_of s)
      ∷ open_device
      ∷ (if s.use_event then create_comp_channel ∷ [] else [])
    ++ (alloc_pd
        ∷ reg_control_mr 0 s.size
        ∷ reg_rdma_mr s.size s.rdma_write_mr_size
        ∷ create_cq (s.rx_depth + s.tx_depth)
        ∷ create_qp s.tx_depth s.rx_depth
        ∷ [])

-- The first NULL that is tested ends the initialization; the result comes with what was taken.
unfoldable pub acquire_all : (Acquisition → Bool) → List Acquisition → Bool × List Acquisition
acquire_all gives [] = (true, [])
acquire_all gives (a ∷ as') =
    let rest = acquire_all gives as' in
    if gives a then (rest.0, a ∷ rest.1) else (if tested a then (false, []) else rest)

-- The fields of a new context that are not the device's. A region that the device refused is NULL.
pub record Context : Type 0 where
  pub size : ℕ
  pub rx_depth : ℕ
  pub routs : ℤ
  pub mr_rdma_write_start : ℕ
  pub has_rdma_write_mr : Bool
  pub max_inline : ℕ

abbrev pub new_context : Device → Settings → Context
new_context dev s = record {
  size = s.size;
  rx_depth = s.rx_depth;
  routs = pos s.rx_depth;
  mr_rdma_write_start = s.size;
  has_rdma_write_mr = dev.gives (reg_rdma_mr s.size s.rdma_write_mr_size);
  max_inline = dev.max_inline_data;
}

-- The context, `none` for NULL, and what was taken.
unfoldable pub pp_init_ctx : Device → Settings → Option Context × List Acquisition
pp_init_ctx dev s =
    let (done, taken) = acquire_all dev.gives (acquisitions s) in
    (
      if done && dev.modify_to_init s.port == 0 && dev.query_qp == 0
          then some (new_context dev s)
          else none,
      taken,
    )

-- `free` gives no answer.
abbrev pub answer_of : (Resource → ℕ) → Resource → ℕ
answer_of destroy buffer = 0
answer_of destroy ctx_struct = 0
answer_of destroy r = destroy r

-- The channel is there only if the context was made with events.
abbrev pub close_order : Bool → List Resource
close_order has_channel =
    qp ∷ cq ∷ mr_control_send ∷ mr_rdma_write ∷ pd ∷ (if has_channel then channel ∷ [] else [])
    ++ (device ∷ buffer ∷ ctx_struct ∷ [])

-- `destroy` is what the device's function for each resource answers.
unfoldable pub pp_close_ctx : (Resource → ℕ) → Bool → ℕ × List Resource
pp_close_ctx destroy has_channel = close_all (answer_of destroy) (close_order has_channel)
