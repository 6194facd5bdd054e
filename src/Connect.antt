-- ===== src/Connect.antt =====
-- LowLatencyProtocols/ib_functions.c: bringing a queue pair to its peer, and taking a context down.
pub mod Laws
pub mod Tests
use network_optimization.Prelude.{
  ℕ, Option, none, some, List, [], ◌∷◌, ◌++◌, Bool, true, false, ◌==◌, if◌then◌else◌,
}
use network_optimization.Wire.{Mtu}
use network_optimization.Release.{close_all}

-- `struct pingpong_dest`; `interface_id` is the second half of the gid.
pub record PingpongDest : Type 0 where
  pub lid : ℕ
  pub qpn : ℕ
  pub psn : ℕ
  pub gid : List ℕ
  pub interface_id : ℕ

-- The attributes of the step to "ready to receive"; `global` is the gid, the index of the source
-- gid and the hop limit, where the route is a global one.
pub record ReceiveAttributes : Type 0 where
  pub path_mtu : Mtu
  pub dest_qp_num : ℕ
  pub rq_psn : ℕ
  pub max_dest_rd_atomic : ℕ
  pub min_rnr_timer : ℕ
  pub global : Option (List ℕ × ℕ × ℕ)
  pub dlid : ℕ
  pub service_level : ℕ
  pub src_path_bits : ℕ
  pub port_num : ℕ

-- Those of the step to "ready to send".
pub record SendAttributes : Type 0 where
  pub timeout : ℕ
  pub retry_cnt : ℕ
  pub rnr_retry : ℕ
  pub sq_psn : ℕ
  pub max_rd_atomic : ℕ

pub data Change : Type 0 where
  to_receive : ReceiveAttributes → Change
  to_send : SendAttributes → Change

abbrev pub receive_attributes : ℕ → Mtu → ℕ → PingpongDest → ℕ → ReceiveAttributes
receive_attributes port mtu sl dest sgid_idx = record {
  path_mtu = mtu;
  dest_qp_num = dest.qpn;
  rq_psn = dest.psn;
  max_dest_rd_atomic = 1;
  min_rnr_timer = 12;
  global = if dest.interface_id == 0 then none else some (dest.gid, sgid_idx, 1);
  dlid = dest.lid;
  service_level = sl;
  src_path_bits = 0;
  port_num = port;
}

abbrev pub send_attributes : ℕ → SendAttributes
send_attributes my_psn = record {
  timeout = 14;
  retry_cnt = 7;
  rnr_retry = 7;
  sq_psn = my_psn;
  max_rd_atomic = 1;
}

-- `modify_qp` is what `ibv_modify_qp` answers to a change. The result comes with the changes that
-- were made.
unfoldable pub pp_connect_ctx : (Change → ℕ) → ℕ → ℕ → Mtu → ℕ → PingpongDest → ℕ → ℕ × List Change
pp_connect_ctx modify_qp port my_psn mtu sl dest sgid_idx =
    let first = to_receive (receive_attributes port mtu sl dest sgid_idx) in
    let second = to_send (send_attributes my_psn) in
    if modify_qp first == 0
    then (if modify_qp second == 0 then (0, first ∷ second ∷ []) else (1, first ∷ []))
    else (1, [])

-- What a context holds.
pub data Resource : Type 0 where
  qp send_cq receive_cq mr_control_send mr_control_receive buffer pd channel device ctx_struct :
      Resource

-- `free` gives no answer.
abbrev pub answer_of : (Resource → ℕ) → Resource → ℕ
answer_of destroy buffer = 0
answer_of destroy ctx_struct = 0
answer_of destroy r = destroy r

-- The channel is there only if the context was made with events.
abbrev pub close_order : Bool → List Resource
close_order has_channel =
    qp
    ∷ send_cq
    ∷ receive_cq
    ∷ mr_control_send
    ∷ mr_control_receive
    ∷ buffer
    ∷ pd
    ∷ (if has_channel then channel ∷ device ∷ ctx_struct ∷ [] else device ∷ ctx_struct ∷ [])

-- `destroy` is what the device's function for each resource answers.
unfoldable pub pp_close_ctx : (Resource → ℕ) → Bool → ℕ × List Resource
pp_close_ctx destroy has_channel = close_all (answer_of destroy) (close_order has_channel)
