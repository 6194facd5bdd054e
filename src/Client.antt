-- ===== src/Client.antt =====
-- LowLatencyProtocols/kv_api.c and main.c, the client: `kv_set`, `kv_get` and `shut_down_server`.
-- Keys and values are passed as what can be read from their pointers on.
pub mod Eager
pub mod Get
pub mod Rendezvous
pub mod Tests
pub mod RendezvousTests
use network_optimization.Prelude.{
  ℕ, ◌+◌, ◌%◌, ◌^◌, Option, none, some, List, [], ◌∷◌, ◌++◌, Bool, true, false, ◌==◌, leb,
  if◌then◌else◌, take,
}
use network_optimization.Prelude.Strings.{c_string, le_bytes, le_value}
use network_optimization.Heap.{Heap, malloc, write_block}
use network_optimization.Protocol.{
  Operation, shut_down_server, client_kv_set_eager, client_kv_set_rendezvous,
  server_kv_set_rendezvous, client_kv_get, server_kv_get_eager, server_kv_get_rendezvous,
  server_in_progress, client_kv_get_rendezvous_fin, client_kv_set_rendezvous_fin,
  server_kv_set_successful, server_kv_get_successful, op_code, control_message_buffer_size, strlen,
  set_control_message,
}
use network_optimization.Verbs.{
  Outcome, returned, waiting, fault, PingpongContext, RdmaOpcode, rdma_write, rdma_read,
  pp_post_send, pp_post_rdma, poll_n_send_wc,
}
use network_optimization.Server.{◌>>=◌, lift, decode, pointer, copy_string}
use network_optimization.Server.Run.{get_remote_control_message, received_code}

-- A client at work. `reg_mr_results` and `dereg_mr` are the answers of `ibv_reg_mr` (NULL is `none`)
-- and `ibv_dereg_mr`; `regions` are the regions that are registered, and `rdma_data` is what the
-- server's memory holds at each RDMA read.
pub record Client : Type 0 where
  pub heap : Heap
  pub ctx : PingpongContext
  pub reg_mr_results : List (Option ℕ)
  pub dereg_mr : ℕ → ℕ
  pub regions : List ℕ
  pub rdma_data : List (List ℕ)

-- A message is composed, posted, and its completion awaited.
pub send_message : Client → Operation → List (List ℕ) → Outcome (ℕ × Client)
send_message s op addresses = do
  work ← lift (set_control_message s.ctx.work op addresses)
  (posted, c1) ← pp_post_send (record (s.ctx) { work = work })
  (code, c2) ← poll_n_send_wc c1 1
  returned (if code == 0 then 0 else 1, record s { ctx = c2 })

-- The blocking call for the next message, and the message's operation.
pub next_message : Client → Outcome (ℕ × Client)
next_message s = do
  (polled, c) ← get_remote_control_message s.ctx true
  returned (polled, record s { ctx = c })

abbrev pub operation_of : Client → Outcome ℕ
operation_of s = lift (received_code s.ctx)

-- `ibv_reg_mr`.
pub register : Client → List (Option ℕ) → Outcome (Option ℕ × Client)
register s [] = waiting
register s (none ∷ rs) = returned (none, record s { reg_mr_results = rs })
register s (some mr ∷ rs) =
    returned (some mr, record s { reg_mr_results = rs; regions = s.regions ++ (mr ∷ []) })

abbrev pub without : ℕ → List ℕ → List ℕ
without mr [] = []
without mr (r ∷ rs) = if r == mr then without mr rs else r ∷ without mr rs

-- `ibv_dereg_mr`.
pub deregister : Client → Option ℕ → Outcome (ℕ × Client)
deregister s none = fault
deregister s (some mr) =
    if s.dereg_mr mr == 0
    then returned (0, record s { regions = without mr s.regions })
    else returned (s.dereg_mr mr, s)

-- An RDMA request takes its local key from the region, so that NULL is undefined.
pub transfer : Client → Option ℕ → RdmaOpcode → Outcome (ℕ × Client)
transfer s none opcode = fault
transfer s (some mr) opcode = do
  (posted, c1) ← pp_post_rdma s.ctx opcode
  (code, c2) ← poll_n_send_wc c1 1
  returned (if code == 0 then 0 else 1, record s { ctx = c2 })

-- What a set returns for the answer to an eager request.
abbrev pub set_result : ℕ → ℕ
set_result code =
    if code == op_code server_in_progress
    then 2
    else if code == op_code server_kv_set_successful
    then 0
    else 1

-- The first branch of `kv_set`.
pub kv_set_eager : Client → List ℕ → List ℕ → ℕ → Outcome (ℕ × Client)
kv_set_eager s key value value_size = do
  (sent, s1) ← send_message s client_kv_set_eager (key ∷ le_bytes 8 value_size ∷ value ∷ [])
  if sent == 0
      then (do
        (polled, s2) ← next_message s1
        if polled == 0
            then (do code ← operation_of s2; returned (set_result code, s2))
            else returned (1, s2))
      else returned (1, s1)

-- The end of both protocols: FIN, the region is released, and the last answer decides.
pub finish_transfer :
    Client
    → Operation
    → Operation
    → List ℕ
    → Option ℕ
    → (PingpongContext → PingpongContext)
    → Outcome (ℕ × Client)
finish_transfer s fin expected key mr reset = do
  (sent, s1) ← send_message s fin (key ∷ [])
  if sent == 0
      then (do
        (released, s2) ← deregister s1 mr
        if released == 0
            then (do
              (polled, s3) ← next_message (record s2 { ctx = reset s2.ctx })
              if polled == 0
                  then (do
                    code ← operation_of s3
                    returned (if code == op_code expected then 0 else 1, s3))
                  else returned (1, s3))
            else returned (1, s2))
      else returned (1, s1)

abbrev pub reset_set : PingpongContext → PingpongContext
reset_set c = record c {
  mr_rdma_start_ptr = 0;
  mr_rdma_size = 0;
  remote_buf_rkey = 0;
  remote_buf_va = 0;
}

abbrev pub reset_get : PingpongContext → PingpongContext
reset_get c = record c { mr_rdma_start_ptr = 0; mr_rdma_size = 0 }

-- The second branch of `kv_set` from the server's answer on.
pub kv_set_write : Client → List ℕ → ℕ → ℕ → Option ℕ → Outcome (ℕ × Client)
kv_set_write s key value_address value_size mr = do
  ps ← decode server_kv_set_rendezvous s.ctx
  va_at ← pointer ps 0
  va ← lift (le_value 8 va_at)
  rkey_at ← pointer ps 1
  rkey ← lift (le_value 4 rkey_at)
  (written, s1) ←
      transfer
        (record s {
          ctx = record (s.ctx) {
            mr_rdma_size = value_size;
            mr_rdma_start_ptr = value_address;
            remote_buf_va = va;
            remote_buf_rkey = rkey;
          };
        })
        mr rdma_write
  if written == 0
      then finish_transfer s1 client_kv_set_rendezvous_fin server_kv_set_successful key mr reset_set
      else returned (1, s1)

-- The second branch of `kv_set`.
pub kv_set_rendezvous : Client → List ℕ → ℕ → ℕ → Outcome (ℕ × Client)
kv_set_rendezvous s key value_address value_size = do
  (sent, s1) ← send_message s client_kv_set_rendezvous (key ∷ le_bytes 8 value_size ∷ [])
  if sent == 0
      then (do
        (mr, s2) ← register s1 s1.reg_mr_results
        (polled, s3) ← next_message s2
        if polled == 0
            then (do
              code ← operation_of s3
              if code == op_code server_in_progress
                  then (do
                    (released, s4) ← deregister s3 mr
                    returned (if released == 0 then 2 else 3, s4))
                  else kv_set_write s3 key value_address value_size mr)
            else returned (1, s3))
      else returned (1, s1)

-- The guard of the eager branch counts the two strings, and not the size between them.
pub kv_set : Client → List ℕ → ℕ → List ℕ → Outcome (ℕ × Client)
kv_set s key value_address value = do
  k ← lift (strlen key)
  v ← lift (strlen value)
  if leb (k + v + 2) control_message_buffer_size
      then kv_set_eager s key value (v + 1)
      else kv_set_rendezvous s key value_address (v + 1)

-- `*var` after `kv_get`: not written, NULL, or a block.
pub data Var : Type 0 where
  unset : Var
  null : Var
  block : ℕ → Var

-- The value came with the answer.
pub kv_get_eager : Client → Outcome (ℕ × Var × Client)
kv_get_eager s = do
  ps ← decode server_kv_get_eager s.ctx
  value ← pointer ps 0
  v ← lift (strlen value)
  h ← lift (copy_string s.heap (v + 1) (c_string value))
  returned (0, block s.heap.next, record s { heap = h })

-- What an RDMA read of `size` bytes brings is written to the block.
pub receive_data : Client → ℕ → ℕ → List (List ℕ) → Outcome Client
receive_data s p size [] = waiting
receive_data s p size (data' ∷ ds) = do
  h ← lift (write_block s.heap p (take size data'))
  returned (record s { heap = h; rdma_data = ds })

-- The value is read by RDMA.
pub kv_get_rendezvous : Client → List ℕ → Outcome (ℕ × Var × Client)
kv_get_rendezvous s key = do
  ps ← decode server_kv_get_rendezvous s.ctx
  size_at ← pointer ps 0
  size ← lift (le_value 8 size_at)
  va_at ← pointer ps 1
  va ← lift (le_value 8 va_at)
  rkey_at ← pointer ps 2
  rkey ← lift (le_value 4 rkey_at)
  let p = s.heap.next
  (mr, s1) ←
      register
        (record s {
          heap = malloc s.heap size;
          ctx = record (s.ctx) {
            mr_rdma_size = size;
            remote_buf_va = va;
            remote_buf_rkey = rkey;
            mr_rdma_start_ptr = p;
          };
        })
        s.reg_mr_results
  (read, s2) ← transfer s1 mr rdma_read
  if read == 0
      then (do
        s3 ← receive_data s2 p (size % 2 ^ 32) s2.rdma_data
        (code, s4) ←
            finish_transfer s3 client_kv_get_rendezvous_fin server_kv_get_successful key mr
              reset_get
        returned (code, block p, s4))
      else returned (1, block p, s2)

pub kv_get : Client → List ℕ → Outcome (ℕ × Var × Client)
kv_get s key = do
  (sent, s1) ← send_message s client_kv_get (key ∷ [])
  if sent == 0
      then (do
        (polled, s2) ← next_message s1
        if polled == 0
            then (do
              code ← operation_of s2
              if code == op_code server_kv_get_eager
                  then kv_get_eager s2
                  else if code == op_code server_kv_get_rendezvous
                  then kv_get_rendezvous s2 key
                  else returned (1, null, s2))
            else returned (1, unset, s2))
      else returned (1, unset, s1)

pub request_shut_down : Client → Outcome (ℕ × Client)
request_shut_down s = send_message s shut_down_server []
