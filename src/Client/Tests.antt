-- ===== src/Client/Tests.antt =====
-- A client's set and get of the key "k", with the answers of a server.
use network_optimization.Prelude.{
  ℕ, ◌≡◌, refl, none, some, List, [], ◌∷◌, ◌++◌, true, replicate, arith,
}
use network_optimization.Prelude.Int.{pos}
use network_optimization.Prelude.Strings.{IsText, le_bytes, le_value}
use network_optimization.Heap.{Heap, string_at}
use network_optimization.Heap.Frame.{IsFresh}
use network_optimization.Protocol.{op_code}
use network_optimization.Protocol.Layout.{
  Message, set_eager, get, get_value, set_done, not_found, operation, fields, payload,
}
use network_optimization.Verbs.{
  wc_send, wc_recv, PollResult, entries, returned, PingpongContext, poll_next_receive_wc,
  receive_loop, process_received, by_opcode, taken, decrement, refill, needs_refill,
}
use network_optimization.Server.Memory.{Grows}
use network_optimization.Server.Reply.{Accepts, transmitted}
use network_optimization.Server.Request.{Received}
use network_optimization.Server.Run.{get_remote_control_message}
use network_optimization.Client.{Client, block, next_message, kv_set, kv_get}
use network_optimization.Client.Eager.{Answered, kv_set-Answered}
use network_optimization.Client.Get.{kv_get-value}

abbrev pub k_key : List ℕ
k_key = 107 ∷ []

abbrev ww : List ℕ
ww = 119 ∷ 119 ∷ []

pub k_IsText : IsText k_key
k_IsText = (omega arith, tt)

ww-IsText : IsText ww
ww-IsText = (omega arith, (omega arith, tt))

abbrev memory : Heap
memory = record { next = 0; cell = λ p. none; stale = λ i. 85 }

memory-IsFresh : IsFresh memory
memory-IsFresh = record { unused = λ p le. refl }

-- The message of the server that is waiting, behind a send region of 40 bytes.
abbrev pub answer : Message → PollResult
answer m = entries (
    record {
      is_success = true;
      opcode = wc_recv;
      payload = le_bytes 4 (op_code (operation m)) ++ payload (fields m);
    }
    ∷ [])

abbrev pub context : Message → PingpongContext
context m = record {
  work = replicate 4200 0;
  mr_control_send_size = 40;
  mr_control_receive_size = 40;
  rx_depth = 100;
  routs = pos 100;
  mr_rdma_start_ptr = 0;
  mr_rdma_size = 0;
  remote_buf_va = 0;
  remote_buf_rkey = 0;
  max_inline = 64;
  sent = [];
  outstanding = 100;
  post_send_results = 0 ∷ [];
  post_recv_results = [];
  send_polls = entries (record { is_success = true; opcode = wc_send; payload = [] } ∷ []) ∷ [];
  receive_polls = answer m ∷ [];
}

abbrev pub client : Message → Client
client m = record {
  heap = memory;
  ctx = context m;
  reg_mr_results = [];
  dereg_mr = λ r. 0;
  regions = [];
  rdma_data = [];
}

-- The client when the answer `m` to its request `request` has come in.
abbrev after : Message → Message → Client
after request m = record (client m) {
  ctx =
      record (taken (transmitted request [] [] (context m)) (record {
        is_success = true;
        opcode = wc_recv;
        payload = le_bytes 4 (op_code (operation m)) ++ payload (fields m);
      })) { receive_polls = [] };
}

accepts : (m : Message) → Accepts (client m).ctx [] []
accepts m = record {
  wc = record { is_success = true; opcode = wc_send; payload = [] };
  posts = refl;
  polls = refl;
  good = (refl, tt);
}

set_done-Answered :
    Answered
      (record (client set_done) {
        ctx = transmitted (set_eager k_key 3 ww) [] [] (context set_done);
      })
      10
      (after (set_eager k_key 3 ww) set_done)
unfolding next_message get_remote_control_message poll_next_receive_wc receive_loop process_received
    by_opcode taken decrement refill needs_refill le_bytes le_value op_code
set_done-Answered = record { polled = refl; is_code = refl }

kv_set-Answered_example :
    kv_set (client set_done) (k_key ++ (0 ∷ [])) 5 (ww ++ (0 ∷ []))
    ≡ returned (0, after (set_eager k_key 3 ww) set_done)
unfolding op_code
kv_set-Answered_example =
    kv_set-Answered (client set_done) k_key ww 5 [] [] 10 (after (set_eager k_key 3 ww) set_done)
      k_IsText ww-IsText (omega arith) (omega arith) (accepts set_done) set_done-Answered

get_value-Answered :
    Answered
      (record (client (get_value ww)) {
        ctx = transmitted (get k_key) [] [] (context (get_value ww));
      })
      4
      (after (get k_key) (get_value ww))
unfolding next_message get_remote_control_message poll_next_receive_wc receive_loop process_received
    by_opcode taken decrement refill needs_refill le_bytes le_value op_code
get_value-Answered = record { polled = refl; is_code = refl }

get_value-Received :
    Received (after (get k_key) (get_value ww)).ctx (get_value ww) (replicate 4153 0)
unfolding taken le_bytes op_code
get_value-Received = record { buffer = refl; fit = (ww-IsText, tt) }

kv_get-value_example :
    (h : Heap) × (kv_get (client (get_value ww)) (k_key ++ (0 ∷ []))
      ≡ returned (0, block 0, record (after (get k_key) (get_value ww)) { heap = h }))
    × (string_at h 0 ≡ some ww)
    × Grows memory h
unfolding op_code
kv_get-value_example =
    kv_get-value (client (get_value ww)) k_key [] [] (after (get k_key) (get_value ww)) k_IsText
      (omega arith) (accepts (get_value ww)) ww (replicate 4153 0) get_value-Answered
      get_value-Received memory-IsFresh

not_found-Answered :
    Answered
      (record (client not_found) { ctx = transmitted (get k_key) [] [] (context not_found) })
      6
      (after (get k_key) not_found)
unfolding next_message get_remote_control_message poll_next_receive_wc receive_loop process_received
    by_opcode taken decrement refill needs_refill le_bytes le_value op_code
not_found-Answered = record { polled = refl; is_code = refl }
