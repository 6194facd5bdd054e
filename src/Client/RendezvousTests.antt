-- ===== src/Client/RendezvousTests.antt =====
-- A client's set of the key "k" with a value of 4100 bytes.
use network_optimization.Prelude.{
  ℕ, ◌+◌, ◌≡◌, refl, some, List, [], ◌∷◌, ◌++◌, true, length, replicate, arith,
}
use network_optimization.Prelude.Strings.{le_bytes, le_value}
use network_optimization.Protocol.{op_code}
use network_optimization.Protocol.Layout.{
  Message, set_rendezvous, set_address, set_done, operation, fields, payload,
}
use network_optimization.Verbs.{
  WorkCompletion, wc_send, wc_recv, PollResult, entries, returned, poll_next_receive_wc,
  receive_loop, process_received, by_opcode, taken, decrement, refill, needs_refill,
}
use network_optimization.Server.Reply.{transmitted}
use network_optimization.Server.Run.{get_remote_control_message}
use network_optimization.Client.{Client, next_message, kv_set}
use network_optimization.Client.Eager.{Answered}
use network_optimization.Client.Rendezvous.{written, done_set, kv_set-writes}
use network_optimization.Protocol.Tests.{letters, letters-IsText, length-letters}
use network_optimization.Client.Tests.{k_key, k_IsText, client, context, answer}

abbrev value : List ℕ
value = letters 4100

abbrev good : PollResult
good = entries (record { is_success = true; opcode = wc_send; payload = [] } ∷ [])

abbrev completion : Message → WorkCompletion
completion m = record {
  is_success = true;
  opcode = wc_recv;
  payload = le_bytes 4 (op_code (operation m)) ++ payload (fields m);
}

abbrev at_first : Client
at_first = record (client set_done) {
  ctx = record (context set_done) {
    post_send_results = 0 ∷ 0 ∷ 0 ∷ [];
    send_polls = good ∷ good ∷ good ∷ [];
    receive_polls = answer (set_address 7 9) ∷ answer set_done ∷ [];
  };
  reg_mr_results = some 3 ∷ [];
}

abbrev asked : Client
asked = record at_first {
  ctx =
      transmitted (set_rendezvous k_key (length value + 1)) (0 ∷ 0 ∷ []) (good ∷ good ∷ [])
        at_first.ctx;
  reg_mr_results = [];
  regions = 3 ∷ [];
}

abbrev offered : Client
offered = record asked {
  ctx = record (taken asked.ctx (completion (set_address 7 9))) {
    receive_polls = answer set_done ∷ [];
  };
}

abbrev wrote : Client
wrote = record offered { ctx = written 1 (length value + 1) 7 9 (0 ∷ []) (good ∷ []) offered.ctx }

abbrev finished : Client
finished = done_set wrote k_key 3 [] []

abbrev at_last : Client
at_last = record finished {
  ctx = record (taken finished.ctx (completion set_done)) { receive_polls = [] };
}

offered-Answered : Answered asked 2 offered
unfolding next_message get_remote_control_message poll_next_receive_wc receive_loop process_received
    by_opcode taken decrement refill needs_refill le_bytes le_value op_code
offered-Answered = record { polled = refl; is_code = refl }

at_last-Answered : Answered finished 10 at_last
unfolding next_message get_remote_control_message poll_next_receive_wc receive_loop process_received
    by_opcode taken decrement refill needs_refill le_bytes le_value op_code
at_last-Answered = record { polled = refl; is_code = refl }

kv_set-writes_example :
    kv_set at_first (k_key ++ (0 ∷ [])) 1 (value ++ (0 ∷ [])) ≡ returned (0, at_last)
unfolding taken le_bytes op_code
kv_set-writes_example =
    kv_set-writes at_first k_key value 1 3 7 9 [] (replicate 4144 0) (0 ∷ 0 ∷ []) (0 ∷ []) []
      (good ∷ good ∷ []) (good ∷ []) [] offered at_last 10 k_IsText (letters-IsText 4100)
      (omega (arith, length-letters 4100)) (omega (arith, length-letters 4100)) (omega arith)
      (omega arith)
      (record {
        wc = record { is_success = true; opcode = wc_send; payload = [] };
        posts = refl;
        polls = refl;
        good = (refl, tt);
      })
      refl offered-Answered
      (record {
        buffer = refl;
        fit = ((omega arith, omega arith), ((omega arith, omega arith), tt));
      })
      (record {
        wc = record { is_success = true; opcode = wc_send; payload = [] };
        posts = refl;
        polls = refl;
        good = (refl, tt);
      })
      (record {
        wc = record { is_success = true; opcode = wc_send; payload = [] };
        posts = refl;
        polls = refl;
        good = (refl, tt);
      })
      refl at_last-Answered
