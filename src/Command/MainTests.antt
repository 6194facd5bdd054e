-- ===== src/Command/MainTests.antt =====
-- A server whose one client asks to shut down, from its arguments to its end.
use network_optimization.Prelude.{none, List, [], ◌∷◌, true, false}
use network_optimization.Prelude.Int.{pos}
use network_optimization.Prelude.Strings.{le_bytes}
use network_optimization.Heap.{Heap}
use network_optimization.Database.{KeyValueAddressPair, initialize_key_value_address_array}
use network_optimization.Protocol.{shut_down_server, op_code}
use network_optimization.Verbs.{PollResult, entries, wc_recv}
use network_optimization.Server.{Server}
use network_optimization.Client.{Client}
use network_optimization.Open.{kv_close}
use network_optimization.Open.Tests.{environment, opened}
use network_optimization.Command.Main.{no_arguments, Launch, Exit}

abbrev shut_down : List PollResult
shut_down =
    entries (
      record {
        is_success = true;
        opcode = wc_recv;
        payload = le_bytes 4 (op_code shut_down_server);
      }
      ∷ [])
    ∷ []

abbrev heap : Heap
heap = record { next = 1; cell = λ p. none; stale = λ p. 0 }

abbrev stale : KeyValueAddressPair
stale = record { key_address = 0; value_address = 0; value_size = 0; mr_rdma = none }

abbrev server : Server
server = record {
  kv_malloc = 0;
  heap = heap;
  database = initialize_key_value_address_array stale 0;
  ctx = (opened shut_down).context;
  reg_mr_results = [];
  regions = [];
  dereg_mr = λ p. 0;
  stale_slot = stale;
}

abbrev client : Client
client = record {
  heap = heap;
  ctx = (opened shut_down).context;
  reg_mr_results = [];
  dereg_mr = λ p. 0;
  regions = [];
  rdma_data = [];
}

abbrev launch : Launch
launch = record {
  arguments = no_arguments;
  leftover_servername = false;
  leftover_test = true;
  mr_control_size = 10;
  environment = environment shut_down;
  client = client;
  server = server;
  random = λ i. 0;
  visits = 1;
  destroy = λ i r. 0;
}

abbrev ended : Exit
ended = record { status = pos 0; freed = kv_close (λ i r. 0) (opened shut_down ∷ []) }
