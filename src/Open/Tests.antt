-- ===== src/Open/Tests.antt =====
-- A server that opens for one client.
use network_optimization.Prelude.{◌≡◌, refl, some, List, [], ◌∷◌, ◌++◌, replicate, true}
use network_optimization.Prelude.Int.{pos}
use network_optimization.Verbs.{
  PollResult, returned, missing, pp_post_recv, post_recv_loop, after_posting,
}
use network_optimization.Connect.{PingpongDest, pp_connect_ctx}
use network_optimization.Exchange.{
  dest_of, Address, listen_to_websocket, accept_loop, connect_loop, pp_server_exch_dest,
  server_reply, print_dest, dest_text, print_hex, hex_pad, read_dest, scan_hex, scan_below,
  scan_colon, scan_gid, word, skip_blanks, hex_run, has_digit,
}
use network_optimization.Exchange.Agree.{changes_to}
use network_optimization.Setup.{Device, new_context, pp_init_ctx, acquire_all}
use network_optimization.Open.{
  Host, Environment, Opened, settings, my_dest_of, open_server, fill_and_open, open_host,
  open_hosts, kv_open,
}
use network_optimization.Wire.{
  mtu_4096, hex_digit, hex_digits, digit_value, hex_value, print_words, read_words, gid_to_wire_gid,
  wire_gid_to_gid,
}
use network_optimization.Prelude.Strings.{le_bytes, swap_bytes}

abbrev dev : List PollResult → Device
dev polls = record {
  gives = λ a. true;
  modify_to_init = λ port. 0;
  query_qp = 0;
  max_inline_data = 60;
  post_send_results = [];
  post_recv_results = replicate 100 0;
  send_polls = [];
  receive_polls = polls;
}

abbrev client_dest : PingpongDest
client_dest = dest_of 3 40 111 (replicate 16 0)

abbrev address : Address
address = record { has_socket = true; succeeds = true }

abbrev host : List PollResult → Host
host polls = record {
  device = dev polls;
  has_port = true;
  lid = 4;
  is_infiniband = true;
  qp_num = 50;
  random = 222;
  network = record {
    service_printed = true;
    resolved = true;
    addresses = address ∷ [];
    written = some 52;
    incoming = dest_text client_dest ++ (0 ∷ []);
    has_memory = true;
  };
  modify_qp = λ c. 0;
}

-- `polls` is what the server will find when it polls for requests.
abbrev pub environment : List PollResult → Environment
environment polls = record {
  has_device_list = true;
  has_device = true;
  page_size = 16;
  listener = record {
    service_printed = true;
    resolved = true;
    addresses = address ∷ [];
    accepts = some 5 ∷ [];
  };
  server = host polls;
  clients = λ fd. host polls;
}

abbrev pub opened : List PollResult → Opened
opened polls = record {
  context = record (new_context (dev polls) (settings true 10 16)) {
    routs = pos 100;
    outstanding = 100;
    post_recv_results = [];
  };
  my_dest = my_dest_of (host polls);
  remote_dest = client_dest;
  changes = changes_to 1 222 mtu_4096 0 client_dest 255;
}

pub kv_open_run :
    (polls : List PollResult)
    → kv_open true 10 (environment polls) ≡ returned (0, opened polls ∷ [])
unfolding kv_open open_hosts open_host fill_and_open open_server listen_to_websocket accept_loop
    connect_loop pp_init_ctx acquire_all pp_post_recv post_recv_loop after_posting missing
    pp_server_exch_dest server_reply print_dest dest_text print_hex hex_pad read_dest scan_hex
    scan_below scan_colon scan_gid word skip_blanks hex_run has_digit gid_to_wire_gid print_words
    hex_digits digit_value hex_digit wire_gid_to_gid read_words hex_value swap_bytes le_bytes
    pp_connect_ctx
kv_open_run polls = refl
