-- ===== src/Template/Tests.antt =====
-- A client and a server with small queues, whose devices do what they are asked.
use network_optimization.Prelude.{
  ℕ, ◌≡◌, refl, none, some, List, [], ◌∷◌, replicate, Bool, true, false, arith,
}
use network_optimization.Prelude.Int.{pos}
use network_optimization.Prelude.Strings.{swap_bytes}
use network_optimization.Wire.{mtu_4096, pp_mtu_to_enum}
use network_optimization.Exchange.{Network, dest_of}
use network_optimization.Template.Sockets.{socket_loop, first_sockets}
use network_optimization.Bandwidth.{
  Completion, pingpong_recv_wrid, ready, pp_post_recv, post_recv_loop,
}
use network_optimization.Exchange.Agree.{hears, changes_to}
use network_optimization.Release.{give_back}
use network_optimization.Template.Attempt.{going, gave_up, broken}
use network_optimization.Template.Message.{BufferDest, IsDest}
use network_optimization.Template.Talk.{Talk, pp_client_exch_dest, server_talk, pp_server_exch_dest}
use network_optimization.Template.Context.{
  Resource, pd, tested, Settings, Device, acquisitions, acquire_all, new_context, pp_init_ctx,
  pp_close_ctx,
}
use network_optimization.Template.Life.{kinds, resources_of, pp_init_ctx-pp_close_ctx}
use network_optimization.Template.Options.{
  opt_size, opt_rx_depth, opt_iters, opt_mtu, Options, defaults, parse_options, take_option,
  has_servername, choose_device,
}
use network_optimization.Template.Main.{
  World, Prepared, bench_of, settings_of, fill_queue, own_gid, own_dest, prepare,
}
use network_optimization.Template.Agree.{
  IsUp, client_end, server_end, pp_client_exch_dest-pp_server_exch_dest,
}
use network_optimization.Template.Closing.{pp_server_exch_dest-closes}

abbrev network : Network
network = record {
  service_printed = true;
  resolved = true;
  addresses =
      record { has_socket = true; succeeds = false }
      ∷ record { has_socket = true; succeeds = true }
      ∷ [];
  written = some 78;
  incoming = [];
  has_memory = true;
}

network-IsUp : IsUp network
unfolding socket_loop
network-IsUp = record {
  printed = refl;
  found = refl;
  sockfd = 1;
  connects = refl;
  writes = refl;
  memory = refl;
}

abbrev dev : Device
dev = record { gives = λ a. true; modify_to_init = λ port. 0; query_qp = 0; max_inline_data = 60 }

abbrev received_one : Completion
received_one = record { is_success = true; wr_id = pingpong_recv_wrid }

-- The arguments behind the options make a host the client or the server.
abbrev host : List (List ℕ) → World
host names = record {
  enum_is_signed = false;
  leftover = false;
  options = opt_rx_depth (pos 150) ∷ opt_iters (pos 1) ∷ [];
  names = names;
  devices = some ((109 ∷ 108 ∷ []) ∷ []);
  page_size = 4096;
  device = λ i. dev;
  post_recv_result = λ n. 0;
  post_send_result = λ n. 0;
  notified = 0;
  port_queried = 0;
  lid = 3;
  is_infiniband = true;
  gid_of = λ idx. none;
  qp_num = 40;
  random = 111;
  buf = 8192;
  rkey = 77;
  net = network;
  accepts = true;
  modify_qp = λ c. 0;
  queue = replicate 1100 received_one;
  polls = replicate 1100 (ready 1);
  destroy = λ r. 0;
}

abbrev options_of : Options
options_of = record defaults { rx_depth = 150; iters = 1 }

abbrev dest : BufferDest
dest = record {
  host = dest_of 3 40 111 (replicate 16 0);
  buf_va = swap_bytes 8 8193;
  buf_rkey = swap_bytes 4 77;
}

abbrev prepared_as : Bool → World → Prepared
prepared_as is_client w = record {
  settings = options_of;
  is_client = is_client;
  bench = record (bench_of w (new_context dev (settings_of w options_of is_client))) {
    routs = pos 150;
    held = 150;
    num_post_recv = 150;
  };
  my_dest = dest;
}

abbrev client : World
client = host ((115 ∷ []) ∷ [])

abbrev server : World
server = host []

dest-IsDest : IsDest dest
unfolding swap_bytes
dest-IsDest = record {
  lid_fits = omega arith;
  qpn_fits = omega arith;
  psn_fits = omega arith;
  va_fits = omega arith;
  rkey_fits = omega arith;
  gid_length = refl;
  gid_bytes = ground arith;
  second_half = refl;
}

pp_client_exch_dest-pp_server_exch_dest_example :
    (to_server : List ℕ) × (to_client : List ℕ) × (pp_client_exch_dest
        (hears network to_client)
        dest
      ≡ some (client_end network dest to_server))
    × (pp_server_exch_dest (λ c. 0) (hears network to_server) true 1 mtu_4096 0 dest 255
        ≡ some (server_end network dest to_client (changes_to 1 111 mtu_4096 0 dest.host 255)))
pp_client_exch_dest-pp_server_exch_dest_example =
    pp_client_exch_dest-pp_server_exch_dest (λ c. 0) network network dest dest 1 mtu_4096 0 255
      (λ c. refl) network-IsUp network-IsUp dest-IsDest dest-IsDest

-- The client sends less than a whole message: the socket that was bound and the client's are closed.
abbrev cut_short : Talk
cut_short = record { answer = none; wrote = []; changes = []; opened = 3; closed = 0 ∷ 1 ∷ 2 ∷ [] }

short_run : pp_server_exch_dest (λ c. 0) network true 1 mtu_4096 0 dest 255 ≡ some cut_short
unfolding pp_server_exch_dest socket_loop server_talk
short_run = refl

pp_server_exch_dest-closes_example : cut_short.closed ≡ first_sockets cut_short.opened
pp_server_exch_dest-closes_example =
    pp_server_exch_dest-closes (λ c. 0) network 1 mtu_4096 0 dest 255 true cut_short short_run

abbrev small : Settings
small = settings_of client options_of true

refuse_pd : Resource → ℕ
refuse_pd pd = 16
refuse_pd _ = 0

made : pp_init_ctx dev small ≡ (some (new_context dev small), acquisitions small)
unfolding pp_init_ctx acquire_all
made = refl

pp_init_ctx-pp_close_ctx_example :
    (left : List Resource) × (give_back kinds
        (resources_of (acquisitions small))
        (pp_close_ctx refuse_pd false).1
      ≡ some left)
    × ((pp_close_ctx refuse_pd false).0 ≡ 0 → left ≡ [])
pp_init_ctx-pp_close_ctx_example =
    pp_init_ctx-pp_close_ctx dev small (new_context dev small) (acquisitions small) refuse_pd refl
      made

-- An MTU of no allowed size is let through by a compiler whose enumerations are unsigned.
odd_mtu :
    (parse_options true defaults (opt_mtu (pos 1500) ∷ []) ≡ gave_up)
    × (parse_options false defaults (opt_mtu (pos 1500) ∷ []) ≡ broken)
unfolding parse_options take_option pp_mtu_to_enum
odd_mtu = (refl, refl)

-- A size of 2 ^ 32 + 1 is 1 as an `int`.
long_size :
    parse_options false defaults (opt_size (pos 4294967297) ∷ [])
    ≡ going (record defaults { size = 1 })
unfolding parse_options take_option
long_size = refl

-- The region for RDMA writes is refused, and its key read all the same.
abbrev no_region : World
no_region = record client { device = λ i. record dev { gives = λ a. tested a } }

no_region_run : prepare no_region ≡ broken
unfolding prepare parse_options take_option has_servername choose_device pp_init_ctx acquire_all
    fill_queue pp_post_recv post_recv_loop own_dest own_gid
no_region_run = refl
