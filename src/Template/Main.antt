-- ===== src/Template/Main.antt =====
-- Optimization/bw_template.c: `main`, from the command line to the end of the measurement.
use network_optimization.Prelude.{
  ℕ, ◌+◌, ◌-◌, ◌%◌, ◌^◌, Option, List, [], replicate, Bool, true, false, not, ◌==◌, ◌&&◌, ◌||◌, ltb,
  if◌then◌else◌,
}
use network_optimization.Prelude.Int.{ℤ, pos, negsuc}
use network_optimization.Prelude.Strings.{swap_bytes}
use network_optimization.Verbs.{Outcome, returned, waiting, fault}
use network_optimization.Connect.{Change}
use network_optimization.Exchange.{Network, dest_of}
use network_optimization.Bandwidth.{Completion, Poll, Bench, pp_post_recv, measure}
use network_optimization.Template.Attempt.{
  Attempt, going, gave_up, blocked, broken, ◌>>=◌, unless_null, unless_fault,
}
use network_optimization.Template.Message.{BufferDest}
use network_optimization.Template.Talk.{pp_connect_ctx, pp_client_exch_dest, pp_server_exch_dest}
use network_optimization.Template.Context.{
  Resource, Settings, Device, Context, pp_init_ctx, pp_close_ctx,
}
use network_optimization.Template.Options.{
  Opt, Options, defaults, parse_options, has_servername, choose_device,
}

-- The command line, and what the calls of `main` answer. `device` is the device of an index in the
-- list, `buf` the address of its buffer and `rkey` the key of the region for RDMA writes.
pub record World : Type 0 where
  pub enum_is_signed : Bool
  pub leftover : Bool
  pub options : List Opt
  pub names : List (List ℕ)
  pub devices : Option (List (List ℕ))
  pub page_size : ℕ
  pub device : ℕ → Device
  pub post_recv_result : ℕ → ℕ
  pub post_send_result : ℕ → ℕ
  pub notified : ℕ
  pub port_queried : ℕ
  pub lid : ℕ
  pub is_infiniband : Bool
  pub gid_of : ℕ → Option (List ℕ)
  pub qp_num : ℕ
  pub random : ℕ
  pub buf : ℕ
  pub rkey : ℕ
  pub net : Network
  pub accepts : Bool
  pub modify_qp : Change → ℕ
  pub queue : List Completion
  pub polls : List Poll
  pub destroy : Resource → ℕ

-- A number in a field of 8 bits.
abbrev pub low_byte : ℤ → ℕ
low_byte (pos n) = n % 256
low_byte (negsuc n) = 255 - n % 256

abbrev pub settings_of : World → Options → Bool → Settings
settings_of w o is_client = record {
  size = o.size;
  rdma_write_mr_size = o.rdma_write_mr_size;
  rx_depth = o.rx_depth;
  tx_depth = o.tx_depth;
  port = low_byte o.ib_port;
  use_event = not (o.use_event == 0);
  is_server = not is_client;
  page_size = w.page_size;
}

-- The context as the measurement takes it, before the peer's destination is known.
abbrev pub bench_of : World → Context → Bench
bench_of w c = record {
  size = c.size;
  rx_depth = c.rx_depth;
  routs = c.routs;
  max_inline = c.max_inline;
  buf_va = 0;
  buf_rkey = 0;
  sent = [];
  held = 0;
  queue = w.queue;
  polls = w.polls;
  post_recv_result = w.post_recv_result;
  post_send_result = w.post_send_result;
  num_post_recv = 0;
  num_post_send = 0;
}

-- The queue of receive requests is filled, and `routs` set to what was posted.
unfoldable pub fill_queue : Bench → Attempt Bench
fill_queue b =
    let (posted, b') = pp_post_recv b b.rx_depth in
    if ltb posted b.rx_depth then gave_up else going (record b' { routs = pos posted })

-- All zero without an index.
unfoldable pub own_gid : World → ℤ → Attempt (List ℕ)
own_gid w (negsuc n) = going (replicate 16 0)
own_gid w (pos idx) = unless_null (w.gid_of idx)

-- `my_dest`; the key of a region that the device refused is read through NULL.
unfoldable pub own_dest : World → Options → Context → Attempt BufferDest
own_dest w o c = do
  gid ← own_gid w o.gidx
  if c.has_rdma_write_mr
      then going (record {
        host = dest_of w.lid w.qp_num (w.random % 2 ^ 24) gid;
        buf_va = swap_bytes 8 (w.buf + c.mr_rdma_write_start);
        buf_rkey = swap_bytes 4 w.rkey;
      })
      else broken

-- The exchange as the client or the server, and for the client the connection behind it.
unfoldable pub meet : World → Options → Bool → BufferDest → Attempt BufferDest
meet w o true my_dest = do
  talk ← unless_fault (pp_client_exch_dest w.net my_dest)
  rem_dest ← unless_null talk.answer
  let connected =
      pp_connect_ctx w.modify_qp (low_byte o.ib_port) my_dest.host.psn o.mtu (o.sl % 256) rem_dest
        (low_byte o.gidx)
  if connected.0 == 0 then going rem_dest else gave_up
meet w o false my_dest = do
  talk ← unless_fault (
      pp_server_exch_dest w.modify_qp w.net w.accepts (low_byte o.ib_port) o.mtu (o.sl % 256)
        my_dest (low_byte o.gidx))
  unless_null talk.answer

abbrev pub check : Bool → Attempt (Unit {0})
check true = going tt
check false = gave_up

abbrev pub measured : Outcome Bench → Attempt Bench
measured (returned b) = going b
measured waiting = blocked
measured fault = broken

-- Where `main` stands before the exchange: the context with its receive requests, and `my_dest`.
pub record Prepared : Type 0 where
  pub settings : Options
  pub is_client : Bool
  pub bench : Bench
  pub my_dest : BufferDest

-- From the command line to `my_dest`.
unfoldable pub prepare : World → Attempt Prepared
prepare w = do
  o ← parse_options w.enum_is_signed defaults w.options
  is_client ← has_servername w.leftover w.names
  i ← choose_device w.devices o.ib_devname
  c ← unless_null (pp_init_ctx (w.device i) (settings_of w o is_client)).0
  b ← fill_queue (bench_of w c)
  notified ← check (o.use_event == 0 || w.notified == 0)
  queried ← check (w.port_queried == 0)
  has_lid ← check (not (w.is_infiniband && w.lid == 0))
  my_dest ← own_dest w o c
  going (record { settings = o; is_client = is_client; bench = b; my_dest = my_dest })

-- The context of a client knows where to write.
abbrev pub aimed : Bench → BufferDest → Bench
aimed b rem_dest = record b { buf_va = rem_dest.buf_va; buf_rkey = rem_dest.buf_rkey }

-- The context behind the measurement, and what `pp_close_ctx` released, whose answer is not looked
-- at.
pub record MainEnd : Type 0 where
  pub bench : Bench
  pub released : List Resource

-- `main`; `going` is the end with status 0.
unfoldable pub template_main : World → Attempt MainEnd
template_main w = do
  p ← prepare w
  rem_dest ← meet w p.settings p.is_client p.my_dest
  b ← measured (measure p.is_client (aimed p.bench rem_dest) p.settings.tx_depth p.settings.iters)
  going (record {
    bench = b;
    released = (pp_close_ctx w.destroy (not (p.settings.use_event == 0))).1;
  })
