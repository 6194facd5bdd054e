-- ===== src/Open.antt =====
-- LowLatencyProtocols/kv_api.c: `kv_open` and `kv_close`, for the client and for the server.
pub mod Filled
pub mod Tests
use network_optimization.Prelude.{
  ℕ, zero, suc, ◌+◌, ◌%◌, ◌^◌, Option, none, some, List, [], ◌∷◌, ◌++◌, replicate, length, Bool,
  true, false, not, ◌==◌, ◌&&◌, if◌then◌else◌,
}
use network_optimization.Prelude.Int.{ℤ, pos, negsuc}
use network_optimization.Verbs.{Outcome, returned, waiting, fault, PingpongContext, pp_post_recv}
use network_optimization.Server.{◌>>=◌, lift}
use network_optimization.Wire.{Mtu, mtu_4096}
use network_optimization.Connect.{PingpongDest, Change, pp_connect_ctx, Resource, pp_close_ctx}
use network_optimization.Exchange.{
  dest_of, Network, pp_client_exch_dest, pp_server_exch_dest, Listener, listen_to_websocket,
}
use network_optimization.Setup.{Acquisition, Device, Settings, pp_init_ctx}

abbrev pub rx_depth_default : ℕ
rx_depth_default = 100

abbrev pub tx_depth_default : ℕ
tx_depth_default = 100

abbrev pub num_clients : ℕ
num_clients = 1

-- The index -1, as the eight bits of `sgid_index` hold it.
abbrev pub gidx : ℕ
gidx = 255

-- What the environment gives for one remote host: the device, whether `ibv_query_port` succeeds, the
-- port's local id and kind, the number of the queue pair, a random number, the sockets, and the
-- answers to changes of the queue pair.
pub record Host : Type 0 where
  pub device : Device
  pub has_port : Bool
  pub lid : ℕ
  pub is_infiniband : Bool
  pub qp_num : ℕ
  pub random : ℕ
  pub network : Network
  pub modify_qp : Change → ℕ

-- A client has one remote host, the server; the server finds its clients by their sockets.
pub record Environment : Type 0 where
  pub has_device_list : Bool
  pub has_device : Bool
  pub page_size : ℕ
  pub listener : Listener
  pub server : Host
  pub clients : ℕ → Host

-- What the handle keeps for one remote host, and what was done to its queue pair.
pub record Opened : Type 0 where
  pub context : PingpongContext
  pub my_dest : PingpongDest
  pub remote_dest : PingpongDest
  pub changes : List Change

abbrev pub settings : Bool → ℕ → ℕ → Settings
settings is_server mr_control_size page_size = record {
  mr_control_size = mr_control_size;
  rx_depth = rx_depth_default;
  tx_depth = tx_depth_default;
  port = 1;
  use_event = false;
  is_server = is_server;
  page_size = page_size;
}

-- Without a gid index the gid is all zeros.
abbrev pub my_dest_of : Host → PingpongDest
my_dest_of h = dest_of h.lid h.qp_num (h.random % 2 ^ 24) (replicate 16 0)

-- The client looks into `rem_dest` without a test for NULL; `none` is `return 1`.
pub open_client : Host → PingpongContext → Outcome (Option Opened)
open_client h ctx = do
  exchange ← lift (pp_client_exch_dest h.network (my_dest_of h))
  elim exchange.answer [
    | none ↦ fault
    | some remote ↦
        let connected = pp_connect_ctx h.modify_qp 1 (my_dest_of h).psn mtu_4096 0 remote gidx in
        returned (
          if connected.0 == 0
          then some record {
            context = ctx;
            my_dest = my_dest_of h;
            remote_dest = remote;
            changes = connected.1;
          }
          else none)
  ]

pub open_server : Host → PingpongContext → Outcome (Option Opened)
open_server h ctx = do
  exchange ← lift (pp_server_exch_dest h.modify_qp h.network 1 mtu_4096 0 (my_dest_of h) gidx)
  elim exchange.answer [
    | none ↦ returned none
    | some remote ↦ returned (
        some record {
          context = ctx;
          my_dest = my_dest_of h;
          remote_dest = remote;
          changes = exchange.changes;
        })
  ]

abbrev pub port_is_good : Host → Bool
port_is_good h = h.has_port && not (h.is_infiniband && h.lid == 0)

-- With the context, `none` for NULL: the receive queue is filled, the port is looked at, and the
-- destinations are exchanged.
pub fill_and_open : Bool → Host → Option PingpongContext → Outcome (Option Opened)
fill_and_open is_server h none = returned none
fill_and_open is_server h (some ctx) = do
  (code, ctx') ← pp_post_recv ctx
  if code == 0 && port_is_good h
      then (if is_server then open_server h ctx' else open_client h ctx')
      else returned none

-- One turn of the loop over the remote hosts.
pub open_host : Bool → ℕ → ℕ → Host → Outcome (Option Opened)
open_host is_server mr_control_size page_size h =
    fill_and_open is_server h
      (pp_init_ctx h.device (settings is_server mr_control_size page_size)).0

-- The hosts in turn, up to the first that cannot be opened.
unfoldable pub open_hosts : Bool → ℕ → ℕ → List Host → Outcome (ℕ × List Opened)
open_hosts is_server mr_control_size page_size [] = returned (0, [])
open_hosts is_server mr_control_size page_size (h ∷ hs) = do
  opened ← open_host is_server mr_control_size page_size h
  elim opened [
    | none ↦ returned (1, [])
    | some o ↦ (do
      (code, os) ← open_hosts is_server mr_control_size page_size hs
      returned (code, o ∷ os))
  ]

abbrev pub hosts_of : (ℕ → Host) → List ℕ → List Host
hosts_of clients [] = []
hosts_of clients (fd ∷ fds) = clients fd ∷ hosts_of clients fds

abbrev pub is_accepted : ℤ → Bool
is_accepted (pos n) = n == 0
is_accepted (negsuc n) = false

-- `mr_control_size` is `sizeof(ControlMessage)`.
unfoldable pub kv_open : Bool → ℕ → Environment → Outcome (ℕ × List Opened)
kv_open is_server mr_control_size env =
    if env.has_device_list && env.has_device
    then (if is_server
        then (do
          (code, fds) ← listen_to_websocket env.listener num_clients
          if is_accepted code
              then open_hosts true mr_control_size env.page_size (hosts_of env.clients fds)
              else returned (1, []))
        else open_hosts false mr_control_size env.page_size (env.server ∷ []))
    else returned (1, [])

-- What `kv_close` gives back: what `pp_close_ctx` released of a context, whatever it answers, the
-- destinations, the two arrays, and the device list.
pub data Freed : Type 0 where
  of_context : List Resource → Freed
  rem_dest array_ctx_ptr array_remote_dest dev_list : Freed

pub close_contexts : (ℕ → Resource → ℕ) → List Opened → ℕ → List Freed
close_contexts destroy [] i = []
close_contexts destroy (o ∷ os) i =
    of_context (pp_close_ctx (destroy i) false).1 ∷ close_contexts destroy os (i + 1)

pub kv_close : (ℕ → Resource → ℕ) → List Opened → List Freed
kv_close destroy os =
    close_contexts destroy os 0
    ++ (replicate (length os) rem_dest ++ (array_ctx_ptr ∷ array_remote_dest ∷ dev_list ∷ []))
