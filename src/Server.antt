-- ===== src/Server.antt =====
-- LowLatencyProtocols/kv_api.c, the server: one handler for each request of a client, and the loop
-- that polls the clients in turn.
pub mod Reply
pub mod Memory
pub mod Table
pub mod Request
pub mod Mark
pub mod Register
pub mod Get
pub mod Rendezvous
pub mod Refused
pub mod Finish
pub mod Eager
pub mod SetGet
pub mod Bind
pub mod Keep
pub mod Found
pub mod Run
pub mod Tests
use network_optimization.Prelude.{
  ℕ, zero, suc, ◌+◌, ◌^◌, Option, none, some, List, [], ◌∷◌, ◌++◌, map, Bool, true, false, ◌==◌,
  ltb, if◌then◌else◌, length, get_elem?, set, drop,
}
use network_optimization.Prelude.Strings.{c_string, le_bytes, le_value, swap_bytes}
use network_optimization.Heap.{Heap, malloc, strcpy}
use network_optimization.Database.{
  MrInfo, KeyValueAddressPair, KeyValueAddressArray, insert_to_array, get_key_value_address_pair,
  deregister_rdma_mr, set_mr_rdma, free_array,
}
use network_optimization.Protocol.{
  Operation, shut_down_server, client_kv_set_eager, client_kv_set_rendezvous,
  server_kv_set_rendezvous, client_kv_get, server_kv_get_eager, server_kv_get_rendezvous,
  server_kv_get_key_not_found, server_in_progress, client_kv_get_rendezvous_fin,
  client_kv_set_rendezvous_fin, server_kv_set_successful, server_kv_get_successful, op_code,
  control_message_buffer_size, strlen, set_control_message, decode_control_message_buffer,
}
use network_optimization.Verbs.{
  Outcome, returned, waiting, fault, PingpongContext, pp_post_send, poll_n_send_wc, ReceiveCode,
  problem, no_results, success, poll_next_receive_wc,
}

-- A region that `ibv_reg_mr` has made known to the device, with what a client may do there.
pub record Region : Type 0 where
  pub mr : ℕ
  pub rkey : ℕ
  pub start_ptr : ℕ
  pub size : ℕ
  pub remote_write : Bool
  pub remote_read : Bool

-- The server at work for one client: its memory, the table, and the client's context.
-- `reg_mr_results` holds the answers of `ibv_reg_mr`, an `mr` and its `rkey` or NULL, and `dereg_mr`
-- those of `ibv_dereg_mr`. `stale_slot` is what a table slot holds before it is written.
pub record Server : Type 0 where
  pub kv_malloc : ℕ
  pub heap : Heap
  pub database : KeyValueAddressArray
  pub ctx : PingpongContext
  pub reg_mr_results : List (Option (ℕ × ℕ))
  pub regions : List Region
  pub dereg_mr : ℕ → ℕ
  pub stale_slot : KeyValueAddressPair

infixl 5 ◌>>=◌
abbrev pub ◌>>=◌ {ℓ κ} : {A : Type ℓ} {B : Type κ} → Outcome A → (A → Outcome B) → Outcome B
returned a >>= f = f a
waiting >>= f = waiting
fault >>= f = fault

-- An undefined access ends the run.
abbrev pub lift {ℓ} : {A : Type ℓ} → Option A → Outcome A
lift none = fault
lift (some a) = returned a

-- `remote_control_message->buf`, in the receive region.
abbrev pub receive_buffer : PingpongContext → List ℕ
receive_buffer c = drop (c.mr_control_send_size + 4) c.work

-- The pointers that the decoder fills in, as what can be read from them.
abbrev pub decode : Operation → PingpongContext → Outcome (List (List ℕ))
decode op c = do
  offsets ← lift (decode_control_message_buffer op (receive_buffer c))
  returned (map (λ o. drop o (receive_buffer c)) offsets)

-- Entries of `array_ptr_to_fill`.
abbrev pub pointer : List (List ℕ) → ℕ → Outcome (List ℕ)
pointer ps i = lift (get_elem? ps i)

-- The sequence with which every handler answers: compose the message, post it, and wait for its
-- completion.
pub reply : Server → Operation → List (List ℕ) → Outcome (ℕ × Server)
reply s op addresses = do
  work ← lift (set_control_message s.ctx.work op addresses)
  (posted, c1) ← pp_post_send (record (s.ctx) { work = work })
  (code, c2) ← poll_n_send_wc c1 1
  returned (if code == 0 then 0 else 1, record s { ctx = c2 })

abbrev pub is_registered : Option MrInfo → Bool
is_registered none = false
is_registered (some info) = true

-- Whether the key is there with a memory region: then the resource is busy.
pub is_busy : Server → Option (List ℕ) → Outcome Bool
is_busy s key = do
  found ← lift (get_key_value_address_pair s.heap s.database key)
  elim found [
    | none ↦ returned false
    | some i ↦ (do p ← lift (get_elem? s.database.head i); returned (is_registered p.mr_rdma))
  ]

-- `malloc(size)` and `strcpy` into it: the new block's address is the heap's next.
pub copy_string : Heap → ℕ → Option (List ℕ) → Option Heap
copy_string h size source = strcpy (malloc h size) h.next source

pub insert : Server → KeyValueAddressPair → Outcome Server
insert s entry = do
  (h, a) ← lift (insert_to_array s.kv_malloc s.stale_slot s.heap s.database entry)
  returned (record s { heap = h; database = a })

-- `handle_eager_kv_set` behind its checks.
pub eager_store : Server → List ℕ → List ℕ → List ℕ → Outcome (ℕ × Server)
eager_store s key size value = do
  key_length ← lift (strlen key)
  h1 ← lift (copy_string s.heap (key_length + 1) (c_string key))
  value_length ← lift (le_value 8 size)
  h2 ← lift (copy_string h1 value_length (c_string value))
  s' ←
      insert (record s { heap = h2 })
        (record {
          key_address = s.heap.next;
          value_address = h1.next;
          value_size = value_length;
          mr_rdma = none;
        })
  reply s' server_kv_set_successful []

pub handle_eager_kv_set : Server → Outcome (ℕ × Server)
handle_eager_kv_set s = do
  ps ← decode client_kv_set_eager s.ctx
  key ← pointer ps 0
  size ← pointer ps 1
  value ← pointer ps 2
  busy ← is_busy s (c_string key)
  if busy then reply s server_in_progress [] else eager_store s key size value

-- A NULL answer of `ibv_reg_mr` is read through at once.
pub register_with : Server → List (Option (ℕ × ℕ)) → (ℕ → ℕ → Region) → Outcome (Region × Server)
register_with s [] region = waiting
register_with s (none ∷ rs) region = fault
register_with s (some (mr, rkey) ∷ rs) region =
    returned (
      region mr rkey,
      record s { reg_mr_results = rs; regions = s.regions ++ (region mr rkey ∷ []) },
    )

abbrev pub region_of : ℕ → ℕ → Bool → Bool → ℕ → ℕ → Region
region_of start size write read mr rkey = record {
  mr = mr;
  rkey = rkey;
  start_ptr = start;
  size = size;
  remote_write = write;
  remote_read = read;
}

pub register_mr : Server → ℕ → ℕ → Bool → Bool → Outcome (Region × Server)
register_mr s start size write read =
    register_with s s.reg_mr_results (region_of start size write read)

abbrev pub mr_info : Region → MrInfo
mr_info r = record { mr = r.mr; mr_start_ptr = r.start_ptr; mr_size = r.size }

-- `handle_rendezvous_kv_set_key` behind its checks. The table is written only after the answer has
-- been sent.
pub rendezvous_store : Server → List ℕ → List ℕ → Outcome (ℕ × Server)
rendezvous_store s key size = do
  key_length ← lift (strlen key)
  h1 ← lift (copy_string s.heap (key_length + 1) (c_string key))
  value_length ← lift (le_value 8 size)
  (region, s1) ←
      register_mr (record s { heap = malloc h1 value_length }) h1.next value_length true false
  (code, s2) ←
      reply s1 server_kv_set_rendezvous
        (le_bytes 8 (swap_bytes 8 region.start_ptr) ∷ le_bytes 4 (swap_bytes 4 region.rkey) ∷ [])
  if code == 0
      then (do
        s3 ← insert s2 (record {
          key_address = s.heap.next;
          value_address = h1.next;
          value_size = value_length;
          mr_rdma = some (mr_info region);
        })
        returned (0, s3))
      else returned (1, s2)

pub handle_rendezvous_kv_set_key : Server → Outcome (ℕ × Server)
handle_rendezvous_kv_set_key s = do
  ps ← decode client_kv_set_rendezvous s.ctx
  key ← pointer ps 0
  size ← pointer ps 1
  busy ← is_busy s (c_string key)
  if busy then reply s server_in_progress [] else rendezvous_store s key size

-- The value goes into the message if its size is below that of the buffer, and is registered for an
-- RDMA read otherwise; the pair is marked only after the answer has been sent.
pub send_value : Server → ℕ → KeyValueAddressPair → Outcome (ℕ × Server)
send_value s i p =
    if ltb p.value_size control_message_buffer_size
    then (do
      value ← lift (s.heap.cell p.value_address)
      value_size ← lift (strlen value)
      reply s server_kv_get_eager (value ∷ []))
    else (do
      (region, s1) ← register_mr s p.value_address p.value_size false true
      (code, s2) ← reply s1 server_kv_get_rendezvous (
          le_bytes 8 p.value_size
          ∷ le_bytes 8 (swap_bytes 8 region.start_ptr)
          ∷ le_bytes 4 (swap_bytes 4 region.rkey)
          ∷ [])
      if code == 0
          then returned
              (0, record s2 { database = set_mr_rdma s2.database i p (some (mr_info region)) })
          else returned (1, s2))

pub handle_client_kv_get : Server → Outcome (ℕ × Server)
handle_client_kv_get s = do
  ps ← decode client_kv_get s.ctx
  key ← pointer ps 0
  found ← lift (get_key_value_address_pair s.heap s.database (c_string key))
  elim found [
    | none ↦ reply s server_kv_get_key_not_found []
    | some i ↦ (do
      p ← lift (get_elem? s.database.head i)
      if is_registered p.mr_rdma then reply s server_in_progress [] else send_value s i p)
  ]

-- Both FIN handlers: the key is released, whatever the release answers, and the client is told.
pub finish : Operation → Operation → Server → Outcome (ℕ × Server)
finish op answer s = do
  ps ← decode op s.ctx
  key ← pointer ps 0
  (status, a) ← lift (deregister_rdma_mr s.dereg_mr s.heap s.database (c_string key))
  reply (record s { database = a }) answer []

pub handle_client_kv_set_rendezvous_fin : Server → Outcome (ℕ × Server)
handle_client_kv_set_rendezvous_fin = finish client_kv_set_rendezvous_fin server_kv_set_successful

pub handle_client_kv_get_rendezvous_fin : Server → Outcome (ℕ × Server)
handle_client_kv_get_rendezvous_fin = finish client_kv_get_rendezvous_fin server_kv_get_successful
