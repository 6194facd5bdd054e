-- ===== src/Client/Rendezvous.antt =====
-- `kv_set` with a value that goes to the server's memory by an RDMA write.
use network_optimization.Prelude.{
  ℕ, ◌+◌, ◌%◌, ◌^◌, ◌≤◌, ◌<◌, ◌≡◌, refl, Option, some, List, [], ◌∷◌, ◌++◌, false, if◌then◌else◌,
  ◌==◌, leb, length, length-append, arith,
}
use network_optimization.Prelude.Strings.{
  c_string-append, le_bytes, length-le_bytes, swap_bytes, IsText,
}
use network_optimization.Protocol.{op_code, server_kv_set_successful}
use network_optimization.Protocol.Layout.{
  set_rendezvous, set_address, set_fin, operation, fields, payload, word,
}
use network_optimization.Protocol.RoundTrip.{strlen_lem}
use network_optimization.Verbs.{PollResult, rdma, rdma_write, returned, PingpongContext}
use network_optimization.Verbs.Sending.{pp_post_rdma_lem, poll_one}
use network_optimization.Server.Reply.{Accepts, transmitted}
use network_optimization.Server.Request.{Received, decode_two}
use network_optimization.Client.{
  Client, register, deregister, without, transfer, reset_set, finish_transfer, kv_set_write,
  kv_set_rendezvous, kv_set,
}
use network_optimization.Client.Eager.{send_message_lem, Answered}

-- The context after an RDMA write of `size` bytes from `p` to the address and with the key of the
-- server.
abbrev pub written : ℕ → ℕ → ℕ → ℕ → List ℕ → List PollResult → PingpongContext → PingpongContext
written p size va rkey rs ps c = record c {
  mr_rdma_start_ptr = p;
  mr_rdma_size = size;
  remote_buf_va = va;
  remote_buf_rkey = rkey;
  sent = c.sent ++ (rdma rdma_write p size (swap_bytes 8 va) (swap_bytes 4 rkey) ∷ []);
  post_send_results = rs;
  send_polls = ps;
}

-- The client at the end of the protocol: FIN was sent, and the region is released.
abbrev pub done_set : Client → List ℕ → ℕ → List ℕ → List PollResult → Client
done_set s key mr rs ps = record s {
  ctx = reset_set (transmitted (set_fin key) rs ps s.ctx);
  regions = without mr s.regions;
}

finish_set_lem :
    (s : Client) (key : List ℕ) (mr : ℕ) (rs : List ℕ) (ps : List PollResult) (code : ℕ)
    (after : Client)
    → IsText key
    → 5 + length key ≤ length s.ctx.work
    → Accepts s.ctx rs ps
    → s.dereg_mr mr ≡ 0
    → Answered (done_set s key mr rs ps) code after
    → finish_transfer s
        (operation (set_fin key))
        server_kv_set_successful
        (key ++ (0 ∷ []))
        (some mr)
        reset_set
      ≡ returned (if code == op_code server_kv_set_successful then 0 else 1, after)
unfolding finish_transfer deregister
finish_set_lem s key mr rs ps code after tk room acc released ans = rw (
  send_message_lem s (set_fin key) rs ps acc (tk, tt)
      (omega (arith, length-append (key ++ (0 ∷ [])) [], length-append key (0 ∷ []))),
  released,
  ans.polled,
  ans.is_code,
)

transfer_lem :
    (s : Client) (mr p size va rkey : ℕ) (rs : List ℕ) (ps : List PollResult)
    → size < 2 ^ 32
    → Accepts s.ctx rs ps
    → transfer
        (record s {
          ctx = record (s.ctx) {
            mr_rdma_size = size;
            mr_rdma_start_ptr = p;
            remote_buf_va = va;
            remote_buf_rkey = rkey;
          };
        })
        (some mr)
        rdma_write
      ≡ returned (0, record s { ctx = written p size va rkey rs ps s.ctx })
unfolding transfer
transfer_lem s mr p size va rkey rs ps small acc =
    let whole : size % 2 ^ 32 ≡ size = omega arith in
    let c : PingpongContext = record (s.ctx) {
      mr_rdma_size = size;
      mr_rdma_start_ptr = p;
      remote_buf_va = va;
      remote_buf_rkey = rkey;
    } in
    let c1 : PingpongContext = record c {
      sent = c.sent ++ (rdma rdma_write p size (swap_bytes 8 va) (swap_bytes 4 rkey) ∷ []);
      post_send_results = rs;
    } in
    rw (pp_post_rdma_lem c rdma_write rs acc.posts, whole, poll_one c1 acc.wc ps acc.good acc.polls)

-- A set whose strings do not fit the eager guard, of a value below 4 GiB, when the device takes its three requests,
-- registers the value and releases it, and the server answers the first request with an address
-- and a remote key: the client writes the whole value there by RDMA, in the byte order that these came
-- in swapped, then sends FIN with the key, and its region is gone; it returns 0 exactly if the
-- last answer says success.
pub kv_set-writes :
    (s : Client) (key value : List ℕ) (p mr va rkey : ℕ) (regs : List (Option ℕ)) (rest : List ℕ)
    (rs rs' rs'' : List ℕ) (ps ps' ps'' : List PollResult) (offered after : Client) (code : ℕ)
    → IsText key
    → IsText value
    → 4096 < length key + length value + 2
    → length value + 1 < 2 ^ 32
    → 13 + length key ≤ length s.ctx.work
    → 5 + length key ≤ length offered.ctx.work
    → Accepts s.ctx rs ps
    → s.reg_mr_results ≡ some mr ∷ regs
    → Answered
        (record s {
          ctx = transmitted (set_rendezvous key (length value + 1)) rs ps s.ctx;
          reg_mr_results = regs;
          regions = s.regions ++ (mr ∷ []);
        })
        2
        offered
    → Received offered.ctx (set_address va rkey) rest
    → Accepts offered.ctx rs' ps'
    → Accepts (written p (length value + 1) va rkey rs' ps' offered.ctx) rs'' ps''
    → offered.dereg_mr mr ≡ 0
    → Answered
        (done_set
          (record offered { ctx = written p (length value + 1) va rkey rs' ps' offered.ctx })
          key
          mr
          rs''
          ps'')
        code
        after
    → kv_set s (key ++ (0 ∷ [])) p (value ++ (0 ∷ []))
      ≡ returned (if code == op_code server_kv_set_successful then 0 else 1, after)
unfolding kv_set kv_set_rendezvous kv_set_write register op_code
kv_set-writes s key value p mr va rkey regs rest rs rs' rs'' ps ps' ps'' offered after code tk tv
      guard small room room' acc reg ans r acc' acc'' released ans' =
    let m = set_rendezvous key (length value + 1) in
    let too_long : leb (length key + length value + 2) 4096 ≡ false = ground arith in
    let fits : 4 + length (payload (fields m)) ≤ length s.ctx.work = omega (
      arith,
      length-append (key ++ (0 ∷ [])) (le_bytes 8 (length value + 1) ++ []),
      length-append key (0 ∷ []),
      length-append (le_bytes 8 (length value + 1)) [],
      length-le_bytes 8 (length value + 1),
    ) in
    let (p0, p1, e, e0, e1) = decode_two (word 8 va) (word 4 rkey) refl r in
    rw
      (
        strlen_lem (key ++ (0 ∷ [])) key (c_string-append key [] tk),
        strlen_lem (value ++ (0 ∷ [])) value (c_string-append value [] tv),
        too_long,
        send_message_lem s m rs ps acc (tk, ((omega arith, omega arith), tt)) fits,
        reg,
        ans.polled,
        ans.is_code,
        e,
        e0,
        e1,
        transfer_lem offered mr p (length value + 1) va rkey rs' ps' small acc',
      )
      (finish_set_lem
        (record offered { ctx = written p (length value + 1) va rkey rs' ps' offered.ctx }) key mr
        rs'' ps'' code after tk room' acc'' released ans')
