-- ===== src/Client/Get.antt =====
-- `kv_get` by the answer that it gets.
use network_optimization.Prelude.{
  ℕ, ◌+◌, ◌≤◌, ◌≡◌, refl, some, List, [], ◌∷◌, ◌++◌, false, ◌==◌, length, length-append, arith,
}
use network_optimization.Prelude.Strings.{IsText}
use network_optimization.Heap.{Heap, string_at}
use network_optimization.Heap.Frame.{IsFresh}
use network_optimization.Protocol.{op_code, server_kv_get_eager, server_kv_get_rendezvous}
use network_optimization.Protocol.Layout.{get, get_value, operation, text}
use network_optimization.Protocol.RoundTrip.{strlen_lem}
use network_optimization.Verbs.{PollResult, returned}
use network_optimization.Server.Memory.{Grows, copy_string_lem}
use network_optimization.Server.Reply.{Accepts, transmitted}
use network_optimization.Server.Request.{Received, decode_one}
use network_optimization.Client.{Client, null, block, send_message, kv_get_eager, kv_get}
use network_optimization.Client.Eager.{send_message_lem, Answered}

module _ (s : Client) (key : List ℕ) (rs : List ℕ) (ps : List PollResult) (after : Client)
    (tk : IsText key) (room : 5 + length key ≤ length s.ctx.work) (acc : Accepts s.ctx rs ps) where
  asks :
      send_message s (operation (get key)) ((key ++ (0 ∷ [])) ∷ [])
      ≡ returned (0, record s { ctx = transmitted (get key) rs ps s.ctx })
  asks =
      send_message_lem s (get key) rs ps acc (tk, tt)
        (omega (arith, length-append (key ++ (0 ∷ [])) [], length-append key (0 ∷ [])))

  -- When the server answers with the value, `kv_get` returns 0 and a new block that holds it; what
  -- was in memory before stays; when the device takes the request and the answer comes in.
  pub kv_get-value :
      (value rest : List ℕ)
      → Answered
          (record s { ctx = transmitted (get key) rs ps s.ctx })
          (op_code server_kv_get_eager)
          after
      → Received after.ctx (get_value value) rest
      → IsFresh after.heap
      → (h : Heap) × (kv_get s (key ++ (0 ∷ []))
          ≡ returned (0, block after.heap.next, record after { heap = h }))
        × (string_at h after.heap.next ≡ some value)
        × Grows after.heap h
  unfolding kv_get kv_get_eager op_code
  kv_get-value value rest ans r fresh =
      let (pv, e, ev) = decode_one (text value) refl r in
      let (h, copied, grows, _, _, there) =
        copy_string_lem after.heap (length value + 1) value fresh r.fit.0 (omega arith) in
      (h, rw (asks, ans.polled, ans.is_code, e, strlen_lem pv value ev, ev, copied), there, grows)

  -- Every answer without a value, that the key is not there or in use among them, gives 1 and a
  -- NULL value, and leaves memory alone; when the device takes the request and the answer comes in.
  pub kv_get-null :
      (code : ℕ)
      → Answered (record s { ctx = transmitted (get key) rs ps s.ctx }) code after
      → (code == op_code server_kv_get_eager) ≡ false
      → (code == op_code server_kv_get_rendezvous) ≡ false
      → kv_get s (key ++ (0 ∷ [])) ≡ returned (1, null, after)
  unfolding kv_get
  kv_get-null code ans not_value not_address =
      rw (asks, ans.polled, ans.is_code, not_value, not_address)
