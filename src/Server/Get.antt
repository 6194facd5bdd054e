-- ===== src/Server/Get.antt =====
-- `handle_CLIENT_KV_GET`, on each of its branches.
use network_optimization.Prelude.{
  ℕ, ◌+◌, ◌^◌, ◌≤◌, ◌<◌, ◌≡◌, refl, ap, ◌∙◌, inl, inr, Option, none, some, List, [], ◌∷◌, ◌++◌,
  true, false, if◌then◌else◌, ltb, length, length-append, arith,
}
use network_optimization.Prelude.Strings.{
  same_string, c_string, swap_bytes, length-le_bytes, terminated,
}
use network_optimization.Heap.{string_at}
use network_optimization.Heap.Frame.{block_of}
use network_optimization.Database.{MrInfo, KeyValueAddressPair, set_mr_rdma}
use network_optimization.Database.Table.{Key}
use network_optimization.Database.Insert.{value_of, lookup}
use network_optimization.Protocol.{server_kv_get_eager}
use network_optimization.Protocol.Layout.{
  fields, payload, AllFields, get, get_value, get_address, not_found, in_progress, text,
}
use network_optimization.Protocol.RoundTrip.{strlen_lem}
use network_optimization.Protocol.Terminated.{set_control_message-text}
use network_optimization.Verbs.Swap.{swap_bytes-lt}
use network_optimization.Verbs.{PollResult, returned}
use network_optimization.Server.{
  Server, reply, is_registered, region_of, mr_info, send_value, handle_client_kv_get,
}
use network_optimization.Server.Mark.{marked_lem, entry_lem}
use network_optimization.Server.Register.{registered, registered-IsServing, register_mr_lem}
use network_optimization.Server.Reply.{Accepts, reply_lem}
use network_optimization.Server.Request.{Received, decode_one, busy_in, found_lem}
use network_optimization.Server.Table.{view, IsServing, answered, Stores}

ruleset words = (length-append, length-le_bytes)

-- The value goes out with the answer.
pub reply-text :
    (s : Server) (p value : List ℕ) (rs : List ℕ) (ps : List PollResult)
    → c_string p ≡ some value
    → Accepts s.ctx rs ps
    → 5 + length value ≤ length s.ctx.work
    → reply s server_kv_get_eager (p ∷ []) ≡ returned (0, answered s (get_value value) rs ps)
unfolding reply
reply-text s p value rs ps e acc room =
    let (rest, shape, t) = terminated p value e in
    rw (set_control_message-text s.ctx.work p value e) (
      reply_lem s (get_value value) rs ps acc (t, tt)
        (omega (arith, length-append (value ++ (0 ∷ [])) [], length-append value (0 ∷ []))))

-- The server after it has registered the value of slot `i` and told the client.
abbrev offered :
    Server
    → ℕ
    → KeyValueAddressPair
    → ℕ
    → ℕ
    → List (Option (ℕ × ℕ))
    → List ℕ
    → List PollResult
    → ℕ × ℕ × Option MrInfo
    → Server
offered s i p mr rkey regs rs ps (va, size, old) =
    answered
      (record (registered s (region_of va size false true mr rkey) regs) {
        database =
            set_mr_rdma s.database i p (some (mr_info (region_of va size false true mr rkey)));
      })
      (get_address size (swap_bytes 8 va) (swap_bytes 4 rkey)) rs ps

send_value-offered :
    (s : Server) (i : ℕ) (p : KeyValueAddressPair) (mr rkey : ℕ) (regs : List (Option (ℕ × ℕ)))
    (rs : List ℕ) (ps : List PollResult)
    → 4096 ≤ p.value_size
    → p.value_size < 256 ^ 8
    → s.reg_mr_results ≡ some (mr, rkey) ∷ regs
    → Accepts s.ctx rs ps
    → 24 ≤ length s.ctx.work
    → send_value s i p ≡ returned (0, offered s i p mr rkey regs rs ps (value_of p))
unfolding send_value
send_value-offered s i p mr rkey regs rs ps large small reg acc room =
    let above : ltb p.value_size 4096 ≡ false = ground arith in
    let m = get_address p.value_size (swap_bytes 8 p.value_address) (swap_bytes 4 rkey) in
    let s1 = registered s (region_of p.value_address p.value_size false true mr rkey) regs in
    let fit : AllFields (fields m) = (
      (omega arith, small),
      ((omega arith, swap_bytes-lt 8 p.value_address), ((omega arith, swap_bytes-lt 4 rkey), tt)),
    ) in
    let size : length (payload (fields m)) ≡ 20 = simp words in
    rw (
      above,
      register_mr_lem s p.value_address p.value_size false true mr rkey regs reg,
      reply_lem s1 m rs ps acc fit (omega arith),
    )

module _ {s : Server} {ks : List Key} {rs : List ℕ} {ps : List PollResult} (key rest : List ℕ)
    (v : IsServing s ks) (acc : Accepts s.ctx rs ps) (r : Received s.ctx (get key) rest) where
  -- A get request for a key that the table does not hold changes nothing, and the client is told so.
  pub handle_client_kv_get-missing :
      4 ≤ length s.ctx.work
      → view key ks s.heap s.database ≡ none
      → handle_client_kv_get s ≡ returned (0, answered s not_found rs ps)
  unfolding handle_client_kv_get
  handle_client_kv_get-missing room none_seen =
      let (pk, e, ek) = decode_one (text key) refl r in
      elim (found_lem key v) [
        | inl (q, _) ↦ rw (e, ek, q) (reply_lem s not_found rs ps acc tt room)
        | inr (i, p, q, g, gp, f) ↦ let clash = rw f at none_seen in absurd cc
      ]

  -- A get request for a key that is in use changes nothing, and the client is told so.
  pub handle_client_kv_get-busy :
      4 ≤ length s.ctx.work
      → busy_in (view key ks s.heap s.database) ≡ true
      → handle_client_kv_get s ≡ returned (0, answered s in_progress rs ps)
  unfolding handle_client_kv_get
  handle_client_kv_get-busy room busy =
      let (pk, e, ek) = decode_one (text key) refl r in
      elim (found_lem key v) [
        | inl (q, none_seen) ↦ let clash : false ≡ true = rw none_seen at busy in absurd cc
        | inr (i, p, q, g, gp, f) ↦
            let in_use = rw f at busy in
            rw (e, ek, q, gp, in_use) (reply_lem s in_progress rs ps acc tt room)
      ]

  -- A get request for a free key whose value is smaller than the message buffer is answered with the
  -- value, and changes nothing.
  pub handle_client_kv_get-value :
      (va size : ℕ) (value : List ℕ)
      → lookup key ks s.database ≡ some (va, size, none)
      → size < 4096
      → string_at s.heap va ≡ some value
      → length value + 1 ≤ size
      → 4 + size ≤ length s.ctx.work
      → handle_client_kv_get s ≡ returned (0, answered s (get_value value) rs ps)
  unfolding handle_client_kv_get send_value
  handle_client_kv_get-value va size value there small content fits room =
      let (pk, e, ek) = decode_one (text key) refl r in
      let (_, i, p, q, gp, f, same, _) = entry_lem key va size none v there in
      let (bs, at_va, is_value) = block_of s.heap va value content in
      let below : ltb size 4096 ≡ true = ground arith in
      rw
        (
          e,
          ek,
          q,
          gp,
          ap (λ t. is_registered t.2) same,
          ap (λ t. t.1) same,
          below,
          ap (λ t. t.0) same,
          at_va,
          strlen_lem bs value is_value,
        )
        (reply-text s bs value rs ps is_value acc (omega arith))

  -- A get request for a free key whose value does not fit the message buffer is answered with the
  -- value's size, address and remote key, and from then on the key is in use, when the value's memory
  -- could be registered. Every other key shows what it showed, and the table stays in order.
  pub handle_client_kv_get-registers :
      (va size mr rkey : ℕ) (regs : List (Option (ℕ × ℕ)))
      → lookup key ks s.database ≡ some (va, size, none)
      → 4096 ≤ size
      → size < 256 ^ 8
      → s.reg_mr_results ≡ some (mr, rkey) ∷ regs
      → 24 ≤ length s.ctx.work
      → Stores
          (registered s (region_of va size false true mr rkey) regs)
          ks
          key
          (string_at s.heap va, true)
          (get_address size (swap_bytes 8 va) (swap_bytes 4 rkey))
          rs
          ps
          (handle_client_kv_get s)
  unfolding handle_client_kv_get send_value
  handle_client_kv_get-registers va size mr rkey regs there large small reg room =
      let (pk, e, ek) = decode_one (text key) refl r in
      let (held, i, p, q, gp, f, same, marks) = entry_lem key va size none v there in
      let size_eq : p.value_size ≡ size = ap (λ w. w.1) same in
      let region = region_of va size false true mr rkey in
      let s1 = registered s region regs in
      let (serving, shows) =
        marked_lem key p (some (mr_info region)) _ (registered-IsServing region regs v) f
          (marks (some (mr_info region))) in
      (
        s.heap,
        set_mr_rdma s.database i p (some (mr_info region)),
        rw (e, ek, q, gp, ap (λ t. is_registered t.2) same)
            (send_value-offered s i p mr rkey regs rs ps (rw size_eq large) (rw size_eq small) reg
                acc room
              ∙ ap (λ w. returned (0, offered s i p mr rkey regs rs ps w)) same),
        rw held serving,
        λ j. rw held (
            shows j
            ∙ ap
                (λ w.
                  if same_string key j
                  then some (string_at s.heap w.0, true)
                  else view j ks s.heap s.database)
                same),
      )
