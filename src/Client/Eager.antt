-- ===== src/Client/Eager.antt =====
-- `kv_set` with a value that fits the message, from the request to the answer.
use network_optimization.Prelude.{
  ℕ, ◌+◌, ◌≤◌, ◌≡◌, ◌==◌, if◌then◌else◌, ap, List, [], ◌∷◌, ◌++◌, map, true, leb, length, take,
  arith, refl, inl, inr, Option-cases,
}
use network_optimization.Prelude.Strings.{c_string-append, c_string-IsText, IsText}
use network_optimization.Protocol.Layout.{
  Message, set_eager, operation, fields, AllFields, encode, payload,
}
use network_optimization.Protocol.Overflow.{length-payload_eager}
use network_optimization.Protocol.RoundTrip.{set_control_message_lem, strlen_lem, strlen-none}
use network_optimization.Protocol.{strlen, op_code, server_kv_set_successful, server_in_progress}
use network_optimization.Verbs.{PollResult, send, returned, fault, PingpongContext}
use network_optimization.Verbs.Sending.{pp_post_send_lem, poll_one}
use network_optimization.Server.Reply.{Accepts, composed, transmitted}
use network_optimization.Client.{
  Client, send_message, next_message, operation_of, set_result, kv_set_eager, kv_set,
}

-- A message of a client, when the device takes it: exactly that message is posted.
pub send_message_lem :
    (s : Client) (m : Message) (rs : List ℕ) (ps : List PollResult)
    → Accepts s.ctx rs ps
    → AllFields (fields m)
    → 4 + length (payload (fields m)) ≤ length s.ctx.work
    → send_message s (operation m) (map encode (fields m))
      ≡ returned (0, record s { ctx = transmitted m rs ps s.ctx })
unfolding send_message
send_message_lem s m rs ps acc fit room =
    let c1 : PingpongContext = record (s.ctx) { work = composed m s.ctx.work } in
    let c2 : PingpongContext = record c1 {
      sent =
          c1.sent
          ++ (send (take c1.mr_control_send_size c1.work)
                (leb c1.mr_control_send_size c1.max_inline)
              ∷ []);
      post_send_results = rs;
    } in
    rw (
      set_control_message_lem m s.ctx.work fit room,
      pp_post_send_lem c1 rs acc.posts,
      poll_one c2 acc.wc ps acc.good acc.polls,
    )

-- The next message of the server, with its operation code, is waiting for the client.
pub record Answered (s : Client) (code : ℕ) (after : Client) : Type 0 where
  pub polled : next_message s ≡ returned (0, after)
  pub is_code : operation_of after ≡ returned code

-- The two tests exclude each other, so their order does not matter.
set_result_lem :
    (code : ℕ)
    → set_result code ≡ (
        if code == op_code server_kv_set_successful
        then 0
        else if code == op_code server_in_progress
        then 2
        else 1)
unfolding op_code
set_result_lem code = ground arith

-- `kv_set` on strings that fit the eager guard sends one eager request, with the key, the value and
-- the size of the value with its terminator, and returns 0, 2 or 1 as the answer says success, in
-- progress or something else; when the device takes the request and the answer comes in.
pub kv_set-Answered :
    (s : Client) (key value : List ℕ) (value_address : ℕ) (rs : List ℕ) (ps : List PollResult)
    (code : ℕ) (after : Client)
    → IsText key
    → IsText value
    → length key + length value + 2 ≤ 4096
    → 4108 ≤ length s.ctx.work
    → Accepts s.ctx rs ps
    → Answered
        (record s { ctx = transmitted (set_eager key (length value + 1) value) rs ps s.ctx })
        code
        after
    → kv_set s (key ++ (0 ∷ [])) value_address (value ++ (0 ∷ []))
      ≡ returned (
        if code == op_code server_kv_set_successful
            then 0
            else if code == op_code server_in_progress
            then 2
            else 1,
        after,
      )
unfolding kv_set kv_set_eager
kv_set-Answered s key value va rs ps code after tk tv guard room acc ans =
    let m = set_eager key (length value + 1) value in
    let fits : leb (length key + length value + 2) 4096 ≡ true = ground arith in
    let fit : AllFields (fields m) = (tk, ((omega arith, omega arith), (tv, tt))) in
    rw
      (
        strlen_lem (key ++ (0 ∷ [])) key (c_string-append key [] tk),
        strlen_lem (value ++ (0 ∷ [])) value (c_string-append value [] tv),
        fits,
        send_message_lem s m rs ps acc fit
            (omega (arith, length-payload_eager key value (length value + 1))),
        ans.polled,
        ans.is_code,
      )
      (ap (λ r. returned (r, after)) (set_result_lem code))

-- `kv_set` reads a value without a terminator past its end.
pub kv_set-unterminated :
    (s : Client) (key : List ℕ) (p : ℕ) (value : List ℕ)
    → IsText value
    → kv_set s key p value ≡ fault
unfolding kv_set
kv_set-unterminated s key p value h = elim (Option-cases (strlen key)) [
  | inl unread ↦ rw unread refl
  | inr (k, e) ↦ rw (e, strlen-none value (c_string-IsText value h)) refl
]
