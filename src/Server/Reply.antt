-- ===== src/Server/Reply.antt =====
-- A handler's answer, when the device takes the message: exactly that message is posted, and the
-- rest of the server stays.
use network_optimization.Prelude.{
  ℕ, ◌+◌, ◌≤◌, ◌≡◌, List, [], ◌∷◌, ◌++◌, map, leb, length, take, drop,
}
use network_optimization.Prelude.Strings.{le_bytes}
use network_optimization.Protocol.{op_code}
use network_optimization.Protocol.Layout.{Message, operation, fields, encode, payload, AllFields}
use network_optimization.Protocol.RoundTrip.{set_control_message_lem}
use network_optimization.Verbs.{
  WorkCompletion, PollResult, entries, send, returned, PingpongContext,
}
use network_optimization.Verbs.Polling.{IsGoodEntry}
use network_optimization.Verbs.Sending.{pp_post_send_lem, poll_one}
use network_optimization.Server.{Server, reply}

-- The device takes the next request, and completes it: `ps` and `rs` are its answers after that.
pub record Accepts (c : PingpongContext) (rs : List ℕ) (ps : List PollResult) : Type 0 where
  pub wc : WorkCompletion
  pub posts : c.post_send_results ≡ 0 ∷ rs
  pub polls : c.send_polls ≡ entries (wc ∷ []) ∷ ps
  pub good : IsGoodEntry wc

-- The buffer with a message in its send region.
abbrev pub composed : Message → List ℕ → List ℕ
composed m work =
    le_bytes 4 (op_code (operation m))
    ++ (payload (fields m) ++ drop (4 + length (payload (fields m))) work)

-- The context after the message has been sent.
abbrev pub transmitted : Message → List ℕ → List PollResult → PingpongContext → PingpongContext
transmitted m rs ps c = record c {
  work = composed m c.work;
  sent =
      c.sent
      ++ (send (take c.mr_control_send_size (composed m c.work))
            (leb c.mr_control_send_size c.max_inline)
          ∷ []);
  post_send_results = rs;
  send_polls = ps;
}

-- When the device takes it, a message that fits the buffer is answered with 0, and is sent.
pub reply_lem :
    (s : Server) (m : Message) (rs : List ℕ) (ps : List PollResult)
    → Accepts s.ctx rs ps
    → AllFields (fields m)
    → 4 + length (payload (fields m)) ≤ length s.ctx.work
    → reply s (operation m) (map encode (fields m))
      ≡ returned (0, record s { ctx = transmitted m rs ps s.ctx })
unfolding reply
reply_lem s m rs ps acc fit room =
    let c1 : PingpongContext = record (s.ctx) { work = composed m s.ctx.work } in
    let c2 : PingpongContext = record c1 {
      sent =
          c1.sent
          ++ (send (take c1.mr_control_send_size c1.work)
                (leb c1.mr_control_send_size c1.max_inline)
              ∷ []);
      post_send_results = rs;
    } in
    rw (
      set_control_message_lem m s.ctx.work fit room,
      pp_post_send_lem c1 rs acc.posts,
      poll_one c2 acc.wc ps acc.good acc.polls,
    )
