-- ===== src/Server/Refused.antt =====
-- The requests that name a key, when this key is in use.
use network_optimization.Prelude.{ℕ, ◌≤◌, ◌≡◌, List, true, length}
use network_optimization.Database.Table.{Key}
use network_optimization.Protocol.Layout.{Message, set_eager, set_rendezvous, get, in_progress}
use network_optimization.Verbs.{PollResult, Outcome, returned}
use network_optimization.Server.{
  Server, handle_eager_kv_set, handle_rendezvous_kv_set_key, handle_client_kv_get,
}
use network_optimization.Server.Reply.{Accepts}
use network_optimization.Server.Request.{Received, busy_in}
use network_optimization.Server.Table.{view, IsServing, answered}
use network_optimization.Server.Eager.{handle_eager_kv_set-busy}
use network_optimization.Server.Rendezvous.{handle_rendezvous_kv_set_key-busy}
use network_optimization.Server.Get.{handle_client_kv_get-busy}

pub data KeyRequest : Type 0 where
  with_value : (n : ℕ) (value : List ℕ) → KeyRequest
  with_size : (n : ℕ) → KeyRequest
  for_value : KeyRequest

abbrev pub message_of : KeyRequest → List ℕ → Message
message_of (with_value n value) key = set_eager key n value
message_of (with_size n) key = set_rendezvous key n
message_of for_value key = get key

abbrev pub handler_of : KeyRequest → Server → Outcome (ℕ × Server)
handler_of (with_value n value) = handle_eager_kv_set
handler_of (with_size n) = handle_rendezvous_kv_set_key
handler_of for_value = handle_client_kv_get

-- A set request of either kind or a get request for a key that is in use changes nothing: the client
-- is told so and the handler returns 0, when the device takes the answer.
pub handler_of-busy :
    {s : Server} {ks : List Key} {rs : List ℕ} {ps : List PollResult} (q : KeyRequest)
    (key rest : List ℕ)
    → IsServing s ks
    → Accepts s.ctx rs ps
    → 4 ≤ length s.ctx.work
    → Received s.ctx (message_of q key) rest
    → busy_in (view key ks s.heap s.database) ≡ true
    → handler_of q s ≡ returned (0, answered s in_progress rs ps)
handler_of-busy (with_value n value) key rest v acc room r busy =
    handle_eager_kv_set-busy key value n rest v acc room r busy
handler_of-busy (with_size n) key rest v acc room r busy =
    handle_rendezvous_kv_set_key-busy key n rest v acc room r busy
handler_of-busy for_value key rest v acc room r busy =
    handle_client_kv_get-busy key rest v acc r room busy
