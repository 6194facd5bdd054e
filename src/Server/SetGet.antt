-- ===== src/Server/SetGet.antt =====
-- The two handlers one after the other: `handle_eager_kv_set` and then `handle_client_kv_get`, as
-- `run_server` calls them for two requests.
use network_optimization.Prelude.{ℕ, ◌+◌, ◌^◌, ◌≤◌, ◌<◌, ◌≡◌, List, false, length}
use network_optimization.Database.Table.{Key}
use network_optimization.Protocol.Layout.{set_eager, set_done, get, get_value}
use network_optimization.Verbs.{PollResult, PingpongContext, returned}
use network_optimization.Server.{Server, handle_eager_kv_set, handle_client_kv_get}
use network_optimization.Server.Reply.{Accepts}
use network_optimization.Server.Request.{Received, busy_in}
use network_optimization.Server.Table.{view, IsServing, answered}
use network_optimization.Server.Eager.{handle_eager_kv_set-StoresSize}
use network_optimization.Server.Get.{handle_client_kv_get-value}
use network_optimization.Server.Keep.{ctx-IsServing}

-- A set request for a free key, which comes with its value and with a size below the message
-- buffer's that is large enough, is confirmed, and a get request for that key which the server takes
-- up next, from any client, is answered with that very value, if the device takes both answers
-- and fewer than 2 ^ 31 - 1 slots were in use.
pub handle_eager_kv_set-handle_client_kv_get :
    {s : Server} {ks : List Key} {rs rs' : List ℕ} {ps ps' : List PollResult} (key value : List ℕ)
    (n : ℕ) (rest rest' : List ℕ) (c : PingpongContext)
    → IsServing s ks
    → Accepts s.ctx rs ps
    → 4 ≤ length s.ctx.work
    → Received s.ctx (set_eager key n value) rest
    → length value + 1 ≤ n
    → n < 4096
    → s.database.used_length + 1 < 2 ^ 31
    → busy_in (view key ks s.heap s.database) ≡ false
    → Accepts c rs' ps'
    → Received c (get key) rest'
    → 4 + n ≤ length c.work
    → (t : Server) × (handle_eager_kv_set s ≡ returned (0, answered t set_done rs ps))
      × (handle_client_kv_get (record t { ctx = c })
          ≡ returned (0, answered (record t { ctx = c }) (get_value value) rs' ps'))
handle_eager_kv_set-handle_client_kv_get {s} {ks} key value n rest rest' c v acc room r fits small
      used free acc' r' room' =
    let (h, a, done, serving, shows, va, there, content) =
      handle_eager_kv_set-StoresSize key value n rest v acc room r fits used free in
    let t : Server = record s { heap = h; database = a } in
    (
      t,
      done,
      handle_client_kv_get-value key rest' (ctx-IsServing c serving) acc' r' va n value there small
          content fits room',
    )
