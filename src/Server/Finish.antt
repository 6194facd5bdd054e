-- ===== src/Server/Finish.antt =====
-- The FIN handlers: an RDMA operation has ended, and its key is released.
use network_optimization.Prelude.{
  ℕ, ◌≤◌, ◌≡◌, refl, ap, ◌∙◌, Option, some, Bool, true, false, List, [], ◌∷◌, if◌then◌else◌, length,
}
use network_optimization.Prelude.Strings.{same_string}
use network_optimization.Heap.{string_at}
use network_optimization.Database.{MrInfo, KeyValueAddressPair, KeyValueAddressArray}
use network_optimization.Database.Table.{Key, find, entries}
use network_optimization.Database.Insert.{value_of, lookup}
use network_optimization.Database.Status.{outcome, deregister_rdma_mr_lem}
use network_optimization.Protocol.Layout.{
  Message, operation, fields, get_fin, set_fin, set_done, get_done, text,
}
use network_optimization.Verbs.{PollResult, Outcome, returned}
use network_optimization.Server.{
  Server, reply, is_registered, finish, handle_client_kv_set_rendezvous_fin,
  handle_client_kv_get_rendezvous_fin,
}
use network_optimization.Server.Mark.{marked_lem, entry_lem}
use network_optimization.Server.Reply.{Accepts, reply_lem}
use network_optimization.Server.Request.{Received, decode_one}
use network_optimization.Server.Table.{view, IsServing, answered, Stores}

module _ {s : Server} {ks : List Key} {rs : List ℕ} {ps : List PollResult} (key rest : List ℕ)
    (v : IsServing s ks) (acc : Accepts s.ctx rs ps) (room : 4 ≤ length s.ctx.work) (va size : ℕ)
    (mr : Option MrInfo) (there : lookup key ks s.database ≡ some (va, size, mr)) where
  finish_lem :
      (request answer : Message)
      → fields request ≡ text key ∷ []
      → ((t : Server)
          → Accepts t.ctx rs ps
          → 4 ≤ length t.ctx.work
          → reply t (operation answer) [] ≡ returned (0, answered t answer rs ps))
      → Received s.ctx request rest
      → Stores s ks key
          (string_at s.heap va, is_registered (outcome s.dereg_mr mr).1)
          answer
          rs
          ps
          (finish (operation request) (operation answer) s)
  unfolding finish
  finish_lem request answer one sends r =
      let (pk, e, ek) = decode_one (text key) one r in
      let held = (entry_lem key va size mr v there).0 in
      let (p, b, f, d, marked) = deregister_rdma_mr_lem s.dereg_mr key v.table held in
      let same : value_of p ≡ (va, size, mr) = entry_eq p f in
      let (serving, shows) = marked_lem key p (outcome s.dereg_mr p.mr_rdma).1 b v f marked in
      (
        s.heap,
        b,
        rw (e, ek, d) (sends (record s { database = b }) (moved b) room),
        rw held serving,
        λ j. rw held (
            shows j
            ∙ ap
                (λ w.
                  if same_string key j
                  then some (string_at s.heap w.0, is_registered (outcome s.dereg_mr w.2).1)
                  else view j ks s.heap s.database)
                same),
      )
    where
      moved : (b : KeyValueAddressArray) → Accepts (record s { database = b }).ctx rs ps
      moved b = acc

      entry_eq :
          (p : KeyValueAddressPair)
          → find key ks (entries s.database) ≡ some p
          → value_of p ≡ (va, size, mr)
      entry_eq p f =
          let whole : ◌≡◌ {A = Option (ℕ × ℕ × Option MrInfo)} (some (value_of p))
              (some (va, size, mr)) =
            rw f at there in
          cc

  -- When a client says that its set by RDMA has ended, a key of the table is free again, unless the
  -- device refused to release its region; the client is told of success in both cases. The key
  -- shows its value, every other key what it showed, and the table stays in order.
  pub handle_client_kv_set_rendezvous_fin_lem :
      Received s.ctx (set_fin key) rest
      → Stores s ks key
          (string_at s.heap va, is_registered (outcome s.dereg_mr mr).1)
          set_done
          rs
          ps
          (handle_client_kv_set_rendezvous_fin s)
  unfolding handle_client_kv_set_rendezvous_fin
  handle_client_kv_set_rendezvous_fin_lem r =
      finish_lem (set_fin key) set_done refl (λ t a le. reply_lem t set_done rs ps a tt le) r

  -- When a client says that its get by RDMA has ended, a key of the table is free again, unless the
  -- device refused to release its region; the client is told of success in both cases. The key
  -- shows its value, every other key what it showed, and the table stays in order.
  pub handle_client_kv_get_rendezvous_fin_lem :
      Received s.ctx (get_fin key) rest
      → Stores s ks key
          (string_at s.heap va, is_registered (outcome s.dereg_mr mr).1)
          get_done
          rs
          ps
          (handle_client_kv_get_rendezvous_fin s)
  unfolding handle_client_kv_get_rendezvous_fin
  handle_client_kv_get_rendezvous_fin_lem r =
      finish_lem (get_fin key) get_done refl (λ t a le. reply_lem t get_done rs ps a tt le) r

-- The operation that has ended: a set or a get.
abbrev pub fin_request : Bool → List ℕ → Message
fin_request true key = set_fin key
fin_request false key = get_fin key

abbrev pub fin_answer : Bool → Message
fin_answer true = set_done
fin_answer false = get_done

abbrev pub fin_handler : Bool → Server → Outcome (ℕ × Server)
fin_handler true = handle_client_kv_set_rendezvous_fin
fin_handler false = handle_client_kv_get_rendezvous_fin

-- When a client says that its set or its get by RDMA has ended, its key is free again unless the
-- device refused to release the region, and the client is told of success in both cases. The key
-- shows its value, every other key what it showed, and the table stays in order, when the device
-- takes the answer.
pub fin_handler-Stores :
    {s : Server} {ks : List Key} {rs : List ℕ} {ps : List PollResult} (key rest : List ℕ)
    (va size : ℕ) (mr : Option MrInfo) (is_set : Bool)
    → IsServing s ks
    → Accepts s.ctx rs ps
    → 4 ≤ length s.ctx.work
    → lookup key ks s.database ≡ some (va, size, mr)
    → Received s.ctx (fin_request is_set key) rest
    → Stores s ks key
        (string_at s.heap va, is_registered (outcome s.dereg_mr mr).1)
        (fin_answer is_set)
        rs
        ps
        (fin_handler is_set s)
fin_handler-Stores key rest va size mr true v acc room there r =
    handle_client_kv_set_rendezvous_fin_lem key rest v acc room va size mr there r
fin_handler-Stores key rest va size mr false v acc room there r =
    handle_client_kv_get_rendezvous_fin_lem key rest v acc room va size mr there r
