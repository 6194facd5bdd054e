-- ===== src/Server/Run/Invariant.antt =====
-- The order of the table along the loop of `run_server`, whatever the clients send.
use mathlib.Core.Path.{subst}
use network_optimization.Prelude.{
  ℕ, ◌+◌, ◌^◌, ◌<◌, ◌≡◌, sym, ap, ◌∙◌, inl, inr, ◌⊎◌, Option, some, List, [], Bool, true, false,
  Bool-cases, ◌==◌, if◌then◌else◌, get_elem?, length, arith,
}
use network_optimization.Prelude.Strings.{c_string}
use network_optimization.Database.{
  KeyValueAddressArray, free_array, get_key_value_address_pair, deregister_rdma_mr,
}
use network_optimization.Heap.{Heap}
use network_optimization.Database.Table.{Key}
use network_optimization.Database.Status.{deregister_rdma_mr_lem, deregister_rdma_mr-found}
use network_optimization.Protocol.{
  Operation, client_kv_set_eager, client_kv_set_rendezvous, client_kv_get,
  client_kv_get_rendezvous_fin, client_kv_set_rendezvous_fin, shut_down_server, op_code,
  server_in_progress, server_kv_get_key_not_found, server_kv_set_successful,
  server_kv_get_successful,
}
use network_optimization.Verbs.{Outcome, returned, waiting, fault}
use network_optimization.Server.{
  Server, lift, decode, pointer, is_registered, handle_eager_kv_set, handle_rendezvous_kv_set_key,
  handle_client_kv_get, finish, handle_client_kv_set_rendezvous_fin,
  handle_client_kv_get_rendezvous_fin,
}
use network_optimization.Server.Bind.{bind-returned, lift-returned}
use network_optimization.Server.Keep.{
  Keeps, ctx-IsServing, reply-IsServing, handle_eager_kv_set-Keeps,
  handle_rendezvous_kv_set_key-Keeps,
}
use network_optimization.Server.Found.{found_cases, send_value-Keeps}
use network_optimization.Server.Mark.{marked_lem}
use network_optimization.Server.Table.{IsServing}
use network_optimization.Server.Run.{
  get_remote_control_message, received_code, served, dispatch, Loop, Visit, goes_on, stops, visit,
  start,
}
use network_optimization.Server.Run.Progress.{start-IsServing}
use network_optimization.Heap.Frame.{IsFresh}

handle_client_kv_get-Keeps :
    {s : Server} {ks : List Key} (code : ℕ) (t : Server)
    → IsServing s ks
    → handle_client_kv_get s ≡ returned (code, t)
    → Keeps t
unfolding handle_client_kv_get
handle_client_kv_get-Keeps {s} {ks} code t v e =
    let (ps, e1, r1) = bind-returned (decode client_kv_get s.ctx) _ (code, t) e in
    let (key, e2, r2) = bind-returned (pointer ps 0) _ (code, t) r1 in
    let (found, e3, r3) =
      bind-returned (lift (get_key_value_address_pair s.heap s.database (c_string key))) _ (code, t)
        r2 in
    elim (found_cases (c_string key) found v (lift-returned _ found e3)) [
      | inl missing ↦
          (ks, reply-IsServing server_kv_get_key_not_found [] code t v (rw missing at r3))
      | inr (k, i, p, text, index, at, f, held, marks) ↦
          elim (Bool-cases (is_registered p.mr_rdma)) [
            | inl busy ↦
                (ks, reply-IsServing server_in_progress [] code t v (rw (index, at, busy) at r3))
            | inr free_key ↦
                send_value-Keeps k i p code t v f marks (rw (index, at, free_key) at r3)
          ]
    ]

finish-Keeps :
    {s : Server} {ks : List Key} (op answer : Operation) (code : ℕ) (t : Server)
    → IsServing s ks
    → finish op answer s ≡ returned (code, t)
    → Keeps t
unfolding finish
finish-Keeps {s} {ks} op answer code t v e =
    let (ps, e1, r1) = bind-returned (decode op s.ctx) _ (code, t) e in
    let (key, e2, r2) = bind-returned (pointer ps 0) _ (code, t) r1 in
    let (released, e3, r3) =
      bind-returned (lift (deregister_rdma_mr s.dereg_mr s.heap s.database (c_string key))) _
        (code, t) r2 in
    let done = lift-returned _ released e3 in
    let (i, there) =
      deregister_rdma_mr-found s.dereg_mr s.heap s.database (c_string key) released done in
    elim (found_cases (c_string key) (some i) v there) [
      | inl missing ↦ absurd cc
      | inr (k, j, p, text, index, at, f, held, marks) ↦
          let (q, b, f', d, marked) = deregister_rdma_mr_lem s.dereg_mr k v.table held in
          let serving = (marked_lem k q _ b v f' marked).0 in
          let same : b ≡ released.1 =
            table_eq
              (sym d ∙ ap (deregister_rdma_mr s.dereg_mr s.heap s.database) (sym text) ∙ done) in
          (
            ks,
            reply-IsServing answer [] code t
                (subst (λ a. IsServing (record s { database = a }) ks) same serving) r3,
          )
    ]
  where
    table_eq :
        {n : ℕ} {b : KeyValueAddressArray} {r : ℕ × KeyValueAddressArray}
        → ◌≡◌ {A = Option (ℕ × KeyValueAddressArray)} (some (n, b)) (some r)
        → b ≡ r.1
    table_eq x = ground arith

served_inv :
    (o : Outcome (ℕ × Server)) (t : Server)
    → served o ≡ returned t
    → (code : ℕ) × (o ≡ returned (code, t))
served_inv (returned (code, u)) t e = (code, ap (λ u. returned (code, u)) (server_eq e))
  where
    server_eq : {u : Server} → ◌≡◌ {A = Outcome Server} (returned u) (returned t) → u ≡ t
    server_eq x = cc
served_inv waiting t e = absurd cc
served_inv fault t e = absurd cc

if_cases {ℓ} : {A : Type ℓ} (b : Bool) (x y z : A) → (if b then x else y) ≡ z → (x ≡ z) ⊎ (y ≡ z)
if_cases true x y z e = inl e
if_cases false x y z e = inr e

-- Whatever code comes: the table stays in order.
dispatch-Keeps :
    {s : Server} {ks : List Key} (code : ℕ) (t : Server)
    → IsServing s ks
    → s.database.used_length + 1 < 2 ^ 31
    → dispatch s code ≡ returned t
    → Keeps t
unfolding dispatch finish handle_client_kv_get_rendezvous_fin handle_client_kv_set_rendezvous_fin
dispatch-Keeps {s} {ks} code t v small e =
    elim (if_cases (code == op_code client_kv_set_eager) _ _ _ e) [
      | inl e1 ↦
          let (n, done) = served_inv (handle_eager_kv_set s) t e1 in
          handle_eager_kv_set-Keeps n t v small done
      | inr r1 ↦ elim (if_cases (code == op_code client_kv_set_rendezvous) _ _ _ r1) [
        | inl e2 ↦
            let (n, done) = served_inv (handle_rendezvous_kv_set_key s) t e2 in
            handle_rendezvous_kv_set_key-Keeps n t v small done
        | inr r2 ↦ elim (if_cases (code == op_code client_kv_get_rendezvous_fin) _ _ _ r2) [
          | inl e3 ↦
              let (n, done) = served_inv (handle_client_kv_get_rendezvous_fin s) t e3 in
              finish-Keeps client_kv_get_rendezvous_fin server_kv_get_successful n t v done
          | inr r3 ↦ elim (if_cases (code == op_code client_kv_get) _ _ _ r3) [
            | inl e4 ↦
                let (n, done) = served_inv (handle_client_kv_get s) t e4 in
                handle_client_kv_get-Keeps n t v done
            | inr r4 ↦ elim (if_cases (code == op_code client_kv_set_rendezvous_fin) _ _ _ r4) [
              | inl e5 ↦
                  let (n, done) = served_inv (handle_client_kv_set_rendezvous_fin s) t e5 in
                  finish-Keeps client_kv_set_rendezvous_fin server_kv_set_successful n t v done
              | inr r5 ↦ (ks, subst (λ u. IsServing u ks) (passed r5) v)
            ]
          ]
        ]
      ]
    ]
  where
    passed : ◌≡◌ {A = Outcome Server} (returned s) (returned t) → s ≡ t
    passed x = cc

visit-Keeps :
    (l l' : Loop) (i : ℕ)
    → Keeps l.server
    → l.server.database.used_length + 1 < 2 ^ 31
    → visit l i ≡ returned (goes_on l')
    → Keeps l'.server
unfolding visit
visit-Keeps l l' i (ks, v) small e =
    let (c, e1, r1) = bind-returned (lift (get_elem? l.contexts i)) _ (goes_on l') e in
    let (polled, e2, r2) = bind-returned (get_remote_control_message c false) _ (goes_on l') r1 in
    let s : Server = record (l.server) { ctx = polled.1 } in
    let v1 : IsServing s ks = ctx-IsServing polled.1 v in
    elim (if_cases (polled.0 == 1) _ _ _ r2) [
      | inl none_polled ↦ (ks, subst (λ u. IsServing u ks) (server_eq none_polled) v1)
      | inr r3 ↦
          let (code, e4, r4) = bind-returned (lift (received_code polled.1)) _ (goes_on l') r3 in
          elim (if_cases (code == op_code shut_down_server) _ _ _ r4) [
            | inl shuts ↦
                elim (if_cases (l.num_shut_down_server_request + 1 == length l.contexts) _ _ _
                  shuts) [
                    | inl last ↦
                        let (h, e5, r5) =
                          bind-returned
                            (lift (free_array l.server.kv_malloc l.server.heap l.server.database)) _
                            (goes_on l') last in
                        absurd (ends_ne r5)
                    | inr more ↦ (ks, subst (λ u. IsServing u ks) (server_eq more) v1)
                  ]
            | inr request ↦
                let (t, e5, r5) = bind-returned (dispatch s code) _ (goes_on l') request in
                let (ks', v2) = dispatch-Keeps code t v1 small e5 in
                (ks', subst (λ u. IsServing u ks') (server_eq r5) v2)
          ]
    ]
  where
    server_eq :
        {m : Loop}
        → ◌≡◌ {A = Outcome Visit} (returned (goes_on m)) (returned (goes_on l'))
        → m.server ≡ l'.server
    server_eq x = cc

    ends_ne : {h : Heap} → ◌≡◌ {A = Outcome Visit} (returned (stops h)) (returned (goes_on l')) → ⊥
    ends_ne x = cc

-- The visits of `run_server` that returned and went on, one after the other, to any clients, with
-- fewer than 2 ^ 31 - 1 slots in use before each.
pub data Runs (first : Loop) : Loop → Type 0 where
  here : Runs first first
  visited :
      {l l' : Loop} (i : ℕ)
      → Runs first l
      → l.server.database.used_length + 1 < 2 ^ 31
      → visit l i ≡ returned (goes_on l')
      → Runs first l'

-- In every loop that `run_server` reaches from its start with a fresh heap, whatever the clients
-- send, in whatever order they are served, and whatever the device answers, the table is in order
-- for some list of keys, as long as fewer than 2 ^ 31 - 1 slots were in use at each visit.
pub run_server-IsServing :
    (s : Server) (first l : Loop)
    → IsFresh s.heap
    → first.server ≡ start s
    → Runs first l
    → (ks : List Key) × IsServing l.server ks
run_server-IsServing s first l fresh begins here =
    ([], subst (λ u. IsServing u []) (sym begins) (start-IsServing s fresh).0)
run_server-IsServing s first l fresh begins (visited {l = l0} i before small e) =
    visit-Keeps l0 l i (run_server-IsServing s first l0 fresh begins before) small e
