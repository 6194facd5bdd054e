-- ===== src/Server/Keep.antt =====
-- The handlers and the order of the table, whatever message comes and whatever the device answers.
use mathlib.Core.Path.{subst}
use network_optimization.Prelude.{
  ℕ, ◌+◌, ◌^◌, ◌<◌, ◌≡◌, sym, ap, ◌∙◌, inl, inr, none, some, List, [], ◌∷◌, Bool, true, false,
  Bool-cases, ◌==◌, if◌then◌else◌, arith,
}
use network_optimization.Prelude.Strings.{
  c_string, IsText, terminated, le_value, le_bytes, swap_bytes,
}
use network_optimization.Heap.{Heap, malloc, string_at}
use network_optimization.Heap.Frame.{IsFresh, malloc-IsFresh, next-malloc}
use network_optimization.Database.{KeyValueAddressPair}
use network_optimization.Database.Table.{Key, add_key}
use network_optimization.Protocol.{
  Operation, client_kv_set_eager, client_kv_set_rendezvous, strlen, server_kv_set_successful,
  server_in_progress, server_kv_set_rendezvous,
}
use network_optimization.Verbs.{Outcome, returned, PingpongContext}
use network_optimization.Server.{
  Server, lift, decode, pointer, reply, is_busy, copy_string, insert, eager_store,
  handle_eager_kv_set, register_mr, mr_info, rendezvous_store, handle_rendezvous_kv_set_key,
}
use network_optimization.Server.Bind.{
  bind-returned, lift-returned, ctx-reply, regions-register_mr, copy_string_inv,
}
use network_optimization.Server.Memory.{
  Grows, Grows-trans, malloc-Grows, string_at-Grows, IsValid-Grows,
}
use network_optimization.Server.Table.{IsServing, insert_lem}

pub ctx-IsServing :
    {s : Server} {ks : List Key} (c : PingpongContext)
    → IsServing s ks
    → IsServing (record s { ctx = c }) ks
ctx-IsServing c v = record { keeps = v.keeps; fresh = v.fresh; table = v.table; values = v.values }

pub reply-IsServing :
    {s : Server} {ks : List Key} (op : Operation) (addresses : List (List ℕ)) (code : ℕ)
    (t : Server)
    → IsServing s ks
    → reply s op addresses ≡ returned (code, t)
    → IsServing t ks
reply-IsServing {s} {ks} op addresses code t v e =
    let (c, same) = ctx-reply s op addresses code t e in
    subst (λ u. IsServing u ks) (sym same) (ctx-IsServing c v)

terminated-IsText : (p : List ℕ) (text : List ℕ) → c_string p ≡ some text → IsText text
terminated-IsText p text e = (terminated p text e).2

-- An insertion of an entry whose key is a string of the new memory.
insert-IsServing :
    {s : Server} {ks : List Key} (k : Key) (h' : Heap) (entry : KeyValueAddressPair) (t : Server)
    → IsServing s ks
    → s.database.used_length + 1 < 2 ^ 31
    → Grows s.heap h'
    → IsFresh h'
    → string_at h' entry.key_address ≡ some k
    → entry.key_address < h'.next
    → entry.value_address < h'.next
    → insert (record s { heap = h' }) entry ≡ returned t
    → IsServing t (add_key k ks)
insert-IsServing {s} {ks} k h' entry t v small g f at lt lt' e =
    let (b, done, serving, _) = insert_lem k h' entry v small g f at lt lt' in
    let same : record s { heap = h'; database = b } ≡ t = stored (sym done ∙ e) in
    subst (λ u. IsServing u (add_key k ks)) same serving
  where
    stored : {u : Server} → ◌≡◌ {A = Outcome Server} (returned u) (returned t) → u ≡ t
    stored x = cc

eager_store-IsServing :
    {s : Server} {ks : List Key} (key size value : List ℕ) (code : ℕ) (t : Server)
    → IsServing s ks
    → s.database.used_length + 1 < 2 ^ 31
    → eager_store s key size value ≡ returned (code, t)
    → (ks' : List Key) × IsServing t ks'
unfolding eager_store
eager_store-IsServing {s} {ks} key size value code t v small e =
    let (key_length, e1, r1) = bind-returned (lift (strlen key)) _ (code, t) e in
    let (h1, e2, r2) =
      bind-returned (lift (copy_string s.heap (key_length + 1) (c_string key))) _ (code, t) r1 in
    let (value_length, e3, r3) = bind-returned (lift (le_value 8 size)) _ (code, t) r2 in
    let (h2, e4, r4) =
      bind-returned (lift (copy_string h1 value_length (c_string value))) _ (code, t) r3 in
    let (k, found, g1, f1, n1, at1) =
      copy_string_inv s.heap h1 (key_length + 1) (c_string key) v.fresh (lift-returned _ h1 e2)
        (terminated-IsText key) in
    let (w, found', g2, f2, n2, at2) =
      copy_string_inv h1 h2 value_length (c_string value) f1 (lift-returned _ h2 e4)
        (terminated-IsText value) in
    let entry : KeyValueAddressPair = record {
      key_address = s.heap.next;
      value_address = h1.next;
      value_size = value_length;
      mr_rdma = none;
    } in
    let (s', e5, r5) = bind-returned (insert (record s { heap = h2 }) entry) _ (code, t) r4 in
    let stays : string_at h2 s.heap.next ≡ some k =
      string_at-Grows s.heap.next g2 (omega (arith, n1)) ∙ at1 in
    let serving =
      insert-IsServing k h2 entry s' v small (Grows-trans g1 g2) f2 stays (omega (arith, n1, n2))
        (omega (arith, n2)) e5 in
    (add_key k ks, reply-IsServing server_kv_set_successful [] code t serving r5)

-- What a handler that returns leaves.
abbrev pub Keeps : Server → Type 0
Keeps t = (ks : List Key) × IsServing t ks

busy_or_store :
    {s : Server} {ks : List Key} (busy : Bool) (store : Outcome (ℕ × Server)) (code : ℕ)
    (t : Server)
    → IsServing s ks
    → (store ≡ returned (code, t) → Keeps t)
    → (if busy then reply s server_in_progress [] else store) ≡ returned (code, t)
    → Keeps t
busy_or_store {s} {ks} true store code t v h e =
    (ks, reply-IsServing server_in_progress [] code t v e)
busy_or_store false store code t v h e = h e

pub handle_eager_kv_set-Keeps :
    {s : Server} {ks : List Key} (code : ℕ) (t : Server)
    → IsServing s ks
    → s.database.used_length + 1 < 2 ^ 31
    → handle_eager_kv_set s ≡ returned (code, t)
    → Keeps t
unfolding handle_eager_kv_set
handle_eager_kv_set-Keeps {s} code t v small e =
    let (ps, e1, r1) = bind-returned (decode client_kv_set_eager s.ctx) _ (code, t) e in
    let (key, e2, r2) = bind-returned (pointer ps 0) _ (code, t) r1 in
    let (size, e3, r3) = bind-returned (pointer ps 1) _ (code, t) r2 in
    let (value, e4, r4) = bind-returned (pointer ps 2) _ (code, t) r3 in
    let (busy, e5, r5) = bind-returned (is_busy s (c_string key)) _ (code, t) r4 in
    busy_or_store busy (eager_store s key size value) code t v
      (λ stored. eager_store-IsServing key size value code t v small stored) r5

pub answer_eq :
    {n m : ℕ} {u t : Server}
    → ◌≡◌ {A = Outcome (ℕ × Server)} (returned (n, u)) (returned (m, t))
    → u ≡ t
answer_eq x = cc

-- More memory keeps the table in order.
grown-IsServing :
    {s : Server} {ks : List Key} (h' : Heap)
    → IsServing s ks
    → Grows s.heap h'
    → IsFresh h'
    → IsServing (record s { heap = h' }) ks
grown-IsServing h' v g f = record {
  keeps = v.keeps;
  fresh = f;
  table = IsValid-Grows g v.table;
  values = λ k va size mr e. omega (arith, v.values k va size mr e, g.longer);
}

rendezvous_store-Keeps :
    {s : Server} {ks : List Key} (key size : List ℕ) (code : ℕ) (t : Server)
    → IsServing s ks
    → s.database.used_length + 1 < 2 ^ 31
    → rendezvous_store s key size ≡ returned (code, t)
    → Keeps t
unfolding rendezvous_store
rendezvous_store-Keeps {s} {ks} key size code t v small e =
    let (key_length, e1, r1) = bind-returned (lift (strlen key)) _ (code, t) e in
    let (h1, e2, r2) =
      bind-returned (lift (copy_string s.heap (key_length + 1) (c_string key))) _ (code, t) r1 in
    let (value_length, e3, r3) = bind-returned (lift (le_value 8 size)) _ (code, t) r2 in
    let h2 = malloc h1 value_length in
    let (made, e4, r4) =
      bind-returned (register_mr (record s { heap = h2 }) h1.next value_length true false) _
        (code, t) r3 in
    let addresses =
      le_bytes 8 (swap_bytes 8 made.0.start_ptr) ∷ le_bytes 4 (swap_bytes 4 made.0.rkey) ∷ [] in
    let (answer, e5, r5) =
      bind-returned (reply made.1 server_kv_set_rendezvous addresses) _ (code, t) r4 in
    let (k, found, g1, f1, n1, at1) =
      copy_string_inv s.heap h1 (key_length + 1) (c_string key) v.fresh (lift-returned _ h1 e2)
        (terminated-IsText key) in
    let (rest, regions, same1) =
      regions-register_mr (record s { heap = h2 }) h1.next value_length true false made.0 made.1
        e4 in
    let (c, same2) = ctx-reply made.1 server_kv_set_rendezvous addresses answer.0 answer.1 e5 in
    let with_ctx : Server → Server = λ u. record u { ctx = c } in
    let s1 : Server = record s { reg_mr_results = rest; regions = regions; ctx = c } in
    let same : answer.1 ≡ record s1 { heap = h2 } = same2 ∙ ap with_ctx same1 in
    let v1 : IsServing s1 ks = record {
      keeps = v.keeps;
      fresh = v.fresh;
      table = v.table;
      values = v.values;
    } in
    let g2 : Grows h1 h2 = malloc-Grows h1 value_length in
    let entry : KeyValueAddressPair = record {
      key_address = s.heap.next;
      value_address = h1.next;
      value_size = value_length;
      mr_rdma = some (mr_info made.0);
    } in
    let stays : string_at h2 s.heap.next ≡ some k =
      string_at-Grows s.heap.next g2 (omega (arith, n1)) ∙ at1 in
    elim (Bool-cases (answer.0 == 0)) [
      | inl sent ↦
          let (s3, e6, r6) = bind-returned (insert answer.1 entry) _ (code, t) (rw sent at r5) in
          let serving =
            insert-IsServing k h2 entry s3 v1 small (Grows-trans g1 g2)
              (malloc-IsFresh h1 value_length f1) stays
              (omega (arith, n1, next-malloc h1 value_length))
              (omega (arith, next-malloc h1 value_length))
              (ap (λ u. insert u entry) (sym same) ∙ e6) in
          (add_key k ks, subst (λ u. IsServing u (add_key k ks)) (answer_eq r6) serving)
      | inr lost ↦
          let grown : IsServing (record s1 { heap = h2 }) ks =
            grown-IsServing h2 v1 (Grows-trans g1 g2) (malloc-IsFresh h1 value_length f1) in
          (ks, subst (λ u. IsServing u ks) (sym same ∙ answer_eq (rw lost at r5)) grown)
    ]

pub handle_rendezvous_kv_set_key-Keeps :
    {s : Server} {ks : List Key} (code : ℕ) (t : Server)
    → IsServing s ks
    → s.database.used_length + 1 < 2 ^ 31
    → handle_rendezvous_kv_set_key s ≡ returned (code, t)
    → Keeps t
unfolding handle_rendezvous_kv_set_key
handle_rendezvous_kv_set_key-Keeps {s} code t v small e =
    let (ps, e1, r1) = bind-returned (decode client_kv_set_rendezvous s.ctx) _ (code, t) e in
    let (key, e2, r2) = bind-returned (pointer ps 0) _ (code, t) r1 in
    let (size, e3, r3) = bind-returned (pointer ps 1) _ (code, t) r2 in
    let (busy, e4, r4) = bind-returned (is_busy s (c_string key)) _ (code, t) r3 in
    busy_or_store busy (rendezvous_store s key size) code t v
      (λ stored. rendezvous_store-Keeps key size code t v small stored) r4
