-- ===== src/Server/Found.antt =====
-- A pair that was found in the table, and `send_value`.
use mathlib.Core.Path.{subst}
use network_optimization.Prelude.{
  ℕ, ◌⊎◌, ◌≡◌, refl, sym, ap, ◌∙◌, inl, inr, Option, none, some, List, [], ◌∷◌, true, false,
  Bool-cases, ◌==◌, ltb, get_elem?,
}
use network_optimization.Prelude.Strings.{le_bytes, swap_bytes}
use network_optimization.Database.{
  MrInfo, KeyValueAddressPair, get_key_value_address_pair, set_mr_rdma,
}
use network_optimization.Database.Table.{Key, find, contains, entries}
use network_optimization.Protocol.{
  strlen, server_kv_get_eager, server_kv_get_rendezvous, control_message_buffer_size,
}
use network_optimization.Verbs.{returned}
use network_optimization.Server.{Server, lift, reply, register_mr, mr_info, send_value}
use network_optimization.Server.Bind.{bind-returned, ctx-reply, regions-register_mr}
use network_optimization.Server.Table.{IsServing}
use network_optimization.Server.Request.{found_lem}
use network_optimization.Server.Mark.{marked_lem, entry_lem}
use network_optimization.Database.Status.{Marked}
use network_optimization.Database.Lookup.{get_key_value_address_pair-unterminated}
use network_optimization.Server.Keep.{Keeps, reply-IsServing, answer_eq}

-- A pair that is found in the table may be marked.
pub found_cases :
    {s : Server} {ks : List Key} (key : Option (List ℕ)) (found : Option ℕ)
    → IsServing s ks
    → get_key_value_address_pair s.heap s.database key ≡ some found
    → (found ≡ none)
      ⊎ ((k : Key) × (i : ℕ) × (p : KeyValueAddressPair) × (key ≡ some k)
          × (found ≡ some i)
          × (get_elem? s.database.head i ≡ some p)
          × (find k ks (entries s.database) ≡ some p)
          × (contains k ks ≡ true)
          × ((mr : Option MrInfo)
              → Marked s.heap s.database ks k p mr (set_mr_rdma s.database i p mr)))
found_cases {s} key none v e = inl refl
found_cases {s} none (some i) v e =
    absurd (get_key_value_address_pair-unterminated s.heap s.database i e)
found_cases {s} {ks} (some k) (some i) v e = elim (found_lem k v) [
  | inl (q, missing) ↦ absurd (index_ne (sym q ∙ e))
  | inr (i', p', q', g', gp', f') ↦
      let (held, j, p, q, gp, f, same, marks) =
        entry_lem k p'.value_address p'.value_size p'.mr_rdma v (rw f' refl) in
      inr (k, j, p, refl, index_eq (sym e ∙ q), gp, f, held, marks)
]
  where
    index_ne : ◌≡◌ {A = Option (Option ℕ)} (some none) (some (some i)) → ⊥
    index_ne x = cc

    index_eq : {a b : Option ℕ} → ◌≡◌ {A = Option (Option ℕ)} (some a) (some b) → a ≡ b
    index_eq x = cc

-- A server whose context and regions have changed, with a mark.
Marked-IsServing :
    {s : Server} {ks : List Key} (k : Key) (i : ℕ) (p : KeyValueAddressPair) (mr : Option MrInfo)
    → IsServing s ks
    → find k ks (entries s.database) ≡ some p
    → Marked s.heap s.database ks k p mr (set_mr_rdma s.database i p mr)
    → IsServing (record s { database = set_mr_rdma s.database i p mr }) ks
Marked-IsServing {s} k i p mr v f marked =
    (marked_lem k p mr (set_mr_rdma s.database i p mr) v f marked).0

pub send_value-Keeps :
    {s : Server} {ks : List Key} (k : Key) (i : ℕ) (p : KeyValueAddressPair) (code : ℕ) (t : Server)
    → IsServing s ks
    → find k ks (entries s.database) ≡ some p
    → ((mr : Option MrInfo) → Marked s.heap s.database ks k p mr (set_mr_rdma s.database i p mr))
    → send_value s i p ≡ returned (code, t)
    → Keeps t
unfolding send_value
send_value-Keeps {s} {ks} k i p code t v f marks e =
    elim (Bool-cases (ltb p.value_size control_message_buffer_size)) [
      | inl small ↦
          let (value, e1, r1) =
            bind-returned (lift (s.heap.cell p.value_address)) _ (code, t) (rw small at e) in
          let (size, e2, r2) = bind-returned (lift (strlen value)) _ (code, t) r1 in
          (ks, reply-IsServing server_kv_get_eager (value ∷ []) code t v r2)
      | inr large ↦
          let (made, e1, r1) =
            bind-returned (register_mr s p.value_address p.value_size false true) _ (code, t)
              (rw large at e) in
          let addresses =
            le_bytes 8 p.value_size
            ∷ le_bytes 8 (swap_bytes 8 made.0.start_ptr)
            ∷ le_bytes 4 (swap_bytes 4 made.0.rkey)
            ∷ [] in
          let (answer, e2, r2) =
            bind-returned (reply made.1 server_kv_get_rendezvous addresses) _ (code, t) r1 in
          let (rest, regions, same1) =
            regions-register_mr s p.value_address p.value_size false true made.0 made.1 e1 in
          let (c, same2) =
            ctx-reply made.1 server_kv_get_rendezvous addresses answer.0 answer.1 e2 in
          let with_ctx : Server → Server = λ u. record u { ctx = c } in
          let s1 : Server = record s { reg_mr_results = rest; regions = regions; ctx = c } in
          let same : answer.1 ≡ s1 = same2 ∙ ap with_ctx same1 in
          let v1 : IsServing s1 ks = record {
            keeps = v.keeps;
            fresh = v.fresh;
            table = v.table;
            values = v.values;
          } in
          let mr = some (mr_info made.0) in
          let mark : Server → Server = λ u. record u { database = set_mr_rdma u.database i p mr } in
          elim (Bool-cases (answer.0 == 0)) [
            | inl sent ↦ (
              ks,
              subst (λ u. IsServing u ks) (sym (ap mark same) ∙ answer_eq (rw sent at r2))
                  (Marked-IsServing k i p mr v1 f (marks mr)),
            )
            | inr lost ↦ (ks, subst (λ u. IsServing u ks) (sym same ∙ answer_eq (rw lost at r2)) v1)
          ]
    ]
