-- ===== src/Server/Rendezvous.antt =====
-- `handle_RENDEZVOUS_KV_SET_KEY`: memory is set aside for a value that the client will write there.
use mathlib.Core.Path.{subst}
use network_optimization.Prelude.{
  ℕ, suc, ◌+◌, ◌^◌, ◌≤◌, ◌<◌, ◌≡◌, refl, sym, ap, ◌∙◌, Option, some, List, [], ◌∷◌, true, false,
  if◌then◌else◌, length, length-append, arith,
}
use network_optimization.Prelude.Strings.{
  c_string, same_string, le_bytes, length-le_bytes, le_value, swap_bytes, IsText,
}
use network_optimization.Heap.{Heap, malloc, tabulate, string_at}
use network_optimization.Heap.Frame.{
  next-malloc, malloc-IsFresh, cell-malloc_self, length-tabulate, string_at-block,
}
use network_optimization.Database.{KeyValueAddressPair, KeyValueAddressArray}
use network_optimization.Database.Insert.{lookup}
use network_optimization.Database.Table.{Key, add_key}
use network_optimization.Protocol.Layout.{
  Message, fields, payload, AllFields, set_rendezvous, set_address, in_progress, operation, text,
  word,
}
use network_optimization.Protocol.RoundTrip.{strlen_lem}
use network_optimization.Verbs.{PollResult, Outcome, returned}
use network_optimization.Verbs.Swap.{swap_bytes-lt}
use network_optimization.Server.{
  Server, Region, reply, is_busy, region_of, mr_info, rendezvous_store,
  handle_rendezvous_kv_set_key,
}
use network_optimization.Server.Memory.{
  Grows, Grows-trans, malloc-Grows, string_at-Grows, copy_string_lem,
}
use network_optimization.Server.Register.{registered, register_mr_lem}
use network_optimization.Server.Reply.{Accepts, reply_lem}
use network_optimization.Server.Request.{Received, decode_two, busy_in, is_busy_lem}
use network_optimization.Server.Table.{view, IsServing, insert_entry_lem, answered}

ruleset words = (length-append, length-le_bytes)

-- What an offer of a block of `n` bytes at `va` leads to: as `Stores`, with the block there, of that
-- length, and its address, size and region in the table.
abbrev pub StoresBlock :
    Server
    → List Key
    → Key
    → ℕ
    → ℕ
    → Region
    → Message
    → List ℕ
    → List PollResult
    → Outcome (ℕ × Server)
    → Type 0
StoresBlock s ks key va n region m rs ps out =
    (h : Heap) × (a : KeyValueAddressArray) × (block : List ℕ) × (out
      ≡ returned (0, answered (record s { heap = h; database = a }) m rs ps))
    × IsServing (record s { heap = h; database = a }) (add_key key ks)
    × ((j : Key)
        → view j (add_key key ks) h a ≡ (
            if same_string key j then some (c_string block, true) else view j ks s.heap s.database))
    × (h.cell va ≡ some block)
    × (length block ≡ n)
    × (lookup key (add_key key ks) a ≡ some (va, n, some (mr_info region)))

-- The new value block: one behind the key's.
abbrev pub address_for : Server → ℕ
address_for s = suc s.heap.next

-- The answer with the address and remote key of a new block.
address_reply :
    (s : Server) (va rkey : ℕ) (rs : List ℕ) (ps : List PollResult)
    → Accepts s.ctx rs ps
    → 16 ≤ length s.ctx.work
    → reply s
        (operation (set_address (swap_bytes 8 va) (swap_bytes 4 rkey)))
        (le_bytes 8 (swap_bytes 8 va) ∷ le_bytes 4 (swap_bytes 4 rkey) ∷ [])
      ≡ returned (0, answered s (set_address (swap_bytes 8 va) (swap_bytes 4 rkey)) rs ps)
address_reply s va rkey rs ps acc room =
    let m = set_address (swap_bytes 8 va) (swap_bytes 4 rkey) in
    let fit : AllFields (fields m) =
      ((omega arith, swap_bytes-lt 8 va), ((omega arith, swap_bytes-lt 4 rkey), tt)) in
    let size : length (payload (fields m)) ≡ 12 = simp words in
    reply_lem s m rs ps acc fit (omega arith)

module _ {s : Server} {ks : List Key} (v : IsServing s ks) {rs : List ℕ} {ps : List PollResult}
    (acc : Accepts s.ctx rs ps) where
  rendezvous_store_lem :
      (key : List ℕ) (n mr rkey : ℕ) (regs : List (Option (ℕ × ℕ))) (pk pn : List ℕ)
      → 16 ≤ length s.ctx.work
      → IsText key
      → s.database.used_length + 1 < 2 ^ 31
      → c_string pk ≡ some key
      → le_value 8 pn ≡ some n
      → s.reg_mr_results ≡ some (mr, rkey) ∷ regs
      → StoresBlock
          (registered s (region_of (address_for s) n true false mr rkey) regs)
          ks
          key
          (address_for s)
          n
          (region_of (address_for s) n true false mr rkey)
          (set_address (swap_bytes 8 (address_for s)) (swap_bytes 4 rkey))
          rs
          ps
          (rendezvous_store s pk pn)
  unfolding rendezvous_store
  rendezvous_store_lem key n mr rkey regs pk pn room tk small ek en reg =
      let (h1, c1, g1, f1, n1, s1) =
        copy_string_lem s.heap (length key + 1) key v.fresh tk (omega arith) in
      let h2 = malloc h1 n in
      let g2 : Grows s.heap h2 = Grows-trans g1 (malloc-Grows h1 n) in
      let region = region_of h1.next n true false mr rkey in
      let t1 = registered (record s { heap = h2 }) region regs in
      let t2 =
        answered (registered s region regs) (set_address (swap_bytes 8 h1.next) (swap_bytes 4 rkey))
          rs ps in
      let entry : KeyValueAddressPair = record {
        key_address = s.heap.next;
        value_address = h1.next;
        value_size = n;
        mr_rdma = some (mr_info region);
      } in
      let v2 : IsServing t2 ks = record {
        keeps = v.keeps;
        fresh = v.fresh;
        table = v.table;
        values = v.values;
      } in
      let key_there : string_at h2 s.heap.next ≡ some key =
        string_at-Grows s.heap.next (malloc-Grows h1 n) (omega arith) ∙ s1 in
      let grown : h2.next ≡ suc h1.next = next-malloc h1 n in
      let made : h2.cell h1.next ≡ some (tabulate h1.stale n) = cell-malloc_self h1 n in
      let read : string_at h2 h1.next ≡ c_string (tabulate h1.stale n) =
        string_at-block h2 h1.next (tabulate h1.stale n) made in
      let (b, stored, serving, kept, shows) =
        insert_entry_lem key h2 entry v2 small g2 (malloc-IsFresh h1 n f1) key_there (omega arith)
          (omega arith) in
      subst
        (λ va.
          StoresBlock (registered s (region_of va n true false mr rkey) regs) ks key va n
            (region_of va n true false mr rkey) (set_address (swap_bytes 8 va) (swap_bytes 4 rkey))
            rs ps (rendezvous_store s pk pn))
        n1
        (
          h2,
          b,
          tabulate h1.stale n,
          rw (
            strlen_lem pk key ek,
            ek,
            c1,
            en,
            register_mr_lem (record s { heap = h2 }) h1.next n true false mr rkey regs reg,
            address_reply t1 h1.next rkey rs ps (moved t1 refl) room,
            stored,
          ),
          record {
            keeps = serving.keeps;
            fresh = serving.fresh;
            table = serving.table;
            values = serving.values;
          },
          λ j. rw read at (shows j),
          made,
          length-tabulate h1.stale n,
          kept,
        )
    where
      moved : (t : Server) → t.ctx ≡ s.ctx → Accepts t.ctx rs ps
      moved t e = subst (λ c. Accepts c rs ps) (sym e) acc

-- A rendezvous set request for a key that is not in use is carried out, if the device takes the
-- answer and registers the memory, and fewer than 2 ^ 31 - 1 slots were in use: the handler returns 0 and sends the client the address and the
-- remote key of a new block of exactly the size asked for, which is registered for remote writes. The
-- key is then in use, with that block, that size and that region in the table; every other key shows
-- what it showed, and the table stays in order.
pub handle_rendezvous_kv_set_key-offers :
    {s : Server} {ks : List Key} {rs : List ℕ} {ps : List PollResult} (key : List ℕ) (n mr rkey : ℕ)
    (regs : List (Option (ℕ × ℕ))) (rest : List ℕ)
    → IsServing s ks
    → Accepts s.ctx rs ps
    → 16 ≤ length s.ctx.work
    → Received s.ctx (set_rendezvous key n) rest
    → s.database.used_length + 1 < 2 ^ 31
    → s.reg_mr_results ≡ some (mr, rkey) ∷ regs
    → busy_in (view key ks s.heap s.database) ≡ false
    → StoresBlock
        (registered s (region_of (address_for s) n true false mr rkey) regs)
        ks
        key
        (address_for s)
        n
        (region_of (address_for s) n true false mr rkey)
        (set_address (swap_bytes 8 (address_for s)) (swap_bytes 4 rkey))
        rs
        ps
        (handle_rendezvous_kv_set_key s)
unfolding handle_rendezvous_kv_set_key
handle_rendezvous_kv_set_key-offers {s} {ks} {rs} {ps} key n mr rkey regs rest v acc room r small
      reg free =
    let (pk, pn, e, ek, en) = decode_two (text key) (word 8 n) refl r in
    let not_busy = ap (is_busy s) ek ∙ is_busy_lem key v ∙ ap returned free in
    let stored = rendezvous_store_lem v acc key n mr rkey regs pk pn room r.fit.0 small ek en reg in
    rw (e, not_busy) stored

-- A rendezvous set request for a key that is in use changes nothing: the client is told so, and the
-- handler returns 0.
pub handle_rendezvous_kv_set_key-busy :
    {s : Server} {ks : List Key} {rs : List ℕ} {ps : List PollResult} (key : List ℕ) (n : ℕ)
    (rest : List ℕ)
    → IsServing s ks
    → Accepts s.ctx rs ps
    → 4 ≤ length s.ctx.work
    → Received s.ctx (set_rendezvous key n) rest
    → busy_in (view key ks s.heap s.database) ≡ true
    → handle_rendezvous_kv_set_key s ≡ returned (0, answered s in_progress rs ps)
unfolding handle_rendezvous_kv_set_key
handle_rendezvous_kv_set_key-busy {s} {ks} {rs} {ps} key n rest v acc room r busy =
    let (pk, pn, e, ek, en) = decode_two (text key) (word 8 n) refl r in
    rw (e, ek, is_busy_lem key v, busy) (reply_lem s in_progress rs ps acc tt room)
