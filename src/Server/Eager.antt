-- ===== src/Server/Eager.antt =====
-- `handle_eager_kv_set`: a value that came with the request is stored under its key.
use network_optimization.Prelude.{
  ℕ, ◌+◌, ◌^◌, ◌≤◌, ◌<◌, ◌≡◌, refl, ap, ◌∙◌, none, some, List, true, false, if◌then◌else◌, length,
  arith,
}
use network_optimization.Prelude.Strings.{c_string, same_string, le_value, IsText}
use network_optimization.Heap.{Heap, string_at}
use network_optimization.Database.{KeyValueAddressPair, KeyValueAddressArray}
use network_optimization.Database.Insert.{lookup}
use network_optimization.Database.Table.{Key, add_key}
use network_optimization.Protocol.Layout.{set_eager, in_progress, set_done, text, word}
use network_optimization.Protocol.RoundTrip.{strlen_lem}
use network_optimization.Verbs.{PollResult, Outcome, returned}
use network_optimization.Server.{Server, is_busy, eager_store, handle_eager_kv_set}
use network_optimization.Server.Memory.{Grows-trans, string_at-Grows, copy_string_lem}
use network_optimization.Server.Reply.{Accepts, reply_lem}
use network_optimization.Server.Request.{Received, decode_three, busy_in, is_busy_lem}
use network_optimization.Server.Table.{view, IsServing, insert_entry_lem, answered, Stores}

-- As `Stores`, for a value with its size, which a lookup then finds.
abbrev pub StoresSize :
    Server → List Key → Key → List ℕ → ℕ → List ℕ → List PollResult → Outcome (ℕ × Server) → Type 0
StoresSize s ks key value n rs ps out =
    (h : Heap) × (a : KeyValueAddressArray) × (out
      ≡ returned (0, answered (record s { heap = h; database = a }) set_done rs ps))
    × IsServing (record s { heap = h; database = a }) (add_key key ks)
    × ((j : Key)
        → view j (add_key key ks) h a
          ≡ (if same_string key j then some (some value, false) else view j ks s.heap s.database))
    × (va : ℕ) × (lookup key (add_key key ks) a ≡ some (va, n, none))
    × (string_at h va ≡ some value)

module _ {s : Server} {ks : List Key} (v : IsServing s ks) {rs : List ℕ} {ps : List PollResult}
    (acc : Accepts s.ctx rs ps) (room : 4 ≤ length s.ctx.work) where
  -- Copying key and value and entering them in the table.
  eager_store_lem :
      (key value : List ℕ) (n : ℕ) (pk pn pv : List ℕ)
      → IsText key
      → IsText value
      → length value + 1 ≤ n
      → s.database.used_length + 1 < 2 ^ 31
      → c_string pk ≡ some key
      → le_value 8 pn ≡ some n
      → c_string pv ≡ some value
      → StoresSize s ks key value n rs ps (eager_store s pk pn pv)
  unfolding eager_store
  eager_store_lem key value n pk pn pv tk tv fits small ek en ev =
      let (h1, c1, g1, f1, n1, s1) =
        copy_string_lem s.heap (length key + 1) key v.fresh tk (omega arith) in
      let (h2, c2, g2, f2, n2, s2) = copy_string_lem h1 n value f1 tv fits in
      let entry : KeyValueAddressPair = record {
        key_address = s.heap.next;
        value_address = h1.next;
        value_size = n;
        mr_rdma = none;
      } in
      let key_there : string_at h2 s.heap.next ≡ some key =
        string_at-Grows s.heap.next g2 (omega arith) ∙ s1 in
      let (b, stored, serving, kept, shows) =
        insert_entry_lem key h2 entry v small (Grows-trans g1 g2) f2 key_there (omega arith)
          (omega arith) in
      let t : Server = record s { heap = h2; database = b } in
      (
        h2,
        b,
        rw (strlen_lem pk key ek, ek, c1, en, ev, c2, stored)
            (reply_lem t set_done rs ps acc tt room),
        serving,
        λ j. rw s2 at (shows j),
        h1.next,
        kept,
        s2,
      )

-- The size is kept with the value.
pub handle_eager_kv_set-StoresSize :
    {s : Server} {ks : List Key} {rs : List ℕ} {ps : List PollResult} (key value : List ℕ) (n : ℕ)
    (rest : List ℕ)
    → IsServing s ks
    → Accepts s.ctx rs ps
    → 4 ≤ length s.ctx.work
    → Received s.ctx (set_eager key n value) rest
    → length value + 1 ≤ n
    → s.database.used_length + 1 < 2 ^ 31
    → busy_in (view key ks s.heap s.database) ≡ false
    → StoresSize s ks key value n rs ps (handle_eager_kv_set s)
unfolding handle_eager_kv_set
handle_eager_kv_set-StoresSize {s} {ks} {rs} {ps} key value n rest v acc room r fits small free =
    let (pk, pn, pv, e, ek, en, ev) = decode_three (text key) (word 8 n) (text value) refl r in
    let stored =
      eager_store_lem v acc room key value n pk pn pv r.fit.0 r.fit.1.1.0 fits small ek en ev in
    let not_busy = ap (is_busy s) ek ∙ is_busy_lem key v ∙ ap returned free in
    rw (e, not_busy) stored

-- A set request for a key that is not in use, which comes with its value and with a size for it that
-- is large enough, is carried out, if the device takes the answer and fewer than 2 ^ 31 - 1 slots were
-- in use: the handler returns 0, the client
-- is told so, the key then shows the value and is free, every other key shows what it showed, and
-- the table stays in order.
pub handle_eager_kv_set-Stores :
    {s : Server} {ks : List Key} {rs : List ℕ} {ps : List PollResult} (key value : List ℕ) (n : ℕ)
    (rest : List ℕ)
    → IsServing s ks
    → Accepts s.ctx rs ps
    → 4 ≤ length s.ctx.work
    → Received s.ctx (set_eager key n value) rest
    → length value + 1 ≤ n
    → s.database.used_length + 1 < 2 ^ 31
    → busy_in (view key ks s.heap s.database) ≡ false
    → Stores s ks key (some value, false) set_done rs ps (handle_eager_kv_set s)
handle_eager_kv_set-Stores key value n rest v acc room r fits small free =
    let (h, a, done, serving, shows, va, there, content) =
      handle_eager_kv_set-StoresSize key value n rest v acc room r fits small free in
    (h, a, done, serving, shows)

-- A set request for a key that is in use changes nothing: the client is told so, and the handler
-- returns 0.
pub handle_eager_kv_set-busy :
    {s : Server} {ks : List Key} {rs : List ℕ} {ps : List PollResult} (key value : List ℕ) (n : ℕ)
    (rest : List ℕ)
    → IsServing s ks
    → Accepts s.ctx rs ps
    → 4 ≤ length s.ctx.work
    → Received s.ctx (set_eager key n value) rest
    → busy_in (view key ks s.heap s.database) ≡ true
    → handle_eager_kv_set s ≡ returned (0, answered s in_progress rs ps)
unfolding handle_eager_kv_set
handle_eager_kv_set-busy {s} {ks} {rs} {ps} key value n rest v acc room r busy =
    let (pk, pn, pv, e, ek, en, ev) = decode_three (text key) (word 8 n) (text value) refl r in
    rw (e, ek, is_busy_lem key v, busy) (reply_lem s in_progress rs ps acc tt room)
