-- ===== src/Server/Table.antt =====
-- The server's table as its clients see it: for each key the value and whether it is in use.
use mathlib.Core.Option
use mathlib.Core.Path.{subst}
use network_optimization.Prelude.{
  ℕ, ◌+◌, ◌^◌, ◌<◌, ◌≡◌, ◌≢◌, sym, ap, ◌∙◌, ◌⊎◌, inl, inr, Option, some, List, Bool, true, false,
  if◌then◌else◌, arith, Bool-cases, Option-cases,
}
use network_optimization.Prelude.Strings.{same_string, same_string_refl}
use network_optimization.Heap.{Heap, string_at}
use network_optimization.Heap.Frame.{IsFresh}
use network_optimization.Database.{MrInfo, KeyValueAddressPair, KeyValueAddressArray}
use network_optimization.Database.Table.{Key, add_key, IsValid}
use network_optimization.Database.Insert.{value_of, lookup, insert_to_array_lem}
use network_optimization.Verbs.{Outcome, returned, PollResult}
use network_optimization.Protocol.Layout.{Message}
use network_optimization.Server.Reply.{transmitted}
use network_optimization.Server.{Server, is_registered, insert}
use network_optimization.Server.Memory.{Grows, IsValid-Grows, string_at-Grows}

-- What a lookup of a key finds: the string at the value's address, and whether a region is
-- registered for it.
abbrev pub View : Type 0
View = Option (List ℕ) × Bool

abbrev pub seen : Heap → ℕ × ℕ × Option MrInfo → View
seen h (va, size, mr) = (string_at h va, is_registered mr)

abbrev pub view : Key → List Key → Heap → KeyValueAddressArray → Option View
view k ks h a = Option.map (seen h) (lookup k ks a)

-- `ks` are the keys of the server's table. Nothing is freed, the heap is fresh behind `next`, and
-- every value was allocated.
pub record IsServing (s : Server) (ks : List Key) : Type 0 where
  pub keeps : s.kv_malloc ≢ 1
  pub fresh : IsFresh s.heap
  pub table : IsValid s.heap s.database ks
  pub values :
      (k : Key) (va size : ℕ) (mr : Option MrInfo)
      → lookup k ks s.database ≡ some (va, size, mr)
      → va < s.heap.next

-- More memory does not change what is seen.
pub view-Grows :
    {s : Server} {ks : List Key} (k : Key) (h' : Heap)
    → IsServing s ks
    → Grows s.heap h'
    → view k ks h' s.database ≡ view k ks s.heap s.database
view-Grows {s} {ks} k h' v g = elim (Option-cases (lookup k ks s.database)) [
  | inl e ↦ rw e
  | inr ((va, size, mr), e) ↦
      rw e (ap (λ t. some (t, is_registered mr)) (string_at-Grows va g (v.values k va size mr e)))
]

-- Storing an entry whose key and value are new blocks: the table stays in order, its key has the
-- entry and shows its value, and every other key shows what it showed.
pub insert_entry_lem :
    {s : Server} {ks : List Key} (k : Key) (h' : Heap) (entry : KeyValueAddressPair)
    → IsServing s ks
    → s.database.used_length + 1 < 2 ^ 31
    → Grows s.heap h'
    → IsFresh h'
    → string_at h' entry.key_address ≡ some k
    → entry.key_address < h'.next
    → entry.value_address < h'.next
    → (b : KeyValueAddressArray) × (insert (record s { heap = h' }) entry
        ≡ returned (record s { heap = h'; database = b }))
      × IsServing (record s { heap = h'; database = b }) (add_key k ks)
      × (lookup k (add_key k ks) b ≡ some (value_of entry))
      × ((j : Key)
          → view j (add_key k ks) h' b ≡ (
              if same_string k j
              then some (seen h' (value_of entry))
              else view j ks s.heap s.database))
unfolding insert
insert_entry_lem {s} {ks} k h' entry v small g f e lt lt' =
    let (b, done, (valid, looks, _)) =
      insert_to_array_lem k s.kv_malloc s.stale_slot entry (IsValid-Grows g v.table) v.keeps small e
        lt in
    (
      b,
      rw done,
      record {
        keeps = v.keeps;
        fresh = f;
        table = valid;
        values = λ j va size mr e'.
            below j va size mr (Bool-cases (same_string k j)) (sym (looks j) ∙ e');
      },
      looks k
          ∙ ap (λ c. if c then some (value_of entry) else lookup k ks s.database)
              (same_string_refl k),
      λ j. shows j (Bool-cases (same_string k j)) (looks j),
    )
  where
    below :
        (j : Key) (va size : ℕ) (mr : Option MrInfo)
        → ((same_string k j ≡ true) ⊎ (same_string k j ≡ false))
        → (if same_string k j then some (value_of entry) else lookup j ks s.database)
          ≡ some (va, size, mr)
        → va < h'.next
    below j va size mr (inl same) e' = subst (λ p. p < h'.next) (address-eq (rw same at e')) lt'
      where
        address-eq :
            ◌≡◌ {A = Option (ℕ × ℕ × Option MrInfo)} (some (value_of entry)) (some (va, size, mr))
            → entry.value_address ≡ va
        address-eq x = ground arith
    below j va size mr (inr other) e' =
        omega (arith, v.values j va size mr (rw other at e'), g.longer)

    shows :
        (j : Key)
        → ((same_string k j ≡ true) ⊎ (same_string k j ≡ false))
        → {found : Option (ℕ × ℕ × Option MrInfo)}
        → found ≡ (if same_string k j then some (value_of entry) else lookup j ks s.database)
        → Option.map (seen h') found ≡ (
            if same_string k j
            then some (seen h' (value_of entry))
            else view j ks s.heap s.database)
    shows j (inl same) x = rw (x, same)
    shows j (inr other) x = rw (x, other) (view-Grows j h' v g)

-- The same, as clients see it.
pub insert_lem :
    {s : Server} {ks : List Key} (k : Key) (h' : Heap) (entry : KeyValueAddressPair)
    → IsServing s ks
    → s.database.used_length + 1 < 2 ^ 31
    → Grows s.heap h'
    → IsFresh h'
    → string_at h' entry.key_address ≡ some k
    → entry.key_address < h'.next
    → entry.value_address < h'.next
    → (b : KeyValueAddressArray) × (insert (record s { heap = h' }) entry
        ≡ returned (record s { heap = h'; database = b }))
      × IsServing (record s { heap = h'; database = b }) (add_key k ks)
      × ((j : Key)
          → view j (add_key k ks) h' b ≡ (
              if same_string k j
              then some (seen h' (value_of entry))
              else view j ks s.heap s.database))
insert_lem k h' entry v small g f e lt lt' =
    let (b, stored, serving, kept, shows) = insert_entry_lem k h' entry v small g f e lt lt' in
    (b, stored, serving, shows)

-- The server after its client was sent `m`.
abbrev pub answered : Server → Message → List ℕ → List PollResult → Server
answered s m rs ps = record s { ctx = transmitted m rs ps s.ctx }

-- A handler returned 0 and answered `m`; its key then shows `shown`, every other key what it
-- showed, and the table is in order.
abbrev pub Stores :
    Server
    → List Key
    → Key
    → View
    → Message
    → List ℕ
    → List PollResult
    → Outcome (ℕ × Server)
    → Type 0
Stores s ks key shown m rs ps out =
    (h : Heap) × (a : KeyValueAddressArray) × (out
      ≡ returned (0, answered (record s { heap = h; database = a }) m rs ps))
    × IsServing (record s { heap = h; database = a }) (add_key key ks)
    × ((j : Key)
        → view j (add_key key ks) h a
          ≡ (if same_string key j then some shown else view j ks s.heap s.database))
