-- ===== src/Server/Mark.antt =====
-- A key's status changes: an operation on its memory begins or ends.
use mathlib.Core.Option
use mathlib.Core.Path.{subst}
use network_optimization.Prelude.{
  ℕ, ◌<◌, ◌≡◌, sym, ◌∙◌, ◌⊎◌, inl, inr, Option, some, List, true, false, if◌then◌else◌, get_elem?,
  arith, Bool-cases,
}
use network_optimization.Prelude.Strings.{same_string}
use network_optimization.Heap.{string_at}
use network_optimization.Database.{
  MrInfo, KeyValueAddressPair, KeyValueAddressArray, get_key_value_address_pair, set_mr_rdma,
}
use network_optimization.Database.Table.{Key, contains, find, entries}
use network_optimization.Database.Insert.{value_of, lookup}
use network_optimization.Database.Lookup.{contains-get}
use network_optimization.Database.Status.{Marked, slot_of, set_mr_rdma_lem}
use network_optimization.Server.{Server, is_registered}
use network_optimization.Server.Request.{found_lem}
use network_optimization.Server.Table.{seen, view, IsServing}

-- The table stays in order; the key shows its value with the new status, and every other key what
-- it showed.
pub marked_lem :
    {s : Server} {ks : List Key} (k : Key) (p : KeyValueAddressPair) (mr : Option MrInfo)
    (b : KeyValueAddressArray)
    → IsServing s ks
    → find k ks (entries s.database) ≡ some p
    → Marked s.heap s.database ks k p mr b
    → IsServing (record s { database = b }) ks
      × ((j : Key)
          → view j ks s.heap b ≡ (
              if same_string k j
              then some (string_at s.heap p.value_address, is_registered mr)
              else view j ks s.heap s.database))
marked_lem {s} {ks} k p mr b v f (valid, looks) = (
  record {
    keeps = v.keeps;
    fresh = v.fresh;
    table = valid;
    values = λ j va size m e. below j va size m (Bool-cases (same_string k j)) (sym (looks j) ∙ e);
  },
  λ j. shows j (Bool-cases (same_string k j)) (looks j),
)
  where
    there : lookup k ks s.database ≡ some (p.value_address, p.value_size, p.mr_rdma)
    there = rw f

    below :
        (j : Key) (va size : ℕ) (m : Option MrInfo)
        → ((same_string k j ≡ true) ⊎ (same_string k j ≡ false))
        → (if same_string k j
            then some (p.value_address, p.value_size, mr)
            else lookup j ks s.database)
          ≡ some (va, size, m)
        → va < s.heap.next
    below j va size m (inl same) e =
        subst (λ q. q < s.heap.next) (address-eq (rw same at e))
          (v.values k p.value_address p.value_size p.mr_rdma there)
      where
        address-eq :
            ◌≡◌ {A = Option (ℕ × ℕ × Option MrInfo)}
              (some (p.value_address, p.value_size, mr))
              (some (va, size, m))
            → p.value_address ≡ va
        address-eq x = ground arith
    below j va size m (inr other) e = v.values j va size m (rw other at e)

    shows :
        (j : Key)
        → ((same_string k j ≡ true) ⊎ (same_string k j ≡ false))
        → {found : Option (ℕ × ℕ × Option MrInfo)}
        → found ≡ (
            if same_string k j
            then some (p.value_address, p.value_size, mr)
            else lookup j ks s.database)
        → Option.map (seen s.heap) found ≡ (
            if same_string k j
            then some (string_at s.heap p.value_address, is_registered mr)
            else view j ks s.heap s.database)
    shows j (inl same) x = rw (x, same)
    shows j (inr other) x = rw (x, other)

-- A key that the table holds: its slot, and what writing its status leads to.
pub entry_lem :
    {s : Server} {ks : List Key} (k : Key) (va size : ℕ) (mr : Option MrInfo)
    → IsServing s ks
    → lookup k ks s.database ≡ some (va, size, mr)
    → (contains k ks ≡ true)
      × (i : ℕ) × (p : KeyValueAddressPair) × (get_key_value_address_pair s.heap s.database (some k)
          ≡ some (some i))
      × (get_elem? s.database.head i ≡ some p)
      × (find k ks (entries s.database) ≡ some p)
      × (value_of p ≡ (va, size, mr))
      × ((mr' : Option MrInfo)
          → Marked s.heap s.database ks k p mr' (set_mr_rdma s.database i p mr'))
entry_lem {s} {ks} k va size mr v there =
    let (i, p, q, g, gp, f, e, lt) = slot_of k v.table held in
    let same : ◌≡◌ {A = Option (ℕ × ℕ × Option MrInfo)} (some (value_of p)) (some (va, size, mr)) =
      rw f at there in
    (held, i, p, q, gp, f, cc, λ mr'. set_mr_rdma_lem k i p mr' v.table g e lt)
  where
    held : contains k ks ≡ true
    held = elim (found_lem k v) [
      | inl (q, none_seen) ↦ let clash = rw there at none_seen in absurd cc
      | inr (i, p, q, g, gp, f) ↦ contains-get k i ks g
    ]
