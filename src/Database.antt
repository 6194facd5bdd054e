-- ===== src/Database.antt =====
-- LowLatencyProtocols/dynamic_array.h: the server's table of key-value pairs, an array that
-- doubles when it is full. `none` is an undefined access.
pub mod Table
pub mod Lookup
pub mod Slots
pub mod Insert
pub mod Status
pub mod Delete
pub mod Tests
use network_optimization.Prelude.{
  ℕ, zero, suc, ◌+◌, ◌*◌, ◌/◌, ◌-◌, ◌%◌, ◌^◌, Option, none, some, List, [], ◌∷◌, ◌++◌, Bool, true,
  false, ◌==◌, ltb, if◌then◌else◌, length, get_elem?, set, take, replicate, not,
}
use network_optimization.Prelude.Strings.{◌>>=◌, same_string}
use network_optimization.Heap.{Heap, free, string_at}

-- `struct MRInfo` of a value that a client reads or writes by RDMA. `lkey`, `rkey` and the pointer
-- itself belong to the verbs library, which knows the region by `mr`.
pub record MrInfo : Type 0 where
  pub mr : ℕ
  pub mr_start_ptr : ℕ
  pub mr_size : ℕ

-- `mr_rdma` is `none` where the source has NULL.
pub record KeyValueAddressPair : Type 0 where
  pub key_address : ℕ
  pub value_address : ℕ
  pub value_size : ℕ
  pub mr_rdma : Option MrInfo

-- `head` holds every allocated slot; those from `used_length` on hold whatever was there.
pub record KeyValueAddressArray : Type 0 where
  pub head : List KeyValueAddressPair
  pub used_length : ℕ
  pub total_length : ℕ

-- `kv_malloc == 1;` compares and assigns nothing.
unfoldable pub set_kv_malloc : ℕ → ℕ
set_kv_malloc kv_malloc = kv_malloc

-- A `size_t` number of slots of 32 bytes each, as `malloc` and `realloc` are asked for it.
abbrev pub slots_of : ℕ → ℕ
slots_of n = 32 * n % 2 ^ 64 / 32

unfoldable pub initialize_key_value_address_array : KeyValueAddressPair → ℕ → KeyValueAddressArray
initialize_key_value_address_array stale initial_size = record {
  head = replicate (slots_of initial_size) stale;
  used_length = 0;
  total_length = initial_size;
}

-- `realloc`: the slots that fit are kept, the new ones hold `stale`.
abbrev pub resize : KeyValueAddressPair → ℕ → List KeyValueAddressPair → List KeyValueAddressPair
resize stale n slots = take n (slots ++ replicate n stale)

abbrev pub strcmp_eq : Heap → ℕ → Option (List ℕ) → Option Bool
strcmp_eq h p key = do s ← string_at h p; k ← key; some (same_string s k)

-- The loop that insert, delete and get share: the first index from `i` on, among the next slots,
-- whose key is the same string. `key` is the string that the caller's pointer leads to. The index is
-- an `int`, and to count it past 2 ^ 31 - 1 is undefined.
unfoldable pub find_index :
    Heap → Option (List ℕ) → ℕ → ℕ → List KeyValueAddressPair → Option (Option ℕ)
find_index h key i zero slots = some none
find_index h key i (suc n) [] = none
find_index h key i (suc n) (p ∷ slots) =
    let rest = find_index h key (suc i) n slots in
    strcmp_eq h p.key_address key >>= λ same.
    if same then some (some i) else (if ltb (suc i) (2 ^ 31) then rest else none)

-- The branch of insert on a key that is there: the old key pointer stays. Only under `kv_malloc`
-- are the new key and the old value freed.
replace_at :
    ℕ
    → Heap
    → KeyValueAddressArray
    → KeyValueAddressPair
    → ℕ
    → KeyValueAddressPair
    → Option (Heap × KeyValueAddressArray)
replace_at kv_malloc h a entry i old =
    let write = λ (e : KeyValueAddressPair). record a { head = set a.head i e } in
    if old.key_address == entry.key_address
    then some (h, write entry)
    else let entry' = record entry { key_address = old.key_address } in
      if kv_malloc == 1
      then (do
        h1 ← free h entry.key_address
        h2 ← free h1 old.value_address
        some (h2, write entry'))
      else some (h, write entry')

-- The array is doubled if it is full.
make_room : KeyValueAddressPair → KeyValueAddressArray → KeyValueAddressArray
make_room stale a =
    let total = a.total_length * 2 % 2 ^ 64 in
    if a.used_length == a.total_length
    then record a { head = resize stale (slots_of total) a.head; total_length = total }
    else a

-- The branch of insert on a new key: a write past the last slot is undefined.
append_entry :
    KeyValueAddressPair → KeyValueAddressArray → KeyValueAddressPair → Option KeyValueAddressArray
unfolding make_room
append_entry stale a entry =
    let b = make_room stale a in
    if ltb b.used_length (length b.head)
    then some (record b {
      head = set b.head b.used_length entry;
      used_length = (b.used_length + 1) % 2 ^ 64;
    })
    else none

pub insert_to_array :
    ℕ
    → KeyValueAddressPair
    → Heap
    → KeyValueAddressArray
    → KeyValueAddressPair
    → Option (Heap × KeyValueAddressArray)
unfolding replace_at append_entry
insert_to_array kv_malloc stale h a entry = do
  found ← find_index h (string_at h entry.key_address) 0 a.used_length a.head
  elim found [
    | some i ↦ (get_elem? a.head i >>= λ old. replace_at kv_malloc h a entry i old)
    | none ↦ (append_entry stale a entry >>= λ b. some (h, b))
  ]

-- The search stops one short of the used slots, in `size_t`; the last slot that is read is the
-- one behind them.
pub delete_from_array :
    ℕ → Heap → KeyValueAddressArray → Option (List ℕ) → Option (Heap × KeyValueAddressArray)
unfolding find_index
delete_from_array kv_malloc h a key = do
  found ← find_index h key 0 ((a.used_length + (2 ^ 64 - 1)) % 2 ^ 64) a.head
  elim found [
    | none ↦ some (h, a)
    | some i ↦ (do
      old ← get_elem? a.head i
      h' ←
          if kv_malloc == 1
          then (free h old.key_address >>= λ h1. free h1 old.value_address)
          else some h
      last ← get_elem? a.head a.used_length
      some (
        h',
        record a {
          head = set a.head i last;
          used_length = (a.used_length + (2 ^ 64 - 1)) % 2 ^ 64;
        },
      ))
  ]

-- Here too the index is an `int`.
free_pairs : Heap → ℕ → ℕ → List KeyValueAddressPair → Option Heap
free_pairs h i zero slots = some h
free_pairs h i (suc n) [] = none
free_pairs h i (suc n) (p ∷ slots) = do
  h1 ← free h p.key_address
  h2 ← free h1 p.value_address
  let rest = free_pairs h2 (suc i) n slots
  if ltb (suc i) (2 ^ 31) then rest else none

-- The slots and the array itself are released with it; the heap of strings changes only under
-- `kv_malloc`.
unfoldable pub free_array : ℕ → Heap → KeyValueAddressArray → Option Heap
unfolding free_pairs
free_array kv_malloc h a = if kv_malloc == 1 then free_pairs h 0 a.used_length a.head else some h

-- The result is the index of the pair that the returned pointer leads to, `none` for NULL.
unfoldable pub get_key_value_address_pair :
    Heap → KeyValueAddressArray → Option (List ℕ) → Option (Option ℕ)
unfolding find_index
get_key_value_address_pair h a key = find_index h key 0 a.used_length a.head

abbrev pub set_mr_rdma :
    KeyValueAddressArray → ℕ → KeyValueAddressPair → Option MrInfo → KeyValueAddressArray
set_mr_rdma a i p mr = record a { head = set a.head i (record p { mr_rdma = mr }) }

-- The region of a pair is released, if it has one, and then the pair's `mr_rdma` is NULL. The status
-- comes with the array.
release :
    (ℕ → ℕ)
    → KeyValueAddressArray
    → ℕ
    → KeyValueAddressPair
    → Option MrInfo
    → Option (ℕ × KeyValueAddressArray)
release dereg_mr a i p none = some (0, a)
release dereg_mr a i p (some info) =
    if dereg_mr info.mr == 0 then some (0, set_mr_rdma a i p none) else some (1, a)

-- `dereg_mr` is what `ibv_dereg_mr` answers for a region. A key that is not there is a read
-- through NULL.
pub deregister_rdma_mr :
    (ℕ → ℕ) → Heap → KeyValueAddressArray → Option (List ℕ) → Option (ℕ × KeyValueAddressArray)
unfolding release
deregister_rdma_mr dereg_mr h a key = do
  found ← get_key_value_address_pair h a key
  i ← found
  p ← get_elem? a.head i
  release dereg_mr a i p p.mr_rdma
