-- ===== src/Database/Table.antt =====
-- The abstract view of the table: its keys as strings, in the order of the slots, and the pair
-- that a key maps to.
use network_optimization.Prelude.{
  ℕ, ◌^◌, ◌≤◌, ◌<◌, ◌≡◌, Option, none, some, List, [], ◌∷◌, ◌++◌, Bool, true, false, if◌then◌else◌,
  length, take,
}
use network_optimization.Prelude.Strings.{same_string}
use network_optimization.Heap.{Heap, string_at}
use network_optimization.Database.{KeyValueAddressPair, KeyValueAddressArray}

abbrev pub Key : Type 0
Key = List ℕ

abbrev pub contains : Key → List Key → Bool
contains k [] = false
contains k (j ∷ ks) = if same_string j k then true else contains k ks

-- No key stands twice.
abbrev pub IsDistinct : List Key → Type 0
IsDistinct [] = Unit {0}
IsDistinct (k ∷ ks) = (contains k ks ≡ false) × IsDistinct ks

-- The pair under a key.
abbrev pub find {ℓ} : {A : Type ℓ} → Key → List Key → List A → Option A
find k [] ps = none
find k (j ∷ ks) [] = none
find k (j ∷ ks) (p ∷ ps) = if same_string j k then some p else find k ks ps

-- The keys after an insertion.
abbrev pub add_key : Key → List Key → List Key
add_key k ks = if contains k ks then ks else ks ++ (k ∷ [])

-- The slots in use.
abbrev pub entries : KeyValueAddressArray → List KeyValueAddressPair
entries a = take a.used_length a.head

-- Slot by slot, the key pointer leads to the key, and lies below the next block to be allocated.
abbrev pub Keyed : Heap → List KeyValueAddressPair → List Key → Type 0
Keyed h [] [] = Unit {0}
Keyed h [] (k ∷ ks) = ⊥
Keyed h (p ∷ ps) [] = ⊥
Keyed h (p ∷ ps) (k ∷ ks) =
    (string_at h p.key_address ≡ some k) × (p.key_address < h.next) × Keyed h ps ks

-- `ks` are the keys of the table, its lengths are right, and an `int` counts the used slots.
pub record IsValid (h : Heap) (a : KeyValueAddressArray) (ks : List Key) : Type 0 where
  pub within : a.used_length ≤ a.total_length
  pub slots : length a.head ≡ a.total_length
  pub some_room : 0 < a.total_length
  pub no_overflow : a.total_length ≤ 2 ^ 58
  pub countable : a.used_length < 2 ^ 31
  pub keyed : Keyed h (entries a) ks
  pub distinct : IsDistinct ks
