-- ===== src/Database/Tests.antt =====
-- A table with the keys "a" and "b", and its operations on it.
use network_optimization.Prelude.{ℕ, zero, suc, ◌≡◌, refl, Option, none, some, List, [], ◌∷◌, arith}
use network_optimization.Prelude.Strings.{c_string, same_string}
use network_optimization.Heap.{Heap, string_at}
use network_optimization.Database.{
  MrInfo, KeyValueAddressPair, KeyValueAddressArray, insert_to_array, delete_from_array,
  get_key_value_address_pair, deregister_rdma_mr,
}
use network_optimization.Database.Table.{find, entries, IsValid}
use network_optimization.Database.Lookup.{Search, get_key_value_address_pair_lem}
use network_optimization.Database.Insert.{Inserted, insert_to_array_lem}
use network_optimization.Database.Status.{Marked, outcome, deregister_rdma_mr_lem}
use network_optimization.Database.Delete.{delete_from_array-full}

abbrev a_key : List ℕ
a_key = 97 ∷ []

abbrev b_key : List ℕ
b_key = 98 ∷ []

blocks : ℕ → Option (List ℕ)
blocks zero = some (97 ∷ 0 ∷ [])
blocks (suc zero) = some (98 ∷ 0 ∷ [])
blocks (suc (suc n)) = none

abbrev memory : Heap
memory = record { next = 2; cell = blocks; stale = λ i. 85 }

abbrev region : Option MrInfo
region = some (record { mr = 4; mr_start_ptr = 1; mr_size = 2 })

abbrev table : KeyValueAddressArray
table = record {
  head =
      record { key_address = 0; value_address = 0; value_size = 2; mr_rdma = none }
      ∷ record { key_address = 1; value_address = 1; value_size = 2; mr_rdma = region }
      ∷ [];
  used_length = 2;
  total_length = 2;
}

abbrev entry : KeyValueAddressPair
entry = record { key_address = 1; value_address = 0; value_size = 2; mr_rdma = none }

table-IsValid : IsValid memory table (a_key ∷ b_key ∷ [])
unfolding blocks string_at c_string same_string
table-IsValid = record {
  within = omega arith;
  slots = refl;
  some_room = omega arith;
  no_overflow = omega arith;
  countable = omega arith;
  keyed = (refl, omega arith, (refl, omega arith, tt));
  distinct = (refl, (refl, tt));
}

insert_to_array_example :
    (b : KeyValueAddressArray) × (insert_to_array 0 entry memory table entry ≡ some (memory, b))
    × Inserted memory table (a_key ∷ b_key ∷ []) b_key entry b
unfolding blocks string_at c_string
insert_to_array_example =
    insert_to_array_lem b_key 0 entry entry table-IsValid (λ e. omega arith) (omega arith) refl
      (omega arith)

get_key_value_address_pair_example :
    (r : Option ℕ) × (get_key_value_address_pair memory table (some b_key) ≡ some r)
    × Search table (a_key ∷ b_key ∷ []) b_key r
get_key_value_address_pair_example = get_key_value_address_pair_lem b_key table-IsValid

deregister_rdma_mr_example :
    (p : KeyValueAddressPair) × (b : KeyValueAddressArray) × (find b_key
        (a_key ∷ b_key ∷ [])
        (entries table)
      ≡ some p)
    × (deregister_rdma_mr (λ r. 0) memory table (some b_key)
        ≡ some ((outcome (λ r. 0) p.mr_rdma).0, b))
    × Marked memory table (a_key ∷ b_key ∷ []) b_key p (outcome (λ r. 0) p.mr_rdma).1 b
unfolding same_string
deregister_rdma_mr_example = deregister_rdma_mr_lem (λ r. 0) b_key table-IsValid refl

delete_from_array-full_example : delete_from_array 0 memory table (some a_key) ≡ none
delete_from_array-full_example =
    delete_from_array-full a_key 0 0 table-IsValid refl (λ e. omega arith) refl
