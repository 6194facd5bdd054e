-- ===== src/Database/Delete.antt =====
-- `delete_from_array`, which the program never calls: its search stops one slot short, and what it
-- moves into the hole comes from behind the used slots.
use Prim.Native.Nat.add
use mathlib.Core.Path.{subst}
use network_optimization.Prelude.{
  ℕ, zero, suc, ◌+◌, ◌-◌, ◌%◌, ◌^◌, ◌≤◌, ◌<◌, ◌≡◌, ◌≢◌, refl, ap, ◌∙◌, inl, inr, none, some, List,
  [], ◌∷◌, true, false, if◌then◌else◌, ◌==◌, length, take, get_elem?, arith, ltb, lt→ltb,
  Option-cases, Bool-cases, ==_iff,
}
use network_optimization.Prelude.Strings.{same_string_refl}
use network_optimization.Heap.{Heap}
use network_optimization.Database.{KeyValueAddressArray, find_index, delete_from_array}
use network_optimization.Database.Table.{Key, entries, Keyed, IsValid, IsDistinct}
use network_optimization.Database.Lookup.{position, find_index_lem, contains-get, same_string→eq}
use network_optimization.Database.Slots.{Pairs, take-take}
use network_optimization.Database.Insert.{IsValid-length, get_elem?-lt}

Keyed-take :
    (h : Heap) (n : ℕ) (ps : Pairs) (ks : List Key)
    → Keyed h ps ks
    → Keyed h (take n ps) (take n ks)
Keyed-take h zero ps ks v = tt
Keyed-take h (suc n) [] [] v = tt
Keyed-take h (suc n) [] (k ∷ ks) v = absurd v
Keyed-take h (suc n) (p ∷ ps) [] v = absurd v
Keyed-take h (suc n) (p ∷ ps) (k ∷ ks) (e, lt, v) = (e, lt, Keyed-take h n ps ks v)

-- Among the keys in front of its own slot, a key of a distinct list is not found; among more it is.
position-take :
    (k : Key) (i n m : ℕ) (ks : List Key)
    → IsDistinct ks
    → get_elem? ks m ≡ some k
    → position k i (take n ks) ≡ (if ltb m n then some (i + m) else none)
position-take k i n m [] d e = cc
position-take k i zero m (j ∷ ks) d e = ground arith
position-take k i (suc n) zero (j ∷ ks) d e = ground (arith, same_string_refl k)
position-take k i (suc n) (suc m) (j ∷ ks) (nj, d) e =
    ground (arith, position-take k (suc i) n m ks d e, same_string→eq j k, contains-get k m ks e)

not_ltb : (m n : ℕ) → n ≤ m → ltb m n ≡ false
not_ltb m n le = ground arith

==-false : (x y : ℕ) → x ≢ y → (x == y) ≡ false
==-false x y ne = ground arith

get_elem?-ge {ℓ} : {A : Type ℓ} (n : ℕ) (xs : List A) → length xs ≤ n → get_elem? xs n ≡ none
get_elem?-ge n [] le = refl
get_elem?-ge zero (x ∷ xs) le = absurd (omega arith)
get_elem?-ge (suc n) (x ∷ xs) le = get_elem?-ge n xs (omega arith)

module _ {h : Heap} {a : KeyValueAddressArray} {ks : List Key} (k : Key) (i : ℕ)
    (v : IsValid h a ks) (at_slot : get_elem? ks i ≡ some k) where
  searched :
      find_index h (some k) 0 ((a.used_length + (2 ^ 64 - 1)) % 2 ^ 64) a.head
      ≡ some (if ltb i (a.used_length - 1) then some i else none)
  searched =
      let used : i < a.used_length = omega (arith, get_elem?-lt i ks at_slot, IsValid-length v) in
      let bound : (a.used_length + (2 ^ 64 - 1)) % 2 ^ 64 ≡ a.used_length - 1 =
        omega (arith, v.within, v.no_overflow) in
      let front : Keyed h (take (a.used_length - 1) a.head) (take (a.used_length - 1) ks) =
        subst (λ ps. Keyed h ps (take (a.used_length - 1) ks))
          (take-take (a.used_length - 1) a.used_length a.head (omega arith))
          (Keyed-take h (a.used_length - 1) (entries a) ks v.keyed) in
      rw bound (
        find_index_lem h k 0 (a.used_length - 1) a.head (take (a.used_length - 1) ks)
          (omega (arith, v.within, v.slots)) (omega (arith, v.countable)) front
        ∙ ap some (position-take k 0 (a.used_length - 1) i ks v.distinct at_slot ∙ rw (add.zero i)))

  -- Deleting the key in the last used slot of a valid table deletes nothing.
  pub delete-last : (m : ℕ) → suc i ≡ a.used_length → delete_from_array m h a (some k) ≡ some (h, a)
  unfolding delete_from_array
  delete-last m last =
      let stop : ltb i (a.used_length - 1) ≡ false = not_ltb i (a.used_length - 1) (omega arith) in
      rw (searched, stop)

  -- Deleting any other key of a table whose slots are all in use reads behind the array.
  pub delete-full :
      (m : ℕ)
      → m ≢ 1
      → suc i < a.used_length
      → a.used_length ≡ a.total_length
      → delete_from_array m h a (some k) ≡ none
  unfolding delete_from_array
  delete-full m ne before full =
      let go : ltb i (a.used_length - 1) ≡ true = lt→ltb i (a.used_length - 1) (omega arith) in
      let behind : get_elem? a.head a.used_length ≡ none =
        get_elem?-ge a.used_length a.head (omega (arith, v.slots)) in
      elim (Option-cases (get_elem? a.head i)) [
        | inl missing ↦ rw (searched, go, missing)
        | inr (old, there) ↦ rw (searched, go, there, ==-false m 1 ne, behind)
      ]

ne_of : (x y : ℕ) → (x == y) ≡ false → x ≢ y
ne_of x y e same = ground (arith, same)

-- In a valid table whose slots are all in use, a deletion of a key that the table holds never removes
-- it: for the key in the last slot nothing happens, and for any other one the code reads behind the
-- array.
pub delete_from_array-full :
    {h : Heap} {a : KeyValueAddressArray} {ks : List Key} (k : Key) (i m : ℕ)
    → IsValid h a ks
    → get_elem? ks i ≡ some k
    → m ≢ 1
    → a.used_length ≡ a.total_length
    → delete_from_array m h a (some k) ≡ (if suc i == a.used_length then some (h, a) else none)
delete_from_array-full {h} {a} {ks} k i m v at_slot ne full =
    elim (Bool-cases (suc i == a.used_length)) [
      | inl last ↦ rw last (delete-last k i v at_slot m ((==_iff (suc i) a.used_length).0 last))
      | inr before ↦
          let used = get_elem?-lt i ks at_slot in
          let off : suc i ≢ a.used_length = λ e. ne_of (suc i) a.used_length before e in
          rw before
            (delete-full k i v at_slot m ne (omega (arith, used, IsValid-length v, off)) full)
    ]
