-- ===== src/Database/Insert.antt =====
-- `insert_to_array` keeps the table valid, and afterwards the key maps to the new entry while
-- every other key maps to what it did.
use network_optimization.Prelude.{
  ℕ, zero, suc, ◌+◌, ◌*◌, ◌%◌, ◌^◌, ◌<◌, ◌≡◌, refl, sym, ap, ◌∙◌, inl, inr, Option, some, List, [],
  ◌∷◌, ◌++◌, true, false, if◌then◌else◌, ◌==◌, length, length-take, length-set, length-append, take,
  set, get_elem?, arith, Bool-cases, ==_iff, ◌≢◌, ltb, lt→ltb,
}
use network_optimization.Prelude.Strings.{same_string}
use network_optimization.Heap.{Heap, string_at}
use mathlib.Core.Option
use Prim.Native.Nat.add
use network_optimization.Database.{
  MrInfo, KeyValueAddressPair, KeyValueAddressArray, find_index, insert_to_array, make_room,
  replace_at, append_entry, slots_of, resize,
}
use network_optimization.Database.Table.{Key, contains, find, entries, add_key, Keyed, IsValid}
use network_optimization.Database.Lookup.{
  position, find_index_lem, locate, Keyed-get, get_elem?-take,
}
use network_optimization.Database.Slots.{
  Pairs, take-set, take-set_end, Keyed-set, find-set, Keyed-append, IsDistinct-append, find-append,
  length-resize, take-resize, slots_of_lem,
}

-- Doubling keeps the entries, and leaves a free slot.
make_room_lem :
    {h : Heap} {a : KeyValueAddressArray} {ks : List Key} (stale : KeyValueAddressPair)
    → IsValid h a ks
    → a.used_length + 1 < 2 ^ 31
    → IsValid h (make_room stale a) ks
      × (entries (make_room stale a) ≡ entries a)
      × ((make_room stale a).used_length ≡ a.used_length)
      × (a.used_length < (make_room stale a).total_length)
unfolding make_room
make_room_lem {h} {a} {ks} stale v small = elim (Bool-cases (a.used_length == a.total_length)) [
  | inr free ↦
      rw free (v, refl, refl, omega (arith, v.within, ==-ne a.used_length a.total_length free))
  | inl full ↦
      let same : a.used_length ≡ a.total_length = (==_iff a.used_length a.total_length).0 full in
      let total : a.total_length * 2 % 2 ^ 64 ≡ a.total_length * 2 = omega arith in
      let slots : slots_of (a.total_length * 2) ≡ a.total_length * 2 =
        slots_of_lem (a.total_length * 2) (omega arith) in
      let kept : take a.used_length (resize stale (a.total_length * 2) a.head) ≡ entries a =
        take-resize stale a.used_length (a.total_length * 2) a.head (omega arith)
          (omega (arith, v.slots)) in
      rw (full, total, slots)
        (
          record {
            within = omega arith;
            slots = length-resize stale (a.total_length * 2) a.head;
            some_room = omega (arith, v.some_room);
            no_overflow = omega arith;
            countable = v.countable;
            keyed = rw kept v.keyed;
            distinct = v.distinct;
          },
          kept,
          refl,
          omega (arith, v.some_room),
        )
]
  where
    ==-ne : (m n : ℕ) → (m == n) ≡ false → m ≢ n
    ==-ne m n e = ground arith

abbrev pub keyed_as : ℕ → KeyValueAddressPair → KeyValueAddressPair
keyed_as p entry = record entry { key_address = p }

-- Without `kv_malloc` nothing is freed, and the slot keeps its key pointer.
replace_at_lem :
    (m : ℕ) (h : Heap) (a : KeyValueAddressArray) (entry : KeyValueAddressPair) (i : ℕ)
    (old : KeyValueAddressPair)
    → m ≢ 1
    → replace_at m h a entry i old
      ≡ some (h, record a { head = set a.head i (keyed_as old.key_address entry) })
unfolding replace_at
replace_at_lem m h a entry i old ne = elim (Bool-cases (old.key_address == entry.key_address)) [
  | inl e ↦
      let same : old.key_address ≡ entry.key_address =
        (==_iff old.key_address entry.key_address).0 e in
      rw e (ap (λ p. some (h, record a { head = set a.head i (keyed_as p entry) })) (sym same))
  | inr e ↦ rw (e, ==-false m 1 ne)
]
  where
    ==-false : (x y : ℕ) → x ≢ y → (x == y) ≡ false
    ==-false x y h = ground arith

-- The effect of an insertion on the table.
abbrev pub value_of : KeyValueAddressPair → ℕ × ℕ × Option MrInfo
value_of p = (p.value_address, p.value_size, p.mr_rdma)

-- What a key maps to, its key pointer aside.
abbrev pub lookup : Key → List Key → KeyValueAddressArray → Option (ℕ × ℕ × Option MrInfo)
lookup k ks a = Option.map value_of (find k ks (entries a))

abbrev pub Inserted :
    Heap
    → KeyValueAddressArray
    → List Key
    → Key
    → KeyValueAddressPair
    → KeyValueAddressArray
    → Type 0
Inserted h a ks k entry b =
    IsValid h b (add_key k ks)
    × ((j : Key)
        → lookup j (add_key k ks) b
          ≡ (if same_string k j then some (value_of entry) else lookup j ks a))
    × (b.used_length ≡ length (add_key k ks))

Keyed-length : (h : Heap) (ps : Pairs) (ks : List Key) → Keyed h ps ks → length ps ≡ length ks
Keyed-length h [] [] v = refl
Keyed-length h [] (j ∷ ks) v = absurd v
Keyed-length h (p ∷ ps) [] v = absurd v
Keyed-length h (p ∷ ps) (j ∷ ks) (a, b, v) = ap suc (Keyed-length h ps ks v)

-- The table has as many keys as used slots.
pub IsValid-length :
    {h : Heap} {a : KeyValueAddressArray} {ks : List Key}
    → IsValid h a ks
    → a.used_length ≡ length ks
IsValid-length {h} {a} {ks} v = omega (
  arith,
  v.within,
  v.slots,
  length-take a.used_length a.head,
  Keyed-length h (entries a) ks v.keyed,
)

-- What is asked of `lookup` after an insertion, for one key.
abbrev Looks :
    KeyValueAddressPair
    → Key
    → Key
    → Option KeyValueAddressPair
    → Option KeyValueAddressPair
    → Type 0
Looks entry k j new old =
    Option.map value_of new
    ≡ (if same_string k j then some (value_of entry) else Option.map value_of old)

Looks-of_find :
    (entry q : KeyValueAddressPair) (k j : Key) (new old : Option KeyValueAddressPair)
    → value_of q ≡ value_of entry
    → new ≡ (if same_string k j then some q else old)
    → Looks entry k j new old
Looks-of_find entry q k j new old same e = elim (Bool-cases (same_string k j)) [
  | inl hit ↦ rw (e, hit) (ap some same)
  | inr miss ↦ rw (e, miss)
]

pub get_elem?-lt {ℓ} :
    {A : Type ℓ} {x : A} (m : ℕ) (xs : List A) → get_elem? xs m ≡ some x → m < length xs
get_elem?-lt m [] e = cc
get_elem?-lt zero (x ∷ xs) e = omega arith
get_elem?-lt (suc m) (x ∷ xs) e = omega (arith, get_elem?-lt m xs e)

module _ {h : Heap} {a : KeyValueAddressArray} {ks : List Key} (k : Key) (v : IsValid h a ks) where
  -- An append to an array with a free slot.
  append_entry_lem :
      (stale entry : KeyValueAddressPair)
      → a.used_length + 1 < 2 ^ 31
      → string_at h entry.key_address ≡ some k
      → entry.key_address < h.next
      → contains k ks ≡ false
      → (b : KeyValueAddressArray) × (append_entry stale a entry ≡ some b)
        × Inserted h a ks k entry b
  unfolding append_entry
  append_entry_lem stale entry small e lt c =
      let r = make_room stale a in
      let (vr, same, used, room) = make_room_lem stale v small in
      let fits : ltb r.used_length (length r.head) ≡ true =
        lt→ltb r.used_length (length r.head) (omega (arith, vr.slots, used, room)) in
      let next : (r.used_length + 1) % 2 ^ 64 ≡ suc r.used_length = omega (arith, used) in
      let grown : take (suc r.used_length) (set r.head r.used_length entry)
          ≡ entries a ++ (entry ∷ []) =
        take-set_end r.used_length r.head entry (omega (arith, vr.slots, used, room))
        ∙ ap (λ ps. ps ++ (entry ∷ [])) same in
      (
        record r { head = set r.head r.used_length entry; used_length = suc r.used_length },
        rw (fits, next),
        (
          rw c (record {
            within = omega (arith, used, room);
            slots = length-set r.head r.used_length entry ∙ vr.slots;
            some_room = vr.some_room;
            no_overflow = vr.no_overflow;
            countable = omega (arith, used);
            keyed = rw grown (Keyed-append h k (entries a) ks entry v.keyed e lt);
            distinct = IsDistinct-append k ks c v.distinct;
          }),
          (λ j.
              rw (c, grown)
                (Looks-of_find entry entry k j _ _ refl
                  (find-append k j (entries a) ks entry h v.keyed c))),
          rw c (omega (arith, used, IsValid-length v, length-append ks (k ∷ []))),
        ),
      )

  pub replaced_lem :
      (entry old : KeyValueAddressPair) (m : ℕ)
      → string_at h old.key_address ≡ some k
      → old.key_address < h.next
      → get_elem? ks m ≡ some k
      → contains k ks ≡ true
      → Inserted h a ks k entry (record a { head = set a.head m (keyed_as old.key_address entry) })
  replaced_lem entry old m e lt g c =
      let q = keyed_as old.key_address entry in
      let written : take a.used_length (set a.head m q) ≡ set (entries a) m q =
        take-set a.used_length m a.head q in
      (
        rw c (record {
          within = v.within;
          slots = length-set a.head m q ∙ v.slots;
          some_room = v.some_room;
          no_overflow = v.no_overflow;
          countable = v.countable;
          keyed = rw written (Keyed-set h k m (entries a) ks q v.keyed g e lt);
          distinct = v.distinct;
        }),
        (λ j.
            rw (c, written)
              (Looks-of_find entry q k j _ _ refl
                (find-set k j m (entries a) ks q h v.keyed v.distinct g))),
        rw c (IsValid-length v),
      )

-- On a valid table with fewer than 2 ^ 31 - 1 used slots, and outside `kv_malloc`, an insertion of an
-- entry whose key is a string in allocated memory is defined and
-- leaves the heap alone. It keeps the table valid: its keys are the old ones and the entry's, each
-- once. The key then maps to the entry's value, and every other key to what it mapped to.
pub insert_to_array_lem :
    {h : Heap} {a : KeyValueAddressArray} {ks : List Key} (k : Key) (m : ℕ)
    (stale entry : KeyValueAddressPair)
    → IsValid h a ks
    → m ≢ 1
    → a.used_length + 1 < 2 ^ 31
    → string_at h entry.key_address ≡ some k
    → entry.key_address < h.next
    → (b : KeyValueAddressArray) × (insert_to_array m stale h a entry ≡ some (h, b))
      × Inserted h a ks k entry b
unfolding insert_to_array
insert_to_array_lem {h} {a} {ks} k m stale entry v ne small e lt = elim (locate k 0 ks) [
  | inl (q, c) ↦
      let (b, eb, done) = append_entry_lem k v stale entry small e lt c in
      (b, rw (e, found, q, eb), done)
  | inr (i, q, g, c) ↦
      let (old, go, eo, lo, _) = Keyed-get h k i (entries a) ks v.keyed g in
      let within : i < a.used_length = omega (arith, get_elem?-lt i ks g, IsValid-length v) in
      let go' : get_elem? a.head i ≡ some old =
        sym (get_elem?-take a.used_length i a.head within) ∙ go in
      (
        record a { head = set a.head i (keyed_as old.key_address entry) },
        rw (e, found, q, add.zero i, go', replace_at_lem m h a entry i old ne),
        replaced_lem k v entry old i eo lo g c,
      )
]
  where
    found : find_index h (some k) 0 a.used_length a.head ≡ some (position k 0 ks)
    found =
        find_index_lem h k 0 a.used_length a.head ks (omega (arith, v.within, v.slots))
          (omega (arith, v.countable)) v.keyed
