-- ===== src/Database/Lookup.antt =====
-- `get_key_value_address_pair` finds the slot of a key, exactly when the key is in the table.
use network_optimization.Prelude.{
  ℕ, zero, suc, ◌+◌, ◌^◌, ◌≤◌, ◌<◌, ◌≡◌, refl, sym, ap, ◌∙◌, ◌⊎◌, inl, inr, Option, none, some,
  List, [], ◌∷◌, true, false, if◌then◌else◌, length, length-take, take, get_elem?, arith, ltb,
  Bool-cases, Option-cases,
}
use network_optimization.Prelude.Strings.{same_string, same_string_iff, same_string_refl}
use network_optimization.Heap.{Heap, string_at}
use network_optimization.Database.{
  KeyValueAddressPair, KeyValueAddressArray, find_index, get_key_value_address_pair,
}
use network_optimization.Database.Table.{Key, contains, find, entries, Keyed, IsValid, IsDistinct}

-- The index of a key among the keys from index `i` on.
abbrev pub position : Key → ℕ → List Key → Option ℕ
position k i [] = none
position k i (j ∷ ks) = if same_string j k then some i else position k (suc i) ks

pub find_index_lem :
    (h : Heap) (k : Key) (i n : ℕ) (slots : List KeyValueAddressPair) (ks : List Key)
    → n ≤ length slots
    → i + n < 2 ^ 31
    → Keyed h (take n slots) ks
    → find_index h (some k) i n slots ≡ some (position k i ks)
unfolding find_index
find_index_lem h k i zero slots [] le count v = refl
find_index_lem h k i zero slots (j ∷ ks) le count v = absurd v
find_index_lem h k i (suc n) [] ks le count v = absurd (omega arith)
find_index_lem h k i (suc n) (p ∷ slots) [] le count v = absurd v
find_index_lem h k i (suc n) (p ∷ slots) (j ∷ ks) le count (e, lt, v) =
    let below : ltb (suc i) (2 ^ 31) ≡ true = ground arith in
    rw (e, find_index_lem h k (suc i) n slots ks (omega arith) (omega arith) v, below)
      (ground arith)

pub same_string→eq : (s t : Key) → same_string s t ≡ true → s ≡ t
same_string→eq s t = (same_string_iff s t).0

-- A key is absent, or stands at its position.
pub locate :
    (k : Key) (i : ℕ) (ks : List Key)
    → ((position k i ks ≡ none) × (contains k ks ≡ false))
      ⊎ ((m : ℕ) × (position k i ks ≡ some (i + m))
          × (get_elem? ks m ≡ some k)
          × (contains k ks ≡ true))
locate k i [] = inl (refl, refl)
locate k i (j ∷ ks) = elim (Bool-cases (same_string j k)) [
  | inl e ↦ inr (0, rw e (ap some (omega arith)), ap some (same_string→eq j k e), rw e)
  | inr e ↦ elim (locate k (suc i) ks) [
    | inl (q, c) ↦ inl (rw e q, rw e c)
    | inr (m, q, g, c) ↦ inr (suc m, rw e (q ∙ ap some (omega arith)), g, rw e c)
  ]
]

pub contains-get :
    (k : Key) (m : ℕ) (ks : List Key) → get_elem? ks m ≡ some k → contains k ks ≡ true
contains-get k m [] e = cc
contains-get k zero (j ∷ ks) e = ground (arith, same_string_refl k)
contains-get k (suc m) (j ∷ ks) e = ground (arith, contains-get k m ks e)

-- The pair in the slot of a key.
pub Keyed-get :
    (h : Heap) (k : Key) (m : ℕ) (ps : List KeyValueAddressPair) (ks : List Key)
    → Keyed h ps ks
    → get_elem? ks m ≡ some k
    → (p : KeyValueAddressPair) × (get_elem? ps m ≡ some p)
      × (string_at h p.key_address ≡ some k)
      × (p.key_address < h.next)
      × (m < length ps)
Keyed-get h k m [] [] v e = cc
Keyed-get h k m [] (j ∷ ks) v e = absurd v
Keyed-get h k m (p ∷ ps) [] v e = absurd v
Keyed-get h k zero (p ∷ ps) (j ∷ ks) (a, lt, v) e = (p, refl, ground arith, lt, omega arith)
Keyed-get h k (suc m) (p ∷ ps) (j ∷ ks) (a, lt, v) e =
    let (q, g, b, lt', m') = Keyed-get h k m ps ks v e in (q, g, b, lt', omega arith)

pub find-eq-get :
    (k : Key) (m : ℕ) (ps : List KeyValueAddressPair) (ks : List Key)
    → IsDistinct ks
    → get_elem? ks m ≡ some k
    → find k ks ps ≡ get_elem? ps m
find-eq-get k m ps [] d e = cc
find-eq-get k m [] (j ∷ ks) d e = refl
find-eq-get k zero (p ∷ ps) (j ∷ ks) d e = ground (arith, same_string_refl k)
find-eq-get k (suc m) (p ∷ ps) (j ∷ ks) (nj, d) e = elim (Bool-cases (same_string j k)) [
  | inl same ↦ cc (nj, ap (λ x. contains x ks) (same_string→eq j k same), contains-get k m ks e)
  | inr other ↦ rw other (find-eq-get k m ps ks d e)
]

pub find-absent :
    (k : Key) (ps : List KeyValueAddressPair) (ks : List Key)
    → contains k ks ≡ false
    → find k ks ps ≡ none
find-absent k ps [] c = refl
find-absent k [] (j ∷ ks) c = refl
find-absent k (p ∷ ps) (j ∷ ks) c = ground (arith, find-absent k ps ks)

-- A search of a valid table answers the position of the key.
pub get_key_value_address_pair-position :
    {h : Heap} {a : KeyValueAddressArray} {ks : List Key} (k : Key)
    → IsValid h a ks
    → get_key_value_address_pair h a (some k) ≡ some (position k 0 ks)
unfolding get_key_value_address_pair
get_key_value_address_pair-position {h} {a} {ks} k v =
    find_index_lem h k 0 a.used_length a.head ks (omega (arith, v.within, v.slots))
      (omega (arith, v.countable)) v.keyed

pub get_elem?-take {ℓ} :
    {A : Type ℓ} (n m : ℕ) (xs : List A) → m < n → get_elem? (take n xs) m ≡ get_elem? xs m
get_elem?-take zero m xs lt = absurd (omega arith)
get_elem?-take (suc n) m [] lt = refl
get_elem?-take (suc n) zero (x ∷ xs) lt = refl
get_elem?-take (suc n) (suc m) (x ∷ xs) lt = get_elem?-take n m xs (omega arith)

-- What a search leads to: NULL if the key is absent, and otherwise the slot of the key's pair.
abbrev pub Search : KeyValueAddressArray → List Key → Key → Option ℕ → Type 0
Search a ks k none = (contains k ks ≡ false) × (find k ks (entries a) ≡ none)
Search a ks k (some i) =
    (i < a.used_length)
    × (get_elem? ks i ≡ some k)
    × (p : KeyValueAddressPair) × (get_elem? a.head i ≡ some p)
    × (find k ks (entries a) ≡ some p)

length-take-le {ℓ} : {A : Type ℓ} (n : ℕ) (xs : List A) → length (take n xs) ≤ n
length-take-le n xs = omega (arith, length-take n xs)

-- On a valid table a search is defined, and answers NULL exactly for the keys that are absent and
-- the used slot of its pair for a key that is there.
pub get_key_value_address_pair_lem :
    {h : Heap} {a : KeyValueAddressArray} {ks : List Key} (k : Key)
    → IsValid h a ks
    → (r : Option ℕ) × (get_key_value_address_pair h a (some k) ≡ some r) × Search a ks k r
get_key_value_address_pair_lem {h} {a} {ks} k v = elim (locate k 0 ks) [
  | inl (q, c) ↦ (
    none,
    get_key_value_address_pair-position k v ∙ ap some q,
    (c, find-absent k (entries a) ks c),
  )
  | inr (m, q, g, c) ↦
      let (p, gp, key, lt, m') = Keyed-get h k m (entries a) ks v.keyed g in
      let within : m < a.used_length = omega (arith, length-take-le a.used_length a.head) in
      (
        some m,
        get_key_value_address_pair-position k v ∙ ap some (q ∙ ap some (omega arith)),
        (
          within,
          g,
          p,
          sym (get_elem?-take a.used_length m a.head within) ∙ gp,
          find-eq-get k m (entries a) ks v.distinct g ∙ gp,
        ),
      )
]

-- A pointer to memory without a terminator is never found.
find_index-unterminated :
    (h : Heap) (i n : ℕ) (slots : List KeyValueAddressPair) (j : ℕ)
    → find_index h none i n slots ≡ some (some j)
    → ⊥
unfolding find_index
find_index-unterminated h i zero slots j e = absurd cc
find_index-unterminated h i (suc n) [] j e = absurd cc
find_index-unterminated h i (suc n) (p ∷ slots) j e =
    elim (Option-cases (string_at h p.key_address)) [
      | inl unread ↦ absurd (ground (arith, rw unread at e))
      | inr (text, at) ↦ absurd (ground (arith, rw at at e))
    ]

pub get_key_value_address_pair-unterminated :
    (h : Heap) (a : KeyValueAddressArray) (j : ℕ)
    → get_key_value_address_pair h a none ≡ some (some j)
    → ⊥
unfolding get_key_value_address_pair
get_key_value_address_pair-unterminated h a j e =
    find_index-unterminated h 0 a.used_length a.head j e
