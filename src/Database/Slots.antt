-- ===== src/Database/Slots.antt =====
-- Writes to the slots of the table, and what they do to its keys and entries.
use network_optimization.Prelude.{
  ℕ, zero, suc, ◌^◌, ◌≤◌, ◌<◌, ◌≡◌, refl, ap, ◌∙◌, some, List, [], ◌∷◌, ◌++◌, true, false,
  if◌then◌else◌, length, length-take, length-append, length-replicate, take, set, replicate,
  get_elem?, arith,
}
use network_optimization.Prelude.Strings.{same_string, same_string_refl}
use network_optimization.Heap.{Heap, string_at}
use network_optimization.Database.{KeyValueAddressPair, slots_of, resize}
use network_optimization.Database.Table.{Key, contains, find, Keyed, IsDistinct}
use network_optimization.Database.Lookup.{same_string→eq, contains-get}

abbrev pub Pairs : Type 0
Pairs = List KeyValueAddressPair

-- Writes within and just behind the used slots.
pub take-set :
    (n m : ℕ) (ps : Pairs) (q : KeyValueAddressPair) → take n (set ps m q) ≡ set (take n ps) m q
take-set zero m ps q = refl
take-set (suc n) m [] q = refl
take-set (suc n) zero (p ∷ ps) q = refl
take-set (suc n) (suc m) (p ∷ ps) q = ap (λ r. p ∷ r) (take-set n m ps q)

pub take-set_end :
    (n : ℕ) (ps : Pairs) (q : KeyValueAddressPair)
    → n < length ps
    → take (suc n) (set ps n q) ≡ take n ps ++ (q ∷ [])
take-set_end zero [] q lt = absurd (omega arith)
take-set_end (suc n) [] q lt = absurd (omega arith)
take-set_end zero (p ∷ ps) q lt = refl
take-set_end (suc n) (p ∷ ps) q lt = ap (λ r. p ∷ r) (take-set_end n ps q (omega arith))

pub take-append : (n : ℕ) (ps qs : Pairs) → n ≤ length ps → take n (ps ++ qs) ≡ take n ps
take-append zero ps qs le = refl
take-append (suc n) [] qs le = absurd (omega arith)
take-append (suc n) (p ∷ ps) qs le = ap (λ r. p ∷ r) (take-append n ps qs (omega arith))

pub take-take : (n m : ℕ) (ps : Pairs) → n ≤ m → take n (take m ps) ≡ take n ps
take-take zero m ps le = refl
take-take (suc n) zero ps le = absurd (omega arith)
take-take (suc n) (suc m) [] le = refl
take-take (suc n) (suc m) (p ∷ ps) le = ap (λ r. p ∷ r) (take-take n m ps (omega arith))

-- The table after a write in the slot of a key.
pub Keyed-set :
    (h : Heap) (k : Key) (m : ℕ) (ps : Pairs) (ks : List Key) (q : KeyValueAddressPair)
    → Keyed h ps ks
    → get_elem? ks m ≡ some k
    → string_at h q.key_address ≡ some k
    → q.key_address < h.next
    → Keyed h (set ps m q) ks
Keyed-set h k m [] [] q v e s lt = tt
Keyed-set h k m [] (j ∷ ks) q v e s lt = absurd v
Keyed-set h k m (p ∷ ps) [] q v e s lt = absurd v
Keyed-set h k zero (p ∷ ps) (j ∷ ks) q (a, b, v) e s lt = (s ∙ ground arith, lt, v)
Keyed-set h k (suc m) (p ∷ ps) (j ∷ ks) q (a, b, v) e s lt =
    (a, b, Keyed-set h k m ps ks q v e s lt)

pub find-set :
    (k j : Key) (m : ℕ) (ps : Pairs) (ks : List Key) (q : KeyValueAddressPair) (h : Heap)
    → Keyed h ps ks
    → IsDistinct ks
    → get_elem? ks m ≡ some k
    → find j ks (set ps m q) ≡ (if same_string k j then some q else find j ks ps)
find-set k j m [] [] q h v d e = cc
find-set k j m [] (i ∷ ks) q h v d e = absurd v
find-set k j m (p ∷ ps) [] q h v d e = absurd v
find-set k j zero (p ∷ ps) (i ∷ ks) q h v d e = ground arith
find-set k j (suc m) (p ∷ ps) (i ∷ ks) q h (a, b, v) (ni, d) e = ground (
  arith,
  find-set k j m ps ks q h v d e,
  same_string→eq i j,
  same_string→eq k j,
  contains-get k m ks e,
)

-- The table after an append.
pub Keyed-append :
    (h : Heap) (k : Key) (ps : Pairs) (ks : List Key) (q : KeyValueAddressPair)
    → Keyed h ps ks
    → string_at h q.key_address ≡ some k
    → q.key_address < h.next
    → Keyed h (ps ++ (q ∷ [])) (ks ++ (k ∷ []))
Keyed-append h k [] [] q v e lt = (e, lt, tt)
Keyed-append h k [] (j ∷ ks) q v e lt = absurd v
Keyed-append h k (p ∷ ps) [] q v e lt = absurd v
Keyed-append h k (p ∷ ps) (j ∷ ks) q (a, b, v) e lt = (a, b, Keyed-append h k ps ks q v e lt)

pub contains-append :
    (j k : Key) (ks : List Key)
    → contains j (ks ++ (k ∷ [])) ≡ (if contains j ks then true else same_string k j)
contains-append j k [] = ground arith
contains-append j k (i ∷ ks) = ground (arith, contains-append j k ks)

pub IsDistinct-append :
    (k : Key) (ks : List Key) → contains k ks ≡ false → IsDistinct ks → IsDistinct (ks ++ (k ∷ []))
IsDistinct-append k [] c d = (refl, tt)
IsDistinct-append k (j ∷ ks) c (nj, d) = (
  rw (contains-append j k ks, nj) (ground (arith, same_string→eq k j, same_string_refl j)),
  IsDistinct-append k ks (ground arith) d,
)

pub find-append :
    (k j : Key) (ps : Pairs) (ks : List Key) (q : KeyValueAddressPair) (h : Heap)
    → Keyed h ps ks
    → contains k ks ≡ false
    → find j (ks ++ (k ∷ [])) (ps ++ (q ∷ [])) ≡ (if same_string k j then some q else find j ks ps)
find-append k j [] [] q h v c = refl
find-append k j [] (i ∷ ks) q h v c = absurd v
find-append k j (p ∷ ps) [] q h v c = absurd v
find-append k j (p ∷ ps) (i ∷ ks) q h (a, b, v) c =
    ground (
      arith,
      find-append k j ps ks q h v,
      same_string→eq i j,
      same_string→eq k j,
      same_string_refl k,
    )

pub length-resize :
    (stale : KeyValueAddressPair) (n : ℕ) (ps : Pairs) → length (resize stale n ps) ≡ n
length-resize stale n ps = omega (
  arith,
  length-take n (ps ++ replicate n stale),
  length-append ps (replicate n stale),
  length-replicate n stale,
)

pub take-resize :
    (stale : KeyValueAddressPair) (u n : ℕ) (ps : Pairs)
    → u ≤ n
    → u ≤ length ps
    → take u (resize stale n ps) ≡ take u ps
take-resize stale u n ps le le' = take-take u n _ le ∙ take-append u ps (replicate n stale) le'

pub slots_of_lem : (n : ℕ) → n ≤ 2 ^ 58 → slots_of n ≡ n
slots_of_lem n le = omega arith
