-- ===== src/Database/Status.antt =====
-- Writing a pair's `mr_rdma` field, by `deregister_rdma_mr` and by the server on a read.
use network_optimization.Prelude.{
  Option-cases, ℕ, suc, ◌<◌, ◌≡◌, sym, ap, ◌∙◌, inl, inr, zero, [], ◌∷◌, Bool-cases, Option, none,
  some, List, true, if◌then◌else◌, ◌==◌, set, get_elem?, arith,
}
use network_optimization.Prelude.Strings.{same_string}
use network_optimization.Heap.{Heap, string_at}
use network_optimization.Database.{
  MrInfo, KeyValueAddressPair, KeyValueAddressArray, get_key_value_address_pair, set_mr_rdma,
  release, deregister_rdma_mr,
}
use network_optimization.Database.Table.{Key, contains, find, entries, IsValid}
use network_optimization.Database.Lookup.{
  get_key_value_address_pair-position, locate, contains-get, Keyed-get, get_elem?-take, find-eq-get,
}
use network_optimization.Database.Insert.{lookup, replaced_lem, IsValid-length, get_elem?-lt}

-- The pair of a key that the table holds, and its slot.
pub slot_of :
    {h : Heap} {a : KeyValueAddressArray} {ks : List Key} (k : Key)
    → IsValid h a ks
    → contains k ks ≡ true
    → (i : ℕ) × (p : KeyValueAddressPair) × (get_key_value_address_pair h a (some k)
        ≡ some (some i))
      × (get_elem? ks i ≡ some k)
      × (get_elem? a.head i ≡ some p)
      × (find k ks (entries a) ≡ some p)
      × (string_at h p.key_address ≡ some k)
      × (p.key_address < h.next)
slot_of {h} {a} {ks} k v c = elim (locate k 0 ks) [
  | inl (q, missing) ↦ cc
  | inr (i, q, g, _) ↦
      let (p, gp, e, lt, _) = Keyed-get h k i (entries a) ks v.keyed g in
      let within : i < a.used_length = omega (arith, get_elem?-lt i ks g, IsValid-length v) in
      (
        i,
        p,
        get_key_value_address_pair-position k v ∙ ap some (q ∙ ap some (omega arith)),
        g,
        sym (get_elem?-take a.used_length i a.head within) ∙ gp,
        find-eq-get k i (entries a) ks v.distinct g ∙ gp,
        e,
        lt,
      )
]

-- The table after the status of one key has been set: valid, with the same keys and values.
abbrev pub Marked :
    Heap
    → KeyValueAddressArray
    → List Key
    → Key
    → KeyValueAddressPair
    → Option MrInfo
    → KeyValueAddressArray
    → Type 0
Marked h a ks k p mr b =
    IsValid h b ks
    × ((j : Key)
        → lookup j ks b
          ≡ (if same_string k j then some (p.value_address, p.value_size, mr) else lookup j ks a))

pub set_mr_rdma_lem :
    {h : Heap} {a : KeyValueAddressArray} {ks : List Key} (k : Key) (i : ℕ)
    (p : KeyValueAddressPair) (mr : Option MrInfo)
    → IsValid h a ks
    → get_elem? ks i ≡ some k
    → string_at h p.key_address ≡ some k
    → p.key_address < h.next
    → Marked h a ks k p mr (set_mr_rdma a i p mr)
set_mr_rdma_lem {h} {a} {ks} k i p mr v g e lt =
    let c : contains k ks ≡ true = contains-get k i ks g in
    let (valid, looks, _) = replaced_lem k v (record p { mr_rdma = mr }) p i e lt g c in
    (rw c at valid, λ j. rw c at (looks j))

-- What a deregistration answers for a pair: its status, and the mark that the pair then has.
abbrev pub outcome : (ℕ → ℕ) → Option MrInfo → ℕ × Option MrInfo
outcome dereg_mr none = (0, none)
outcome dereg_mr (some info) = if dereg_mr info.mr == 0 then (0, none) else (1, some info)

set_same {ℓ} :
    {A : Type ℓ} (i : ℕ) (xs : List A) {x : A} → get_elem? xs i ≡ some x → set xs i x ≡ xs
set_same i [] e = cc
set_same zero (y ∷ xs) {x} e = ap (λ z. z ∷ xs) (sym head)
  where
    head : y ≡ x
    head = cc
set_same (suc i) (y ∷ xs) e = ap (λ zs. y ∷ zs) (set_same i xs e)

-- The last step of a deregistration writes the mark of `outcome`, also where it writes nothing.
release_lem :
    (dereg_mr : ℕ → ℕ) (a : KeyValueAddressArray) (i : ℕ) (p : KeyValueAddressPair)
    (mr : Option MrInfo)
    → get_elem? a.head i ≡ some (record p { mr_rdma = mr })
    → release dereg_mr a i p mr
      ≡ some ((outcome dereg_mr mr).0, set_mr_rdma a i p (outcome dereg_mr mr).1)
unfolding release
release_lem dereg_mr a i p none g =
    ap (λ xs. some (0, record a { head = xs })) (sym (set_same i a.head g))
release_lem dereg_mr a i p (some info) g = elim (Bool-cases (dereg_mr info.mr == 0)) [
  | inl e ↦ rw e
  | inr e ↦ rw e (ap (λ xs. some (1, record a { head = xs })) (sym (set_same i a.head g)))
]

-- On a key of a valid table `deregister_rdma_mr` is defined. If the region is released, or there is
-- none, the answer is 0 and the key is free again; if the release fails, the answer is 1 and the
-- key keeps its region. Nothing else changes.
pub deregister_rdma_mr_lem :
    {h : Heap} {a : KeyValueAddressArray} {ks : List Key} (dereg_mr : ℕ → ℕ) (k : Key)
    → IsValid h a ks
    → contains k ks ≡ true
    → (p : KeyValueAddressPair) × (b : KeyValueAddressArray) × (find k ks (entries a) ≡ some p)
      × (deregister_rdma_mr dereg_mr h a (some k) ≡ some ((outcome dereg_mr p.mr_rdma).0, b))
      × Marked h a ks k p (outcome dereg_mr p.mr_rdma).1 b
unfolding deregister_rdma_mr
deregister_rdma_mr_lem {h} {a} {ks} dereg_mr k v c =
    let (i, p, q, g, gp, f, e, lt) = slot_of k v c in
    (
      p,
      set_mr_rdma a i p (outcome dereg_mr p.mr_rdma).1,
      f,
      rw (q, gp) (release_lem dereg_mr a i p p.mr_rdma gp),
      set_mr_rdma_lem k i p (outcome dereg_mr p.mr_rdma).1 v g e lt,
    )

-- A release that is defined is one of a key that was found.
pub deregister_rdma_mr-found :
    (dereg_mr : ℕ → ℕ) (h : Heap) (a : KeyValueAddressArray) (key : Option (List ℕ))
    (r : ℕ × KeyValueAddressArray)
    → deregister_rdma_mr dereg_mr h a key ≡ some r
    → (i : ℕ) × (get_key_value_address_pair h a key ≡ some (some i))
unfolding deregister_rdma_mr
deregister_rdma_mr-found dereg_mr h a key r e =
    elim (Option-cases (get_key_value_address_pair h a key)) [
      | inl unread ↦ absurd (ground (arith, rw unread at e))
      | inr (found, e1) ↦ elim (Option-cases found) [
        | inl missing ↦ absurd (ground (arith, rw (e1, missing) at e))
        | inr (i, e2) ↦ (i, e1 ∙ ap some e2)
      ]
    ]
