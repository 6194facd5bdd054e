-- ===== src/Server/Memory.antt =====
-- The server's memory as it grows: what was allocated keeps its content, so the table stays valid.
use network_optimization.Prelude.{
  ℕ, suc, ◌+◌, ◌≤◌, ◌<◌, ◌≡◌, ◌∙◌, some, List, [], ◌∷◌, ◌++◌, length, drop, arith,
}
use network_optimization.Prelude.Strings.{IsText}
use network_optimization.Heap.{Heap, tabulate, malloc, string_at}
use network_optimization.Heap.Frame.{
  IsFresh, replaced, length-tabulate, cell-malloc_self, cell-malloc_old, next-malloc,
  malloc-IsFresh, strcpy_lem, string_at-replaced_self, string_at-cell, replaced-IsFresh,
}
use network_optimization.Database.{KeyValueAddressPair, KeyValueAddressArray}
use network_optimization.Database.Table.{Key, entries, Keyed, IsValid}
use network_optimization.Server.{copy_string}

-- `h'` is `h` with more blocks.
pub record Grows (h h' : Heap) : Type 0 where
  pub longer : h.next ≤ h'.next
  pub kept : (p : ℕ) → p < h.next → h'.cell p ≡ h.cell p

pub Grows-trans : {h h' h'' : Heap} → Grows h h' → Grows h' h'' → Grows h h''
Grows-trans g g' = record {
  longer = omega (arith, g.longer, g'.longer);
  kept = λ p lt. g'.kept p (omega (arith, g.longer)) ∙ g.kept p lt;
}

pub malloc-Grows : (h : Heap) (n : ℕ) → Grows h (malloc h n)
malloc-Grows h n = record {
  longer = omega (arith, next-malloc h n);
  kept = λ p lt. cell-malloc_old h n p lt;
}

pub string_at-Grows :
    {h h' : Heap} (p : ℕ) → Grows h h' → p < h.next → string_at h' p ≡ string_at h p
string_at-Grows {h} {h'} p g lt = string_at-cell h h' p (g.kept p lt)

pub Keyed-Grows :
    {h h' : Heap} (ps : List KeyValueAddressPair) (ks : List Key)
    → Grows h h'
    → Keyed h ps ks
    → Keyed h' ps ks
Keyed-Grows [] [] g v = tt
Keyed-Grows [] (k ∷ ks) g v = absurd v
Keyed-Grows (p ∷ ps) [] g v = absurd v
Keyed-Grows (p ∷ ps) (k ∷ ks) g (e, lt, v) =
    (string_at-Grows p.key_address g lt ∙ e, omega (arith, g.longer), Keyed-Grows ps ks g v)

pub IsValid-Grows :
    {h h' : Heap} {a : KeyValueAddressArray} {ks : List Key}
    → Grows h h'
    → IsValid h a ks
    → IsValid h' a ks
IsValid-Grows {a} {ks} g v = record {
  within = v.within;
  slots = v.slots;
  some_room = v.some_room;
  no_overflow = v.no_overflow;
  countable = v.countable;
  keyed = Keyed-Grows (entries a) ks g v.keyed;
  distinct = v.distinct;
}

-- A string copied into a new block that is large enough.
pub copy_string_lem :
    (h : Heap) (n : ℕ) (s : List ℕ)
    → IsFresh h
    → IsText s
    → length s + 1 ≤ n
    → (h' : Heap) × (copy_string h n (some s) ≡ some h')
      × Grows h h'
      × IsFresh h'
      × (h'.next ≡ suc h.next)
      × (string_at h' h.next ≡ some s)
unfolding copy_string
copy_string_lem h n s f t fits =
    let old = tabulate h.stale n in
    let m = malloc h n in
    let bs : List ℕ = s ++ (0 ∷ drop (length s + 1) old) in
    (
      replaced m h.next bs,
      strcpy_lem m h.next s old (cell-malloc_self h n) (rw (length-tabulate h.stale n) fits),
      record {
        longer = omega (arith, next-malloc h n);
        kept = λ p lt. ground (arith, cell-malloc_old h n p lt);
      },
      replaced-IsFresh m h.next bs (omega (arith, next-malloc h n)) (malloc-IsFresh h n f),
      next-malloc h n,
      string_at-replaced_self m h.next s (drop (length s + 1) old) t,
    )
