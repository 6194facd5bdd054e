-- ===== src/Heap/Frame.antt =====
-- What the heap operations leave alone, and what they establish.
use network_optimization.Prelude.{
  ℕ, zero, suc, ◌+◌, ◌≤◌, ◌<◌, ◌≡◌, ◌≢◌, refl, ap, Option-cases, Bool-cases, Option, ltb, inl, inr,
  none, some, List, [], ◌∷◌, ◌++◌, append_assoc, arith, length, length-append, drop,
}
use network_optimization.Prelude.Strings.{c_string, c_string-append, IsText}
use network_optimization.Heap.{Heap, update, tabulate, malloc, string_at, write_block, strcpy}

-- Blocks from `next` on are not allocated.
pub record IsFresh (h : Heap) : Type 0 where
  pub unused : (p : ℕ) → h.next ≤ p → h.cell p ≡ none

pub length-tabulate : (f : ℕ → ℕ) (n : ℕ) → length (tabulate f n) ≡ n
length-tabulate f zero = refl
length-tabulate f (suc n) = ap suc (length-tabulate f n)

pub cell-malloc_self : (h : Heap) (n : ℕ) → (malloc h n).cell h.next ≡ some (tabulate h.stale n)
unfolding malloc
cell-malloc_self h n = ground arith

pub cell-malloc_old : (h : Heap) (n p : ℕ) → p < h.next → (malloc h n).cell p ≡ h.cell p
unfolding malloc
cell-malloc_old h n p lt = ground arith

pub next-malloc : (h : Heap) (n : ℕ) → (malloc h n).next ≡ suc h.next
unfolding malloc
next-malloc h n = refl

pub malloc-IsFresh : (h : Heap) (n : ℕ) → IsFresh h → IsFresh (malloc h n)
unfolding malloc
malloc-IsFresh h n f = record { unused = λ p le. ground (arith, f.unused p) }

-- The heap with one block's bytes replaced.
abbrev pub replaced : Heap → ℕ → List ℕ → Heap
replaced h p bs = record h { cell = update h.cell p (some bs) }

-- A write that fits keeps the rest of the block.
pub write_block_lem :
    (h : Heap) (p : ℕ) (bs old : List ℕ)
    → h.cell p ≡ some old
    → length bs ≤ length old
    → write_block h p bs ≡ some (replaced h p (bs ++ drop (length bs) old))
unfolding write_block
write_block_lem h p bs old e fits = rw e (ground arith)

-- A copy into a block that is long enough writes the string and its NUL there.
pub strcpy_lem :
    (h : Heap) (p : ℕ) (s old : List ℕ)
    → h.cell p ≡ some old
    → length s + 1 ≤ length old
    → strcpy h p (some s) ≡ some (replaced h p (s ++ (0 ∷ drop (length s + 1) old)))
unfolding strcpy
strcpy_lem h p s old e fits =
    rw
      (
        write_block_lem h p (s ++ (0 ∷ [])) old e (rw (length-append s (0 ∷ [])) (omega arith)),
        length-append s (0 ∷ []),
        append_assoc,
      )
      (ap (λ k. some (replaced h p (s ++ (0 ∷ drop k old)))) (omega arith))

-- A copy that was made fits its block.
pub strcpy-fits :
    (h h' : Heap) (p : ℕ) (source : Option (List ℕ)) (old : List ℕ)
    → h.cell p ≡ some old
    → strcpy h p source ≡ some h'
    → (text : List ℕ) × (source ≡ some text) × (length text + 1 ≤ length old)
unfolding strcpy write_block
strcpy-fits h h' p none old e made = absurd cc
strcpy-fits h h' p (some text) old e made =
    elim (Bool-cases (ltb (length old) (length (text ++ (0 ∷ []))))) [
      | inl over ↦ absurd (ground (arith, rw (e, over) at made))
      | inr room ↦ (text, refl, ground (arith, room, length-append text (0 ∷ [])))
    ]

pub string_at-replaced_self :
    (h : Heap) (p : ℕ) (s rest : List ℕ)
    → IsText s
    → string_at (replaced h p (s ++ (0 ∷ rest))) p ≡ some s
unfolding string_at
string_at-replaced_self h p s rest t = ground (arith, c_string-append s rest t)

pub string_at-replaced_ne :
    (h : Heap) (p q : ℕ) (bs : List ℕ) → q ≢ p → string_at (replaced h p bs) q ≡ string_at h q
unfolding string_at
string_at-replaced_ne h p q bs ne = ground arith

pub string_at-malloc : (h : Heap) (n p : ℕ) → p < h.next → string_at (malloc h n) p ≡ string_at h p
unfolding string_at
string_at-malloc h n p lt = rw (cell-malloc_old h n p lt)

pub replaced-IsFresh :
    (h : Heap) (p : ℕ) (bs : List ℕ) → p < h.next → IsFresh h → IsFresh (replaced h p bs)
replaced-IsFresh h p bs lt f = record { unused = λ q le. ground (arith, f.unused q) }

pub string_at-block :
    (h : Heap) (p : ℕ) (bs : List ℕ) → h.cell p ≡ some bs → string_at h p ≡ c_string bs
unfolding string_at
string_at-block h p bs e = rw e

pub string_at-cell : (h h' : Heap) (p : ℕ) → h'.cell p ≡ h.cell p → string_at h' p ≡ string_at h p
unfolding string_at
string_at-cell h h' p e = rw e

-- A string is in a block.
pub block_of :
    (h : Heap) (p : ℕ) (s : List ℕ)
    → string_at h p ≡ some s
    → (bs : List ℕ) × (h.cell p ≡ some bs) × (c_string bs ≡ some s)
unfolding string_at
block_of h p s e = elim (Option-cases (h.cell p)) [
  | inl missing ↦ let clash = rw missing at e in absurd cc
  | inr (bs, at_p) ↦ (bs, at_p, rw at_p at e)
]
