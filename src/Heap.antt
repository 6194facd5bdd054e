-- ===== src/Heap.antt =====
-- The C heap as the server uses it: numbered blocks of bytes, `malloc`, `free` and `strcpy`.
-- A pointer to a block is its number; `none` is an undefined access.
pub mod Frame
use network_optimization.Prelude.{
  ℕ, zero, suc, ◌+◌, ◌<◌, Option, none, some, List, [], ◌∷◌, ◌++◌, ◌==◌, ltb, if◌then◌else◌, length,
  drop,
}
use network_optimization.Prelude.Strings.{◌>>=◌, c_string}

-- `stale` is what `malloc` leaves in a block: the program may not rely on it.
pub record Heap : Type 0 where
  pub next : ℕ
  pub cell : ℕ → Option (List ℕ)
  pub stale : ℕ → ℕ

abbrev pub update : (ℕ → Option (List ℕ)) → ℕ → Option (List ℕ) → ℕ → Option (List ℕ)
update f p v q = if p == q then v else f q

abbrev pub tabulate : (ℕ → ℕ) → ℕ → List ℕ
tabulate f zero = []
tabulate f (suc n) = f n ∷ tabulate f n

-- The new block has the number that `next` was.
unfoldable pub malloc : Heap → ℕ → Heap
malloc h size = record h {
  next = suc h.next;
  cell = update h.cell h.next (some (tabulate h.stale size));
}

-- A second `free` of a block is undefined.
pub free : Heap → ℕ → Option Heap
free h p = h.cell p >>= λ _. some (record h { cell = update h.cell p none })

-- The string that a pointer to a block's start leads to.
unfoldable pub string_at : Heap → ℕ → Option (List ℕ)
string_at h p = h.cell p >>= c_string

-- Bytes written from a block's start on; past its end is undefined.
pub write_block : Heap → ℕ → List ℕ → Option Heap
write_block h p bs = h.cell p >>= λ old.
    if ltb (length old) (length bs)
    then none
    else some (record h { cell = update h.cell p (some (bs ++ drop (length bs) old)) })

-- `strcpy` copies the string that the source points to, with its NUL.
pub strcpy : Heap → ℕ → Option (List ℕ) → Option Heap
strcpy h p source = source >>= λ s. write_block h p (s ++ (0 ∷ []))
