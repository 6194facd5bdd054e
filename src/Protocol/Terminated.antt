-- ===== src/Protocol/Terminated.antt =====
-- Messages whose string the caller passes by a pointer into a larger block.
use network_optimization.Prelude.{
  ℕ, ◌+◌, ◌≤◌, ◌≡◌, inl, inr, some, List, [], ◌∷◌, ◌++◌, append_assoc, false, ltb, length,
  length-append, arith, Option-cases,
}
use network_optimization.Prelude.Strings.{c_string, c_string-append, terminated, le_bytes}
use network_optimization.Protocol.{
  op_code, server_kv_get_eager, memcpy, message_parts, copy_parts, set_control_message,
}
use network_optimization.Protocol.RoundTrip.{strlen_lem, take-length-append}

not_below : (m n : ℕ) → n ≤ m → ltb m n ≡ false
not_below m n le = ground arith

memcpy-append :
    (mem : List ℕ) (off : ℕ) (src more : List ℕ)
    → memcpy mem off (src ++ more) (length src) ≡ memcpy mem off (src ++ []) (length src)
unfolding memcpy
memcpy-append mem off src more = rw (
  not_below (length (src ++ more)) (length src) (omega (arith, length-append src more)),
  not_below (length (src ++ [])) (length src) (omega (arith, length-append src [])),
  take-length-append src more,
  take-length-append src [],
)

-- The message with a string is the same for every memory that holds it.
pub set_control_message-text :
    (work p s : List ℕ)
    → c_string p ≡ some s
    → set_control_message work server_kv_get_eager (p ∷ [])
      ≡ set_control_message work server_kv_get_eager ((s ++ (0 ∷ [])) ∷ [])
unfolding set_control_message message_parts copy_parts
set_control_message-text work p s e =
    let (rest, shape, t) = terminated p s e in
    let n : length (s ++ (0 ∷ [])) ≡ length s + 1 = length-append s (0 ∷ []) in
    let same : (mem : List ℕ)
        → memcpy mem 4 (s ++ (0 ∷ rest)) (length s + 1)
          ≡ memcpy mem 4 (s ++ (0 ∷ [])) (length s + 1) =
      λ mem.
        rw (append_assoc s (0 ∷ []) rest, append_assoc s (0 ∷ []) [], n) at
          (memcpy-append mem 4 (s ++ (0 ∷ [])) rest) in
    rw
      (
        shape,
        strlen_lem (s ++ (0 ∷ rest)) s (c_string-append s rest t),
        strlen_lem (s ++ (0 ∷ [])) s (c_string-append s [] t),
      )
      (elim (Option-cases (memcpy work 0 (le_bytes 4 (op_code server_kv_get_eager)) 4)) [
        | inl missing ↦ rw missing
        | inr (mem, to) ↦ rw (to, same mem)
      ])
