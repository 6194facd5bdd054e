-- ===== src/Command/Unterminated.antt =====
-- A value that `generate_random_value` makes, on its way into `kv_set`.
use mathlib.Core.Path.{subst}
use network_optimization.Prelude.{
  ℕ, zero, suc, ◌+◌, ◌%◌, ◌≡◌, ◌≢◌, refl, inl, inr, some, Option-cases, List, [], ◌∷◌, ◌++◌,
  replicate, Bool-cases, ◌==◌, arith,
}
use network_optimization.Prelude.Strings.{IsText}
use network_optimization.Heap.{Heap}
use network_optimization.Verbs.{fault}
use network_optimization.Client.{Client}
use network_optimization.Client.Eager.{kv_set-unterminated}
use network_optimization.Command.{
  set_command, parse_command, generate_random_value, shown, execute_set, execute_command,
  execute_input_command,
}

IsText-replicate : (n c : ℕ) → c ≢ 0 → IsText (replicate n c)
IsText-replicate zero c h = tt
IsText-replicate (suc n) c h = (h, IsText-replicate n c h)

generated-IsText :
    (h h' : Heap) (random n : ℕ) (value : List ℕ)
    → generate_random_value h random n ≡ some (value, h')
    → IsText value
unfolding generate_random_value
generated-IsText h h' random n value e = elim (Bool-cases (random % 27 == 0)) [
  | inl before ↦ absurd (ground (arith, rw before at e))
  | inr letter ↦
      let made : replicate n (64 + random % 27) ≡ value = ground (arith, rw letter at e) in
      subst IsText made (IsText-replicate n (64 + random % 27) (λ z. absurd (omega arith)))
]

execute_set-Fault :
    (s : Client) (random : ℕ) (key : List ℕ) (value_length : ℕ)
    → execute_set s random key value_length ≡ fault
unfolding execute_set
execute_set-Fault s random key n = elim (Option-cases (generate_random_value s.heap random n)) [
  | inl outside ↦ rw outside refl
  | inr ((value, h), e) ↦ elim (Option-cases (shown 10 value)) [
    | inl unread ↦ rw (e, unread) refl
    | inr (text, e') ↦
        rw
          (
            e,
            e',
            kv_set-unterminated (record s { heap = h }) (key ++ (0 ∷ [])) s.heap.next value
                (generated-IsText s.heap h random n value e),
          )
          refl
  ]
]

-- A line of an input file that is read as a SET command is undefined, whatever the client, the random
-- number, the key and the length are: the value that is made for it has no terminator, or the
-- letter for it is read in front of the array.
pub execute_input_command-Fault :
    (s : Client) (random : ℕ → ℕ) (i : ℕ) (line : List ℕ) (lines : List (List ℕ)) (key : List ℕ)
    (value_length : ℕ)
    → parse_command line ≡ set_command key value_length
    → execute_input_command s random i (line ∷ lines) ≡ fault
unfolding execute_input_command execute_command
execute_input_command-Fault s random i line lines key n e =
    rw (e, execute_set-Fault s (random i) key n) refl
