-- ===== src/Command.antt =====
-- LowLatencyProtocols/main.c: the commands of an input file, and the client's throughput test.
pub mod Unterminated
pub mod Main
pub mod Closing
pub mod MainTests
pub mod Tests
use network_optimization.Prelude.{
  ℕ, zero, suc, ◌+◌, ◌-◌, ◌*◌, ◌/◌, ◌%◌, Option, none, some, List, [], ◌∷◌, ◌++◌, replicate, Bool,
  true, false, ◌==◌, ◌&&◌, ◌||◌, leb, ltb, if◌then◌else◌, length, take,
}
use network_optimization.Prelude.Strings.{c_string}
use network_optimization.Heap.{Heap, malloc, free, write_block}
use network_optimization.Verbs.{Outcome, returned, waiting, fault}
use network_optimization.Server.{◌>>=◌, lift}
use network_optimization.Client.{Client, kv_set, Var, unset, null, block, kv_get}

infixl 5 ◌>>=?◌
abbrev pub ◌>>=?◌ {ℓ κ} : {A : Type ℓ} {B : Type κ} → Option A → (A → Option B) → Option B
none >>=? f = none
some a >>=? f = f a

abbrev is_space : ℕ → Bool
is_space c = c == 32 || (leb 9 c && leb c 13)

abbrev skip_spaces : List ℕ → List ℕ
skip_spaces [] = []
skip_spaces (c ∷ cs) = let rest = skip_spaces cs in if is_space c then rest else c ∷ cs

-- A literal part of a format: a space matches all blanks that follow, and any other character itself.
pub literal : List ℕ → List ℕ → Option (List ℕ)
literal [] cs = some cs
literal (f ∷ fs) [] = if is_space f then literal fs [] else none
literal (f ∷ fs) (c ∷ cs) =
    let stay = literal fs (skip_spaces (c ∷ cs)) in
    let step = literal fs cs in if is_space f then stay else if f == c then step else none

-- The characters up to `stop`, for `%[^...]`, which wants at least one.
pub run_until : ℕ → List ℕ → List ℕ × List ℕ
run_until stop [] = ([], [])
run_until stop (c ∷ cs) =
    let rest = run_until stop cs in if c == stop then ([], c ∷ cs) else (c ∷ rest.0, rest.1)

pub scan_until : ℕ → List ℕ → Option (List ℕ × List ℕ)
scan_until stop cs =
    let found = run_until stop cs in if length found.0 == 0 then none else some found

abbrev is_digit : ℕ → Bool
is_digit c = leb 48 c && leb c 57

pub number_run : ℕ → List ℕ → ℕ
number_run v [] = v
number_run v (c ∷ cs) =
    let rest = number_run (10 * v + (c - 48)) cs in if is_digit c then rest else v

size_at : List ℕ → Option ℕ
size_at [] = none
size_at (d ∷ ds) = if is_digit d then some (number_run 0 (d ∷ ds)) else none

-- `%zu`, without a sign.
pub scan_size : List ℕ → Option ℕ
unfolding size_at
scan_size cs = size_at (skip_spaces cs)

-- Whether the text ends before the format's literals do, or with them.
pub runs_out : List ℕ → List ℕ → Bool
runs_out [] [] = true
runs_out [] (c ∷ cs) = false
runs_out (f ∷ fs) [] = if is_space f then runs_out fs [] else true
runs_out (f ∷ fs) (c ∷ cs) =
    let stay = runs_out fs (skip_spaces (c ∷ cs)) in
    let step = runs_out fs cs in if is_space f then stay else if f == c then step else false

abbrev pub quote : ℕ
quote = 34

abbrev pub set_format : List ℕ
set_format = 83 ∷ 69 ∷ 84 ∷ 32 ∷ quote ∷ []

abbrev pub get_format : List ℕ
get_format = 71 ∷ 69 ∷ 84 ∷ 32 ∷ quote ∷ []

abbrev pub print_format : List ℕ
print_format = 80 ∷ 82 ∷ 73 ∷ 78 ∷ 84 ∷ 32 ∷ []

-- A line: for a text to print, `none` is a `key` that was not set.
pub data Command : Type 0 where
  set_command : (key : List ℕ) (value_length : ℕ) → Command
  get_command : (key : List ℕ) → Command
  print_command : (text : Option (List ℕ)) → Command
  problem_command : Command

abbrev pub parse_set : List ℕ → Option (List ℕ × ℕ)
parse_set line = literal set_format line >>=? λ l1. scan_until quote l1 >>=? λ found.
    literal (quote ∷ 32 ∷ []) found.1 >>=? λ l3. scan_size l3 >>=? λ n. some (found.0, n)

abbrev pub parse_get : List ℕ → Option (List ℕ)
parse_get line = literal get_format line >>=? λ l1. scan_until quote l1 >>=? λ found. some found.0

-- The answer of `sscanf` is not 0 when the line ends too early, either.
abbrev pub parse_print : List ℕ → Command
parse_print line =
    if runs_out print_format line
    then print_command none
    else elim (literal print_format line >>=? scan_until 10) [
      | none ↦ problem_command
      | some (text, rest) ↦ print_command (some text)
    ]

pub parse_command : List ℕ → Command
parse_command line = elim (parse_set line) [
  | some (key, value_length) ↦ set_command key value_length
  | none ↦ elim (parse_get line) [ some key ↦ get_command key | none ↦ parse_print line ]
]

-- `generate_random_value`: the new block is filled with one letter. The index is -1 for one
-- remainder, in front of the array.
pub generate_random_value : Heap → ℕ → ℕ → Option (List ℕ × Heap)
generate_random_value h random value_length =
    let char_idx = random % 27 in
    let value = replicate value_length (64 + char_idx) in
    if char_idx == 0
    then none
    else (write_block (malloc h value_length) h.next value >>=? λ h1. some (value, h1))

-- What `%10.10s` reads of a string.
pub shown : ℕ → List ℕ → Option (List ℕ)
shown zero cs = some []
shown (suc n) [] = none
shown (suc n) (c ∷ cs) =
    let rest = shown n cs in if c == 0 then some [] else (rest >>=? λ text. some (c ∷ text))

pub execute_set : Client → ℕ → List ℕ → ℕ → Outcome Client
execute_set s random key value_length = do
  (value, h) ← lift (generate_random_value s.heap random value_length)
  text ← lift (shown 10 value)
  (code, s1) ← kv_set (record s { heap = h }) (key ++ (0 ∷ [])) s.heap.next value
  h1 ← lift (free s1.heap s.heap.next)
  returned (record s1 { heap = h1 })

-- A value is shown and released.
show_value : Client → Var → Outcome Client
show_value s unset = fault
show_value s null = fault
show_value s (block p) = do
  value ← lift (s.heap.cell p)
  text ← lift (shown 10 value)
  h ← lift (free s.heap p)
  returned (record s { heap = h })

pub execute_get : Client → List ℕ → Outcome Client
unfolding show_value
execute_get s key = do
  (code, var, s1) ← kv_get s (key ++ (0 ∷ []))
  let kept = show_value s1 var
  if code == 0 then kept else returned s1

pub execute_command : Client → ℕ → Command → Outcome Client
execute_command s random (set_command key value_length) = execute_set s random key value_length
execute_command s random (get_command key) = execute_get s key
execute_command s random (print_command none) = fault
execute_command s random (print_command (some text)) = returned s
execute_command s random problem_command = returned s

-- `random i` is the random number at line `i`.
pub execute_input_command : Client → (ℕ → ℕ) → ℕ → List (List ℕ) → Outcome Client
execute_input_command s random i [] = returned s
execute_input_command s random i (line ∷ lines) = do
  s1 ← execute_command s (random i) (parse_command line)
  execute_input_command s1 random (i + 1) lines

-- `NUM_THROUGHPUT_ITERATIONS`
abbrev pub num_throughput_iterations : ℕ
num_throughput_iterations = 1024

-- `test_key_%d` for a number below 100.
abbrev pub test_key : ℕ → List ℕ
test_key i =
    116
    ∷ 101
    ∷ 115
    ∷ 116
    ∷ 95
    ∷ 107
    ∷ 101
    ∷ 121
    ∷ 95
    ∷ (if ltb i 10 then (48 + i) ∷ [] else (48 + i / 10) ∷ (48 + i % 10) ∷ [])

-- The value of a trial: so many letters, the last of them overwritten by the terminator.
abbrev pub trial_value : ℕ → List ℕ
trial_value message_size = replicate (message_size - 1) 97 ++ (0 ∷ [])

pub set_loop : Client → List ℕ → ℕ → List ℕ → ℕ → Outcome Client
set_loop s key p value zero = returned s
set_loop s key p value (suc n) = do (code, s1) ← kv_set s key p value; set_loop s1 key p value n

pub set_trial : Client → ℕ → ℕ → Outcome Client
set_trial s i message_size = do
  h ← lift (write_block (malloc s.heap message_size) s.heap.next (trial_value message_size))
  s1 ←
      set_loop (record s { heap = h }) (test_key i ++ (0 ∷ [])) s.heap.next
        (trial_value message_size) num_throughput_iterations
  h1 ← lift (free s1.heap s.heap.next)
  returned (record s1 { heap = h1 })

-- The values that the gets left, the first one first.
pub get_loop : Client → List ℕ → ℕ → Outcome (List Var × Client)
get_loop s key zero = returned ([], s)
get_loop s key (suc n) = do
  (code, var, s1) ← kv_get s key
  (vars, s2) ← get_loop s1 key n
  returned (var ∷ vars, s2)

-- A pointer that `kv_get` did not write is looked at, and passed to `free`.
pub free_values : Heap → List Var → Outcome Heap
free_values h [] = returned h
free_values h (unset ∷ vars) = fault
free_values h (null ∷ vars) = free_values h vars
free_values h (block p ∷ vars) = do h1 ← lift (free h p); free_values h1 vars

pub get_trial : Client → ℕ → Outcome Client
get_trial s i = do
  (vars, s1) ← get_loop s (test_key i ++ (0 ∷ [])) num_throughput_iterations
  h ← free_values s1.heap vars
  returned (record s1 { heap = h })

pub throughput_trials : Client → Bool → ℕ → List ℕ → Outcome Client
throughput_trials s is_set i [] = returned s
throughput_trials s is_set i (message_size ∷ sizes) = do
  s1 ← if is_set then set_trial s i message_size else get_trial s i
  throughput_trials s1 is_set (i + 1) sizes

-- `list_message_sizes`
abbrev pub message_sizes : List ℕ
message_sizes =
    1 ∷ 2 ∷ 4 ∷ 8 ∷ 16 ∷ 32 ∷ 64 ∷ 128 ∷ 256 ∷ 512 ∷ 1024 ∷ 2048 ∷ 4096 ∷ 8192 ∷ 16384 ∷ 32768
    ∷ 65536 ∷ 131072 ∷ 262144 ∷ 524288 ∷ 1048576 ∷ []

-- A `test_type` of 0 sets, and any other gets.
pub run_throughput_test : Client → Bool → Outcome Client
run_throughput_test s is_set = throughput_trials s is_set 0 message_sizes
