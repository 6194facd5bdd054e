-- ===== src/Protocol.antt =====
-- LowLatencyProtocols/kv_api.h: control messages. A message is the operation, an `int`, and a
-- buffer of 4096 bytes in which the parts of the message stand one after the other.
-- A pointer to an object is given by the bytes that can be read from it on; `none` is an
-- undefined access.
pub mod Layout
pub mod RoundTrip
pub mod Terminated
pub mod Overflow
pub mod Tests
use network_optimization.Prelude.{
  ℕ, zero, suc, ◌+◌, ◌-◌, ◌^◌, Option, none, some, List, [], ◌∷◌, ◌++◌, ◌==◌, ◌||◌, ltb,
  if◌then◌else◌, length, take, drop,
}
use network_optimization.Prelude.Strings.{◌>>=◌, c_string, le_bytes}

abbrev pub control_message_buffer_size : ℕ
control_message_buffer_size = 4096

-- `sizeof(ControlMessage)`
abbrev pub control_message_size : ℕ
control_message_size = 4100

pub data Operation : Type 0 where
  shut_down_server : Operation
  client_kv_set_eager client_kv_set_rendezvous server_kv_set_rendezvous : Operation
  client_kv_get server_kv_get_eager server_kv_get_rendezvous : Operation
  server_kv_get_key_not_found server_in_progress : Operation
  client_kv_get_rendezvous_fin client_kv_set_rendezvous_fin : Operation
  server_kv_set_successful server_kv_get_successful : Operation

-- The value of the enumerator as an unsigned 32-bit pattern: SHUT_DOWN_SERVER is -1.
unfoldable pub op_code : Operation → ℕ
op_code shut_down_server = 2 ^ 32 - 1
op_code client_kv_set_eager = 0
op_code client_kv_set_rendezvous = 1
op_code server_kv_set_rendezvous = 2
op_code client_kv_get = 3
op_code server_kv_get_eager = 4
op_code server_kv_get_rendezvous = 5
op_code server_kv_get_key_not_found = 6
op_code server_in_progress = 7
op_code client_kv_get_rendezvous_fin = 8
op_code client_kv_set_rendezvous_fin = 9
op_code server_kv_set_successful = 10
op_code server_kv_get_successful = 11

-- `memcpy` of `n` bytes from `src` to offset `off` of the memory `mem`.
unfoldable pub memcpy : List ℕ → ℕ → List ℕ → ℕ → Option (List ℕ)
memcpy mem off src n =
    if ltb (length mem) (off + n) || ltb (length src) n
    then none
    else some (take off mem ++ (take n src ++ drop (off + n) mem))

unfoldable pub strlen : List ℕ → Option ℕ
strlen p = c_string p >>= λ s. some (length s)

-- The sources of a message's parts with the sizes that are copied, from `array_messages_address`.
-- A pointer that is missing from the array is an undefined read.
unfoldable pub message_parts : Operation → List (List ℕ) → Option (List (List ℕ × ℕ))
unfolding strlen
message_parts client_kv_set_eager (key ∷ size ∷ value ∷ r) = do
  k ← strlen key
  v ← strlen value
  some ((key, k + 1) ∷ (size, 8) ∷ (value, v + 1) ∷ [])
message_parts client_kv_set_rendezvous (key ∷ size ∷ r) = do
  k ← strlen key
  some ((key, k + 1) ∷ (size, 8) ∷ [])
message_parts server_kv_set_rendezvous (va ∷ rkey ∷ r) = some ((va, 8) ∷ (rkey, 4) ∷ [])
message_parts client_kv_get (key ∷ r) = do k ← strlen key; some ((key, k + 1) ∷ [])
message_parts server_kv_get_eager (value ∷ r) = do v ← strlen value; some ((value, v + 1) ∷ [])
message_parts server_kv_get_rendezvous (size ∷ va ∷ rkey ∷ r) =
    some ((size, 8) ∷ (va, 8) ∷ (rkey, 4) ∷ [])
message_parts client_kv_get_rendezvous_fin (key ∷ r) = do k ← strlen key; some ((key, k + 1) ∷ [])
message_parts client_kv_set_rendezvous_fin (key ∷ r) = do k ← strlen key; some ((key, k + 1) ∷ [])
message_parts client_kv_set_eager r = none
message_parts client_kv_set_rendezvous r = none
message_parts server_kv_set_rendezvous r = none
message_parts client_kv_get r = none
message_parts server_kv_get_eager r = none
message_parts server_kv_get_rendezvous r = none
message_parts client_kv_get_rendezvous_fin r = none
message_parts client_kv_set_rendezvous_fin r = none
message_parts shut_down_server r = some []
message_parts server_kv_get_key_not_found r = some []
message_parts server_in_progress r = some []
message_parts server_kv_set_successful r = some []
message_parts server_kv_get_successful r = some []

-- The copying loop: `off` is `current_buf_ptr`.
unfoldable pub copy_parts : List ℕ → ℕ → List (List ℕ × ℕ) → Option (List ℕ)
copy_parts mem off [] = some mem
copy_parts mem off ((src, n) ∷ parts) =
    memcpy mem off src n >>= λ mem'. copy_parts mem' (off + n) parts

-- `work` is the context's buffer, in which the message to send stands first.
unfoldable pub set_control_message : List ℕ → Operation → List (List ℕ) → Option (List ℕ)
set_control_message work op addresses = do
  mem ← memcpy work 0 (le_bytes 4 (op_code op)) 4
  parts ← message_parts op addresses
  copy_parts mem 4 parts

-- `messages_sizes` of the decoder: 0 for a string.
unfoldable pub decode_sizes : Operation → List ℕ
decode_sizes client_kv_set_eager = 0 ∷ 8 ∷ 0 ∷ []
decode_sizes client_kv_set_rendezvous = 0 ∷ 8 ∷ []
decode_sizes server_kv_set_rendezvous = 8 ∷ 4 ∷ []
decode_sizes client_kv_get = 0 ∷ []
decode_sizes server_kv_get_eager = 0 ∷ []
decode_sizes server_kv_get_rendezvous = 8 ∷ 8 ∷ 4 ∷ []
decode_sizes client_kv_get_rendezvous_fin = 0 ∷ []
decode_sizes client_kv_set_rendezvous_fin = 0 ∷ []
decode_sizes _ = []

-- The decoding loop: the offsets of the parts in the buffer.
unfoldable pub decode_loop : List ℕ → ℕ → List ℕ → Option (List ℕ)
unfolding strlen
decode_loop buf off [] = some []
decode_loop buf off (n ∷ sizes) = do
  step ← if n == 0 then (strlen (drop off buf) >>= λ l. some (l + 1)) else some n
  rest ← decode_loop buf (off + step) sizes
  some (off ∷ rest)

-- What goes to `array_ptr_to_fill`, as offsets from the start of the buffer. A single part is at
-- the start, and is not read.
unfoldable pub decode_control_message_buffer : Operation → List ℕ → Option (List ℕ)
decode_control_message_buffer op buf =
    let sizes = decode_sizes op in
    if length sizes == 1 then some (0 ∷ []) else decode_loop buf 0 sizes
