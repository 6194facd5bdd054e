-- ===== src/Protocol/Tests.antt =====
-- Messages with the key "k".
use network_optimization.Protocol.Overflow.{
  length-payload_eager, decode_control_message_buffer-overflow,
}
use network_optimization.Prelude.{
  refl, zero, suc, ap, take, none, ℕ, ◌+◌, ◌≡◌, some, List, [], ◌∷◌, ◌++◌, map, length, drop, arith,
}
use network_optimization.Prelude.Strings.{IsText, le_bytes}
use network_optimization.Protocol.{
  op_code, client_kv_set_eager, set_control_message, decode_control_message_buffer,
}
use network_optimization.Protocol.Layout.{
  Message, set_eager, operation, fields, AllFields, encode, payload, AllRead,
}
use network_optimization.Protocol.RoundTrip.{
  set_control_message_lem, decode_control_message_buffer_lem,
}

abbrev request : Message
request = set_eager (107 ∷ []) 3 (119 ∷ 119 ∷ [])

request-AllFields : AllFields (fields request)
request-AllFields =
    ((omega arith, tt), ((omega arith, omega arith), ((omega arith, (omega arith, tt)), tt)))

abbrev memory : List ℕ
memory =
    0 ∷ 1 ∷ 2 ∷ 3 ∷ 4 ∷ 5 ∷ 6 ∷ 7 ∷ 8 ∷ 9 ∷ 10 ∷ 11 ∷ 12 ∷ 13 ∷ 14 ∷ 15 ∷ 16 ∷ 17 ∷ 18 ∷ 19 ∷ []

set_control_message_example :
    set_control_message memory client_kv_set_eager (map encode (fields request))
    ≡ some (
        le_bytes 4 (op_code (operation request))
        ++ (payload (fields request) ++ drop (4 + length (payload (fields request))) memory))
unfolding le_bytes
set_control_message_example = set_control_message_lem request memory request-AllFields (omega arith)

decode_control_message_buffer_example :
    (os : List ℕ) × (decode_control_message_buffer client_kv_set_eager
        (payload (fields request) ++ memory)
      ≡ some os)
    × AllRead (payload (fields request) ++ memory) os (fields request)
decode_control_message_buffer_example =
    decode_control_message_buffer_lem request memory request-AllFields

-- A value of that many bytes 119.
pub letters : ℕ → List ℕ
letters zero = []
letters (suc n) = 119 ∷ letters n

pub letters-IsText : (n : ℕ) → IsText (letters n)
unfolding letters
letters-IsText zero = tt
letters-IsText (suc n) = (omega arith, letters-IsText n)

pub length-letters : (n : ℕ) → length (letters n) ≡ n
unfolding letters
length-letters zero = refl
length-letters (suc n) = ap suc (length-letters n)

decode_control_message_buffer-overflow_example :
    decode_control_message_buffer client_kv_set_eager
      (take 4096 (payload (fields (set_eager (107 ∷ []) 4091 (letters 4090)))) ++ [])
    ≡ none
decode_control_message_buffer-overflow_example =
    decode_control_message_buffer-overflow (107 ∷ []) (letters 4090) 4091 [] (omega arith, tt)
      (letters-IsText 4090) (omega (arith, length-letters 4090)) (omega arith)
      (omega (arith, length-letters 4090, length-payload_eager (107 ∷ []) (letters 4090) 4091)) tt
