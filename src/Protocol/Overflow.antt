-- ===== src/Protocol/Overflow.antt =====
-- An eager set request that is longer than the buffer of a message.
use Prim.Native.Nat.add
use network_optimization.Prelude.{
  ℕ, zero, suc, ◌+◌, ◌-◌, ◌≤◌, ◌<◌, ◌≡◌, refl, ap, ◌∙◌, none, some, List, [], ◌∷◌, ◌++◌,
  append_assoc, append-nil, length, length-append, take, drop, arith,
}
use network_optimization.Prelude.Strings.{
  c_string-append, c_string-IsText, le_bytes, length-le_bytes, IsText,
}
use network_optimization.Protocol.{
  client_kv_set_eager, strlen, decode_sizes, decode_loop, decode_control_message_buffer,
}
use network_optimization.Protocol.Layout.{set_eager, fields, payload}
use network_optimization.Protocol.RoundTrip.{drop-length-append, drop-append, strlen_lem}

take-append {ℓ} :
    {A : Type ℓ} (xs ys : List A) (n : ℕ) → take (length xs + n) (xs ++ ys) ≡ xs ++ take n ys
take-append [] ys n = rw (add.zero n)
take-append (x ∷ xs) ys n = rw (add.suc (length xs) n) (ap (λ zs. x ∷ zs) (take-append xs ys n))

take-append_le {ℓ} :
    {A : Type ℓ} (xs ys : List A) (n : ℕ) → n ≤ length xs → take n (xs ++ ys) ≡ take n xs
take-append_le [] ys zero le = refl
take-append_le [] ys (suc n) le = absurd (omega arith)
take-append_le (x ∷ xs) ys zero le = refl
take-append_le (x ∷ xs) ys (suc n) le = ap (λ zs. x ∷ zs) (take-append_le xs ys n (omega arith))

take-IsText : (n : ℕ) (s : List ℕ) → IsText s → IsText (take n s)
take-IsText zero s t = tt
take-IsText (suc n) [] t = tt
take-IsText (suc n) (b ∷ s) (hb, t) = (hb, take-IsText n s t)

append-IsText : (s r : List ℕ) → IsText s → IsText r → IsText (s ++ r)
append-IsText [] r t h = h
append-IsText (b ∷ s) r (hb, t) h = (hb, append-IsText s r t h)

strlen-none : (s : List ℕ) → IsText s → strlen s ≡ none
unfolding strlen
strlen-none s t = rw (c_string-IsText s t)

pub length-payload_eager :
    (key value : List ℕ) (n : ℕ)
    → length (payload (fields (set_eager key n value))) ≡ length key + length value + 10
length-payload_eager key value n = omega (
  arith,
  length-append (key ++ (0 ∷ [])) (le_bytes 8 n ++ ((value ++ (0 ∷ [])) ++ [])),
  length-append key (0 ∷ []),
  length-append (le_bytes 8 n) ((value ++ (0 ∷ [])) ++ []),
  length-le_bytes 8 n,
  length-append (value ++ (0 ∷ [])) [],
  length-append value (0 ∷ []),
)

-- What the decoder finds of a request whose value lost its terminator: the search for it
-- leaves the buffer.
unterminated :
    (key part : List ℕ) (n : ℕ)
    → IsText key
    → IsText part
    → decode_control_message_buffer client_kv_set_eager
        ((key ++ (0 ∷ [])) ++ (le_bytes 8 n ++ part))
      ≡ none
unfolding decode_control_message_buffer decode_sizes decode_loop
unterminated key part n tk tp =
    let rest = le_bytes 8 n ++ part in
    let buf = (key ++ (0 ∷ [])) ++ rest in
    let first : strlen buf ≡ some (length key) =
      strlen_lem buf key (rw (append_assoc key (0 ∷ []) rest) (c_string-append key rest tk)) in
    let here : drop (0 + (length key + 1) + 8) buf ≡ part =
      ap (λ m. drop m buf) (omega (arith, length-append key (0 ∷ [])))
      ∙ drop-append (key ++ (0 ∷ [])) rest 8
      ∙ (rw (length-le_bytes 8 n) at (drop-length-append (le_bytes 8 n) part)) in
    rw (first, here, strlen-none part tp)

-- If an eager set request passes the guard of `kv_set`, its value begins inside the buffer, and it
-- is longer than the buffer's 4096 bytes, the server's decoder does not find the end of the value in the bytes that arrive,
-- as long as no zero byte lies behind them.
pub decode_control_message_buffer-overflow :
    (key value : List ℕ) (n : ℕ) (slack : List ℕ)
    → IsText key
    → IsText value
    → length key + length value + 2 ≤ 4096
    → length key + 9 ≤ 4096
    → 4096 < length (payload (fields (set_eager key n value)))
    → IsText slack
    → decode_control_message_buffer client_kv_set_eager
        (take 4096 (payload (fields (set_eager key n value))) ++ slack)
      ≡ none
decode_control_message_buffer-overflow key value n slack tk tv guard starts long ts =
    let k0 = key ++ (0 ∷ []) in
    let size = le_bytes 8 n in
    let j = 4096 - (length key + 9) in
    let inside : j ≤ length value = omega (
      arith,
      length-append k0 (size ++ ((value ++ (0 ∷ [])) ++ [])),
      length-append key (0 ∷ []),
      length-append size ((value ++ (0 ∷ [])) ++ []),
      length-le_bytes 8 n,
      length-append (value ++ (0 ∷ [])) [],
      length-append value (0 ∷ []),
    ) in
    let count : 4096 ≡ length k0 + (length size + j) =
      omega (arith, length-append key (0 ∷ []), length-le_bytes 8 n) in
    let arrives : take 4096 (k0 ++ (size ++ ((value ++ (0 ∷ [])) ++ [])))
        ≡ k0 ++ (size ++ take j value) =
      ap (λ m. take m (k0 ++ (size ++ ((value ++ (0 ∷ [])) ++ [])))) count
      ∙ take-append k0 (size ++ ((value ++ (0 ∷ [])) ++ [])) (length size + j)
      ∙ ap (λ v. k0 ++ v)
          (take-append size ((value ++ (0 ∷ [])) ++ []) j
            ∙ ap (λ v. size ++ v)
                (ap (take j) (append-nil (value ++ (0 ∷ [])))
                  ∙ take-append_le value (0 ∷ []) j inside)) in
    ap (λ b. decode_control_message_buffer client_kv_set_eager b)
      (ap (λ b. b ++ slack) arrives
        ∙ append_assoc k0 (size ++ take j value) slack
        ∙ ap (λ b. k0 ++ b) (append_assoc size (take j value) slack))
    ∙ unterminated key (take j value ++ slack) n tk
        (append-IsText (take j value) slack (take-IsText j value tv) ts)
