-- ===== src/Protocol/RoundTrip.antt =====
-- What `set_control_message` writes, `decode_control_message_buffer` finds again.
use Prim.Native.Nat.add
use mathlib.Core.Path.{subst}
use network_optimization.Prelude.{
  none, ℕ, zero, suc, ◌+◌, ◌≤◌, ◌<◌, ◌≡◌, refl, sym, ap, ◌∙◌, some, List, [], ◌∷◌, ◌++◌, map,
  append-nil, append_assoc, ◌==◌, false, ltb, length, length-append, length-drop, take, drop, arith,
}
use network_optimization.Prelude.Strings.{
  ◌>>=◌, c_string, c_string-append, le_bytes, length-le_bytes, le_value-le_bytes, IsText,
}
use network_optimization.Protocol.{
  Operation, op_code, memcpy, strlen, message_parts, copy_parts, set_control_message, decode_sizes,
  decode_loop, decode_control_message_buffer,
}
use network_optimization.Protocol.Layout.{
  Field, text, word, Message, set_eager, set_rendezvous, set_address, get, get_fin, set_fin,
  get_value, get_address, shut_down, not_found, in_progress, set_done, get_done, operation, fields,
  IsField, AllFields, encode, payload, offsets, Reads, AllRead,
}

pub take-length-append {ℓ} : {A : Type ℓ} (xs ys : List A) → take (length xs) (xs ++ ys) ≡ xs
take-length-append [] ys = refl
take-length-append (x ∷ xs) ys = ap (λ zs. x ∷ zs) (take-length-append xs ys)

pub drop-length-append {ℓ} : {A : Type ℓ} (xs ys : List A) → drop (length xs) (xs ++ ys) ≡ ys
drop-length-append [] ys = refl
drop-length-append (x ∷ xs) ys = drop-length-append xs ys

-- Dropping further than a list in front.
pub drop-append {ℓ} :
    {A : Type ℓ} (xs ys : List A) (n : ℕ) → drop (length xs + n) (xs ++ ys) ≡ drop n ys
drop-append [] ys n = rw (add.zero n)
drop-append (x ∷ xs) ys n = rw (add.suc (length xs) n) (drop-append xs ys n)

drop-nil {ℓ} : (A : Type ℓ) (n : ℕ) → drop {A = A} n [] ≡ []
drop-nil A zero = refl
drop-nil A (suc n) = refl

pub drop-drop {ℓ} : {A : Type ℓ} (n m : ℕ) (xs : List A) → drop (n + m) xs ≡ drop m (drop n xs)
drop-drop zero m xs = rw (add.zero m)
drop-drop {A} (suc n) m [] = rw (add.suc n m) (sym (drop-nil A m))
drop-drop (suc n) m (x ∷ xs) = rw (add.suc n m) (drop-drop n m xs)

not_ltb : (m n : ℕ) → n ≤ m → ltb m n ≡ false
not_ltb m n le = ground arith

-- A copy of a whole object behind the bytes `pre`.
memcpy_lem :
    (pre src mem : List ℕ)
    → length src ≤ length mem
    → memcpy (pre ++ mem) (length pre) src (length src)
      ≡ some (pre ++ (src ++ drop (length src) mem))
unfolding memcpy
memcpy_lem pre src mem le =
    let room : ltb (length (pre ++ mem)) (length pre + length src) ≡ false =
      not_ltb _ _ (omega (arith, length-append pre mem)) in
    let whole : take (length src) src ≡ src =
      ap (take (length src)) (sym (append-nil src)) ∙ take-length-append src [] in
    rw (
      room,
      not_ltb (length src) (length src) (omega arith),
      take-length-append pre mem,
      whole,
      drop-append pre mem (length src),
    )

strlen-encode : (s rest : List ℕ) → IsText s → strlen ((s ++ (0 ∷ [])) ++ rest) ≡ some (length s)
unfolding strlen
strlen-encode s rest t = rw (append_assoc s (0 ∷ []) rest, c_string-append s rest t)

strlen-text : (s : List ℕ) → IsText s → strlen (s ++ (0 ∷ [])) ≡ some (length s)
unfolding strlen
strlen-text s t = rw (c_string-append s [] t)

abbrev part : Field → List ℕ × ℕ
part f = (encode f, length (encode f))

length-text : (s : List ℕ) → length (s ++ (0 ∷ [])) ≡ length s + 1
length-text s = length-append s (0 ∷ [])

ruleset sizes = (length-text, length-le_bytes)

message_parts_lem :
    (m : Message)
    → AllFields (fields m)
    → message_parts (operation m) (map encode (fields m)) ≡ some (map part (fields m))
unfolding message_parts
message_parts_lem (set_eager k x v) (tk, (_, (tv, _))) =
    rw (strlen-text k tk, strlen-text v tv) (simp sizes)
message_parts_lem (set_rendezvous k x) (tk, _) = rw (strlen-text k tk) (simp sizes)
message_parts_lem (set_address va rkey) fit = simp sizes
message_parts_lem (get k) (tk, _) = rw (strlen-text k tk) (simp sizes)
message_parts_lem (get_fin k) (tk, _) = rw (strlen-text k tk) (simp sizes)
message_parts_lem (set_fin k) (tk, _) = rw (strlen-text k tk) (simp sizes)
message_parts_lem (get_value v) (tv, _) = rw (strlen-text v tv) (simp sizes)
message_parts_lem (get_address x va rkey) fit = simp sizes
message_parts_lem shut_down fit = refl
message_parts_lem not_found fit = refl
message_parts_lem in_progress fit = refl
message_parts_lem set_done fit = refl
message_parts_lem get_done fit = refl

copy_parts_lem :
    (fs : List Field) (pre mem : List ℕ)
    → length (payload fs) ≤ length mem
    → copy_parts (pre ++ mem) (length pre) (map part fs)
      ≡ some (pre ++ (payload fs ++ drop (length (payload fs)) mem))
unfolding copy_parts
copy_parts_lem [] pre mem le = refl
copy_parts_lem (f ∷ fs) pre mem le =
    let e = encode f in
    let rest = drop (length e) mem in
    let split : length (e ++ payload fs) ≡ length e + length (payload fs) =
      length-append e (payload fs) in
    let next : copy_parts (pre ++ (e ++ rest)) (length pre + length e) (map part fs)
        ≡ some (pre ++ (e ++ (payload fs ++ drop (length (payload fs)) rest))) =
      subst
        (λ n.
          copy_parts (pre ++ (e ++ rest)) n (map part fs)
          ≡ some (pre ++ (e ++ (payload fs ++ drop (length (payload fs)) rest))))
        (length-append pre e)
        (simp append_assoc at
          (copy_parts_lem fs (pre ++ e) rest (omega (arith, length-drop (length e) mem)))) in
    rw (memcpy_lem pre e mem (omega arith))
      (next ∙ rw (split, drop-drop (length e) (length (payload fs)) mem, append_assoc))

-- A message that fits the memory is written there, the operation first and the fields behind it;
-- what lay behind them stays.
pub set_control_message_lem :
    (m : Message) (work : List ℕ)
    → AllFields (fields m)
    → 4 + length (payload (fields m)) ≤ length work
    → set_control_message work (operation m) (map encode (fields m))
      ≡ some (
          le_bytes 4 (op_code (operation m))
          ++ (payload (fields m) ++ drop (4 + length (payload (fields m))) work))
unfolding set_control_message
set_control_message_lem m work fit room =
    let code = le_bytes 4 (op_code (operation m)) in
    let four : length code ≡ 4 = length-le_bytes 4 (op_code (operation m)) in
    let header : memcpy work 0 code 4 ≡ some (code ++ drop 4 work) =
      rw four at (memcpy_lem [] code work (omega arith)) in
    rw (header, message_parts_lem m fit)
      (rw four at (copy_parts_lem (fields m) code (drop 4 work) (omega (arith, length-drop 4 work)))
        ∙ rw (sym (drop-drop 4 (length (payload (fields m))) work)))

abbrev size_code : Field → ℕ
size_code (text s) = 0
size_code (word n x) = n

decode_sizes_lem : (m : Message) → decode_sizes (operation m) ≡ map size_code (fields m)
unfolding decode_sizes
decode_sizes_lem (set_eager k x v) = refl
decode_sizes_lem (set_rendezvous k x) = refl
decode_sizes_lem (set_address va rkey) = refl
decode_sizes_lem (get k) = refl
decode_sizes_lem (get_fin k) = refl
decode_sizes_lem (set_fin k) = refl
decode_sizes_lem (get_value v) = refl
decode_sizes_lem (get_address x va rkey) = refl
decode_sizes_lem shut_down = refl
decode_sizes_lem not_found = refl
decode_sizes_lem in_progress = refl
decode_sizes_lem set_done = refl
decode_sizes_lem get_done = refl

-- The next field's place in a buffer.
shift : (pre e p rest : List ℕ) → pre ++ ((e ++ p) ++ rest) ≡ (pre ++ e) ++ (p ++ rest)
shift pre e p rest = rw (append_assoc e p rest) (sym (append_assoc pre e (p ++ rest)))

decode_loop_step :
    (e : List ℕ) (fs : List Field) (pre rest : List ℕ)
    → decode_loop ((pre ++ e) ++ (payload fs ++ rest)) (length (pre ++ e)) (map size_code fs)
      ≡ some (offsets (length (pre ++ e)) fs)
    → decode_loop (pre ++ ((e ++ payload fs) ++ rest)) (length pre + length e) (map size_code fs)
      ≡ some (offsets (length pre + length e) fs)
decode_loop_step e fs pre rest h =
    rw (shift pre e (payload fs) rest) (rw (length-append pre e) at h)

strlen_at :
    (s p pre rest : List ℕ)
    → IsText s
    → strlen (drop (length pre) (pre ++ (((s ++ (0 ∷ [])) ++ p) ++ rest))) ≡ some (length s)
strlen_at s p pre rest t =
    rw
      (drop-length-append pre (((s ++ (0 ∷ [])) ++ p) ++ rest), append_assoc (s ++ (0 ∷ [])) p rest)
      (strlen-encode s (p ++ rest) t)

nonzero : (n : ℕ) → 0 < n → (n == 0) ≡ false
nonzero n h = ground arith

decode_loop_lem :
    (fs : List Field) (pre rest : List ℕ)
    → AllFields fs
    → decode_loop (pre ++ (payload fs ++ rest)) (length pre) (map size_code fs)
      ≡ some (offsets (length pre) fs)
unfolding decode_loop
decode_loop_lem [] pre rest fit = refl
decode_loop_lem (text s ∷ fs) pre rest (t, fit) =
    rw (strlen_at s (payload fs) pre rest t, ← length-text s)
      (ap (λ o. o >>= λ r. some (length pre ∷ r))
        (decode_loop_step (s ++ (0 ∷ [])) fs pre rest
          (decode_loop_lem fs (pre ++ (s ++ (0 ∷ []))) rest fit)))
decode_loop_lem (word n x ∷ fs) pre rest ((n0, lt), fit) =
    let e : List ℕ = le_bytes n x in
    rw (nonzero n n0) (
      ap (λ o. o >>= λ r. some (length pre ∷ r))
        (subst
          (λ k.
            decode_loop (pre ++ ((e ++ payload fs) ++ rest)) (length pre + k) (map size_code fs)
            ≡ some (offsets (length pre + length e) fs))
          (length-le_bytes n x)
          (decode_loop_step e fs pre rest (decode_loop_lem fs (pre ++ e) rest fit))))

reads_at : (f : Field) (rest : List ℕ) → IsField f → Reads f (encode f ++ rest)
reads_at (text s) rest t = rw (append_assoc s (0 ∷ []) rest) (c_string-append s rest t)
reads_at (word n x) rest (n0, lt) = le_value-le_bytes n x rest lt

found :
    (f : Field) (p pre rest : List ℕ)
    → IsField f
    → Reads f (drop (length pre) (pre ++ ((encode f ++ p) ++ rest)))
found f p pre rest ok_f =
    subst (Reads f)
      (sym (drop-length-append pre ((encode f ++ p) ++ rest) ∙ append_assoc (encode f) p rest))
      (reads_at f (p ++ rest) ok_f)

AllRead_lem :
    (fs : List Field) (pre rest : List ℕ)
    → AllFields fs
    → AllRead (pre ++ (payload fs ++ rest)) (offsets (length pre) fs) fs
AllRead_lem [] pre rest fit = tt
AllRead_lem (f ∷ fs) pre rest (ok_f, fit) = (
  found f (payload fs) pre rest ok_f,
  subst (λ buf. AllRead buf (offsets (length pre + length (encode f)) fs) fs)
      (sym (shift pre (encode f) (payload fs) rest))
      (rw (length-append pre (encode f)) at (AllRead_lem fs (pre ++ encode f) rest fit)),
)

two_parts : (n : ℕ) → (suc (suc n) == 1) ≡ false
two_parts n = ground arith

one_part :
    (op : Operation) (buf : List ℕ) (fs : List Field)
    → decode_sizes op ≡ map size_code fs
    → decode_loop buf 0 (map size_code fs) ≡ some (offsets 0 fs)
    → decode_control_message_buffer op buf ≡ some (offsets 0 fs)
unfolding decode_control_message_buffer
one_part op buf [] e h = rw e h
one_part op buf (g ∷ []) e h = rw e
one_part op buf (g ∷ g' ∷ fs) e h = rw (e, two_parts (length (map size_code fs))) h

-- The decoder finds every field of a message at the start of a buffer, whatever lies behind it.
pub decode_control_message_buffer_lem :
    (m : Message) (rest : List ℕ)
    → AllFields (fields m)
    → (os : List ℕ) × (decode_control_message_buffer (operation m) (payload (fields m) ++ rest)
        ≡ some os)
      × AllRead (payload (fields m) ++ rest) os (fields m)
decode_control_message_buffer_lem m rest fit = (
  offsets 0 (fields m),
  one_part (operation m) _ (fields m) (decode_sizes_lem m) (decode_loop_lem (fields m) [] rest fit),
  AllRead_lem (fields m) [] rest fit,
)

pub strlen-none : (p : List ℕ) → c_string p ≡ none → strlen p ≡ none
unfolding strlen
strlen-none p e = rw e refl

pub strlen_lem : (p s : List ℕ) → c_string p ≡ some s → strlen p ≡ some (length s)
unfolding strlen
strlen_lem p s e = rw e
