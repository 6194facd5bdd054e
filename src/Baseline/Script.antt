-- ===== src/Baseline/Script.antt =====
-- Baseline/: what the client's calls are, to the server that reads their bytes.
use mathlib.Core.Path.{subst}
use network_optimization.Prelude.{
  ℕ, zero, suc, ◌*◌, ◌≡◌, ◌≢◌, ◌⊎◌, inl, inr, refl, List, [], ◌∷◌, ◌++◌, Bool, true, false, arith,
}
use network_optimization.Baseline.Calls.{
  Call, end_byte, filled, send_messages, throughput_rounds, measure_throughput, measure_latency,
  client_calls,
}

-- No byte is the end byte.
abbrev pub NoEnd : List ℕ → Type 0
NoEnd [] = Unit
NoEnd (c ∷ cs) = (c ≢ end_byte) × NoEnd cs

-- Messages without the end byte, or an end message and the call that waits for its answer, in any
-- order; `waits`: that call is next.
abbrev pub IsScript : Bool → List Call → Type 0
IsScript waits [] = waits ≡ false
IsScript waits (Call.send m ∷ cs) =
    (waits ≡ false) × ((NoEnd m × IsScript false cs) ⊎ ((m ≡ end_byte ∷ []) × IsScript true cs))
IsScript waits (Call.recv ∷ cs) = (waits ≡ true) × IsScript false cs

pub NoEnd-append : (xs ys : List ℕ) → NoEnd xs → NoEnd ys → NoEnd (xs ++ ys)
NoEnd-append [] ys hx hy = hy
NoEnd-append (x ∷ xs) ys hx hy = (hx.0, NoEnd-append xs ys hx.1 hy)

pub NoEnd-split : (xs ys : List ℕ) → NoEnd (xs ++ ys) → NoEnd xs × NoEnd ys
NoEnd-split [] ys h = (tt, h)
NoEnd-split (x ∷ xs) ys h = let rest = NoEnd-split xs ys h.1 in ((h.0, rest.0), rest.1)

pub IsScript-at : (w : Bool) {cs ds : List Call} → cs ≡ ds → IsScript w cs → IsScript w ds
IsScript-at w e h = subst (λ x. IsScript w x) e h

pub filled-NoEnd : (n : ℕ) → NoEnd (filled n)
unfolding filled
filled-NoEnd zero = tt
filled-NoEnd (suc n) = (omega arith, filled-NoEnd n)

send_messages-IsScript :
    (n : ℕ) (m : List ℕ) (cs : List Call)
    → NoEnd m
    → IsScript false cs
    → IsScript false (send_messages n m cs)
unfolding send_messages
send_messages-IsScript zero m cs hm h = h
send_messages-IsScript (suc n) m cs hm h = (refl, inl (hm, send_messages-IsScript n m cs hm h))

throughput_rounds-IsScript :
    (size n : ℕ) (cs : List Call) → IsScript false cs → IsScript false (throughput_rounds size n cs)
unfolding throughput_rounds
throughput_rounds-IsScript size zero cs h = h
throughput_rounds-IsScript size (suc n) cs h =
    send_messages-IsScript _ (filled size) _ (filled-NoEnd size)
      (refl, inr (refl, (refl, throughput_rounds-IsScript (2 * size) n cs h)))

measure_latency-IsScript :
    (n : ℕ) (cs : List Call) → IsScript false cs → IsScript false (measure_latency n cs)
unfolding measure_latency
measure_latency-IsScript zero cs h = h
measure_latency-IsScript (suc n) cs h = (refl, inr (refl, (refl, measure_latency-IsScript n cs h)))

pub client_calls-IsScript : IsScript false client_calls
unfolding client_calls measure_throughput
client_calls-IsScript =
    measure_latency-IsScript _ _
      (throughput_rounds-IsScript 1 21 _ (measure_latency-IsScript _ [] refl))
