-- ===== src/Baseline/Ending.antt =====
-- Baseline/: how the measurement over TCP comes to its end.
use network_optimization.Prelude.{
  ℕ, zero, suc, ◌+◌, ◌*◌, ◌^◌, ◌≤◌, ◌≡◌, ◌≢◌, ◌⊎◌, inl, inr, refl, List, [], ◌∷◌, ◌++◌, Bool, true,
  false, arith, length, length-append,
}
use network_optimization.Baseline.Calls.{
  Call, end_byte, filled, send_messages, throughput_rounds, measure_throughput, measure_latency,
  client_calls,
}
use network_optimization.Baseline.Serving.{Phase, receive_message, after_recv}
use network_optimization.Baseline.Script.{IsScript}
use network_optimization.Baseline.System.{
  System, Step, client_send, client_recv, client_close, server_recv, server_send, server_close,
  Reach, here, later, Session,
}
use network_optimization.Baseline.Pace.{
  IsPaced, sending, asked, heard, answered, over, Session-IsPaced,
}

-- The client has made all its calls, and both programs have closed their sockets.
abbrev pub IsOver : System → Type 0
IsOver s = (s.calls ≡ []) × (s.client_open ≡ false) × (s.phase ≡ Phase.closed)

abbrev pub CanStep : System → Type 0
CanStep s = (t : System) × Step true s t

calls_cost : List Call → ℕ
calls_cost [] = 0
calls_cost (Call.send m ∷ cs) = 1 + 2 * length m + calls_cost cs
calls_cost (Call.recv ∷ cs) = 1 + calls_cost cs

abbrev phase_cost : Phase → ℕ
phase_cost Phase.receiving = 1
phase_cost Phase.replying = 2
phase_cost Phase.closed = 0

abbrev open_cost : Bool → ℕ
open_cost true = 1
open_cost false = 0

-- A bound on the steps that are left.
cost : System → ℕ
cost s = calls_cost s.calls + 2 * length s.to_server + phase_cost s.phase + open_cost s.client_open

phase_cost_le : (ph : Phase) → phase_cost ph ≤ 2
phase_cost_le Phase.receiving = omega arith
phase_cost_le Phase.replying = omega arith
phase_cost_le Phase.closed = omega arith

Step-cost : {w : Bool} {s t : System} → Step w s t → cost t + 1 ≤ cost s
unfolding cost calls_cost
Step-cost {s} (client_send m cs e et) = rw (et, e, length-append s.to_server m) (omega arith)
Step-cost (client_recv b p rest cs e came fits whole et) = rw (et, e) (omega arith)
Step-cost (client_close e op et) = rw (et, op) (omega arith)
Step-cost (server_recv b p rest e came fits et) =
    rw (et, e, came, length-append p rest) (omega (arith, phase_cost_le (after_recv b p)))
Step-cost (server_send e et) = rw (et, e) (omega arith)
Step-cost (server_close e nothing op et) = rw (et, e) (omega arith)

Reach-cost : {w : Bool} {s t : System} {n : ℕ} → Reach w s n t → cost t + n ≤ cost s
Reach-cost here = omega arith
Reach-cost (later r st) = omega (arith, Reach-cost r, Step-cost st)

progress_sending :
    (s : System) (cs : List Call)
    → s.calls ≡ cs
    → IsScript false cs
    → s.client_open ≡ true
    → CanStep s
progress_sending s [] e h op = (_, client_close e op refl)
progress_sending s (Call.send m ∷ cs) e h op = (_, client_send m cs e refl)
progress_sending s (Call.recv ∷ cs) e h op = cc

progress_answered :
    (s : System) (cs : List Call)
    → s.calls ≡ cs
    → IsScript true cs
    → s.to_client ≡ receive_message
    → CanStep s
progress_answered s [] e h tc = cc
progress_answered s (Call.send m ∷ cs) e h tc = cc
progress_answered s (Call.recv ∷ cs) e h tc =
    (_, client_recv 82 (0 ∷ []) [] cs e tc (omega arith) refl refl)

progress_bytes :
    (s : System) (b : ℕ) (bs : List ℕ)
    → s.phase ≡ Phase.receiving
    → s.to_server ≡ b ∷ bs
    → CanStep s
progress_bytes s b bs ph ts = (_, server_recv b [] bs ph ts (omega arith) refl)

progress_asked :
    (s : System) (msgs : List ℕ)
    → s.phase ≡ Phase.receiving
    → s.to_server ≡ msgs ++ (end_byte ∷ [])
    → CanStep s
progress_asked s [] ph ts = progress_bytes s _ _ ph ts
progress_asked s (m ∷ msgs) ph ts = progress_bytes s _ _ ph ts

progress-IsOver :
    (s : System) (ph : Phase) (bs : List ℕ)
    → s.phase ≡ ph
    → s.to_server ≡ bs
    → s.calls ≡ []
    → ph ≢ Phase.replying
    → s.client_open ≡ false
    → IsOver s ⊎ CanStep s
progress-IsOver s Phase.receiving [] e ts none_left h op = inr (_, server_close e ts op refl)
progress-IsOver s Phase.receiving (b ∷ bs) e ts none_left h op = inr (progress_bytes s b bs e ts)
progress-IsOver s Phase.replying bs e ts none_left h op = absurd (h refl)
progress-IsOver s Phase.closed bs e ts none_left h op = inl (none_left, op, e)

progress : (s : System) → IsPaced s → IsOver s ⊎ CanStep s
progress s (sending sc ne tc ph op) = inr (progress_sending s s.calls refl sc op)
progress s (asked msgs sc ts ne tc ph op) = inr (progress_asked s msgs ph ts)
progress s (heard sc ts tc ph op) = inr (_, server_send ph refl)
progress s (answered sc ts tc ph op) = inr (progress_answered s s.calls refl sc tc)
progress s (over none_left ne tc ph op) =
    progress-IsOver s s.phase s.to_server refl refl none_left ph op

length-filled : (n : ℕ) → length (filled n) ≡ n
unfolding filled
length-filled zero = refl
length-filled (suc n) = rw (length-filled n) refl

send_messages-cost :
    (n : ℕ) (m : List ℕ) (cs : List Call)
    → calls_cost (send_messages n m cs) ≡ n * (1 + 2 * length m) + calls_cost cs
unfolding send_messages calls_cost
send_messages-cost zero m cs = omega arith
send_messages-cost (suc n) m cs = rw (send_messages-cost n m cs) (omega arith)

double_pow : (a n : ℕ) → 2 * a * 2 ^ n ≡ a * 2 ^ suc n
double_pow a n = grind arith

round_cost :
    (size : ℕ) (cs : List Call)
    → calls_cost (send_messages 1024 (filled size) (Call.send (end_byte ∷ []) ∷ Call.recv ∷ cs))
      ≡ 1028 + 2048 * size + calls_cost cs
unfolding calls_cost
round_cost size cs =
    rw
      (
        send_messages-cost 1024 (filled size) (Call.send (end_byte ∷ []) ∷ Call.recv ∷ cs),
        length-filled size,
      )
      (omega arith)

throughput_rounds-cost :
    (size n : ℕ) (cs : List Call)
    → calls_cost (throughput_rounds size n cs) + 2048 * size
      ≡ calls_cost cs + 1028 * n + 2048 * (size * 2 ^ n)
unfolding throughput_rounds
throughput_rounds-cost size zero cs = omega arith
throughput_rounds-cost size (suc n) cs =
    let rest = throughput_rounds-cost (2 * size) n cs in
    rw (round_cost size (throughput_rounds (2 * size) n cs))
      (omega (arith, rest, double_pow size n))

measure_latency-cost :
    (n : ℕ) (cs : List Call) → calls_cost (measure_latency n cs) ≡ 4 * n + calls_cost cs
unfolding measure_latency calls_cost
measure_latency-cost zero cs = omega arith
measure_latency-cost (suc n) cs = rw (measure_latency-cost n cs) (omega arith)

abbrev pub most_steps : ℕ
most_steps = 4294992934

client_calls-cost : calls_cost client_calls + 2 ≡ most_steps
unfolding client_calls measure_throughput calls_cost
client_calls-cost =
    rw (measure_latency-cost 500 (throughput_rounds 1 21 (measure_latency 1024 []))) (
      omega (
        arith,
        throughput_rounds-cost 1 21 (measure_latency 1024 []),
        measure_latency-cost 1024 [],
      ))

-- A session goes on until the client has made all its calls and both have closed their sockets, which
-- takes no more than 4294992934 steps.
pub Session-ends : {n : ℕ} {s : System} → Session n s → (n ≤ most_steps) × (IsOver s ⊎ CanStep s)
unfolding cost
Session-ends r = (omega (arith, Reach-cost r, client_calls-cost), progress _ (Session-IsPaced r))
