-- ===== src/Baseline/System.antt =====
-- The client and the server of Baseline/ with the stream between them, interleaved in any order: a
-- call of `recv` brings any bytes that have arrived and fit the buffer, one at least.
use network_optimization.Prelude.{ℕ, ◌≡◌, ◌≤◌, ◌+◌, List, [], ◌∷◌, ◌++◌, Bool, true, false, length}
use network_optimization.Baseline.Calls.{Call, client_calls}
use network_optimization.Baseline.Serving.{Phase, buffer_size, receive_message, after_recv}

-- The calls that the client has still to make, the bytes on their way, and the server's place.
pub record System : Type 0 where
  pub calls : List Call
  pub to_server : List ℕ
  pub to_client : List ℕ
  pub phase : Phase
  pub client_open : Bool

-- `whole`: the two bytes of an answer, which the server sends in one call, arrive together.
abbrev Arrives : Bool → List ℕ → Type 0
Arrives true rest = rest ≡ []
Arrives false rest = Unit

-- `send` on a blocking socket takes all bytes, and nothing breaks the connection.
pub data Step (whole : Bool) (s t : System) : Type 0 where
  client_send :
      (m : List ℕ) (cs : List Call)
      → s.calls ≡ Call.send m ∷ cs
      → t ≡ record s { calls = cs; to_server = s.to_server ++ m }
      → Step whole s t
  client_recv :
      (b : ℕ) (p rest : List ℕ) (cs : List Call)
      → s.calls ≡ Call.recv ∷ cs
      → s.to_client ≡ b ∷ p ++ rest
      → length (b ∷ p) ≤ buffer_size
      → Arrives whole rest
      → t ≡ record s { calls = cs; to_client = rest }
      → Step whole s t
  client_close :
      s.calls ≡ [] → s.client_open ≡ true → t ≡ record s { client_open = false } → Step whole s t
  server_recv :
      (b : ℕ) (p rest : List ℕ)
      → s.phase ≡ Phase.receiving
      → s.to_server ≡ b ∷ p ++ rest
      → length (b ∷ p) ≤ buffer_size
      → t ≡ record s { to_server = rest; phase = after_recv b p }
      → Step whole s t
  server_send :
      s.phase ≡ Phase.replying
      → t ≡ record s { to_client = s.to_client ++ receive_message; phase = Phase.receiving }
      → Step whole s t
  server_close :
      s.phase ≡ Phase.receiving
      → s.to_server ≡ []
      → s.client_open ≡ false
      → t ≡ record s { phase = Phase.closed }
      → Step whole s t

-- Both connected, with the client's calls ahead.
abbrev pub connected : List Call → System
connected calls = record {
  calls = calls;
  to_server = [];
  to_client = [];
  phase = Phase.receiving;
  client_open = true;
}

-- The states after `n` steps.
pub data Reach (whole : Bool) (s : System) : ℕ → System → Type 0 where
  here : Reach whole s 0 s
  later : {n : ℕ} {t u : System} → Reach whole s n t → Step whole t u → Reach whole s (n + 1) u

abbrev pub Session : ℕ → System → Type 0
Session = Reach true (connected client_calls)
