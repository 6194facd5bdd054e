-- ===== src/Command/Closing.antt =====
-- LowLatencyProtocols/main.c: what `main` leaves behind.
use network_optimization.Prelude.{ℕ, ◌≡◌, Option, ◌⊎◌, List, length, Bool, not}
use network_optimization.Verbs.{returned}
use network_optimization.Open.{Opened, kv_open, kv_close}
use network_optimization.Open.Filled.{AllReadyFor, hosts_wanted}
use network_optimization.Command.Main.{Launch, go, plan_of, work, Exit}

abbrev IsCode : ℕ → Type 0
IsCode code = (code ≡ 0) ⊎ (code ≡ 1)

abbrev Answer : Type 0
Answer = ℕ × List Opened

-- What an end with status 0 means: the arguments gave a run as a client or as a server, `kv_open`
-- answered 0 and opened `os`, which are ready and as many as wanted, the work was done with them, and
-- they are what `kv_close` was given.
abbrev pub Closed : Launch → Exit → Type 0
Closed l e =
    (is_client : Bool) × (is_test : Bool) × (input_file : Option (List (List ℕ))) × (os : List
      Opened)
    × (plan_of l l.arguments ≡ go is_client is_test input_file)
    × (kv_open (not is_client) l.mr_control_size l.environment ≡ returned (0, os))
    × AllReadyFor os
    × (length os ≡ hosts_wanted (not is_client))
    × (work l is_client is_test input_file os ≡ returned tt)
    × (e.freed ≡ kv_close l.destroy os)
