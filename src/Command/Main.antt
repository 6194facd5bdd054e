-- ===== src/Command/Main.antt =====
-- LowLatencyProtocols/main.c: `main`, from its arguments to `kv_close`.
use network_optimization.Prelude.{
  ℕ, Option, none, some, List, [], ◌∷◌, map, Bool, true, false, not, ◌==◌, if◌then◌else◌,
}
use network_optimization.Prelude.Int.{ℤ, pos, negsuc}
use network_optimization.Verbs.{Outcome, returned, fault}
use network_optimization.Connect.{Resource}
use network_optimization.Server.{Server, ◌>>=◌, lift}
use network_optimization.Server.Run.{run_server}
use network_optimization.Client.{Client, request_shut_down}
use network_optimization.Open.{Environment, Opened, kv_open, Freed, kv_close}
use network_optimization.Command.{run_throughput_test, execute_input_command}

-- The arguments behind the name of the program: a server's name, and a file with what `fopen` and
-- `fgets` bring of it.
pub data Arguments : Type 0 where
  no_arguments server_only too_many : Arguments
  with_file : Option (List (List ℕ)) → Arguments

-- What `main` is started in. The two leftovers are what stands in variables that it never assigns:
-- whether `servername` is other than NULL, and `perform_throughput_test`. `visits` bounds the run of
-- a server.
pub record Launch : Type 0 where
  pub arguments : Arguments
  pub leftover_servername : Bool
  pub leftover_test : Bool
  pub mr_control_size : ℕ
  pub environment : Environment
  pub client : Client
  pub server : Server
  pub random : ℕ → ℕ
  pub visits : ℕ
  pub destroy : ℕ → Resource → ℕ

-- What the arguments make of a run; the usage for too many does not end it.
pub data Plan : Type 0 where
  no_file : Plan
  go : (is_client is_test : Bool) (input_file : Option (List (List ℕ))) → Plan

unfoldable pub plan_of : Launch → Arguments → Plan
plan_of l no_arguments = go l.leftover_servername l.leftover_test none
plan_of l server_only = go true true none
plan_of l (with_file none) = no_file
plan_of l (with_file (some lines)) = go true false (some lines)
plan_of l too_many = go true l.leftover_test none

-- The client's work, on its one context; a file that was never opened is a fault.
unfoldable pub client_work :
    Launch → Bool → Option (List (List ℕ)) → List Opened → Outcome (ℕ × Client)
client_work l is_test input_file [] = fault
client_work l true input_file (o ∷ os) = do
  s1 ← run_throughput_test (record (l.client) { ctx = o.context }) true
  s2 ← run_throughput_test s1 false
  request_shut_down s2
client_work l false input_file (o ∷ os) = do
  lines ← lift input_file
  s1 ← execute_input_command (record (l.client) { ctx = o.context }) l.random 0 lines
  request_shut_down s1

-- Whether the database is printed is all that the kind of test changes for a server.
unfoldable pub work :
    Launch → Bool → Bool → Option (List (List ℕ)) → List Opened → Outcome (Unit {0})
work l true is_test input_file os = client_work l is_test input_file os >>= λ r. returned tt
work l false is_test input_file os =
    run_server l.visits l.server (map (λ o. o.context) os) >>= λ h. returned tt

-- What `main` returns, and what `kv_close` gave back.
pub record Exit : Type 0 where
  pub status : ℤ
  pub freed : List Freed

unfoldable pub run_plan : Launch → Plan → Outcome Exit
run_plan l no_file = returned (record { status = pos 1; freed = [] })
run_plan l (go is_client is_test input_file) = do
  (code, os) ← kv_open (not is_client) l.mr_control_size l.environment
  if code == 1 then returned (record { status = negsuc 0; freed = [] }) else (do
    done ← work l is_client is_test input_file os
    returned (record { status = pos 0; freed = kv_close l.destroy os }))

unfoldable pub low_latency_main : Launch → Outcome Exit
low_latency_main l = run_plan l (plan_of l l.arguments)
