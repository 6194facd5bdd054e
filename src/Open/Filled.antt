-- ===== src/Open/Filled.antt =====
-- What `kv_open` leaves for the calls that follow.
use network_optimization.Prelude.{ℕ, ◌≡◌, List, [], ◌∷◌, Bool, true, false}
use network_optimization.Verbs.Receiving.{IsFilled}
use network_optimization.Wire.{mtu_4096}
use network_optimization.Exchange.Agree.{changes_to}
use network_optimization.Open.{rx_depth_default, num_clients, gidx, Opened}

-- The queue pair has both changes that bring it to the destination that is kept.
abbrev pub IsConnected : Opened → Type 0
IsConnected o = o.changes ≡ changes_to 1 o.my_dest.psn mtu_4096 0 o.remote_dest gidx

-- A context with its queue of receive requests full, connected to the destination that is kept.
abbrev pub IsReadyFor : Opened → Type 0
IsReadyFor o = IsFilled o.context × (o.context.rx_depth ≡ rx_depth_default) × IsConnected o

abbrev pub AllReadyFor : List Opened → Type 0
AllReadyFor [] = Unit {0}
AllReadyFor (o ∷ os) = IsReadyFor o × AllReadyFor os

abbrev pub hosts_wanted : Bool → ℕ
hosts_wanted true = num_clients
hosts_wanted false = 1
