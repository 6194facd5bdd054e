-- ===== src/Server/Register.antt =====
-- Registering a memory region, when the device takes it.
use network_optimization.Prelude.{ℕ, ◌≡◌, Option, some, List, [], ◌∷◌, ◌++◌, Bool}
use network_optimization.Database.Table.{Key}
use network_optimization.Verbs.{returned}
use network_optimization.Server.{Region, Server, region_of, register_mr, register_with}
use network_optimization.Server.Table.{IsServing}

-- The server after `ibv_reg_mr` has answered with a region.
abbrev pub registered : Server → Region → List (Option (ℕ × ℕ)) → Server
registered s r rest = record s { reg_mr_results = rest; regions = s.regions ++ (r ∷ []) }

pub registered-IsServing :
    {s : Server} {ks : List Key} (r : Region) (rest : List (Option (ℕ × ℕ)))
    → IsServing s ks
    → IsServing (registered s r rest) ks
registered-IsServing r rest v = record {
  keeps = v.keeps;
  fresh = v.fresh;
  table = v.table;
  values = v.values;
}

pub register_mr_lem :
    (s : Server) (start size : ℕ) (write read : Bool) (mr rkey : ℕ) (rest : List (Option (ℕ × ℕ)))
    → s.reg_mr_results ≡ some (mr, rkey) ∷ rest
    → register_mr s start size write read
      ≡ returned (
        region_of start size write read mr rkey,
        registered s (region_of start size write read mr rkey) rest,
      )
unfolding register_mr register_with
register_mr_lem s start size write read mr rkey rest e = rw e
