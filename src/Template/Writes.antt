-- ===== src/Template/Writes.antt =====
-- Optimization/bw_template.c: a client and a server, from their command lines to their ends.
use network_optimization.Prelude.{ℕ, ◌<◌, ◌≡◌, List, ◌++◌}
use network_optimization.Connect.{Change}
use network_optimization.Exchange.Agree.{hears}
use network_optimization.Bandwidth.Throughput.{measure_posts}
use network_optimization.Template.Attempt.{going}
use network_optimization.Template.Message.{BufferDest}
use network_optimization.Template.Agree.{IsUp}
use network_optimization.Template.Options.{Options}
use network_optimization.Template.Main.{World, Prepared, prepare, aimed, MainEnd, template_main}
use network_optimization.Template.Together.{IsHost}

-- A host whose calls succeed, up to `my_dest`.
pub record IsWorking (w : World) (p : Prepared) : Type 0 where
  pub host : IsHost w
  pub prepared : prepare w ≡ going p
  pub up : IsUp w.net
  pub connects : (change : Change) → w.modify_qp change ≡ 0
  pub some_rounds : 0 < p.settings.iters

-- The host, with what its peer's message brings.
abbrev pub told : World → List ℕ → World
told w incoming = record w { net = hears w.net incoming }

-- It ends with status 0, and its context has made the posts of the measurement, aimed at the region
-- of `rem_dest`.
abbrev pub Ends : World → Prepared → BufferDest → Type 0
Ends w p rem_dest =
    (e : MainEnd) × (template_main w ≡ going e)
    × (e.bench.sent
        ≡ p.bench.sent ++ measure_posts p.is_client (aimed p.bench rem_dest) p.settings.iters)
