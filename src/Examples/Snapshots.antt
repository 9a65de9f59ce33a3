-- ===== src/Examples/Snapshots.antt =====
-- The snapshot of a manager on test data (diagnostics.go).
use modulex.Prelude.{◌≢◌, ◌↔◌, String}
use modulex.Topo.Failures.{DependsOn}
use modulex.Diagnostics.Snapshots.{HasEdge, module_contract-edges_iff}
use modulex.Examples.{configured}

abbrev target : String
target = "db"

module_contract-edges_iff_example :
    HasEdge configured "api" target ↔ (DependsOn configured.modules "api" target × (target ≢ ""))
module_contract-edges_iff_example = module_contract-edges_iff configured "api" target
