-- ===== src/Breadcrumbs/Tests.antt =====
-- Tests of pkg/payload/breadcrumb.go, and its theorems at concrete inputs.
use logflux_go_sdk.Prelude.{◌≡◌, refl, pos, List, [], ◌∷◌, codes, recent, Str, str_eq}
use logflux_go_sdk.Breadcrumbs.{Breadcrumb, zero_breadcrumb, new_breadcrumb_ring, snapshot}
use logflux_go_sdk.Breadcrumbs.Trail.{Op, adds, clears, run, trail, snapshot-run}

abbrev crumb : Str → Breadcrumb
crumb message = record zero_breadcrumb { timestamp = codes "t"; message = message }

abbrev visits : List Op
visits =
    adds (codes "now") (crumb (codes "a"))
    ∷ clears
    ∷ adds (codes "now") (crumb (codes "b"))
    ∷ adds (codes "now") (crumb (codes "c"))
    ∷ adds (codes "now") (crumb (codes "d"))
    ∷ []

snapshot-visits :
    snapshot (run (new_breadcrumb_ring (pos 2)) visits) ≡ crumb (codes "c") ∷ crumb (codes "d") ∷ []
unfolding snapshot run new_breadcrumb_ring str_eq
snapshot-visits = refl

snapshot-run_example :
    snapshot (run (new_breadcrumb_ring (pos 2)) visits) ≡ recent 2 (trail [] visits)
unfolding new_breadcrumb_ring
snapshot-run_example = snapshot-run (pos 2) visits
