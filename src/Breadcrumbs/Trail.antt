-- ===== src/Breadcrumbs/Trail.antt =====
-- pkg/payload/breadcrumb.go: the ring buffer against the trail, the breadcrumbs added since the last clear.
use logflux_go_sdk.Prelude.{
  ◌-◌, ◌≡◌, refl, sym, ap, ◌∙◌, ℤ, Bool, true, false, List, [], ◌∷◌, ◌++◌, arith, length,
  length-append, length-drop, length-take, drop, take, recent, recent-append, Str, drop_all,
}
use logflux_go_sdk.Breadcrumbs.{
  Breadcrumb, BreadcrumbRing, new_breadcrumb_ring, stamp, store, add, snapshot, clear, size,
}
use logflux_go_sdk.Breadcrumbs.Ring.{
  IsValid, new_breadcrumb_ring-IsValid, store-IsValid, snapshot_partial, snapshot_full,
  snapshot-store,
}

-- What a program does with a ring: `stamped` is the breadcrumb with its time stamp.
pub data Op : Type 0 where
  adds : Str → Breadcrumb → Op
  clears : Op

unfoldable pub apply : BreadcrumbRing → Op → BreadcrumbRing
apply r (adds now b) = add now r b
apply r clears = clear r

unfoldable pub run : BreadcrumbRing → List Op → BreadcrumbRing
unfolding apply add stamp clear
run r [] = r
run r (op ∷ ops) = run (apply r op) ops

-- The trail: every breadcrumb since the last clear, oldest first, with no bound.
unfoldable pub trail : List Breadcrumb → List Op → List Breadcrumb
trail xs [] = xs
trail xs (adds now b ∷ ops) = trail (xs ++ stamp now b ∷ []) ops
trail xs (clears ∷ ops) = trail [] ops

record Shows (r : BreadcrumbRing) (xs : List Breadcrumb) : Type 0 where
  valid : IsValid r
  shown : snapshot r ≡ recent r.max_size xs

add-Shows :
    (r : BreadcrumbRing) (xs : List Breadcrumb) (now : Str) (b : Breadcrumb)
    → Shows r xs
    → Shows (add now r b) (xs ++ stamp now b ∷ [])
unfolding add
add-Shows r xs now b w = record {
  valid = store-IsValid r (stamp now b) w.valid;
  shown =
      snapshot-store r (stamp now b) w.valid
      ∙ ap (λ ys. recent r.max_size (ys ++ stamp now b ∷ [])) w.shown
      ∙ recent-append r.max_size xs (stamp now b);
}

clear-Shows : (r : BreadcrumbRing) (xs : List Breadcrumb) → Shows r xs → Shows (clear r) []
unfolding clear snapshot
clear-Shows r xs w = record {
  valid = ground (arith, w.valid);
  shown = sym (drop_all (0 - r.max_size) [] (omega arith));
}

run-Shows :
    (r : BreadcrumbRing) (xs : List Breadcrumb) (ops : List Op)
    → Shows r xs
    → Shows (run r ops) (trail xs ops)
unfolding run trail apply
run-Shows r xs [] w = w
run-Shows r xs (adds now b ∷ ops) w =
    run-Shows (add now r b) (xs ++ stamp now b ∷ []) ops (add-Shows r xs now b w)
run-Shows r xs (clears ∷ ops) w = run-Shows (clear r) [] ops (clear-Shows r xs w)

max_size-run : (r : BreadcrumbRing) (ops : List Op) → (run r ops).max_size ≡ r.max_size
unfolding run apply add store clear
max_size-run r [] = refl
max_size-run r (adds now b ∷ ops) = max_size-run (add now r b) ops
max_size-run r (clears ∷ ops) = max_size-run (clear r) ops

fresh-Shows : (max_size : ℤ) → Shows (new_breadcrumb_ring max_size) []
unfolding new_breadcrumb_ring snapshot
fresh-Shows m = record {
  valid = new_breadcrumb_ring-IsValid m;
  shown = sym (drop_all (0 - (new_breadcrumb_ring m).max_size) [] (omega arith));
}

-- After any sequence of additions and clears on a new ring, the snapshot is the most recent
-- `max_size` breadcrumbs of those added since the last clear, oldest first.
pub snapshot-run :
    (max_size : ℤ) (ops : List Op)
    → let r = new_breadcrumb_ring max_size in
      snapshot (run r ops) ≡ recent r.max_size (trail [] ops)
snapshot-run m ops =
    (run-Shows (new_breadcrumb_ring m) [] ops (fresh-Shows m)).shown
    ∙ ap (λ k. recent k (trail [] ops)) (max_size-run (new_breadcrumb_ring m) ops)

size_shown :
    (r : BreadcrumbRing) → IsValid r → (b : Bool) → r.full ≡ b → size r ≡ length (snapshot r)
unfolding size
size_shown r v true e = rw (snapshot_full r v e) (
    ground (
      arith,
      length-append (drop r.position r.items) (take r.position r.items),
      length-drop r.position r.items,
      length-take r.position r.items,
    ))
size_shown r v false e = rw (snapshot_partial r e) (ground (arith, length-take r.position r.items))

-- `Size` is the number of breadcrumbs that the snapshot shows, after any sequence of calls on a new
-- ring.
size-run :
    (max_size : ℤ) (ops : List Op)
    → size (run (new_breadcrumb_ring max_size) ops)
      ≡ length (snapshot (run (new_breadcrumb_ring max_size) ops))
size-run m ops =
    let r = run (new_breadcrumb_ring m) ops in
    size_shown r (run-Shows (new_breadcrumb_ring m) [] ops (fresh-Shows m)).valid r.full refl
