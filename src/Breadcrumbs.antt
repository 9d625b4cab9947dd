-- ===== src/Breadcrumbs.antt =====
-- pkg/payload/breadcrumb.go: the ring buffer of breadcrumbs. Every method holds the mutex, so each is
-- one atomic function.
pub mod Ring
pub mod Trail
mod Tests
use logflux_go_sdk.Prelude.{
  ℕ, suc, ◌+◌, ◌%◌, none, ℤ, pos, pos_part, leb_ℤ, Bool, true, false, List, [], ◌∷◌, ◌++◌,
  if◌then◌else◌, ◌==◌, Str, str_eq, codes, length, take, drop, set, replicate,
}
use logflux_go_sdk.Models.{Labels}

pub record Breadcrumb : Type 0 where
  pub timestamp : Str
  pub category : Str
  pub message : Str
  pub level : Str
  pub attached : Labels

abbrev pub zero_breadcrumb : Breadcrumb
zero_breadcrumb = record {
  timestamp = [];
  category = [];
  message = [];
  level = [];
  attached = none;
}

pub record BreadcrumbRing : Type 0 where
  pub items : List Breadcrumb
  pub max_size : ℕ
  pub position : ℕ
  pub full : Bool

unfoldable pub new_breadcrumb_ring : ℤ → BreadcrumbRing
new_breadcrumb_ring max_size =
    let size = if leb_ℤ max_size (pos 0) then 100 else pos_part max_size in
    record { items = replicate size zero_breadcrumb; max_size = size; position = 0; full = false }

-- The time stamp that `Add` gives a breadcrumb that has none; `now` is the formatted current time.
unfoldable pub stamp : Str → Breadcrumb → Breadcrumb
stamp now b = if str_eq b.timestamp [] then record b { timestamp = now } else b

pub store : BreadcrumbRing → Breadcrumb → BreadcrumbRing
store r b =
    let next = (r.position + 1) % r.max_size in
    record r {
      items = set r.items r.position b;
      position = next;
      full = if next == 0 then true else r.full;
    }

unfoldable pub add : Str → BreadcrumbRing → Breadcrumb → BreadcrumbRing
unfolding store
add now r b = store r (stamp now b)

-- `result` has the length of what the two copies write, so the copies make it up.
unfoldable pub snapshot : BreadcrumbRing → List Breadcrumb
snapshot r =
    let count = if r.full then r.max_size else r.position in
    if count == 0
    then []
    else if r.full
    then drop r.position r.items ++ take r.position r.items
    else take r.position r.items

unfoldable pub clear : BreadcrumbRing → BreadcrumbRing
clear r = record r { position = 0; full = false }

unfoldable pub size : BreadcrumbRing → ℕ
size r = if r.full then r.max_size else r.position
