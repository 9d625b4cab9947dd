-- ===== src/Payload.antt =====
-- pkg/payload/context.go, the setters of pkg/payload/payload.go, and scope.go: the context that every
-- payload gets. A Go map is the list of its keys and values; nil is none.
pub mod Merge
pub mod Float
pub mod Kinds
pub mod Errors
pub mod Json
pub mod Sampler
mod Tests
use logflux_go_sdk.Prelude.{
  Bool, true, false, not, ◌&&◌, ◌||◌, List, [], ◌∷◌, ◌++◌, Option, none, some, if◌then◌else◌, Str,
  codes, str_eq, get_or_else, ℤ, pos,
}
use logflux_go_sdk.Models.{Labels}
use logflux_go_sdk.Breadcrumbs.{BreadcrumbRing, new_breadcrumb_ring, add}

abbrev pub Fields : Type 0
Fields = List (Str × Str)

unfoldable pub lookup {ℓ} : {A : Type ℓ} → Str → List (Str × A) → Option A
lookup k [] = none
lookup k ((j, v) ∷ m) = if str_eq j k then some v else lookup k m

-- `m[k] = v`
unfoldable pub assign {ℓ} : {A : Type ℓ} → Str → A → List (Str × A) → List (Str × A)
assign k v [] = (k, v) ∷ []
assign k v ((j, w) ∷ m) =
    let rest = assign k v m in if str_eq j k then (k, v) ∷ m else (j, w) ∷ rest

abbrev pub is_given : Option Str → Bool
is_given none = false
is_given (some v) = true

-- The loop that sets the keys which are not there.
unfoldable pub merge_missing : Fields → Fields → Fields
unfolding lookup
merge_missing existing [] = existing
merge_missing existing ((k, v) ∷ defaults) =
    merge_missing (if is_given (lookup k existing) then existing else assign k v existing) defaults

-- `common`, the fields that all payloads have.
pub record Common : Type 0 where
  pub version : Str
  pub type_name : Str
  pub source : Str
  pub level : ℤ
  pub ts : Str
  pub attributes : Labels
  pub metadata : Labels

pub record GlobalContext : Type 0 where
  pub source : Str
  pub environment : Str
  pub release : Str
  pub default_meta : Labels

abbrev pub assign_given : Str → Str → Fields → Fields
assign_given k v m = if str_eq v [] then m else assign k v m

unfoldable pub configure : Str → Str → Str → GlobalContext
configure source environment release = record {
  source = source;
  environment = environment;
  release = release;
  default_meta =
      if not (str_eq environment []) || not (str_eq release [])
      then some (
          assign_given (codes "release") release
            (assign_given (codes "environment") environment []))
      else none;
}

abbrev pub merged_meta : Labels → Labels → Labels
merged_meta existing none = existing
merged_meta none (some defaults) = some defaults
merged_meta (some existing) (some defaults) = some (merge_missing existing defaults)

unfoldable pub apply_context : GlobalContext → Common → Common
unfolding merge_missing
apply_context g c = record c {
  source = if str_eq c.source [] && not (str_eq g.source []) then g.source else c.source;
  metadata = merged_meta c.metadata g.default_meta;
}

pub record Scope : Type 0 where
  pub scope_attributes : Fields
  pub breadcrumbs : BreadcrumbRing
  pub trace_id : Str
  pub span_id : Str

unfoldable pub new_scope : Scope
new_scope = record {
  scope_attributes = [];
  breadcrumbs = new_breadcrumb_ring (pos 100);
  trace_id = [];
  span_id = [];
}

-- `now` is the time stamp that the ring gives the breadcrumb.
unfoldable pub add_breadcrumb : Str → Scope → Str → Str → Labels → Scope
add_breadcrumb now s category message attached = record s {
  breadcrumbs = add now s.breadcrumbs (record {
    timestamp = [];
    category = category;
    message = message;
    level = [];
    attached = attached;
  });
}

unfoldable pub set_attribute : Scope → Str → Str → Scope
unfolding assign
set_attribute s key value = record s { scope_attributes = assign key value s.scope_attributes }

unfoldable pub assign_all {ℓ} : {A : Type ℓ} → List (Str × A) → List (Str × A) → List (Str × A)
unfolding assign
assign_all m [] = m
assign_all m ((k, v) ∷ attrs) = assign_all (assign k v m) attrs

unfoldable pub set_attributes : Scope → Fields → Scope
unfolding assign_all
set_attributes s attrs = record s { scope_attributes = assign_all s.scope_attributes attrs }

unfoldable pub set_user : Scope → Str → Scope
unfolding assign
set_user s user_id = record s {
  scope_attributes = assign (codes "user.id") user_id s.scope_attributes;
}

unfoldable pub set_request : Scope → Str → Str → Str → Scope
unfolding assign
set_request s method path request_id =
    let m =
      assign (codes "http.path") path (assign (codes "http.method") method s.scope_attributes) in
    record s { scope_attributes = assign_given (codes "request_id") request_id m }

unfoldable pub set_trace_context : Scope → Str → Str → Scope
set_trace_context s trace_id span_id = record s { trace_id = trace_id; span_id = span_id }

unfoldable pub apply_scope : Scope → Common → Common
unfolding merge_missing
apply_scope s c = record c {
  attributes = some (merge_missing (get_or_else c.attributes []) s.scope_attributes);
}
