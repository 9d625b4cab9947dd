-- ===== src/Payload/Merge.antt =====
-- pkg/payload/context.go and scope.go: which value a key has after a merge.
pub mod Order
use logflux_go_sdk.Prelude.{
  ◌≡◌, refl, sym, ap, ◌∙◌, Bool, true, false, not, ◌&&◌, List, [], ◌∷◌, Option, none, some, arith,
  if◌then◌else◌, Bool-cases, inl, inr, Str, str_eq, str_eq→eq, get_or_else,
}
use logflux_go_sdk.Models.{Labels}
use logflux_go_sdk.Payload.{
  Fields, lookup, assign, is_given, merge_missing, Common, GlobalContext, merged_meta,
  apply_context, Scope, apply_scope,
}

-- The first of two values that is given.
abbrev pub first_given {ℓ} : {A : Type ℓ} → Option A → Option A → Option A
first_given none d = d
first_given (some v) d = some v

abbrev pub lookup_in : Str → Labels → Option Str
lookup_in k none = none
lookup_in k (some m) = lookup k m

twice {ℓ} :
    {A : Type ℓ} (b : Bool) (x y z : Option A)
    → (if b then x else z) ≡ (if b then x else (if b then y else z))
twice true x y z = refl
twice false x y z = refl

swapped {ℓ} :
    {A : Type ℓ} (a b : Bool) (x y z : Option A)
    → (b ≡ true → a ≡ false)
    → (if a then x else (if b then y else z)) ≡ (if b then y else (if a then x else z))
swapped true true x y z h = let impossible = h refl in cc
swapped true false x y z h = refl
swapped false b x y z h = refl

pub lookup-assign {ℓ} :
    {A : Type ℓ} (l k : Str) (v : A) (m : List (Str × A))
    → lookup l (assign k v m) ≡ (if str_eq k l then some v else lookup l m)
unfolding lookup assign
lookup-assign l k v [] = refl
lookup-assign l k v ((j, w) ∷ m) = elim (Bool-cases (str_eq j k)) [
  | inl h ↦
      rw (h, ap (λ x. str_eq x l) (str_eq→eq j k h))
        (twice (str_eq k l) (some v) (some w) (lookup l m))
  | inr h ↦
      rw (h, lookup-assign l k v m)
        (swapped (str_eq j l) (str_eq k l) (some w) (some v) (lookup l m)
          (λ e. ap (str_eq j) (sym (str_eq→eq k l e)) ∙ h))
]

-- What one round of the merge does to a key.
round :
    (l k v : Str) (existing : Fields) (found : Option Str)
    → lookup k existing ≡ found
    → lookup l (if is_given found then existing else assign k v existing)
      ≡ first_given (lookup l existing) (if str_eq k l then some v else none)
round l k v existing none h =
    lookup-assign l k v existing
    ∙ missing (str_eq k l) (lookup l existing)
        (λ e. ap (λ x. lookup x existing) (sym (str_eq→eq k l e)) ∙ h)
  where
    missing :
        (b : Bool) (o : Option Str)
        → (b ≡ true → o ≡ none)
        → (if b then some v else o) ≡ first_given o (if b then some v else none)
    missing true none f = refl
    missing true (some w) f = let impossible = f refl in cc
    missing false none f = refl
    missing false (some w) f = refl
round l k v existing (some w) h =
    present (str_eq k l) (lookup l existing)
      (λ e. ap (λ x. lookup x existing) (sym (str_eq→eq k l e)) ∙ h)
  where
    present :
        (b : Bool) (o : Option Str)
        → (b ≡ true → o ≡ some w)
        → o ≡ first_given o (if b then some v else none)
    present true none f = let impossible = f refl in cc
    present b (some u) f = refl
    present false none f = refl

left : (o : Option Str) → o ≡ first_given o none
left none = refl
left (some v) = refl

pub lookup-merge_missing :
    (l : Str) (defaults existing : Fields)
    → lookup l (merge_missing existing defaults)
      ≡ first_given (lookup l existing) (lookup l defaults)
unfolding merge_missing lookup
lookup-merge_missing l [] existing = left (lookup l existing)
lookup-merge_missing l ((k, v) ∷ defaults) existing =
    lookup-merge_missing l defaults
      (if is_given (lookup k existing) then existing else assign k v existing)
    ∙ ap (λ o. first_given o (lookup l defaults)) (round l k v existing _ refl)
    ∙ joined (lookup l existing) (str_eq k l) (lookup l defaults)
  where
    joined :
        (o : Option Str) (b : Bool) (d : Option Str)
        → first_given (first_given o (if b then some v else none)) d
          ≡ first_given o (if b then some v else d)
    joined none true d = refl
    joined none false d = refl
    joined (some w) b d = refl

-- After `ApplyContext` a key of the metadata has the value that the caller gave it, or else that of the
-- global context; the source is the caller's, or else the global one.
pub apply_context-lookup :
    (g : GlobalContext) (c : Common) (k : Str)
    → (lookup_in k (apply_context g c).metadata
        ≡ first_given (lookup_in k c.metadata) (lookup_in k g.default_meta))
      × ((apply_context g c).source ≡ (if str_eq c.source [] then g.source else c.source))
unfolding apply_context
apply_context-lookup g c k = (over c.metadata g.default_meta, source_of c.source g.source)
  where
    over :
        (m d : Labels) → lookup_in k (merged_meta m d) ≡ first_given (lookup_in k m) (lookup_in k d)
    over none none = refl
    over (some m) none = left (lookup k m)
    over none (some d) = refl
    over (some m) (some d) = lookup-merge_missing k d m

    source_of :
        (s t : Str)
        → (if str_eq s [] && not (str_eq t []) then t else s) ≡ (if str_eq s [] then t else s)
    source_of s t = ground (arith, str_eq→eq s [], str_eq→eq t [])

-- After `applyScope` an attribute has the value that it had, or else that of the scope.
apply_scope-lookup :
    (s : Scope) (c : Common) (k : Str)
    → lookup_in k (apply_scope s c).attributes
      ≡ first_given (lookup_in k c.attributes) (lookup k s.scope_attributes)
unfolding apply_scope lookup
apply_scope-lookup s c k = over c.attributes
  where
    over :
        (a : Labels)
        → lookup k (merge_missing (get_or_else a []) s.scope_attributes)
          ≡ first_given (lookup_in k a) (lookup k s.scope_attributes)
    over none = lookup-merge_missing k s.scope_attributes []
    over (some m) = lookup-merge_missing k s.scope_attributes m
