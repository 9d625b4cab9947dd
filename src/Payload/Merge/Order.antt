-- ===== src/Payload/Merge/Order.antt =====
-- pkg/payload/context.go: a Go map is visited in any order, and the merge does not depend on it.
use logflux_go_sdk.Prelude.{
  ◌≡◌, refl, sym, ap, subst, ◌∙◌, false, [], ◌∷◌, none, some, arith, Str, str_eq, str_eq→eq,
  str_eq_iff,
}
use mathlib.Core.Logic.{∥∥₁_elim}
use mathlib.Core.List.{Perm, Permᴰ}
use mathlib.Core.Quot.{Quot, Quot-set}
use mathlib.Core.Quot
use logflux_go_sdk.Models.{Labels}
use logflux_go_sdk.Payload.{Fields, lookup, Common, GlobalContext, apply_context}
use logflux_go_sdk.Payload.Merge.{first_given, lookup_in, swapped, apply_context-lookup}

-- No key stands twice, as in a Go map.
abbrev pub Distinct : Fields → Type 0
Distinct [] = Unit {0}
Distinct ((k, v) ∷ m) = (lookup k m ≡ none) × Distinct m

-- The same value for each key; nil is a map without keys.
abbrev pub SameValues : Labels → Labels → Type 0
SameValues m n = (k : Str) → lookup_in k m ≡ lookup_in k n

-- A map without the order of its keys.
abbrev pub GoMap : Type 0
GoMap = Quot SameValues

abbrev SameLookups : Fields → Fields → Type 0
SameLookups m n = (k : Str) → lookup k m ≡ lookup k n

-- Two keys of which neither hides the other.
apart :
    (x y : Str × Str) (m : Fields)
    → lookup x.0 (y ∷ m) ≡ none
    → (str_eq x.0 y.0 ≡ false) × (lookup x.0 m ≡ none)
unfolding lookup
apart (j, v) (k, w) m h = ground (arith, str_eq_iff j k, str_eq_iff k j)

swapped-Distinct : (x y : Str × Str) (m : Fields) → Distinct (x ∷ y ∷ m) → Distinct (y ∷ x ∷ m)
unfolding lookup
swapped-Distinct (j, v) (k, w) m (h, (g, d)) =
    let a = apart (j, v) (k, w) m h in (ground (arith, a.0), (a.1, d))

swapped_lookup :
    (x y : Str × Str) (m : Fields) → Distinct (x ∷ y ∷ m) → SameLookups (x ∷ y ∷ m) (y ∷ x ∷ m)
unfolding lookup
swapped_lookup (j, v) (k, w) m (h, _) l =
    let a = apart (j, v) (k, w) m h in
    swapped (str_eq j l) (str_eq k l) (some v) (some w) (lookup l m)
      (λ e. ground (arith, a.0, str_eq_iff j l, str_eq_iff k l, str_eq→eq k l e))

-- A reordered map has distinct keys too, and the same values.
reordered : {m n : Fields} → Permᴰ m n → Distinct m → Distinct n × SameLookups m n
unfolding lookup
reordered Permᴰ.nil d = (tt, λ l. refl)
reordered (Permᴰ.cons {a} {b} {l₁} {l₂} e p) (h, d) =
    let k = reordered p d in
    ((ap (λ x. lookup x.0 l₂) (sym e) ∙ sym (k.1 a.0) ∙ h, k.0), λ l. rw (e, k.1 l) refl)
reordered (Permᴰ.swap {a} {b} {a'} {b'} {l} e f) d =
    let d' = subst (λ x. Distinct (x ∷ b ∷ l)) e d in
    let d'' = subst (λ y. Distinct (b' ∷ y ∷ l)) f d' in
    (
      swapped-Distinct b' a' l d'',
      λ key.
          ap (λ x. lookup key (x ∷ b ∷ l)) e
          ∙ ap (λ y. lookup key (b' ∷ y ∷ l)) f
          ∙ swapped_lookup b' a' l d'' key,
    )
reordered (Permᴰ.trans p q) d =
    let k = reordered p d in let k' = reordered q k.0 in (k'.0, λ l. k.1 l ∙ k'.1 l)

-- Two orders in which one Go map may be visited; a nil map is not visited.
abbrev pub Visits : Labels → Labels → Type 0
Visits none none = Unit {0}
Visits (some m) (some n) = Distinct m × Perm m n
Visits _ _ = ⊥

Visits-SameValues : (m n : Labels) → Visits m n → ∥ SameValues m n ∥₁
Visits-SameValues none none h = ∣ (λ l. refl) ∣₁
Visits-SameValues none (some n) h = absurd h
Visits-SameValues (some m) none h = absurd h
Visits-SameValues (some m) (some n) (d, p) = ∥∥₁_elim p (hlevel) (λ q. ∣ (reordered q d).1 ∣₁)

-- The metadata after `ApplyContext`, for a map of the caller and a default map.
abbrev pub applied : GlobalContext → Common → Labels → Labels → Labels
applied g c m d =
    (apply_context (record g { default_meta = d }) (record c { metadata = m })).metadata

applied-SameValues :
    (g : GlobalContext) (c : Common) (m m' d d' : Labels)
    → SameValues m m'
    → SameValues d d'
    → SameValues (applied g c m d) (applied g c m' d')
applied-SameValues g c m m' d d' h k l =
    (apply_context-lookup (record g { default_meta = d }) (record c { metadata = m }) l).0
    ∙ ap (λ x. first_given x (lookup_in l d)) (h l)
    ∙ ap (first_given (lookup_in l m')) (k l)
    ∙ sym (apply_context-lookup (record g { default_meta = d' }) (record c { metadata = m' }) l).0

-- The order in which Go visits the maps does not matter to `ApplyContext`: for two orders of the caller's
-- metadata and two of the default metadata, each without a key twice, the metadata afterwards is the
-- same map.
pub apply_context-Visits :
    (g : GlobalContext) (c : Common) (m m' d d' : Labels)
    → Visits m m'
    → Visits d d'
    → ◌≡◌ {A = GoMap} (Quot.mk (applied g c m d)) (Quot.mk (applied g c m' d'))
apply_context-Visits g c m m' d d' h k = ∥∥₁_elim (Visits-SameValues m m' h) (Quot-set _ _) (λ a.
    ∥∥₁_elim (Visits-SameValues d d' k) (Quot-set _ _)
      (λ b. Quot.sound (applied-SameValues g c m m' d d' a b)))
