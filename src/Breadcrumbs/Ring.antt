-- ===== src/Breadcrumbs/Ring.antt =====
-- pkg/payload/breadcrumb.go: the ring buffer after one more breadcrumb.
use logflux_go_sdk.Prelude.{
  ℕ, suc, ◌+◌, ◌-◌, ◌%◌, ◌<◌, ◌≡◌, refl, sym, ap, ◌∙◌, ℤ, true, false, List, [], ◌∷◌, ◌++◌, arith,
  length, length-append, length-drop, length-take, length-set, length-replicate, drop, take, set,
  take-set, drop-set, drop-drop, recent, recent_all, append_assoc, take_all, take_zero, drop-append,
  drop_eq, drop_all, append-nil, inr, inl, pos_part, Bool-cases,
}
use native.Mathlib.Decide.{dec_lt}
use native.Mathlib.Nat.{mod-eq_of_lt, mod-eq-sub-mod}
use logflux_go_sdk.Breadcrumbs.{
  Breadcrumb, zero_breadcrumb, BreadcrumbRing, new_breadcrumb_ring, store, snapshot,
}

pub record IsValid (r : BreadcrumbRing) : Type 0 where
  pub filled : length r.items ≡ r.max_size
  pub inside : r.position < r.max_size

pub new_breadcrumb_ring-IsValid : (max_size : ℤ) → IsValid (new_breadcrumb_ring max_size)
unfolding new_breadcrumb_ring
new_breadcrumb_ring-IsValid m =
    ground
      (arith, length-replicate 100 zero_breadcrumb, length-replicate (pos_part m) zero_breadcrumb)

pub store-IsValid : (r : BreadcrumbRing) (b : Breadcrumb) → IsValid r → IsValid (store r b)
unfolding store
store-IsValid r b v = ground (arith, length-set r.items r.position b)

pub snapshot_partial : (r : BreadcrumbRing) → r.full ≡ false → snapshot r ≡ take r.position r.items
unfolding snapshot
snapshot_partial r e = ground (arith, take_zero r.items)

pub snapshot_full :
    (r : BreadcrumbRing)
    → IsValid r
    → r.full ≡ true
    → snapshot r ≡ drop r.position r.items ++ take r.position r.items
unfolding snapshot
snapshot_full r v e = ground arith

wraps : (p m : ℕ) → p + 1 ≡ m → (p + 1) % m ≡ 0
wraps p m h = rw (← h) (mod-eq-sub-mod {n = p + 1} {m = p + 1} (omega arith) ∙ rest)
  where
    rest : (p + 1 - (p + 1)) % (p + 1) ≡ 0
    rest = omega (arith, mod-eq_of_lt {n = p + 1 - (p + 1)} {m = p + 1} (omega arith))

-- The entries round the ring, with one more and the oldest gone.
rotate_full {ℓ} :
    {A : Type ℓ} (xs : List A) (p : ℕ) (b : A)
    → p < length xs
    → recent (length xs) ((drop p xs ++ take p xs) ++ b ∷ [])
      ≡ drop (suc p) xs ++ (take p xs ++ b ∷ [])
rotate_full xs p b h = rw (append_assoc (drop p xs) (take p xs) (b ∷ [])) (
    drop_eq (length (drop p xs ++ (take p xs ++ b ∷ [])) - length xs) 1
      (drop p xs ++ (take p xs ++ b ∷ []))
      (omega (
        arith,
        length-append (drop p xs) (take p xs ++ b ∷ []),
        length-append (take p xs) (b ∷ []),
        length-drop p xs,
        length-take p xs,
      ))
    ∙ drop-append 1 (drop p xs) (take p xs ++ b ∷ []) (omega (arith, length-drop p xs))
    ∙ ap (λ ys. ys ++ (take p xs ++ b ∷ []))
        (drop-drop 1 p xs ∙ drop_eq (p + 1) (suc p) xs (omega arith)))

module _ (r : BreadcrumbRing) (b : Breadcrumb) (v : IsValid r) where
  inner_position : r.position + 1 < r.max_size → (store r b).position ≡ suc r.position
  unfolding store
  inner_position h = omega (arith, mod-eq_of_lt h)

  inner_full : r.position + 1 < r.max_size → (store r b).full ≡ r.full
  unfolding store
  inner_full h = ground (arith, mod-eq_of_lt h)

  items-store : (store r b).items ≡ set r.items r.position b
  unfolding store
  items-store = refl

  -- Not yet full, and a place is left: the entry joins at the end.
  store_partial :
      r.position + 1 < r.max_size
      → r.full ≡ false
      → snapshot (store r b) ≡ take r.position r.items ++ b ∷ []
  store_partial h e =
      rw (snapshot_partial (store r b) (inner_full h ∙ e), inner_position h, items-store)
        (take-set r.items r.position b (omega arith))

  -- Full, and not at the end of the slice: the oldest entry goes.
  store_full :
      r.position + 1 < r.max_size
      → r.full ≡ true
      → snapshot (store r b) ≡ drop (suc r.position) r.items ++ (take r.position r.items ++ b ∷ [])
  store_full h e = rw (
    snapshot_full (store r b) (store-IsValid r b v) (inner_full h ∙ e),
    inner_position h,
    items-store,
    drop-set r.items r.position b,
    take-set r.items r.position b (omega arith),
  )

  last_position : r.position + 1 ≡ r.max_size → (store r b).position ≡ 0
  unfolding store
  last_position h = wraps r.position r.max_size h

  last_full : r.position + 1 ≡ r.max_size → (store r b).full ≡ true
  unfolding store
  last_full h = ground (arith, wraps r.position r.max_size h)

  -- At the end of the slice the ring is full from now on, and the oldest entry stands at its start.
  store_last :
      r.position + 1 ≡ r.max_size → snapshot (store r b) ≡ take r.position r.items ++ b ∷ []
  store_last h =
      rw
        (
          snapshot_full (store r b) (store-IsValid r b v) (last_full h),
          last_position h,
          items-store,
          append-nil (set r.items r.position b),
        )
        (sym (
            take_all (suc r.position) (set r.items r.position b)
              (omega (arith, length-set r.items r.position b)))
          ∙ take-set r.items r.position b (omega arith))

  short_recent :
      recent r.max_size (take r.position r.items ++ b ∷ []) ≡ take r.position r.items ++ b ∷ []
  short_recent = recent_all r.max_size (take r.position r.items ++ b ∷ []) (
      omega
        (arith, length-append (take r.position r.items) (b ∷ []), length-take r.position r.items))

  long_recent :
      recent r.max_size ((drop r.position r.items ++ take r.position r.items) ++ b ∷ [])
      ≡ drop (suc r.position) r.items ++ (take r.position r.items ++ b ∷ [])
  long_recent = rw (← v.filled) (rotate_full r.items r.position b (omega arith))

  last_recent :
      r.position + 1 ≡ r.max_size
      → drop (suc r.position) r.items ++ (take r.position r.items ++ b ∷ [])
        ≡ take r.position r.items ++ b ∷ []
  last_recent h =
      ap (λ ys. ys ++ (take r.position r.items ++ b ∷ []))
        (drop_all (suc r.position) r.items (omega arith))

  -- One write shows the trail's entries with the new one behind, the oldest gone if it was full.
  pub snapshot-store : snapshot (store r b) ≡ recent r.max_size (snapshot r ++ b ∷ [])
  snapshot-store = elim (Bool-cases r.full) [
    | inl e ↦
        rw (snapshot_full r v e, long_recent)
          (elim (dec_lt (r.position + 1) r.max_size) [
            | yes h ↦ store_full h e
            | no h ↦ store_last (omega arith) ∙ sym (last_recent (omega arith))
          ])
    | inr e ↦
        rw (snapshot_partial r e, short_recent)
          (elim (dec_lt (r.position + 1) r.max_size) [
            | yes h ↦ store_partial h e
            | no h ↦ store_last (omega arith)
          ])
  ]
