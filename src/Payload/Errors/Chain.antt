-- ===== src/Payload/Errors/Chain.antt =====
-- pkg/payload/errors.go: what of an error and of the stack an error payload keeps.
use logflux_go_sdk.Prelude.{
  ◌≡◌, refl, ap, ◌∙◌, sym, ℕ, zero, suc, ◌<◌, true, false, Bool-cases, inl, inr, List, [], ◌∷◌,
  ◌++◌, some, if◌then◌else◌, leb, Str, codes, has_prefix, length, take, append_assoc, append-nil,
  ◌⊎◌, take_all, length-append, arith,
}
use logflux_go_sdk.Payload.Errors.{
  ErrorValue, basic, wrapping, ChainedError, StackFrame, error_type_name, text_of, unwrap_from,
  unwrap_error_chain, collect_frames, capture_stack_trace, new_error_payload,
}

-- An error and all that it wraps, outermost first.
abbrev pub errors_in : ErrorValue → List ChainedError
errors_in (basic kind text) =
    record { kind = error_type_name (basic kind text); message = text } ∷ []
errors_in (wrapping kind text e) =
    record { kind = error_type_name (wrapping kind text e); message = text } ∷ errors_in e

-- The frames outside the Go runtime.
abbrev pub own_frames : List StackFrame → List StackFrame
own_frames [] = []
own_frames (frame ∷ frames) =
    let rest = own_frames frames in
    if has_prefix frame.function (codes "runtime.") then rest else frame ∷ rest

unwrap_from-take :
    (rounds : ℕ) (e : ErrorValue) → unwrap_from rounds (some e) ≡ take rounds (errors_in e)
unfolding unwrap_from
unwrap_from-take zero e = refl
unwrap_from-take (suc zero) (basic kind text) = refl
unwrap_from-take (suc (suc rounds)) (basic kind text) = refl
unwrap_from-take (suc rounds) (wrapping kind text e) =
    ap (◌∷◌ (record { kind = error_type_name (wrapping kind text e); message = text }))
      (unwrap_from-take rounds e)

short : (xs : List ChainedError) → leb (length (take 10 xs)) 1 ≡ leb (length xs) 1
short [] = refl
short (x ∷ []) = refl
short (x ∷ y ∷ xs) = ground arith

take-exact : (n : ℕ) (xs ys : List StackFrame) → length xs ≡ n → take n (xs ++ ys) ≡ xs
take-exact zero [] ys h = refl
take-exact zero (x ∷ xs) ys h = absurd (omega arith)
take-exact (suc n) [] ys h = absurd (omega arith)
take-exact (suc n) (x ∷ xs) ys h = ap (◌∷◌ x) (take-exact n xs ys (omega arith))

collect_frames-take :
    (frames more : List StackFrame)
    → length frames < 20
    → collect_frames frames more ≡ take 20 (frames ++ own_frames more)
unfolding collect_frames
collect_frames-take frames [] h = rw (append-nil frames) (sym (take_all 20 frames (omega arith)))
collect_frames-take frames (frame ∷ more) h =
    elim (Bool-cases (has_prefix frame.function (codes "runtime."))) [
      | inl runtime ↦ simp runtime (collect_frames-take frames more h)
      | inr own ↦ simp own (
          next (collect_frames-take (frames ++ frame ∷ []) more)
            (Bool-cases (leb 20 (length (frames ++ frame ∷ [])))))
    ]
  where
    next :
        (length (frames ++ frame ∷ []) < 20
          → collect_frames (frames ++ frame ∷ []) more
            ≡ take 20 ((frames ++ frame ∷ []) ++ own_frames more))
        → (leb 20 (length (frames ++ frame ∷ [])) ≡ true)
          ⊎ (leb 20 (length (frames ++ frame ∷ [])) ≡ false)
        → (if leb 20 (length (frames ++ frame ∷ []))
            then frames ++ frame ∷ []
            else collect_frames (frames ++ frame ∷ []) more)
          ≡ take 20 (frames ++ frame ∷ own_frames more)
    next rest (inl full) = simp full (
        sym (
          ap (take 20) (sym (append_assoc frames (frame ∷ []) (own_frames more)))
          ∙ take-exact 20 (frames ++ frame ∷ []) (own_frames more)
              (ground (arith, length-append frames (frame ∷ [])))))
    next rest (inr room) =
        simp room
          (rest (ground arith) ∙ ap (take 20) (append_assoc frames (frame ∷ []) (own_frames more)))

-- An error payload has the text and the type of its error; the chain of the first ten errors that it
-- wraps, itself included, or no chain if it wraps none; and of the first 32 frames of the stack the
-- first twenty that are not the Go runtime's.
pub new_error_payload-keeps :
    (ts : Str) (frames : List StackFrame) (source : Str) (e : ErrorValue)
    → let p = new_error_payload ts frames source e in
      (p.message ≡ text_of e)
      × (p.error_type ≡ error_type_name e)
      × (p.error_chain ≡ (if leb (length (errors_in e)) 1 then [] else take 10 (errors_in e)))
      × (p.stack_trace ≡ take 20 (own_frames (take 32 frames)))
unfolding new_error_payload unwrap_error_chain capture_stack_trace
new_error_payload-keeps ts frames source e = (
  refl,
  refl,
  ap (λ chain. if leb (length chain) 1 then [] else chain) (unwrap_from-take 10 e)
      ∙ ap (λ b. if b then [] else take 10 (errors_in e)) (short (errors_in e)),
  collect_frames-take [] (take 32 frames) (omega arith),
)
