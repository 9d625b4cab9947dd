-- ===== src/Logger/Order.antt =====
-- pkg/logger/logger.go: nothing that the channel takes in is lost or overtaken on its way to the client.
use logflux_go_sdk.Prelude.{
  ◌≡◌, refl, sym, ap, ◌∙◌, ℕ, ◌≤◌, Bool-cases, inl, inr, List, [], ◌∷◌, ◌++◌, append_assoc, map,
  length, length-append, ltb, Str, arith,
}
use logflux_go_sdk.Logger.{
  Entry, Sent, send_entry, Worker, sending, AsyncLogger, new_async_logger, enqueue, Step, put,
  hand_over, receive, send, stop, close_done, close_client, Reach, start, after,
}

-- The entry that the worker holds.
abbrev pub in_hand : Worker → List Entry
in_hand (sending e) = e ∷ []
in_hand _ = []

-- The calls made, then those still to be made, are those of the entries taken in; the channel keeps its
-- bound.
pub record InOrder (l : AsyncLogger) : Type 0 where
  pub all_there :
      map (send_entry l.prefix) l.taken_in
      ≡ l.calls ++ (map (send_entry l.prefix) (in_hand l.worker ++ l.log_chan))
  pub bounded : length l.log_chan ≤ l.buffer_size

map-append : (f : Entry → Sent) (xs ys : List Entry) → map f (xs ++ ys) ≡ map f xs ++ map f ys
map-append f [] ys = refl
map-append f (x ∷ xs) ys = ap (◌∷◌ (f x)) (map-append f xs ys)

-- One more entry at the end.
added :
    (f : Entry → Sent) (taken hand chan : List Entry) (calls : List Sent) (e : Entry)
    → map f taken ≡ calls ++ map f (hand ++ chan)
    → map f (taken ++ e ∷ []) ≡ calls ++ map f (hand ++ (chan ++ e ∷ []))
added f taken hand chan calls e h =
    map-append f taken (e ∷ [])
    ∙ ap (λ x. x ++ f e ∷ []) h
    ∙ append_assoc calls (map f (hand ++ chan)) (f e ∷ [])
    ∙ ap (λ x. calls ++ x)
        (sym (map-append f (hand ++ chan) (e ∷ [])) ∙ ap (map f) (append_assoc hand chan (e ∷ [])))

step-InOrder : (l l' : AsyncLogger) → Step l l' → InOrder l → InOrder l'
unfolding enqueue
step-InOrder l l' (put _ e) o = elim (Bool-cases (ltb (length l.log_chan) l.buffer_size)) [
  | inl room ↦ simp room (record {
    all_there =
        added (send_entry l.prefix) l.taken_in (in_hand l.worker) l.log_chan l.calls e o.all_there;
    bounded = ground (arith, length-append l.log_chan (e ∷ []));
  })
  | inr full ↦ simp full o
]
step-InOrder l l' (hand_over _ e w c z) o = record {
  all_there =
      added (send_entry l.prefix) l.taken_in [] [] l.calls e (
        o.all_there
        ∙ ap (λ k. l.calls ++ map (send_entry l.prefix) (in_hand k ++ l.log_chan)) w
        ∙ ap (λ x. l.calls ++ map (send_entry l.prefix) x) c)
      ∙ ap (λ x. l.calls ++ (send_entry l.prefix e ∷ map (send_entry l.prefix) x)) (sym c);
  bounded = o.bounded;
}
step-InOrder l l' (receive _ e rest w c) o = record {
  all_there =
      o.all_there
      ∙ ap (λ x. l.calls ++ map (send_entry l.prefix) x) (ap (λ k. in_hand k ++ l.log_chan) w ∙ c);
  bounded = omega (arith, ap length c, o.bounded);
}
step-InOrder l l' (send _ e w) o = record {
  all_there =
      o.all_there
      ∙ ap (λ k. l.calls ++ map (send_entry l.prefix) (in_hand k ++ l.log_chan)) w
      ∙ sym (
          append_assoc l.calls (send_entry l.prefix e ∷ []) (map (send_entry l.prefix) l.log_chan));
  bounded = o.bounded;
}
step-InOrder l l' (stop _ w d c) o = record {
  all_there =
      o.all_there ∙ ap (λ k. l.calls ++ map (send_entry l.prefix) (in_hand k ++ l.log_chan)) w;
  bounded = o.bounded;
}
step-InOrder l l' (close_done _ d) o = record { all_there = o.all_there; bounded = o.bounded }
step-InOrder l l' (close_client _ d) o = record { all_there = o.all_there; bounded = o.bounded }

-- In every order of steps of the callers, the worker and Close, from a new logger on: the calls that the
-- worker made on the client, then those for the entry it holds and for the channel, are exactly the calls
-- for the entries that the channel took in, in the same order; and the channel never holds more than its
-- buffer.
pub Reach-InOrder :
    (prefix : Str) (buffer_size : ℕ) (l : AsyncLogger) → Reach prefix buffer_size l → InOrder l
unfolding new_async_logger
Reach-InOrder prefix buffer_size l start = record { all_there = refl; bounded = omega arith }
Reach-InOrder prefix buffer_size l' (after l _ r s) =
    step-InOrder l l' s (Reach-InOrder prefix buffer_size l r)
