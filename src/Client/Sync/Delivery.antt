-- ===== src/Client/Sync/Delivery.antt =====
-- pkg/client/client.go: what a batch that is sent without an error has delivered.
use logflux_go_sdk.Prelude.{
  ◌≡◌, refl, sym, ap, ◌⊎◌, inl, inr, ℕ, pos, eqb_ℤ, Bool, true, false, not, ◌&&◌, ◌||◌, List, [],
  ◌∷◌, Option, none, some, if◌then◌else◌, ltb, ◌==◌, length, Str, Except, ok, err, arith,
}
use logflux_go_sdk.Models.{Time, LogEntry}
use logflux_go_sdk.Crypto.{Primitives, IsSound, CryptoError}
use logflux_go_sdk.Client.Validate.{EntryError, Clock, validate_entry}
use logflux_go_sdk.Client.Multipart.{Part, build}
use logflux_go_sdk.Client.Multipart.Parts.{CarriesAll, build-CarriesAll}
use logflux_go_sdk.Client.Resilient.Enqueue.{Message}
use logflux_go_sdk.Client.Sync.{Client}
use logflux_go_sdk.Client.Sync.Sends.{
  Transport, no_request, no_response, responded, SyncError, batch_too_large, ErrorBody,
  collect_entries, do_ingest, built, builder_of, send_entries, send_log_batch, with_collected,
  send_entry, checked,
}

-- A response that says that the request was taken.
abbrev pub IsAccepted : Transport → Type 0
IsAccepted (responded r) =
    (eqb_ℤ r.status_code (pos 200)
      || (eqb_ℤ r.status_code (pos 201) || eqb_ℤ r.status_code (pos 202)))
    ≡ true
IsAccepted _ = ⊥

module _ (p : Primitives) (format : Time → Str) (decode : Str → Option ErrorBody) where
  -- One request carried all the entries, and was accepted.
  pub record IsDelivered (c : Client) (http : List Part → Transport) (entries : List LogEntry)
      : Type 0 where
    pub parts : List Part
    pub carries : CarriesAll p (builder_of c) entries parts
    pub accepted : IsAccepted (http parts)

  do_ingest-IsAccepted :
      (c : Client) (t : Transport) → (do_ingest p format decode c t).1 ≡ none → IsAccepted t
  unfolding do_ingest
  do_ingest-IsAccepted c (no_request text) h = cc
  do_ingest-IsAccepted c (no_response text) h = cc
  do_ingest-IsAccepted c (responded r) h =
      taken (eqb_ℤ r.status_code (pos 200)) (eqb_ℤ r.status_code (pos 201))
        (eqb_ℤ r.status_code (pos 202)) _ _ _ h
    where
      taken :
          (x y z : Bool) (a b : Client) (e : SyncError)
          → (if◌then◌else◌ {A = Client × Option SyncError}
              (not x && not y && not z)
              (a, some e)
              (b, none)).1
            ≡ none
          → (x || (y || z)) ≡ true
      taken true y z a b e h = refl
      taken false true z a b e h = refl
      taken false false true a b e h = refl
      taken false false false a b e h = cc

  module _ (sound : IsSound p) where
    send_entries-IsDelivered :
        (c : Client) (draws : ℕ → Option Str) (http : List Part → Transport)
        (entries : List LogEntry)
        → (send_entries p format decode c draws http entries).1 ≡ none
        → IsDelivered c http entries
    unfolding send_entries
    send_entries-IsDelivered c draws http entries h =
        made (build p format (builder_of c) draws 0 entries) refl h
      where
        made :
            (r : Except CryptoError (List Part))
            → build p format (builder_of c) draws 0 entries ≡ r
            → (built p format decode c http r).1 ≡ none
            → IsDelivered c http entries
        made (err e) same h = cc
        made (ok parts) same h = record {
          parts = parts;
          carries = build-CarriesAll p sound format (builder_of c) draws 0 entries parts same;
          accepted = do_ingest-IsAccepted c (http parts) h;
        }

    -- Where `SendLogBatch` returns nil, no message of the batch was invalid; and either the callback
    -- dropped them all, or one request carried the others, in order and so that a receiver with the key
    -- gets each text back, and the server accepted it with 200, 201 or 202.
    pub send_log_batch-IsDelivered :
        (c : Client) (clock : Clock) (draws : ℕ → Option Str) (http : List Part → Transport)
        (messages : List Message)
        → (send_log_batch p format decode c clock draws http messages).1 ≡ none
        → (entries : List LogEntry) × (collect_entries clock c messages ≡ ok entries)
          × ((entries ≡ []) ⊎ IsDelivered c http entries)
    unfolding send_log_batch collect_entries
    send_log_batch-IsDelivered c clock draws http [] h = ([], refl, inl refl)
    send_log_batch-IsDelivered c clock draws http (m ∷ ms) h =
        bounded (length (m ∷ ms) == 0) (ltb 1000 (length (m ∷ ms)))
          (collect_entries clock c (m ∷ ms)) (ground arith) h
      where
        bounded :
            (zero big : Bool) (r : Except EntryError (List LogEntry))
            → zero ≡ false
            → (if◌then◌else◌ {A = Client × Option SyncError} zero
                (c, none)
                (if big
                  then (c, some batch_too_large)
                  else with_collected p format decode c r
                      (send_entries p format decode c draws http))).1
              ≡ none
            → (entries : List LogEntry) × (r ≡ ok entries)
              × ((entries ≡ []) ⊎ IsDelivered c http entries)
        bounded true big r z h = cc
        bounded false true r z h = cc
        bounded false false (err e) z h = cc
        bounded false false (ok []) z h = ([], refl, inl refl)
        bounded false false (ok (entry ∷ entries)) z h =
            (entry ∷ entries, refl, inr (send_entries-IsDelivered c draws http (entry ∷ entries) h))

    -- The same for a single entry of this node, without a callback.
    pub send_entry-IsDelivered :
        (c : Client) (clock : Clock) (draws : ℕ → Option Str) (http : List Part → Transport)
        (entry : LogEntry)
        → c.hook ≡ none
        → entry.node ≡ c.node
        → (send_entry p format decode c clock draws http entry).1 ≡ none
        → (validate_entry clock entry ≡ none) × IsDelivered c http (entry ∷ [])
    unfolding send_entry
    send_entry-IsDelivered c clock draws http entry hook node h =
        sent (validate_entry clock entry) refl (simp (named (length entry.node == 0), hook) at h)
      where
        named : (b : Bool) → (if b then record entry { node = c.node } else entry) ≡ entry
        named true = ap (λ n. record entry { node = n }) (sym node)
        named false = refl

        sent :
            (v : Option EntryError)
            → validate_entry clock entry ≡ v
            → (checked p format decode c v
                (send_entries p format decode c draws http (entry ∷ []))).1
              ≡ none
            → (validate_entry clock entry ≡ none) × IsDelivered c http (entry ∷ [])
        sent none same h = (same, send_entries-IsDelivered c draws http (entry ∷ []) h)
        sent (some e) same h = cc
