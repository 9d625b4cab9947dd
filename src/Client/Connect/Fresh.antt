-- ===== src/Client/Connect/Fresh.antt =====
-- pkg/client/resilient_client.go: what a new client is like.
use logflux_go_sdk.Prelude.{
  ◌≡◌, refl, ap, subst, ℕ, pos, ◌≤ℤ◌, false, [], Option, none, some, Str, str_eq, arith, Except, ok,
  err, >>=-eq-ok, ok_injective,
}
use logflux_go_sdk.Queue.{new_queue}
use logflux_go_sdk.Queue.Invariant.{IsValid, new_queue-IsValid}
use logflux_go_sdk.Crypto.{new_encryptor}
use logflux_go_sdk.Config.{KeyError, validate_api_key}
use logflux_go_sdk.Handshake.{HandshakeResult, HandshakeError}
use logflux_go_sdk.Handshake.Result.{IsSession, perform_handshake-IsSession}
use logflux_go_sdk.Discovery.{get_handshake_url}
use logflux_go_sdk.Client.Resilient.State.{ClientConfig, ResilientClient, apply_defaults}
use logflux_go_sdk.Client.Resilient.Accounting.{AddsUp}
use logflux_go_sdk.Client.Connect.{
  Services, require, shaken, endpoints_for, session_with, client_of,
  new_resilient_client_with_handshake,
}

pub shaken-ok :
    (r : Except HandshakeError HandshakeResult) (x : HandshakeResult) → shaken r ≡ ok x → r ≡ ok x
shaken-ok (ok r) x h = ap ok (ok_injective h)
shaken-ok (err e) x h = cc

module _ (world : Services) (grow : ℕ → ℕ → ℕ) (api_key : Str) (cfg : ClientConfig) where
  -- The client is open, its queue is empty and valid and has the size of the configuration, whose sizes
  -- and counts are positive; its counters agree; and it has the key that was drawn, under an id.
  pub record IsReady (c : ResilientClient) : Type 0 where
    pub valid_key : validate_api_key api_key ≡ none
    pub open_client : c.closed ≡ false
    pub no_entries : c.queue.items ≡ []
    pub valid_queue : IsValid c.queue
    pub adds_up : AddsUp c
    pub room : pos 1 ≤ℤ c.config.queue_size
    pub batches : pos 1 ≤ℤ c.config.batch_size
    pub workers : pos 1 ≤ℤ c.config.worker_count
    pub same_hook : c.config.hook ≡ cfg.hook
    pub drawn : world.fresh_key ≡ some c.encryptor.aes_key
    pub has_id : str_eq c.key_uuid [] ≡ false

  required : (o : Option KeyError) → require o ≡ ok tt → o ≡ none
  required none h = refl
  required (some e) h = cc

  client_of-IsReady :
      (r : HandshakeResult)
      → validate_api_key api_key ≡ none
      → IsSession world.handshake_json world.rsa world.fresh_key r
      → IsReady (client_of world grow (apply_defaults world.host cfg) r)
  unfolding client_of apply_defaults new_queue new_encryptor
  client_of-IsReady r key s = record {
    valid_key = key;
    open_client = refl;
    no_entries = refl;
    valid_queue = new_queue-IsValid grow (apply_defaults world.host cfg).queue_size;
    adds_up = refl;
    room = ground arith;
    batches = ground arith;
    workers = ground arith;
    same_hook = refl;
    drawn = s.drawn;
    has_id = s.has_id;
  }

  -- Where `NewResilientClientWithHandshake` returns a client, the key is valid and the client is open,
  -- with an empty and valid queue, at least one worker, sizes that are positive, counters that agree,
  -- and the key that was drawn, under an id that is not empty.
  pub new_resilient_client-IsReady :
      (custom_url : Str) (c : ResilientClient)
      → new_resilient_client_with_handshake world grow api_key custom_url cfg ≡ ok c
      → IsReady c
  unfolding new_resilient_client_with_handshake session_with
  new_resilient_client-IsReady custom_url c h =
      let (_, key, h1) = >>=-eq-ok (require (validate_api_key api_key)) _ h in
      let (endpoints, _, h2) = >>=-eq-ok (endpoints_for world api_key custom_url) _ h1 in
      let (result, session, h3) = >>=-eq-ok (session_with world endpoints api_key) _ h2 in
      subst IsReady (ok_injective h3) (
        client_of-IsReady result (required (validate_api_key api_key) key) (
          perform_handshake-IsSession world.handshake_json world.rsa world.handshake_http
            world.fresh_key (get_handshake_url endpoints) api_key result
            (shaken-ok _ result session)))
