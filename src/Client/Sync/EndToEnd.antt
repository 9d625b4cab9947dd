-- ===== src/Client/Sync/EndToEnd.antt =====
-- pkg/client/client.go with pkg/handshake, pkg/crypto and pkg/client/multipart.go: from the constructor of a
-- client to what a server reads out of its requests.
use logflux_go_sdk.Prelude.{
  none, ◌≡◌, refl, subst, ◌⊎◌, inl, inr, ℕ, Bool, List, [], ◌∷◌, ◌++◌, map, Option, some, Str,
  codes, ok, >>=-eq-ok, ok_injective,
}
use logflux_go_sdk.Models.{Time, LogEntry}
use logflux_go_sdk.Config.{validate_api_key}
use logflux_go_sdk.Crypto.{Primitives, IsSound, new_encryptor}
use logflux_go_sdk.Crypto.Rsa.{Library, generate_aes_key, or_none}
use logflux_go_sdk.Discovery.{get_handshake_url}
use logflux_go_sdk.Handshake.{body_of, complete_request}
use logflux_go_sdk.Handshake.Exchange.{
  handshake_rsa, Server, received, bound, perform_handshake-IsShared,
}
use logflux_go_sdk.Client.Validate.{Clock}
use logflux_go_sdk.Client.Multipart.{MultipartBuilder, Part}
use logflux_go_sdk.Client.Multipart.Parts.{receive, CarriesAll}
use logflux_go_sdk.Client.Connect.{Services, require, endpoints_for, session_with}
use logflux_go_sdk.Client.Connect.Fresh.{shaken-ok}
use logflux_go_sdk.Client.Resilient.Enqueue.{Message}
use logflux_go_sdk.Client.Resilient.Meant.{Kept}
use logflux_go_sdk.Client.Sync.Batch.{collect_entries-Kept}
use logflux_go_sdk.Client.Sync.{Client, SyncConfig, client_with, new_client_with_config}
use logflux_go_sdk.Client.Sync.Sends.{Transport, ErrorBody, builder_of, send_log_batch}
use logflux_go_sdk.Client.Sync.Delivery.{IsAccepted, send_log_batch-IsDelivered}

-- Services whose keys come from pkg/crypto/rsa.go; `padding` is drawn for the encryption of the key.
abbrev pub keyed : Services → Library → Str → Services
keyed world lib padding = record world {
  rsa = handshake_rsa lib padding;
  fresh_key = or_none (generate_aes_key lib);
}

-- What a server that got a secret reads out of a part.
abbrev pub server_reads :
    {lib : Library} {pem : Str} → Primitives → Bool → Server lib pem → Str → Part → Option Str
server_reads p compressed server secret part =
    bound (received server secret) (λ key. receive p key compressed part)

reads_all :
    {lib : Library} {pem : Str} (p : Primitives) (b : MultipartBuilder) (server : Server lib pem)
    (secret : Str) (entries : List LogEntry) (parts : List Part)
    → received server secret ≡ some b.encryptor.aes_key
    → CarriesAll p b entries parts
    → map (server_reads p b.enable_compression server secret) parts
      ≡ map (λ entry. some entry.message) entries
reads_all p b server secret [] [] h cs = refl
reads_all p b server secret [] (x ∷ xs) h cs = absurd cs
reads_all p b server secret (e ∷ es) [] h cs = absurd cs
reads_all p b server secret (e ∷ es) (x ∷ xs) h cs =
    rw (h, cs.0.message, reads_all p b server secret es xs h cs.1) refl

module _ (world : Services) (lib : Library) (padding : Str) (cfg : SyncConfig) where
  -- A secret that the server got in a request of the handshake, which it answered with status 200, and
  -- out of which it reads the client's key.
  pub record HasKey (c : Client) (server : Server lib c.server_public_key_pem) : Type 0 where
    pub secret : Str
    pub url : Str
    pub answered :
        (body : Str) × (body_of
            (url ++ codes "/complete")
            (world.handshake_http (complete_request url cfg.api_key secret))
          ≡ ok body)
    pub shared : received server secret ≡ some c.encryptor.aes_key

  new_client-HasKey :
      (c : Client)
      → new_client_with_config (keyed world lib padding) cfg ≡ ok c
      → (server : Server lib c.server_public_key_pem) → HasKey c server
  unfolding new_client_with_config session_with client_with new_encryptor
  new_client-HasKey c h =
      let services = keyed world lib padding in
      let (_, _, h1) = >>=-eq-ok (require (validate_api_key cfg.api_key)) _ h in
      let (endpoints, _, h2) =
        >>=-eq-ok (endpoints_for services cfg.api_key cfg.custom_endpoint_url) _ h1 in
      let (result, session, h3) = >>=-eq-ok (session_with services endpoints cfg.api_key) _ h2 in
      subst (λ c. (server : Server lib c.server_public_key_pem) → HasKey c server) (ok_injective h3)
        (λ server.
          let k =
            perform_handshake-IsShared lib world.handshake_json padding world.handshake_http
              (get_handshake_url endpoints) cfg.api_key result server
              (shaken-ok _ result session) in
          record {
            secret = k.secret;
            url = get_handshake_url endpoints;
            answered = k.answered;
            shared = k.shared;
          })

  module _ (p : Primitives) (format : Time → Str) (decode : Str → Option ErrorBody)
      (sound : IsSound p) where
    -- One request, which the server accepted, and out of each part of which it reads, with the key that it
    -- got from the client, the message of the entry.
    abbrev pub IsRead :
        (c : Client) (server : Server lib c.server_public_key_pem)
        → Str
        → (List Part → Transport)
        → List LogEntry
        → Type 0
    IsRead c server secret http entries =
        (parts : List Part) × (map (server_reads p c.enable_compression server secret) parts
          ≡ map (λ entry. some entry.message) entries)
        × IsAccepted (http parts)

    -- From the constructor to the server: for a client that `NewClientWithConfig` made, with a server that
    -- holds the private key for the public key it gave, and a batch that `SendLogBatch` sent without an
    -- error. Out of the secret that it got in the handshake the server has the client's key; no message
    -- of the batch was invalid, and what the `BeforeSend` callback makes of the entry of each, without
    -- those that it drops, is to be sent. Either that is nothing, or the server accepted one request, and
    -- reads with that key the texts of these entries out of its parts, one for each, in order.
    pub send_log_batch-IsRead :
        (c : Client) (server : Server lib c.server_public_key_pem) (clock : Clock)
        (draws : ℕ → Option Str) (http : List Part → Transport) (messages : List Message)
        → new_client_with_config (keyed world lib padding) cfg ≡ ok c
        → (send_log_batch p format decode c clock draws http messages).1 ≡ none
        → (key : HasKey c server) × (entries : List LogEntry) × Kept clock c.node c.hook messages
            entries
          × ((entries ≡ []) ⊎ IsRead c server key.secret http entries)
    send_log_batch-IsRead c server clock draws http messages made sent =
        let key = new_client-HasKey c made server in
        let (entries, collected, h) =
          send_log_batch-IsDelivered p format decode sound c clock draws http messages sent in
        (
          key,
          entries,
          collect_entries-Kept clock c messages entries collected,
          elim h [
            | inl empty ↦ inl empty
            | inr d ↦ inr (
              d.parts,
              reads_all p (builder_of c) server key.secret entries d.parts key.shared d.carries,
              d.accepted,
            )
          ],
        )
