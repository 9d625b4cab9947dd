-- ===== src/Sdk/Init/Start.antt =====
-- logflux.go: the state that Init leaves, and the histories of calls that start there.
use logflux_go_sdk.Prelude.{◌≡◌, refl, sym, ◌∙◌, subst, ℕ, List, none, Str, All, Except, ok, err}
use logflux_go_sdk.Models.{Time}
use logflux_go_sdk.Payload.Json.{Value}
use logflux_go_sdk.Client.Resilient.State.{ResilientClient}
use logflux_go_sdk.Client.Connect.{Services, ConnectError, new_resilient_client_with_handshake}
use logflux_go_sdk.Client.Connect.Fresh.{new_resilient_client-IsReady}
use logflux_go_sdk.Sdk.{Sdk, Moment}
use logflux_go_sdk.Sdk.Calls.{Call, run}
use logflux_go_sdk.Sdk.Calls.Typed.{IsTyped, WaitTyped, run-WaitTyped}
use logflux_go_sdk.Sdk.Init.{Options, config_of_options, client_from, init}

module _ (render : List (Str × Value) → Str) (format : Time → Str) (world : Services)
    (grow : ℕ → ℕ → ℕ) where
  init-WaitTyped :
      (opts : Options) (s : Sdk)
      → opts.before_send ≡ none
      → WaitTyped render (init world grow opts s).0.client
  unfolding init config_of_options
  init-WaitTyped opts s h =
      fresh
        (new_resilient_client_with_handshake world grow opts.api_key opts.custom_endpoint_url
          (config_of_options opts))
        refl
    where
      fresh :
          (r : Except ConnectError ResilientClient)
          → new_resilient_client_with_handshake world grow opts.api_key opts.custom_endpoint_url
              (config_of_options opts)
            ≡ r
          → WaitTyped render (client_from r)
      fresh (err e) same = tt
      fresh (ok c) same =
          let ready =
            new_resilient_client-IsReady world grow opts.api_key (config_of_options opts)
              opts.custom_endpoint_url c same in
          record {
            unhooked = ready.same_hook ∙ h;
            all_typed = subst (All (IsTyped render)) (sym ready.no_entries) tt;
          }

  -- After `Init` without a global `BeforeSend`, whether it fails or not, and then any calls in any order:
  -- each entry that waits in the queue has for its message the JSON text of a payload, under the entry
  -- type of that kind of payload.
  pub init-run-WaitTyped :
      (opts : Options) (s : Sdk) (calls : List (Moment × Call))
      → opts.before_send ≡ none
      → WaitTyped render (run render format (init world grow opts s).0 calls).client
  init-run-WaitTyped opts s calls h =
      run-WaitTyped render format (init world grow opts s).0 calls (init-WaitTyped opts s h)
