-- ===== src/Examples/Posting.antt =====
-- A notification with one event, with and without the token.
use cs_sync.Prelude.{eqt, Text, txt, ◌≡◌, refl, some, [], ◌∷◌, ◌++◌}
use cs_sync.Webhook.{is_create, Decoders, HttpRequest, WebhookConfig, handle_post}
use cs_sync.Webhook.Guarded.{IsHandled, handle_post-IsHandled}

abbrev plain_decoders : Decoders
plain_decoders = record {
  unmarshal = λ s. some ((txt "s3:ObjectCreated:Put", txt "b", s) ∷ []);
  query_unescape = λ s. some s;
  split_host = λ s. some s;
}

abbrev with_token : WebhookConfig
with_token = record { bearer_token = txt "t"; allow_ip = txt "10.0.0.1" }

abbrev note : Text → HttpRequest
note token = record {
  method = txt "POST";
  remote_addr = txt "10.0.0.1";
  authorization = txt "Bearer " ++ token;
  body = some (txt "a");
}

refused_without :
    handle_post plain_decoders (λ e w. is_create e ∷ w) with_token (note (txt "x")) [] ≡ (401, [])
unfolding handle_post eqt
refused_without = refl

handle_post-IsHandled_example :
    IsHandled plain_decoders
      (λ e w. is_create e ∷ w)
      with_token
      (note (txt "t"))
      []
      (handle_post plain_decoders (λ e w. is_create e ∷ w) with_token (note (txt "t")) [])
handle_post-IsHandled_example =
    handle_post-IsHandled plain_decoders (λ e w. is_create e ∷ w) with_token (note (txt "t")) []
