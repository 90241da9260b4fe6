-- ===== src/Webhook.antt =====
-- internal/rustfs/webhook.go: the receiver of a bucket's event notifications.
pub mod Guarded
use cs_sync.Prelude.{
  eqt, Text, txt, ℕ, Bool, not, ◌||◌, Option, none, some, List, [], ◌∷◌, ◌++◌, map, if◌then◌else◌,
  take,
}
use cs_sync.Prelude.Strings.{has_prefix}

-- `WebhookEvent`
pub record WebhookEvent : Type 0 where
  pub event_name : Text
  pub bucket_name : Text
  pub object_key : Text

unfoldable pub is_create : WebhookEvent → Bool
is_create e = has_prefix e.event_name (txt "s3:ObjectCreated:")

unfoldable pub is_remove : WebhookEvent → Bool
is_remove e = has_prefix e.event_name (txt "s3:ObjectRemoved:")

-- What the libraries make of a text: the records of a JSON body as event name, bucket and key,
-- `url.QueryUnescape`, and the host of `net.SplitHostPort`.
pub record Decoders : Type 0 where
  pub unmarshal : Text → Option (List (Text × Text × Text))
  pub query_unescape : Text → Option Text
  pub split_host : Text → Option Text

-- A request; the body is `none` where reading it fails.
pub record HttpRequest : Type 0 where
  pub method : Text
  pub remote_addr : Text
  pub authorization : Text
  pub body : Option Text

-- The settings of `ServeWebhook`.
pub record WebhookConfig : Type 0 where
  pub bearer_token : Text
  pub allow_ip : Text

module _ (decoders : Decoders) where
  event_of : Text × Text × Text → WebhookEvent
  event_of (name, bucket, key) = record {
    event_name = name;
    bucket_name = bucket;
    object_key = elim (decoders.query_unescape key) [ some k ↦ k | none ↦ key ];
  }

  -- `ParseWebhookPayload`
  unfoldable pub parse_webhook_payload : Text → Option (List WebhookEvent)
  unfolding event_of
  parse_webhook_payload text = elim (decoders.unmarshal text) [
    | some records ↦ some (map event_of records)
    | none ↦ none
  ]

  -- Whether the source of a request is let in.
  unfoldable pub is_allowed : WebhookConfig → HttpRequest → Bool
  is_allowed c r =
      eqt c.allow_ip []
      || eqt (elim (decoders.split_host r.remote_addr) [ some host ↦ host | none ↦ r.remote_addr ])
          c.allow_ip

  unfoldable pub is_authorized : WebhookConfig → HttpRequest → Bool
  is_authorized c r = eqt c.bearer_token [] || eqt r.authorization (txt "Bearer " ++ c.bearer_token)

  -- The calls of `onEvent`, in order.
  unfoldable pub each_event : {W : Type 0} → (WebhookEvent → W → W) → List WebhookEvent → W → W
  each_event on_event [] w = w
  each_event on_event (e ∷ es) w = each_event on_event es (on_event e w)

  pub delivered : {W : Type 0} → (WebhookEvent → W → W) → Option (List WebhookEvent) → W → ℕ × W
  unfolding each_event
  delivered on_event none w = (400, w)
  delivered on_event (some es) w = (200, each_event on_event es w)

  -- 10 MB of the body are read.
  pub read_body : {W : Type 0} → (WebhookEvent → W → W) → Option Text → W → ℕ × W
  unfolding delivered parse_webhook_payload
  read_body on_event none w = (400, w)
  read_body on_event (some text) w =
      delivered on_event (parse_webhook_payload (take 10_485_760 text)) w

  -- The handler of `ServeWebhook`, with the status it answers.
  unfoldable pub handle_post :
      {W : Type 0} → (WebhookEvent → W → W) → WebhookConfig → HttpRequest → W → ℕ × W
  unfolding read_body is_allowed is_authorized
  handle_post on_event c r w =
      if eqt r.method (txt "GET") || eqt r.method (txt "HEAD")
      then (200, w)
      else if not (eqt r.method (txt "POST"))
      then (405, w)
      else if not (is_allowed c r)
      then (403, w)
      else if not (is_authorized c r)
      then (401, w)
      else read_body on_event r.body w
