-- ===== src/Webhook/Guarded.antt =====
-- webhook.go: which requests reach `onEvent`.
use cs_sync.Prelude.{
  eqt, Text, txt, ℕ, ◌≡◌, refl, inl, inr, true, ◌||◌, Option, none, some, List, Bool-cases, take,
}
use cs_sync.Webhook.{
  WebhookEvent, Decoders, HttpRequest, WebhookConfig, parse_webhook_payload, is_allowed,
  is_authorized, each_event, delivered, read_body, handle_post,
}

-- A request that may be acted on: a POST from the allowed source, with the token.
pub record IsAdmitted (decoders : Decoders) (c : WebhookConfig) (r : HttpRequest) : Type 0 where
  pub is_post : eqt r.method (txt "POST") ≡ true
  pub allowed : is_allowed decoders c r ≡ true
  pub authorized : is_authorized decoders c r ≡ true

-- The effect of a request: none, or each event of the body, once and in order.
pub data IsHandled {W : Type 0} (decoders : Decoders) (on_event : WebhookEvent → W → W)
    (c : WebhookConfig) (r : HttpRequest) (w : W) : ℕ × W → Type 0 where
  ignored : (status : ℕ) → IsHandled decoders on_event c r w (status, w)
  acted :
      (text : Text) (es : List WebhookEvent)
      → IsAdmitted decoders c r
      → r.body ≡ some text
      → parse_webhook_payload decoders (take 10_485_760 text) ≡ some es
      → IsHandled decoders on_event c r w (200, each_event decoders on_event es w)

module _ {W : Type 0} (decoders : Decoders) (on_event : WebhookEvent → W → W)
    (c : WebhookConfig) where
  delivered-IsHandled :
      (r : HttpRequest) (text : Text) (w : W) (parsed : Option (List WebhookEvent))
      → IsAdmitted decoders c r
      → r.body ≡ some text
      → parse_webhook_payload decoders (take 10_485_760 text) ≡ parsed
      → IsHandled decoders on_event c r w (delivered decoders on_event parsed w)
  unfolding delivered
  delivered-IsHandled r text w none admitted body e = ignored 400
  delivered-IsHandled r text w (some es) admitted body e = acted text es admitted body e

  read_body-IsHandled :
      (r : HttpRequest) (w : W) (body : Option Text)
      → IsAdmitted decoders c r
      → r.body ≡ body
      → IsHandled decoders on_event c r w (read_body decoders on_event body w)
  unfolding read_body
  read_body-IsHandled r w none admitted e = ignored 400
  read_body-IsHandled r w (some text) admitted e = delivered-IsHandled r text w _ admitted e refl

  -- A request changes something only if it is a POST from the allowed address, where one is set, with the
  -- token, where one is set, and a body that parses; then every event of the body is
  -- handed on, in order, and the status is 200.
  pub handle_post-IsHandled :
      (r : HttpRequest) (w : W)
      → IsHandled decoders on_event c r w (handle_post decoders on_event c r w)
  unfolding handle_post
  handle_post-IsHandled r w =
      elim (Bool-cases (eqt r.method (txt "GET") || eqt r.method (txt "HEAD"))) [
        | inl get ↦ rw get (ignored 200)
        | inr other ↦ elim (Bool-cases (eqt r.method (txt "POST"))) [
          | inr p ↦ rw (other, p) (ignored 405)
          | inl p ↦ elim (Bool-cases (is_allowed decoders c r)) [
            | inr a ↦ rw (other, p, a) (ignored 403)
            | inl a ↦ elim (Bool-cases (is_authorized decoders c r)) [
              | inr t ↦ rw (other, p, a, t) (ignored 401)
              | inl t ↦
                  rw (other, p, a, t)
                    (read_body-IsHandled r w r.body
                      (record { is_post = p; allowed = a; authorized = t }) refl)
            ]
          ]
        ]
      ]
