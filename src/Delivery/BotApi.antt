-- ===== src/Delivery/BotApi.antt =====
-- `makeTelegramBotApi` of packages/adapters/src/telegram/bot-api.ts: how an answer of the Bot API is
-- classified.
--
-- `fetch` is a parameter: it throws, or answers with a status and a body. A body is what the two
-- schemas of the source make of it. `to_text` is JavaScript's text of a number.
pub mod Classification
use xpens_go.Prelude.{Bool, Option, String, if◌then◌else◌, leb, none, some, ℕ, ◌&&◌, ◌==◌, ◌||◌}
use xpens_go.Delivery.Types.{
  TelegramProviderError, TelegramReplyIntent, provider_outcome_unknown, provider_terminal_failure,
  provider_transient_failure,
}
use xpens_go.Effect.{Effect, Result, err, ok}

pub data Body : Type 0 where
  send_success : (message_id : ℕ) → Body
  send_failure : (error_code : ℕ) → Body
  unreadable : Body

pub record Response : Type 0 where
  pub status : ℕ
  pub body : Body

pub data ProviderConfiguration : Type 0 where
  available unavailable : ProviderConfiguration

-- `status === 429 || status >= 500`
abbrev pub may_be_retried : ℕ → Bool
may_be_retried status = status == 429 || leb 500 status

-- `response.ok` of the Fetch standard.
abbrev pub is_success_status : ℕ → Bool
is_success_status status = leb 200 status && leb status 299

module _ (to_text : ℕ → String) (status_error_code : ℕ → String) where
  unfoldable pub read_body : Body → Result TelegramProviderError String
  read_body (send_success id) = ok (to_text id)
  read_body (send_failure code) =
      if may_be_retried code
      then err (provider_transient_failure (status_error_code code))
      else err (provider_terminal_failure (status_error_code code))
  read_body unreadable = err (provider_outcome_unknown "invalid_provider_response")

  unfoldable pub read_response : Option Response → Result TelegramProviderError String
  read_response none = err (provider_outcome_unknown "network_outcome_unknown")
  read_response (some response) =
      if may_be_retried response.status
      then err (provider_transient_failure (status_error_code response.status))
      else if is_success_status response.status
      then read_body response.body
      else err (provider_terminal_failure (status_error_code response.status))

  unfoldable pub send :
      {S : Type 0}
      → ProviderConfiguration
      → (fetch : String → TelegramReplyIntent → S → Option Response × S) → String
      → TelegramReplyIntent
      → Effect S TelegramProviderError String
  send unavailable fetch conversation intent s =
      (err (provider_transient_failure "provider_configuration_unavailable"), s)
  send available fetch conversation intent s =
      let (response, s') = fetch conversation intent s in (read_response response, s')

  unfoldable pub ensure_available :
      {S : Type 0} → ProviderConfiguration → Effect S TelegramProviderError (Unit {0})
  ensure_available unavailable s =
      (err (provider_transient_failure "provider_configuration_unavailable"), s)
  ensure_available available s = (ok tt, s)
