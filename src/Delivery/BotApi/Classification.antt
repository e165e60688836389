-- ===== src/Delivery/BotApi/Classification.antt =====
-- Which answers of the Bot API are retried, by packages/adapters/src/telegram/bot-api.ts.
use xpens_go.Prelude.{Bool, Option, String, arith, false, none, refl, some, true, ℕ, ◌≡◌, ◌≤◌, ◌⊎◌}
use xpens_go.Delivery.BotApi.{
  Body, Response, available, read_body, read_response, send, send_failure, send_success, unreadable,
}
use xpens_go.Delivery.Types.{
  TelegramProviderError, TelegramReplyIntent, provider_outcome_unknown, provider_terminal_failure,
  provider_transient_failure,
}
use xpens_go.Effect.{Result, err, ok}

abbrev pub is_unknown : Result TelegramProviderError String → Bool
is_unknown (err (provider_outcome_unknown code)) = true
is_unknown (err (provider_transient_failure code)) = false
is_unknown (err (provider_terminal_failure code)) = false
is_unknown (ok id) = false

abbrev pub is_retried : Result TelegramProviderError String → Bool
is_retried (err (provider_transient_failure code)) = true
is_retried (err (provider_outcome_unknown code)) = false
is_retried (err (provider_terminal_failure code)) = false
is_retried (ok id) = false

-- Too Many Requests, or a failure of the server.
abbrev pub AsksToWait : ℕ → Type 0
AsksToWait status = (status ≡ 429) ⊎ (500 ≤ status)

abbrev pub IsSuccess : ℕ → Type 0
IsSuccess status = (200 ≤ status) × (status ≤ 299)

-- A body is read under a status of success only.
abbrev pub BodyAsksToWait : ℕ → Body → Type 0
BodyAsksToWait status unreadable = ⊥
BodyAsksToWait status (send_success id) = ⊥
BodyAsksToWait status (send_failure code) = IsSuccess status × AsksToWait code

abbrev pub BodyIsLost : ℕ → Body → Type 0
BodyIsLost status unreadable = IsSuccess status
BodyIsLost status (send_success id) = ⊥
BodyIsLost status (send_failure code) = ⊥

abbrev pub WasPutOff : Option Response → Type 0
WasPutOff none = ⊥
WasPutOff (some response) =
    AsksToWait response.status ⊎ BodyAsksToWait response.status response.body

abbrev pub WasLost : Option Response → Type 0
WasLost none = Unit
WasLost (some response) = BodyIsLost response.status response.body

-- A test that decides a proposition.
abbrev pub Decides : Bool → Type 0 → Type 0
Decides b P = (b ≡ true → P) × (P → b ≡ true)

module _ (to_text status_error_code : ℕ → String) where
  body_classifies :
      (status : ℕ) (body : Body)
      → let response : Option Response = some (record { status = status; body = body }) in
        let answer = read_response to_text status_error_code response in
        Decides (is_unknown answer) (WasLost response)
        × Decides (is_retried answer) (WasPutOff response)
  unfolding read_response read_body
  body_classifies status (send_success id) =
      ((ground arith, ground arith), (ground arith, ground arith))
  body_classifies status (send_failure code) =
      ((ground arith, ground arith), (ground arith, ground arith))
  body_classifies status unreadable = ((ground arith, ground arith), (ground arith, ground arith))

  read_response-classifies :
      (r : Option Response)
      → let answer = read_response to_text status_error_code r in
        Decides (is_unknown answer) (WasLost r) × Decides (is_retried answer) (WasPutOff r)
  unfolding read_response
  read_response-classifies none = ((λ e. tt, λ e. refl), (ground arith, λ e. absurd e))
  read_response-classifies (some response) = body_classifies response.status response.body

-- With a valid configuration, a call of the Bot API is made once. Its outcome is unknown exactly if
-- nothing came back, or a status from 200 to 299 with an unreadable body; and it is retried exactly
-- if the status was 429 or at least 500, or a body under a status from 200 to 299 gave such a code.
pub send_classifies :
    (to_text status_error_code : ℕ → String) {S : Type 0}
    (fetch : String → TelegramReplyIntent → S → Option Response × S) (conversation : String)
    (intent : TelegramReplyIntent) (s : S)
    → let (response, s') = fetch conversation intent s in
      let (answer, s'') = send to_text status_error_code available fetch conversation intent s in
      (s'' ≡ s')
      × Decides (is_unknown answer) (WasLost response)
      × Decides (is_retried answer) (WasPutOff response)
unfolding send
send_classifies to_text status_error_code fetch conversation intent s =
    let (response, s') = fetch conversation intent s in
    let (unknown_iff, retried_iff) = read_response-classifies to_text status_error_code response in
    (refl, unknown_iff, retried_iff)
