-- ===== src/ChatStream/Opening.antt =====
-- chat-stream.controller.ts: what has to hold before a turn is sent to the signals service.
use ai_trader_api.Base.{
  ◌≡◌, refl, ap, ◌∙◌, ℕ, String, true, false, [], inl, inr, ◌⊎◌, length, Bool-cases,
}
use ai_trader_api.Base.Text.{Text}
use ai_trader_api.Base.Action.{Result, ok, err}
use ai_trader_api.Chat.Budget.{BudgetReads, assert_within_budget}
use ai_trader_api.HttpClient.{Json, Request, Response, Fetched, UpstreamError, chat_stream}
use ai_trader_api.HttpClient.Retry.{logged, chat_stream_once}
use ai_trader_api.ChatStream.{opened, open_stream, over_budget}

opened-state :
    (Chunk : Type 0) {J S W : Type 0} (s : S) (p : Result (UpstreamError J) (Response J) × W)
    → (opened {Chunk = Chunk} s p).1 ≡ p.1
opened-state Chunk s (ok res, w) = refl
opened-state Chunk s (err e, w) = refl

module _ {Chunk J S W : Type 0} (reads : BudgetReads S J) (cap : ℕ) (json : Json J)
    (fetch : Request J → W → Fetched J × W) (base : Text) where
  -- A turn is sent to the signals service exactly once where the user is within the budget, and not
  -- at all, with the refusal as the answer, where the user is not.
  pub open_stream_sends :
      (user : String) (now : ℕ) (payload : J) (s : S) (w : W)
      → let (answer, (w', log)) =
          open_stream {Chunk = Chunk} reads cap json
            (logged fetch)
            base
            user
            now
            payload
            s
            (w, []) in
        ((assert_within_budget reads cap user now s ≡ true) × (length log ≡ 1))
        ⊎ ((assert_within_budget reads cap user now s ≡ false)
            × (answer ≡ err over_budget)
            × (log ≡ []))
  unfolding open_stream
  open_stream_sends user now payload s w =
      elim (Bool-cases (assert_within_budget reads cap user now s)) [
        | inl within ↦ inl (
          within,
          rw (within, open_stream)
              (ap length (
                  ap (λ x. x.1)
                    (opened-state Chunk s (chat_stream json (logged fetch) base payload (w, []))))
                ∙ chat_stream_once json fetch base payload w),
        )
        | inr over ↦ inr (over, rw (over, open_stream) refl, rw (over, open_stream) refl)
      ]
