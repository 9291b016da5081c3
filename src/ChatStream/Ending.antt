-- ===== src/ChatStream/Ending.antt =====
-- chat-stream.controller.ts: the end of the response.
use ai_trader_api.Base.{
  ◌≡◌, ap, ◌∙◌, inl, inr, String, Bool, true, false, Option, none, some, List, [], ◌∷◌, ◌++◌,
  Bool-cases, Option-cases, str_eq,
}
use ai_trader_api.Base.Text.{Text}
use ai_trader_api.Chat.{TurnStore, Ambient}
use ai_trader_api.ChatStream.{
  EventReader, Sent, chunk, recorded_event, error_event, end_call, Stream, Happening, arrived,
  broke, finished, left, settled, Asked, write_event, end_once, announce, on_data, finish,
  finish_recorded, record_cancelled, on_error, on_close, handle, run,
}

-- Whether the calls of a response, after which it is ended or not, end it, where they end it at most
-- once and write no event of the controller after that; `none` where they do not.
abbrev pub scan : {Chunk : Type 0} → Bool → List (Sent Chunk) → Option Bool
scan b [] = some b
scan b (chunk c ∷ xs) = scan b xs
scan true (recorded_event id ∷ xs) = none
scan false (recorded_event id ∷ xs) = scan false xs
scan true (error_event ∷ xs) = none
scan false (error_event ∷ xs) = scan false xs
scan true (end_call ∷ xs) = none
scan false (end_call ∷ xs) = scan true xs

scan-snoc :
    {Chunk : Type 0} (b b' : Bool) (xs : List (Sent Chunk)) (x : Sent Chunk)
    → scan b xs ≡ some b'
    → scan b (xs ++ x ∷ []) ≡ scan b' (x ∷ [])
scan-snoc b b' [] x h = cc
scan-snoc b b' (chunk c ∷ xs) x h = scan-snoc b b' xs x h
scan-snoc true b' (recorded_event id ∷ xs) x h = absurd (cc h)
scan-snoc false b' (recorded_event id ∷ xs) x h = scan-snoc false b' xs x h
scan-snoc true b' (error_event ∷ xs) x h = absurd (cc h)
scan-snoc false b' (error_event ∷ xs) x h = scan-snoc false b' xs x h
scan-snoc true b' (end_call ∷ xs) x h = absurd (cc h)
scan-snoc false b' (end_call ∷ xs) x h = scan-snoc true b' xs x h

module _ {Chunk J S : Type 0} where
  abbrev pub IsWellSent : Stream Chunk J S → Type 0
  IsWellSent t = scan false t.sent ≡ some t.is_ended

  end_once-IsWellSent : (t : Stream Chunk J S) → IsWellSent t → IsWellSent (end_once t)
  end_once-IsWellSent t h = elim (Bool-cases t.is_ended) [
    | inl e ↦ rw e (h ∙ ap some e)
    | inr e ↦ rw e (scan-snoc false false t.sent end_call (h ∙ ap some e))
  ]

  write_error-IsWellSent :
      (t : Stream Chunk J S) → IsWellSent t → IsWellSent (write_event error_event t)
  write_error-IsWellSent t h = elim (Bool-cases t.is_ended) [
    | inl e ↦ rw e (h ∙ ap some e)
    | inr e ↦ rw e (scan-snoc false false t.sent error_event (h ∙ ap some e))
  ]

  announce-IsWellSent :
      (o : Option String) (t : Stream Chunk J S) → IsWellSent t → IsWellSent (announce o t)
  announce-IsWellSent none t h = h
  announce-IsWellSent (some id) t h = elim (Bool-cases t.is_ended) [
    | inl e ↦ rw e (h ∙ ap some e)
    | inr e ↦ rw e (scan-snoc false false t.sent (recorded_event id) (h ∙ ap some e))
  ]

  finish_recorded-IsWellSent :
      (t : Stream Chunk J S) → IsWellSent t → IsWellSent (finish_recorded t)
  unfolding finish_recorded
  finish_recorded-IsWellSent t h = elim (Option-cases t.waiting) [
    | inl e ↦ rw (e, finish_recorded) h
    | inr (stored, e) ↦
        let u = record t { waiting = none } in
        rw (e, finish_recorded)
          (end_once-IsWellSent (announce stored u) (announce-IsWellSent stored u h))
  ]

module _ {Chunk J S : Type 0} (turns : TurnStore S J) (upper : String → String)
    (asked : Asked) where
  finish-IsWellSent :
      (env : Option Ambient) (t : Stream Chunk J S)
      → IsWellSent t
      → IsWellSent (finish turns upper asked env t)
  unfolding finish
  finish-IsWellSent env t h = elim (Option-cases t.reading.result) [
    | inl e ↦ rw (e, finish) (end_once-IsWellSent t h)
    | inr (turn, e) ↦ rw (e, finish) h
  ]

  record_cancelled-IsWellSent :
      (env : Option Ambient) (t : Stream Chunk J S)
      → IsWellSent t
      → IsWellSent (record_cancelled turns upper asked env t)
  unfolding record_cancelled
  record_cancelled-IsWellSent env t h = elim (Option-cases t.reading.turn_id) [
    | inl e ↦ rw (e, record_cancelled) h
    | inr (id, e) ↦ elim (Bool-cases (str_eq id "")) [
      | inl empty ↦ rw (e, empty, record_cancelled) h
      | inr real ↦ rw (e, real, record_cancelled) h
    ]
  ]

  on_close-IsWellSent :
      (env : Option Ambient) (t : Stream Chunk J S)
      → IsWellSent t
      → IsWellSent (on_close turns upper asked env t)
  unfolding on_close
  on_close-IsWellSent env t h = elim (Bool-cases t.is_ended) [
    | inl e ↦ rw (e, on_close) (h ∙ ap some e)
    | inr e ↦ elim (Option-cases t.reading.result) [
      | inr (turn, r) ↦ rw (e, r, on_close) h
      | inl r ↦
          rw (e, r, on_close) (record_cancelled-IsWellSent env (record t { is_aborted = true }) h)
    ]
  ]

module _ {Chunk J S : Type 0} (reader : EventReader J) (decode : Chunk → Text)
    (turns : TurnStore S J) (upper : String → String) (asked : Asked) where
  handle-IsWellSent :
      (x : Happening Chunk) (t : Stream Chunk J S)
      → IsWellSent t
      → IsWellSent (handle reader decode turns upper asked x t)
  unfolding handle on_data on_error
  handle-IsWellSent (arrived c) t h = scan-snoc false t.is_ended t.sent (chunk c) h
  handle-IsWellSent broke t h =
      end_once-IsWellSent (write_event error_event t) (write_error-IsWellSent t h)
  handle-IsWellSent (finished env) t h = finish-IsWellSent turns upper asked env t h
  handle-IsWellSent (left env) t h = on_close-IsWellSent turns upper asked env t h
  handle-IsWellSent settled t h = finish_recorded-IsWellSent t h

  -- Whatever happens to a stream, in whatever order, the response is ended at most once, and no event
  -- of the controller is written after that.
  pub run-IsWellSent :
      (hs : List (Happening Chunk)) (t : Stream Chunk J S)
      → IsWellSent t
      → IsWellSent (run reader decode turns upper asked hs t)
  unfolding run
  run-IsWellSent [] t h = h
  run-IsWellSent (x ∷ hs) t h =
      run-IsWellSent hs (handle reader decode turns upper asked x t) (handle-IsWellSent x t h)
