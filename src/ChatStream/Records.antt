-- ===== src/ChatStream/Records.antt =====
-- chat-stream.controller.ts: which turns are recorded.
use ai_trader_api.Base.{
  ◌≡◌, ◌≢◌, refl, ap, ◌∙◌, ◌⊎◌, inl, inr, String, Bool, true, false, Option, none, some, List, [],
  ◌∷◌, ◌++◌, map, Bool-cases, Option-cases, arith, eq_iff, str_eq, find?, All, is_some, or_else,
  length, leb, if◌then◌else◌, ◌-◌, take, drop,
}
use ai_trader_api.Base.Text.{Text}
use ai_trader_api.Sse.{push, data_of}
use ai_trader_api.Sse.Chunks.{joined}
use ai_trader_api.Chat.{
  record_turn, TurnStore, Ambient, has_turn_id, event, truncated, cap_events, resolve_session_id,
}
use ai_trader_api.Chat.Sessions.{IsTurnStore, new_report_is_added}
use ai_trader_api.ChatStream.{
  Sent, recorded_event, error_event, EventReader, Reading, Stream, Happening, arrived, broke,
  finished, left, settled, Asked, absorb, absorb_frames, result_of, cancelled, record_asked,
  write_event, end_once, announce, on_data, finish_recorded, record_cancelled, on_error, on_close,
  handle, run, started,
}
use ai_trader_api.ChatStream.Chunks.{after, run-push}

abbrev pub is_finished : {Chunk : Type 0} → Happening Chunk → Bool
is_finished (finished env) = true
is_finished _ = false

-- What a handler leaves as it is.
abbrev IsDecided : {Chunk J S : Type 0} → Stream Chunk J S → Type 0
IsDecided u = (u.is_ended ≡ true) ⊎ (is_some u.reading.result ≡ true)

abbrev Keeps : {Chunk J S : Type 0} → Stream Chunk J S → Stream Chunk J S → Type 0
Keeps t u = (u.store ≡ t.store) × IsDecided u

absorb-keeps :
    {J : Type 0} (reader : EventReader J) (e : J) (r : Reading J)
    → is_some r.result ≡ true
    → is_some (absorb reader e r).result ≡ true
unfolding absorb
absorb-keeps reader e r h = elim (Bool-cases (reader.is_truthy e)) [
  | inr fails ↦ rw (fails, absorb) h
  | inl holds ↦ elim (Option-cases (result_of reader e)) [
    | inl d ↦ rw (holds, d, absorb) h
    | inr (turn, d) ↦ rw (holds, d, absorb) refl
  ]
]

absorb_frames-keeps :
    {J : Type 0} (reader : EventReader J) (fs : List Text) (r : Reading J)
    → is_some r.result ≡ true
    → is_some (absorb_frames reader fs r).result ≡ true
unfolding absorb_frames
absorb_frames-keeps reader [] r h = h
absorb_frames-keeps reader (f ∷ fs) r h =
    elim (Option-cases (data_of reader.parse reader.stringify f)) [
      | inl e ↦ rw (e, absorb_frames) (absorb_frames-keeps reader fs r h)
      | inr (x, e) ↦
          rw (e, absorb_frames)
            (absorb_frames-keeps reader fs (absorb reader x r) (absorb-keeps reader x r h))
    ]

module _ {Chunk J S : Type 0} where
  undecided :
      (t : Stream Chunk J S) → t.is_ended ≡ false → t.reading.result ≡ none → IsDecided t → ⊥
  undecided t e r (inl d) = cc
  undecided t e r (inr d) = cc (rw r at d)

  end_once-Keeps : (t : Stream Chunk J S) → Keeps t (end_once t)
  end_once-Keeps t = elim (Bool-cases t.is_ended) [
    | inl e ↦ rw (e, end_once) (refl, inl refl)
    | inr e ↦ rw (e, end_once) (refl, inl refl)
  ]

  write_event-store : (x : Sent Chunk) (t : Stream Chunk J S) → (write_event x t).store ≡ t.store
  write_event-store x t = ground arith

  announce-store : (o : Option String) (t : Stream Chunk J S) → (announce o t).store ≡ t.store
  announce-store none t = refl
  announce-store (some id) t = write_event-store (recorded_event id) t

  finish_recorded-Keeps : (t : Stream Chunk J S) → IsDecided t → Keeps t (finish_recorded t)
  unfolding finish_recorded
  finish_recorded-Keeps t d = elim (Option-cases t.waiting) [
    | inl e ↦ rw (e, finish_recorded) (refl, d)
    | inr (o, e) ↦
        let u = record t { waiting = none } in
        let (kept, decided) = end_once-Keeps (announce o u) in
        rw (e, finish_recorded) (kept ∙ announce-store o u, decided)
  ]

  on_error-Keeps : (t : Stream Chunk J S) → Keeps t (on_error t)
  unfolding on_error
  on_error-Keeps t =
      let (kept, decided) = end_once-Keeps (write_event error_event t) in
      (kept ∙ write_event-store error_event t, decided)

module _ {Chunk J S : Type 0} (turns : TurnStore S J) (upper : String → String)
    (asked : Asked) where
  on_close-store :
      (env : Ambient) (t : Stream Chunk J S) (id : String)
      → t.is_ended ≡ false
      → t.reading.result ≡ none
      → t.reading.turn_id ≡ some id
      → str_eq id "" ≡ false
      → (on_close turns upper asked (some env) t).store
        ≡ (record_turn turns upper env asked.user_id asked.message
            (cancelled asked t.reading)
            (or_else asked.new_session false)
            t.store).1
  unfolding on_close record_cancelled record_asked
  on_close-store env t id running no_result named real =
      rw (running, no_result, named, real, on_close, record_cancelled)
        (ap
          (λ o.
            (record_turn turns upper env asked.user_id asked.message
              (record (cancelled asked t.reading) { turn_id = o }) (or_else asked.new_session false)
              t.store).1)
          named)

  on_close-Keeps :
      (env : Option Ambient) (t : Stream Chunk J S)
      → IsDecided t
      → Keeps t (on_close turns upper asked env t)
  unfolding on_close
  on_close-Keeps env t d = elim (Bool-cases t.is_ended) [
    | inl e ↦ rw (e, on_close) (refl, inl refl)
    | inr e ↦ elim (Option-cases t.reading.result) [
      | inl r ↦ absurd (undecided t e r d)
      | inr (turn, r) ↦ rw (e, r, on_close) (refl, inr (rw r refl))
    ]
  ]

module _ {Chunk J S : Type 0} (reader : EventReader J) (decode : Chunk → Text)
    (turns : TurnStore S J) (upper : String → String) (asked : Asked) where
  run-append :
      (xs ys : List (Happening Chunk)) (t : Stream Chunk J S)
      → run reader decode turns upper asked (xs ++ ys) t
        ≡ run reader decode turns upper asked ys (run reader decode turns upper asked xs t)
  unfolding run
  run-append [] ys t = refl
  run-append (x ∷ xs) ys t = run-append xs ys (handle reader decode turns upper asked x t)

  -- A reader who leaves in the middle of a turn, which has an id and no result yet and is not yet
  -- recorded, leaves a record of it, as the last turn stored: marked as cancelled, with the question,
  -- the symbol and the exchange that were asked, and with the events of the frames that are complete
  -- when the decoded chunks are joined: all of them where they are at most 200, and otherwise the first
  -- 100, the number of those left out, and the last 100.
  pub left_turn_is_recorded :
      (law : IsTurnStore turns) (c : Chunk) (cs : List Chunk) (s : S) (env : Ambient)
      (r : Reading J) (id : String)
      → absorb_frames reader
          (push [] (joined (decode c) (map decode cs))).0
          (record { result = none; turn_id = none; seen = [] })
        ≡ r
      → r.result ≡ none
      → r.turn_id ≡ some id
      → id ≢ ""
      → find? (has_turn_id id) (law.docs s) ≡ none
      → (session : String) × (law.docs
            (run reader decode turns upper asked
              (map arrived (c ∷ cs) ++ left (some env) ∷ [])
              (started s)).store
          ≡ law.docs s
            ++ record {
              turn_id = id;
              session_id = session;
              user_id = asked.user_id;
              symbol = upper asked.symbol;
              exchange = upper asked.exchange;
              message = asked.message;
              answer = "Stopped before this analysis finished.";
              events =
                  let events = map event r.seen in
                  if leb (length events) 200
                  then events
                  else (take 100 events
                      ++ truncated (length events - 200) ∷ drop (length events - 100) events);
              usage = none;
              stop_reason = some "cancelled";
              created_at = env.now;
              updated_at = env.now;
            }
              ∷ [])
  unfolding run handle cap_events
  left_turn_is_recorded law c cs s env r id read no_result named real absent =
      let t = after reader (c ∷ cs) (push [] (joined (decode c) (map decode cs))) (started s) in
      let arrivals =
        run-append (map arrived (c ∷ cs)) (left (some env) ∷ []) (started s)
        ∙ ap (λ x. run reader decode turns upper asked (left (some env) ∷ []) x)
            (run-push reader decode turns upper asked c cs (started s)) in
      let symbol = upper asked.symbol in
      (
        resolve_session_id turns upper env asked.user_id symbol (or_else asked.new_session false) s,
        ap (λ x. law.docs x.store) arrivals
            ∙ ap law.docs (
                on_close-store turns upper asked env t id refl (ap (λ x. x.result) read ∙ no_result)
                  (ap (λ x. x.turn_id) read ∙ named) (ground (arith, eq_iff id "")))
            ∙ rw read (
                new_report_is_added turns upper env law asked.user_id asked.message id
                  (cancelled asked r) named real (or_else asked.new_session false) s absent),
      )

  handle-Keeps :
      (h : Happening Chunk) (t : Stream Chunk J S)
      → is_finished h ≡ false
      → (t.is_ended ≡ true) ⊎ (is_some t.reading.result ≡ true)
      → Keeps t (handle reader decode turns upper asked h t)
  unfolding handle on_data
  handle-Keeps (finished env) t h d = absurd (cc h)
  handle-Keeps (arrived c) t h (inl e) = (refl, inl e)
  handle-Keeps (arrived c) t h (inr e) =
      (refl, inr (absorb_frames-keeps reader (push t.buffer (decode c)).0 t.reading e))
  handle-Keeps broke t h d = on_error-Keeps t
  handle-Keeps (left env) t h d = on_close-Keeps turns upper asked env t d
  handle-Keeps settled t h d = finish_recorded-Keeps t d

  -- Once the result of a turn has arrived, or the stream has been ended by an error, no handler but
  -- that of the upstream's end records the turn: where that one does not run, because the reader left
  -- and so aborted the upstream, or because the upstream broke, the turn is not recorded.
  pub only_upstream_end_records :
      (hs : List (Happening Chunk)) (t : Stream Chunk J S)
      → All (λ h. is_finished h ≡ false) hs
      → (t.is_ended ≡ true) ⊎ (is_some t.reading.result ≡ true)
      → (run reader decode turns upper asked hs t).store ≡ t.store
  unfolding run
  only_upstream_end_records [] t not_end decided = refl
  only_upstream_end_records (h ∷ hs) t not_end decided =
      let (kept, still) = handle-Keeps h t not_end.0 decided in
      only_upstream_end_records hs (handle reader decode turns upper asked h t) not_end.1 still
      ∙ kept
