-- ===== src/ChatStream/Chunks.antt =====
-- chat-stream.controller.ts: what is read and forwarded of the chunks of a turn.
use ai_trader_api.Base.{
  inl, inr, ◌≡◌, refl, sym, ap, ◌∙◌, String, List, [], ◌∷◌, ◌++◌, map, Option-cases,
}
use mathlib.Core.List.{append_assoc, append-nil}
use ai_trader_api.Base.Text.{Text}
use ai_trader_api.Sse.{push, data_of}
use ai_trader_api.Sse.Chunks.{feed, feed-eq-push, joined}
use ai_trader_api.Chat.{TurnStore}
use ai_trader_api.ChatStream.{
  EventReader, Reading, chunk, Stream, arrived, Asked, absorb, absorb_frames, on_data, handle, run,
}

absorb_frames-append :
    {J : Type 0} (reader : EventReader J) (fs gs : List Text) (r : Reading J)
    → absorb_frames reader (fs ++ gs) r ≡ absorb_frames reader gs (absorb_frames reader fs r)
unfolding absorb_frames
absorb_frames-append reader [] gs r = refl
absorb_frames-append reader (f ∷ fs) gs r =
    elim (Option-cases (data_of reader.parse reader.stringify f)) [
      | inl e ↦ rw (e, absorb_frames) (absorb_frames-append reader fs gs r)
      | inr (x, e) ↦ rw (e, absorb_frames) (absorb_frames-append reader fs gs (absorb reader x r))
    ]

module _ {Chunk J S : Type 0} (reader : EventReader J) where
  -- The stream after chunks whose frames are `frames` and leave the buffer `rest`.
  abbrev pub after : List Chunk → List Text × Text → Stream Chunk J S → Stream Chunk J S
  after cs (frames, rest) t = record t {
    buffer = rest;
    reading = absorb_frames reader frames t.reading;
    sent = t.sent ++ map chunk cs;
  }

module _ {Chunk J S : Type 0} (reader : EventReader J) (decode : Chunk → Text)
    (turns : TurnStore S J) (upper : String → String) (asked : Asked) where
  pub run-after :
      (cs : List Chunk) (t : Stream Chunk J S)
      → run reader decode turns upper asked (map arrived cs) t
        ≡ after reader cs (feed t.buffer (map decode cs)) t
  unfolding run handle on_data feed absorb_frames
  run-after [] t = ap (λ xs. record t { sent = xs }) (sym (append-nil t.sent))
  run-after (c ∷ cs) t =
      let (frames, rest) = push t.buffer (decode c) in
      let (more, rest') = feed rest (map decode cs) in
      run-after cs (on_data reader decode c t)
      ∙ ap
          (λ xs. record t {
            buffer = rest';
            reading = absorb_frames reader more (absorb_frames reader frames t.reading);
            sent = xs;
          })
          (append_assoc t.sent (chunk c ∷ []) (map chunk cs))
      ∙ ap (λ r. record t { buffer = rest'; reading = r; sent = t.sent ++ map chunk (c ∷ cs) })
          (sym (absorb_frames-append reader frames more t.reading))

  -- Each chunk is decoded on its own. What has been read after some chunks, and is left to be read, is
  -- what their decoded texts, joined, say when they are read at once; and each chunk has been forwarded
  -- as it came, in order.
  pub run-push :
      (c : Chunk) (cs : List Chunk) (t : Stream Chunk J S)
      → run reader decode turns upper asked (map arrived (c ∷ cs)) t
        ≡ after reader (c ∷ cs) (push t.buffer (joined (decode c) (map decode cs))) t
  run-push c cs t =
      run-after (c ∷ cs) t
      ∙ ap (λ x. after reader (c ∷ cs) x t) (feed-eq-push t.buffer (decode c) (map decode cs))
