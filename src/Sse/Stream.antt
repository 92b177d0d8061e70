-- ===== src/Sse/Stream.antt =====
-- `SseStream` of serdes-ai-streaming/src/sse.rs. The stream of bytes that it adapts is what that stream
-- answers to a poll. Waking the task is left out.
pub mod Ends
use serdes_ai.Prelude.{ℕ, Bool, true, false, Option, none, some, List, [], ◌∷◌}
use serdes_ai.Prelude.Result.{Result, ok, err}
use serdes_ai.Sse.Event.{SseEvent}
use serdes_ai.Sse.Parser.{StreamError, io, SseParser, new, clear, feed, finish}

pub data Poll (A : Type 0) : Type 0 where
  pending : Poll A
  ready : A → Poll A

pub record SseStream : Type 0 where
  pub parser : SseParser
  pub finished : Bool

abbrev pub new_stream : SseStream
new_stream = record { parser = new; finished = false }

abbrev pub pop : List SseEvent → SseParser → Option SseEvent × SseParser
pop [] p = (none, p)
pop (e ∷ es) p = (some e, record p { events = es })

-- `pop_front`
abbrev pub next_event : SseParser → Option SseEvent × SseParser
next_event p = pop p.events p

-- What a poll answers.
abbrev pub Item : (J I : Type 0) → Type 0
Item J I = Poll (Option (Result SseEvent (StreamError J I)))

module _ {J I : Type 0} where
  -- The next event, or what there is without one.
  abbrev pub event_or : Item J I → Option SseEvent × SseParser → Bool → Item J I × SseStream
  event_or otherwise (none, p) finished = (otherwise, record { parser = p; finished = finished })
  event_or otherwise (some e, p) finished =
      (ready (some (ok e)), record { parser = p; finished = finished })

  -- The next event after bytes were parsed, or the error, which finishes the stream.
  abbrev pub event_after :
      Item J I → SseParser × Result (List SseEvent) (StreamError J I) → Bool → Item J I × SseStream
  event_after otherwise (p, ok es) finished = event_or otherwise (next_event p) finished
  event_after otherwise (p, err x) finished =
      (ready (some (err x)), record { parser = p; finished = true })

  -- The `match` on what the byte stream answers.
  unfoldable pub poll_inner : Poll (Option (Result (List ℕ) I)) → SseParser → Item J I × SseStream
  unfolding feed finish
  poll_inner (ready (some (ok bytes))) p = event_after pending (feed bytes p) false
  poll_inner (ready (some (err e))) p =
      (ready (some (err (io e))), record { parser = clear p; finished = true })
  poll_inner (ready none) p = event_after (ready none) (finish p) true
  poll_inner pending p = (pending, record { parser = p; finished = false })

  abbrev pub unless_finished :
      Bool → Poll (Option (Result (List ℕ) I)) → SseParser → Item J I × SseStream
  unless_finished true inner p = (ready none, record { parser = p; finished = true })
  unless_finished false inner p = poll_inner inner p

  abbrev pub buffered :
      Option SseEvent × SseParser → Bool → Poll (Option (Result (List ℕ) I)) → Item J I × SseStream
  buffered (some e, p) finished inner =
      (ready (some (ok e)), record { parser = p; finished = finished })
  buffered (none, p) finished inner = unless_finished finished inner p

  unfoldable pub poll_next : SseStream → Poll (Option (Result (List ℕ) I)) → Item J I × SseStream
  unfolding poll_inner
  poll_next s inner = buffered (next_event s.parser) s.finished inner
