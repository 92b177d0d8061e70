-- ===== src/Sse/Examples.antt =====
-- Runs of the parser of server-sent events, of serdes-ai-streaming/src/sse.rs.
use serdes_ai.Prelude.{ℕ, none, some, List, [], ◌∷◌, ◌++◌, ◌≡◌, ◌≢◌, ◌≤◌, refl, length}
use serdes_ai.Prelude.Result.{ok, err}
use serdes_ai.Sse.{find_event_boundary}
use serdes_ai.Sse.Boundary.{first_boundary, find_event_boundary-first}
use serdes_ai.Sse.Event.{invalid, from_utf8, SseEvent, parse_event}
use serdes_ai.Sse.Parser.{
  invalid_utf8, buffer_overflow, incomplete_sse, SseParser, new, with_max_buffer_size, feed, finish,
}
use serdes_ai.Sse.Parser.Chunks.{feed_all, feed-concat}
use serdes_ai.Sse.Parser.Drained.{feed-Drained}
use serdes_ai.Sse.Stream.{ready, new_stream, poll_next}
use serdes_ai.Sse.Stream.Ends.{poll_next-IsEnd}

-- "d:x", two line feeds, and a carriage return
abbrev frame : List ℕ
frame = 100 ∷ 58 ∷ 120 ∷ 10 ∷ 10 ∷ 13 ∷ []

find_event_boundary-first_example : find_event_boundary frame ≡ first_boundary frame
find_event_boundary-first_example = find_event_boundary-first frame

-- "data: é" and two line feeds, in two chunks, the first of which ends within the letter.
abbrev head_chunk : List ℕ
head_chunk = b'd' ∷ b'a' ∷ b't' ∷ b'a' ∷ b':' ∷ 32 ∷ 195 ∷ []

abbrev tail_chunk : List ℕ
tail_chunk = 169 ∷ 10 ∷ 10 ∷ b'i' ∷ b'd' ∷ []

abbrev letter : SseEvent
letter = record { event = none; data_text = 195 ∷ 169 ∷ []; id = none; retry = none }

-- The parser with "id" left.
abbrev left_over : SseParser
left_over = record {
  buffer = b'i' ∷ b'd' ∷ [];
  events = letter ∷ [];
  last_event_id = none;
  max_buffer_size = 10485760;
}

feed-letter : feed {J = ℕ} {I = ℕ} (head_chunk ++ tail_chunk) new ≡ (left_over, ok (letter ∷ []))
unfolding feed
feed-letter = refl

feed-concat_example :
    feed {J = ℕ} {I = ℕ} (head_chunk ++ tail_chunk ++ []) new ≡ (left_over, ok (letter ∷ []))
unfolding feed_all feed
feed-concat_example = feed-concat ℕ ℕ head_chunk (tail_chunk ∷ []) new left_over (letter ∷ []) refl

feed-Drained_example :
    (find_event_boundary left_over.buffer ≡ none)
    × (length left_over.buffer ≤ left_over.max_buffer_size)
    × (from_utf8 [] left_over.buffer ≢ invalid)
feed-Drained_example =
    feed-Drained ℕ ℕ (head_chunk ++ tail_chunk) new left_over (letter ∷ []) feed-letter

finish_early : (finish {J = ℕ} {I = ℕ} left_over).1 ≡ err incomplete_sse
unfolding finish
finish_early = refl

feed_invalid : (feed {J = ℕ} {I = ℕ} (255 ∷ []) new).1 ≡ err invalid_utf8
unfolding feed
feed_invalid = refl

-- Two bytes are accepted with a frame that ends, and refused before it does.
feed_short : (feed {J = ℕ} {I = ℕ} (b':' ∷ 10 ∷ 10 ∷ []) (with_max_buffer_size 1 new)).1 ≡ ok []
unfolding feed
feed_short = refl

feed_long :
    (feed {J = ℕ} {I = ℕ} (b':' ∷ 10 ∷ []) (with_max_buffer_size 1 new)).1 ≡ err buffer_overflow
unfolding feed
feed_long = refl

-- "event", "id" and "retry", an identifier with a zero byte and a retry that is no number
abbrev full_event : List ℕ
full_event =
    b'e' ∷ b'v' ∷ b'e' ∷ b'n' ∷ b't' ∷ b':' ∷ b'm' ∷ 13 ∷ 10 ∷ b'd' ∷ b'a' ∷ b't' ∷ b'a' ∷ 13 ∷ b'd'
    ∷ b'a' ∷ b't' ∷ b'a' ∷ b':' ∷ 32 ∷ 32 ∷ b'x' ∷ 10 ∷ b'i' ∷ b'd' ∷ b':' ∷ 0 ∷ 10 ∷ b'r' ∷ b'e'
    ∷ b't' ∷ b'r' ∷ b'y' ∷ b':' ∷ 32 ∷ b'1' ∷ b'5' ∷ []

parse_full :
    parse_event full_event
    ≡ some (record {
      event = some (b'm' ∷ []);
      data_text = 10 ∷ 32 ∷ b'x' ∷ [];
      id = none;
      retry = some 15;
    })
unfolding parse_event
parse_full = refl

-- A stream whose first bytes are not UTF-8.
poll_next-IsEnd_example :
    poll_next {J = ℕ} {I = ℕ}
      ((poll_next {J = ℕ} {I = ℕ} new_stream (ready (some (ok (255 ∷ []))))).1)
      (ready (some (ok head_chunk)))
    ≡ (ready none, (poll_next {J = ℕ} {I = ℕ} new_stream (ready (some (ok (255 ∷ []))))).1)
unfolding poll_next
poll_next-IsEnd_example =
    poll_next-IsEnd ℕ ℕ new_stream (ready (some (ok (255 ∷ [])))) (ready (some (ok head_chunk))) tt
