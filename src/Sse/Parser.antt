-- ===== src/Sse/Parser.antt =====
-- `SseParser` of serdes-ai-streaming/src/sse.rs, and the errors of error.rs beside it. The loop of
-- `parse_buffer` is on fuel, one more than the bytes in the buffer.
pub mod Steps
pub mod Cut
pub mod Chunks
pub mod Drained
use serdes_ai.Prelude.{
  ℕ, zero, suc, ◌+◌, ◌*◌, Bool, true, false, Option, none, some, List, [], ◌∷◌, ◌++◌, length, take,
  drop, ltb, if◌then◌else◌, String,
}
use serdes_ai.Prelude.Result.{Result, ok, err}
use serdes_ai.Streaming.Text.{Text}
use serdes_ai.Sse.{find_event_boundary}
use serdes_ai.Sse.Event.{Utf8, valid, incomplete, invalid, from_utf8, SseEvent, parse_event}

-- The errors of `serde_json` and of the transport are types of their own.
pub data StreamError (J I : Type 0) : Type 0 where
  model parse_delta parse_sse connection send receive serialization invalid_state other :
      String → StreamError J I
  json : J → StreamError J I
  io : I → StreamError J I
  interrupted timeout connection_closed buffer_overflow invalid_utf8 incomplete_sse :
      StreamError J I

pub record SseParser : Type 0 where
  pub buffer : List ℕ
  pub events : List SseEvent
  pub last_event_id : Option Text
  pub max_buffer_size : ℕ

abbrev pub new : SseParser
new = record { buffer = []; events = []; last_event_id = none; max_buffer_size = 10 * 1024 * 1024 }

abbrev pub with_max_buffer_size : ℕ → SseParser → SseParser
with_max_buffer_size n p = record p { max_buffer_size = n }

-- `extend_from_slice` of the buffer
abbrev pub extend : List ℕ → SseParser → SseParser
extend bytes p = record p { buffer = p.buffer ++ bytes }

abbrev pub clear : SseParser → SseParser
clear p = record p { buffer = []; events = []; last_event_id = none }

-- What the end of a frame does: `done` where the buffer has no boundary.
pub data Step (E : Type 0) : Type 0 where
  done : Step E
  failed : SseParser → E → Step E
  parsed : SseParser → Option SseEvent → Step E

-- The identifier of an event is the last one, where it has one.
abbrev pub keep_id : Option Text → Option Text → Option Text
keep_id none last = last
keep_id (some id) last = some id

abbrev pub receive_event : Option SseEvent → SseParser → SseParser
receive_event none p = p
receive_event (some e) p = record p {
  events = p.events ++ e ∷ [];
  last_event_id = keep_id e.id p.last_event_id;
}

module _ {J I : Type 0} where
  -- A frame, as text where it is.
  abbrev pub read_frame : Utf8 → List ℕ → SseParser → Step (StreamError J I)
  read_frame valid frame p = let e = parse_event frame in parsed (receive_event e p) e
  read_frame incomplete frame p = failed p invalid_utf8
  read_frame invalid frame p = failed p invalid_utf8

  abbrev pub take_frame : Option (ℕ × ℕ) → SseParser → Step (StreamError J I)
  take_frame none p = done
  take_frame (some (pos, delimiter_len)) p =
      if ltb p.max_buffer_size pos
      then failed p buffer_overflow
      else read_frame (from_utf8 [] (take pos p.buffer)) (take pos p.buffer)
          (record p { buffer = drop (pos + delimiter_len) p.buffer })

  -- One turn of the `while`.
  unfoldable pub step : SseParser → Step (StreamError J I)
  unfolding find_event_boundary from_utf8 parse_event
  step p = take_frame (find_event_boundary p.buffer) p

  -- `parsed_events`, where it is returned.
  abbrev pub push_event :
      Option SseEvent
      → SseParser × Result (List SseEvent) (StreamError J I)
      → SseParser × Result (List SseEvent) (StreamError J I)
  push_event none r = r
  push_event (some e) (p, ok es) = (p, ok (e ∷ es))
  push_event (some e) (p, err x) = (p, err x)

  unfoldable pub parse_frames : ℕ → SseParser → SseParser × Result (List SseEvent) (StreamError J I)
  unfolding step
  parse_frames zero p = (p, ok [])
  parse_frames (suc fuel) p = elim (step p) [
    | done ↦ (p, ok [])
    | failed q x ↦ (q, err x)
    | parsed q e ↦ push_event e (parse_frames fuel q)
  ]

  abbrev pub check_utf8 : Utf8 → Result (Unit {0}) (StreamError J I)
  check_utf8 valid = ok tt
  check_utf8 incomplete = ok tt
  check_utf8 invalid = err invalid_utf8

  unfoldable pub validate_buffer : SseParser → Result (Unit {0}) (StreamError J I)
  unfolding from_utf8
  validate_buffer p =
      if ltb p.max_buffer_size (length p.buffer)
      then err buffer_overflow
      else check_utf8 (from_utf8 [] p.buffer)

  abbrev pub checked :
      Result (Unit {0}) (StreamError J I)
      → SseParser
      → List SseEvent
      → SseParser × Result (List SseEvent) (StreamError J I)
  checked (ok u) p es = (p, ok es)
  checked (err x) p es = (p, err x)

  -- `self.validate_buffer()?` after the loop
  abbrev pub validated :
      SseParser × Result (List SseEvent) (StreamError J I)
      → SseParser × Result (List SseEvent) (StreamError J I)
  validated (p, ok es) = checked (validate_buffer p) p es
  validated (p, err x) = (p, err x)

  unfoldable pub parse_buffer : SseParser → SseParser × Result (List SseEvent) (StreamError J I)
  unfolding parse_frames validate_buffer
  parse_buffer p = validated (parse_frames (suc (length p.buffer)) p)

  abbrev pub or_clear :
      SseParser × Result (List SseEvent) (StreamError J I)
      → SseParser × Result (List SseEvent) (StreamError J I)
  or_clear (p, ok es) = (p, ok es)
  or_clear (p, err x) = (clear p, err x)

  unfoldable pub feed : List ℕ → SseParser → SseParser × Result (List SseEvent) (StreamError J I)
  unfolding parse_buffer
  feed bytes p = or_clear (parse_buffer (extend bytes p))

  -- Text is its bytes.
  abbrev pub feed_str : Text → SseParser → SseParser × Result (List SseEvent) (StreamError J I)
  feed_str s p = feed s p

  abbrev pub at_boundary :
      List ℕ → SseParser → List SseEvent → SseParser × Result (List SseEvent) (StreamError J I)
  at_boundary [] p es = (p, ok es)
  at_boundary (b ∷ bs) p es = (clear p, err incomplete_sse)

  abbrev pub finished_with :
      SseParser × Result (List SseEvent) (StreamError J I)
      → SseParser × Result (List SseEvent) (StreamError J I)
  finished_with (p, ok es) = at_boundary p.buffer p es
  finished_with (p, err x) = (clear p, err x)

  unfoldable pub finish : SseParser → SseParser × Result (List SseEvent) (StreamError J I)
  unfolding parse_buffer
  finish p = finished_with (parse_buffer p)
