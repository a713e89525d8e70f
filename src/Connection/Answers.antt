-- ===== src/Connection/Answers.antt =====
-- The answers to an append and to a stats request (src/connection.ts), as a table.
use tephra_js.Base.{ℕ}
use tephra_js.Failure.{server, unexpected_response}
use tephra_js.Messages.Replies.{WireAppendResponse, WireReadEvents}
use tephra_js.Messages.Status.{WireStatsResponse, WireErrorResponse, WireHelloAck}
use tephra_js.Messages.Response.{ResponseKind}
use tephra_js.Convert.{error_code_from_wire, server_error_from_wire}
use tephra_js.Connection.{Expect, append, stats, Outcome, appended, reported, rejected}
use tephra_js.Connection.Routing.{reply}

-- What the promise of an append or a stats request is to be settled with, response by response.
pub data Answers : Expect → ResponseKind → Outcome → Type 0 where
  positions : (x : WireAppendResponse) → Answers append (ResponseKind.append x) (appended x)
  statistics : (x : WireStatsResponse) → Answers stats (ResponseKind.stats x) (reported x)
  server_error :
      (expect : Expect) (e : WireErrorResponse)
      → Answers expect (ResponseKind.error e) (
          rejected (
            server (record {
              code = error_code_from_wire e.code;
              message = e.message;
              retryable = e.retryable;
              conflict_position = e.conflict_position;
            })))
  stats_to_append :
      (x : WireStatsResponse) → Answers append (ResponseKind.stats x) (rejected unexpected_response)
  positions_to_stats :
      (x : WireAppendResponse)
      → Answers stats (ResponseKind.append x) (rejected unexpected_response)
  events_to :
      (expect : Expect) (x : WireReadEvents)
      → Answers expect (ResponseKind.read_events x) (rejected unexpected_response)
  end_to :
      (expect : Expect) (x : ℕ)
      → Answers expect (ResponseKind.read_end x) (rejected unexpected_response)
  marker_to :
      (expect : Expect) (x : ℕ)
      → Answers expect (ResponseKind.caught_up x) (rejected unexpected_response)
  greeting_to :
      (expect : Expect) (x : WireHelloAck)
      → Answers expect (ResponseKind.hello_ack x) (rejected unexpected_response)
  nothing_to : (expect : Expect) → Answers expect ResponseKind.none (rejected unexpected_response)

pub reply-Answers :
    (expect : Expect) (kind : ResponseKind) → Answers expect kind (reply expect kind)
unfolding reply server_error_from_wire
reply-Answers expect (ResponseKind.error e) = server_error expect e
reply-Answers append (ResponseKind.append x) = positions x
reply-Answers stats (ResponseKind.append x) = positions_to_stats x
reply-Answers append (ResponseKind.stats x) = stats_to_append x
reply-Answers stats (ResponseKind.stats x) = statistics x
reply-Answers expect (ResponseKind.read_events x) = events_to expect x
reply-Answers expect (ResponseKind.read_end x) = end_to expect x
reply-Answers expect (ResponseKind.caught_up x) = marker_to expect x
reply-Answers expect (ResponseKind.hello_ack x) = greeting_to expect x
reply-Answers expect ResponseKind.none = nothing_to expect
