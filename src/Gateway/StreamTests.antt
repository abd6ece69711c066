-- ===== src/Gateway/StreamTests.antt =====
-- Streams through the gateway, and each of their theorems at one.
use inferrail.Common.{
  ℕ, zero, suc, ◌≤◌, ◌≡◌, refl, List, [], ◌∷◌, ◌++◌, Option, none, same_text, if◌then◌else◌, arith,
}
use inferrail.Common.Int.{pos}
use inferrail.Common.Json.{Json, text, integer, object, field, no_fields, get_field}
use inferrail.Pricing.Usage.{nonneg_int}
use inferrail.Errors.{Exception, provider_error, provider_timeout}
use inferrail.Receipts.Schema.{success, partial}
use inferrail.Gateway.Samples.{engine, moments, job, state, stores}
use inferrail.Gateway.Sse.{
  Bytes, Loaded, value, malformed, new_bookkeeper, replace_crlf, split_event, lines, strip,
  after_prefix, same_bytes, openai_tokens, take_usage, take_loaded, take_line, take_lines,
  handle_event, handle_events, feed, feed_by,
}
use inferrail.Gateway.Sse.Chunks.{feed_all, joined, chunks_do_not_matter}
use inferrail.Gateway.Stream.{
  Outside, iter_stream, emit_stream_outcome, completes, StreamAnswer, opens, refuses, disconnects,
  fails, stream_chunks, stream_status, stream_with_retries,
}
use inferrail.Gateway.Stream.Settles.{AnswerIsTaken, stream_settles}
use inferrail.Gateway.Counts.{Count, missing, whole, count_of, whole_counts}
use inferrail.Budgets.Store.{Reservation}
use inferrail.Gateway.Admission.{Engine, Stores, BudgetState, Moment, Job}
use inferrail.Gateway.Execution.{raised}
use inferrail.Gateway.Settlement.{active_sum}

-- one payload, `u`, that is a usage of 3 and 4 tokens
abbrev usage_object : Json
usage_object = object (
    field "usage"
      (object (
        field "prompt_tokens" (integer (pos 3))
          (field "completion_tokens" (integer (pos 4)) no_fields)))
      no_fields)

abbrev loads : Bytes → Loaded
loads bs = if same_bytes bs (117 ∷ []) then value usage_object else malformed

-- `data: u` in two chunks, with the blank line that ends the event in the second
abbrev beginning : Bytes
beginning = 100 ∷ 97 ∷ 116 ∷ 97 ∷ 58 ∷ 32 ∷ []

abbrev ending : Bytes
ending = 117 ∷ 10 ∷ 10 ∷ []

-- the same with `\r\n`, cut between `\r` and `\n` in the blank line
abbrev crlf_beginning : Bytes
crlf_beginning = beginning ++ (117 ∷ 13 ∷ 10 ∷ 13 ∷ [])

computing : Unit {0}
unfolding same_bytes replace_crlf split_event lines strip after_prefix openai_tokens take_usage
    take_loaded take_line take_lines handle_event handle_events feed feed_by feed_all get_field
    nonneg_int count_of whole_counts same_text stream_chunks stream_status
computing = tt

abbrev prompt_after : List Bytes → Count
prompt_after cs = ((feed_all (handle_event loads) new_bookkeeper cs).usage).prompt_tokens

usage_is_read : prompt_after (beginning ∷ ending ∷ []) ≡ whole 3
unfolding computing
usage_is_read = refl

-- A carriage return at the end of a chunk stays, and hides the end of the event.
usage_is_lost : prompt_after (crlf_beginning ∷ (10 ∷ []) ∷ []) ≡ missing
unfolding computing
usage_is_lost = refl

usage_in_one_chunk : prompt_after ((crlf_beginning ++ (10 ∷ [])) ∷ []) ≡ whole 3
unfolding computing
usage_in_one_chunk = refl

chunks_do_not_matter_example :
    feed_all
      (handle_event loads)
      (feed_all (handle_event loads) new_bookkeeper (beginning ∷ []))
      (ending ∷ [])
    ≡ feed_by (handle_event loads) new_bookkeeper (joined (beginning ∷ []) ending)
chunks_do_not_matter_example =
    chunks_do_not_matter (handle_event loads) new_bookkeeper (beginning ∷ []) ending (refl, tt)

-- a stream that is cancelled counts as a success, one that the client leaves does not
cancelled_status :
    stream_status
      (stream_chunks
        (feed loads)
        (λ u. u.is_broken)
        new_bookkeeper
        0
        (beginning ∷ [])
        (fails Exception.outside)).ended
      1
    ≡ success
unfolding computing
cancelled_status = refl

left_status :
    stream_status
      (stream_chunks
        (feed loads)
        (λ u. u.is_broken)
        new_bookkeeper
        0
        (beginning ∷ [])
        disconnects).ended
      1
    ≡ partial
unfolding computing
left_status = refl

abbrev io : Outside
io = record { loads = loads; odd_receipt = λ n status p c cache g. none }

-- the first attempt times out, the second is read to its end, a usage included
abbrev stream_answers : ℕ → StreamAnswer
stream_answers zero = refuses (provider_error provider_timeout none none)
stream_answers (suc n) = opens (beginning ∷ ending ∷ []) completes

stream_taken : (n : ℕ) → AnswerIsTaken io (stream_answers n)
unfolding computing
stream_taken zero = tt
stream_taken (suc n) = λ q. absurd (ground (arith, q))

stream_settles_example :
    active_sum
      (λ r. r.amount_usd)
      ((stream_with_retries io engine moments stream_answers job state stores).1).budgets
    ≤ active_sum (λ r. r.amount_usd) stores.budgets
stream_settles_example =
    stream_settles (λ r. r.amount_usd) io engine moments stream_answers job state stores
      stream_taken

-- A count that is a text which pydantic refuses: the exception replaces the end of the stream, and the
-- reservation stays as it is.
abbrev odd_object : Json
odd_object =
    object (field "usage" (object (field "prompt_tokens" (text "many") no_fields)) no_fields)

abbrev odd_io : Outside
odd_io = record io {
  loads = λ bs. if same_bytes bs (117 ∷ []) then value odd_object else malformed;
}

keeps_reservation :
    (e : Engine) (m : Moment) (j : Job) (r : Option Reservation) (b : BudgetState) (g : Stores)
    → iter_stream odd_io e m j 0 (beginning ∷ ending ∷ []) completes r b g
      ≡ (raised Exception.outside, g)
unfolding computing iter_stream emit_stream_outcome
keeps_reservation e m j r b g = refl
