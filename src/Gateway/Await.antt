-- ===== src/Gateway/Await.antt =====
-- `collectResponse` and `streamResponse` of coordinator/internal/server/gateway.go: the loops that
-- wait for the events of a request. An event is what `unwrapE2E` returns, decoded; the order in which select takes
-- its cases is the order of a list of signals, and `none` says that the loop still waits at its end.
use idlegrid.Prelude.{
  ℕ, ◌≡◌, refl, sym, ap, ◌∙◌, Bool, true, false, Option, none, some, List, [], ◌∷◌, ◌++◌, String, ℤ,
  pos,
}
use mathlib.Core.List.{append_assoc, append-nil}
use idlegrid.Gateway.Usage.{Outcome}

-- A chunk and a completion may fail to decode; an error that does has an empty text.
pub data Event : Type 0 where
  chunk : Option (List ℕ) → Event
  complete : Option (ℤ × ℤ) → Event
  failure : String → Event
  other : Event

pub data Signal : Type 0 where
  event : Event → Signal
  timed_out client_gone : Signal

-- What is written to the client: one JSON answer, an error with its HTTP status, or nothing.
pub data Response : Type 0 where
  completion : List ℕ → ℤ → ℤ → Response
  api_error : ℕ → String → Response
  silent : Response

-- The frames of a stream of server-sent events.
pub data Frame : Type 0 where
  role stop done : Frame
  content : List ℕ → Frame
  usage : ℤ → ℤ → Frame
  stream_error : String → Frame

-- How a loop ends: the facts for billing, the returned flag, whether the provider is told to cancel.
pub record End : Type 0 where
  pub outcome : Outcome
  pub failed : Bool
  pub sends_cancel : Bool

abbrev pub with_text : List ℕ → Outcome → Outcome
with_text d o = record o { text = o.text ++ d }

abbrev pub with_counts : Option (ℤ × ℤ) → Outcome → Outcome
with_counts none o = o
with_counts (some (i, n)) o = record o { prov_in = some i; prov_out = some n }

abbrev counts : Option (ℤ × ℤ) → ℤ × ℤ
counts none = (pos 0, pos 0)
counts (some c) = c

abbrev with_status : String → Outcome → Outcome
with_status s o = record o { status = s }

abbrev pub completed : Option (ℤ × ℤ) → Outcome → End
completed c o = record { outcome = with_counts c o; failed = false; sends_cancel = false }

abbrev pub gone_wrong : String → Bool → Outcome → End
gone_wrong s cancel o = record { outcome = with_status s o; failed = true; sends_cancel = cancel }

abbrev pub answer : Option (ℤ × ℤ) → List ℕ → Response
answer c text = let (i, n) = counts c in completion text i n

-- `collectResponse`.
unfoldable pub collect_response : List Signal → Outcome → Option (End × Response)
collect_response [] o = none
collect_response (event (chunk (some d)) ∷ ss) o = collect_response ss (with_text d o)
collect_response (event (chunk none) ∷ ss) o = collect_response ss o
collect_response (event (complete c) ∷ ss) o = some (completed c o, answer c o.text)
collect_response (event (failure e) ∷ ss) o = some (gone_wrong "failed" false o, api_error 502 e)
collect_response (event other ∷ ss) o = collect_response ss o
collect_response (timed_out ∷ ss) o =
    some (gone_wrong "timeout" true o, api_error 504 "inference timed out")
collect_response (client_gone ∷ ss) o = some (gone_wrong "cancelled" true o, silent)

abbrev usage_frame : Option (ℤ × ℤ) → Frame
usage_frame c = let (i, n) = counts c in usage i n

-- The frames of one chunk: an empty one is not written.
abbrev pub chunk_frames : List ℕ → List Frame
chunk_frames [] = []
chunk_frames (b ∷ d) = content (b ∷ d) ∷ []

-- The loop of `streamResponse`, after the frames that are written already.
unfoldable pub stream_loop : List Signal → Outcome → List Frame → Option (End × List Frame)
stream_loop [] o fr = none
stream_loop (event (chunk (some d)) ∷ ss) o fr =
    stream_loop ss (with_text d o) (fr ++ chunk_frames d)
stream_loop (event (chunk none) ∷ ss) o fr = stream_loop ss o fr
stream_loop (event (complete c) ∷ ss) o fr =
    some (completed c o, fr ++ (stop ∷ usage_frame c ∷ done ∷ []))
stream_loop (event (failure e) ∷ ss) o fr =
    some (gone_wrong "failed" false o, fr ++ (stream_error e ∷ []))
stream_loop (event other ∷ ss) o fr = stream_loop ss o fr
stream_loop (timed_out ∷ ss) o fr = some (gone_wrong "timeout" true o, fr ++ (done ∷ []))
stream_loop (client_gone ∷ ss) o fr = some (gone_wrong "cancelled" true o, fr)

-- `streamResponse`, of a response writer that can flush.
unfoldable pub stream_response : List Signal → Outcome → Option (End × List Frame)
unfolding stream_loop
stream_response ss o = stream_loop ss o (role ∷ [])

-- The text of a stream.
abbrev pub streamed_text : List Frame → List ℕ
streamed_text [] = []
streamed_text (content d ∷ fr) = d ++ streamed_text fr
streamed_text (_ ∷ fr) = streamed_text fr

streamed_text-append :
    (fr gs : List Frame) → streamed_text (fr ++ gs) ≡ streamed_text fr ++ streamed_text gs
streamed_text-append [] gs = refl
streamed_text-append (content d ∷ fr) gs =
    ap (λ (t : List ℕ). d ++ t) (streamed_text-append fr gs) ∙ sym (append_assoc d _ _)
streamed_text-append (role ∷ fr) gs = streamed_text-append fr gs
streamed_text-append (stop ∷ fr) gs = streamed_text-append fr gs
streamed_text-append (done ∷ fr) gs = streamed_text-append fr gs
streamed_text-append (usage i n ∷ fr) gs = streamed_text-append fr gs
streamed_text-append (stream_error e ∷ fr) gs = streamed_text-append fr gs

chunk_text : (d : List ℕ) → streamed_text (chunk_frames d) ≡ d
chunk_text [] = refl
chunk_text (b ∷ d) = append-nil (b ∷ d)

-- The end of the collecting loop and the text that it gathered, as the streaming loop has them.
abbrev pub SameEnd : Option (End × Response) → Option (End × List Frame) → Type 0
SameEnd none none = Unit
SameEnd none (some _) = ⊥
SameEnd (some _) none = ⊥
SameEnd (some (a, _)) (some (b, fr)) = (a ≡ b) × (streamed_text fr ≡ b.outcome.text)

same_end :
    (ss : List Signal) (o : Outcome) (fr : List Frame)
    → streamed_text fr ≡ o.text
    → SameEnd (collect_response ss o) (stream_loop ss o fr)
unfolding collect_response stream_loop
same_end [] o fr h = tt
same_end (event (chunk (some d)) ∷ ss) o fr h =
    same_end ss (with_text d o) (fr ++ chunk_frames d)
      (streamed_text-append fr (chunk_frames d) ∙ rw (h, chunk_text d) refl)
same_end (event (chunk none) ∷ ss) o fr h = same_end ss o fr h
same_end (event (complete none) ∷ ss) o fr h = (refl, streamed_text-append fr _ ∙ append-nil _ ∙ h)
same_end (event (complete (some c)) ∷ ss) o fr h =
    (refl, streamed_text-append fr _ ∙ append-nil _ ∙ h)
same_end (event (failure e) ∷ ss) o fr h = (refl, streamed_text-append fr _ ∙ append-nil _ ∙ h)
same_end (event other ∷ ss) o fr h = same_end ss o fr h
same_end (timed_out ∷ ss) o fr h = (refl, streamed_text-append fr _ ∙ append-nil _ ∙ h)
same_end (client_gone ∷ ss) o fr h = (refl, h)

-- For the same signals, streaming and collecting a response end alike: both wait or both end, with the same
-- facts for billing, the same failure flag and the same cancellation, and the contents of the stream are the
-- text that is billed.
pub stream-collect :
    (ss : List Signal) (o : Outcome)
    → o.text ≡ []
    → SameEnd (collect_response ss o) (stream_response ss o)
unfolding stream_response
stream-collect ss o h = same_end ss o (role ∷ []) (sym h)

-- A signal that ends a loop.
abbrev pub IsLast : Signal → Type 0
IsLast (event (chunk _)) = ⊥
IsLast (event other) = ⊥
IsLast _ = Unit

-- Once the provider completes or fails, the two minutes pass or the client leaves, the collecting loop has
-- ended.
pub collect_response_ends :
    (before : List Signal) (s : Signal) (after : List Signal) (o : Outcome)
    → IsLast s
    → (r : End × Response) × (collect_response (before ++ (s ∷ after)) o ≡ some r)
unfolding collect_response
collect_response_ends [] (event (complete c)) after o h = (_, refl)
collect_response_ends [] (event (failure e)) after o h = (_, refl)
collect_response_ends [] (event (chunk _)) after o h = elim h [ ]
collect_response_ends [] (event other) after o h = elim h [ ]
collect_response_ends [] timed_out after o h = (_, refl)
collect_response_ends [] client_gone after o h = (_, refl)
collect_response_ends (event (chunk (some d)) ∷ ss) s after o h =
    collect_response_ends ss s after (with_text d o) h
collect_response_ends (event (chunk none) ∷ ss) s after o h = collect_response_ends ss s after o h
collect_response_ends (event other ∷ ss) s after o h = collect_response_ends ss s after o h
collect_response_ends (event (complete c) ∷ ss) s after o h = (_, refl)
collect_response_ends (event (failure e) ∷ ss) s after o h = (_, refl)
collect_response_ends (timed_out ∷ ss) s after o h = (_, refl)
collect_response_ends (client_gone ∷ ss) s after o h = (_, refl)
