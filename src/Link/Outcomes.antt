-- ===== src/Link/Outcomes.antt =====
-- More bodies of crates/km43/src/linklocal.rs: `CloseReport` and `DownloadRequest`,
-- and what the acknowledgements of one outcome share.
use km.Prelude.{ℕ, List, Option, none, ◌==◌, if◌then◌else◌, ℤ, pos, negsuc, Result, ok}
use km.Cbor.Types.{◌>>◌}
use km.Cbor.Bytes.{CborReader}
use km.Cbor.Reader.{u8}
use km.Cbor.Writer.{key as write_key, u64 as write_u64}
use km.Body.{Step, ◌>>=◌, done, given, on, required, once, read_pairs, finish_body, and_then}
use km.Envelope.Defs.{LinkHeader, LinkEnvelope, write_link}
use km.Link.Types.{LinkError, LinkField, missing, duplicate, cbor, unknown_reason, unknown_outcome}
use km.Link.Reasons.{
  DownloadReason, CloseConnection, download_reason_number, download_reason_of,
  close_connection_number, close_connection_of,
}
use km.Link.Bodies.{write_behind, skip_value}
use km.Link.Connections.{named}

pub record CloseReport : Type 0 where
  pub outcome : CloseConnection
  pub closed : ℕ

-- `CloseReport::write`.
unfoldable pub write_close_report : CloseReport → LinkHeader → List ℕ → List ℕ × Result LinkError ℕ
write_close_report b h dst =
    write_behind
      (do
        write_key (pos 1)
        write_u64 (close_connection_number b.outcome)
        write_key (pos 2)
        write_u64 b.closed)
      (write_link h 2 dst)

abbrev pub CloseReportSlots : Type 0
CloseReportSlots = Option CloseConnection × Option ℕ

abbrev pub close_report_outcome : CloseReportSlots → Step LinkError CborReader CloseReportSlots
close_report_outcome (first, second) = do
  raw ← on cbor u8
  value ← given (named unknown_outcome close_connection_of raw)
  slot ← given (once (duplicate LinkField.outcome) first value)
  done (slot, second)

abbrev pub close_report_closed : CloseReportSlots → Step LinkError CborReader CloseReportSlots
close_report_closed (first, second) = do
  value ← on cbor u8
  slot ← given (once (duplicate LinkField.closed) second value)
  done (first, slot)

abbrev pub close_report_pair : ℤ → CloseReportSlots → Step LinkError CborReader CloseReportSlots
close_report_pair (pos n) =
    if n == 1 then close_report_outcome else if n == 2 then close_report_closed else skip_value
close_report_pair (negsuc n) = skip_value

abbrev pub close_report_from : CloseReportSlots → Result LinkError CloseReport
close_report_from (first, second) = and_then (required (missing LinkField.outcome) first) (λ one.
    and_then (required (missing LinkField.closed) second)
      (λ two. ok (record { outcome = one; closed = two })))

-- `CloseReport::decode`.
unfoldable pub decode_close_report : CborReader → LinkEnvelope → Result LinkError CloseReport
unfolding read_pairs
decode_close_report r envelope =
    and_then (finish_body cbor (read_pairs cbor close_report_pair envelope.keys (none, none) r))
      close_report_from

pub record DownloadRequest : Type 0 where
  pub reason : DownloadReason

-- `DownloadRequest::write`.
unfoldable pub write_download : DownloadRequest → LinkHeader → List ℕ → List ℕ × Result LinkError ℕ
write_download b h dst =
    write_behind (do write_key (pos 1); write_u64 (download_reason_number b.reason))
      (write_link h 1 dst)

-- One key, of an enumeration.
abbrev pub take_named :
    {A : Type 0}
    → LinkField
    → (ℕ → LinkError)
    → (ℕ → Option A)
    → Option A
    → Step LinkError CborReader (Option A)
take_named field unknown of held = do
  raw ← on cbor u8
  value ← given (named unknown of raw)
  given (once (duplicate field) held value)

abbrev pub one_pair :
    {A : Type 0}
    → LinkField
    → (ℕ → LinkError)
    → (ℕ → Option A)
    → ℤ
    → Option A
    → Step LinkError CborReader (Option A)
one_pair field unknown of (pos n) = if n == 1 then take_named field unknown of else skip_value
one_pair field unknown of (negsuc n) = skip_value

-- `DownloadRequest::decode`.
unfoldable pub decode_download : CborReader → LinkEnvelope → Result LinkError DownloadRequest
unfolding read_pairs
decode_download r envelope =
    and_then
      (finish_body cbor (
        read_pairs cbor (one_pair LinkField.reason unknown_reason download_reason_of) envelope.keys
          none r))
      (λ held.
        and_then (required (missing LinkField.reason) held)
          (λ reason. ok (record { reason = reason })))

-- `outcome_only`, which the acknowledgements write.
unfoldable pub outcome_only : LinkHeader → List ℕ → ℕ → List ℕ × Result LinkError ℕ
outcome_only h dst said = write_behind (do write_key (pos 1); write_u64 said) (write_link h 1 dst)

-- `outcome`, of the numbers that are known.
unfoldable pub outcome :
    {A : Type 0} → CborReader → LinkEnvelope → (ℕ → Option A) → Result LinkError A
unfolding read_pairs
outcome r envelope known =
    and_then
      (finish_body cbor
        (read_pairs cbor (one_pair LinkField.outcome unknown_outcome known) envelope.keys none r))
      (required (missing LinkField.outcome))
