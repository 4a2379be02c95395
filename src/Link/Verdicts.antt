-- ===== src/Link/Verdicts.antt =====
-- The acknowledgements of crates/km43/src/linklocal.rs that carry one outcome.
use km.Prelude.{ℕ, List, Result}
use km.Cbor.Bytes.{CborReader}
use km.Body.{and_then}
use km.Prelude.{ok}
use km.Envelope.Defs.{LinkHeader, LinkEnvelope}
use km.Link.Types.{LinkError}
use km.Link.Reasons.{
  TimeOffer, EnterDownload, ClientConnected, ClientDisconnected, time_offer_number, time_offer_of,
  enter_download_number, enter_download_of, client_connected_number, client_connected_of,
  client_disconnected_number, client_disconnected_of,
}
use km.Link.Outcomes
use km.Link.Outcomes.{outcome_only}

pub record TimeVerdict : Type 0 where
  pub outcome : TimeOffer

-- `TimeVerdict::write` and `TimeVerdict::decode`.
unfoldable pub write_time_verdict : TimeVerdict → LinkHeader → List ℕ → List ℕ × Result LinkError ℕ
write_time_verdict b h dst = outcome_only h dst (time_offer_number b.outcome)

unfoldable pub decode_time_verdict : CborReader → LinkEnvelope → Result LinkError TimeVerdict
decode_time_verdict r envelope =
    and_then (Outcomes.outcome r envelope time_offer_of) (λ said. ok (record { outcome = said }))

pub record DownloadVerdict : Type 0 where
  pub outcome : EnterDownload

-- `DownloadVerdict::write` and `DownloadVerdict::decode`.
unfoldable pub write_download_verdict :
    DownloadVerdict → LinkHeader → List ℕ → List ℕ × Result LinkError ℕ
write_download_verdict b h dst = outcome_only h dst (enter_download_number b.outcome)

unfoldable pub decode_download_verdict :
    CborReader → LinkEnvelope → Result LinkError DownloadVerdict
decode_download_verdict r envelope =
    and_then (Outcomes.outcome r envelope enter_download_of)
      (λ said. ok (record { outcome = said }))

pub record ClientUpAck : Type 0 where
  pub outcome : ClientConnected

-- `ClientUpAck::write` and `ClientUpAck::decode`.
unfoldable pub write_client_up_ack : ClientUpAck → LinkHeader → List ℕ → List ℕ × Result LinkError ℕ
write_client_up_ack b h dst = outcome_only h dst (client_connected_number b.outcome)

unfoldable pub decode_client_up_ack : CborReader → LinkEnvelope → Result LinkError ClientUpAck
decode_client_up_ack r envelope =
    and_then (Outcomes.outcome r envelope client_connected_of)
      (λ said. ok (record { outcome = said }))

pub record ClientDownAck : Type 0 where
  pub outcome : ClientDisconnected

-- `ClientDownAck::write` and `ClientDownAck::decode`.
unfoldable pub write_client_down_ack :
    ClientDownAck → LinkHeader → List ℕ → List ℕ × Result LinkError ℕ
write_client_down_ack b h dst = outcome_only h dst (client_disconnected_number b.outcome)

unfoldable pub decode_client_down_ack : CborReader → LinkEnvelope → Result LinkError ClientDownAck
decode_client_down_ack r envelope =
    and_then (Outcomes.outcome r envelope client_disconnected_of)
      (λ said. ok (record { outcome = said }))
