-- ===== src/Stateless/Exchanges.antt =====
-- Whom the stateless forwarder asks.
use rust_yamp.Prelude.{Option, List, Text, Bytes, ascii, Result}
use rust_yamp.Json.{Json, get_str}
use rust_yamp.Version.{negotiate}
use rust_yamp.Stateless.{Sent, handle}
use rust_yamp.Stateless.Messages.{StatelessRequest, StatelessResponse, protocol_version_meta_key}

module _ (encode : Json → Bytes) (decode : Bytes → Result Json) (render : Json → Text)
    (parse : Text → Result Json) (wire : List Sent → Sent → Result (Option Bytes)) where
  abbrev run_handle :
      List Text → List Sent → StatelessRequest → List Sent × Result StatelessResponse
  run_handle = handle encode decode render parse wire

  -- The version under which a request runs.
  abbrev pub version_of : StatelessRequest → Option Text
  version_of request =
      negotiate (get_str request.meta protocol_version_meta_key) (ascii "2026-07-28")
