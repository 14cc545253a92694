-- ===== src/Cms/Handshake.antt =====
-- cmd/stub-cms/main.go: `handleWS` before its loop.
use charger_simulator.Api.Strings.{trim_prefix, has_slash}
use charger_simulator.Common.{String, str_eq, Bool, not, ◌||◌, if◌then◌else◌}

-- The upgrade may fail; `negotiated` is the subprotocol that it agreed on.
pub data Handshake : Type 0 where
  bad_cp_id not_upgraded wrong_subprotocol : Handshake
  serves : String → Handshake

unfoldable pub handshake : String → Bool → String → Handshake
handshake path upgraded negotiated =
    let cp_id : String = trim_prefix "/ocpp/" path in
    if str_eq cp_id "" || has_slash cp_id
    then bad_cp_id
    else if not upgraded
    then not_upgraded
    else if not (str_eq negotiated "ocpp1.6")
    then wrong_subprotocol
    else serves cp_id
