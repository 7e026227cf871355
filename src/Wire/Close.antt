-- ===== src/Wire/Close.antt =====
-- The close reasons of wire/identity.go and their table. A `CloseReason` is a `uint8`, so a value
-- need not be one of the eight reasons.
pub mod Table
use capri_hub.Common.{
  ℕ, suc, ◌≡◌, Bool, ◌&&◌, Option, none, some, List, [], ◌∷◌, leb, ◌==◌, if◌then◌else◌, get_elem?,
  drop,
}
use capri_hub.Common.Words.{Bytes}
use capri_hub.Common.Text.{codes, bytes_eq}

abbrev pub CloseReason : Type 0
CloseReason = ℕ

abbrev pub close_normal : CloseReason
close_normal = 1

abbrev pub close_shutdown : CloseReason
close_shutdown = 2

abbrev pub close_superseded : CloseReason
close_superseded = 3

abbrev pub close_auth : CloseReason
close_auth = 4

abbrev pub close_protocol : CloseReason
close_protocol = 5

abbrev pub close_liveness : CloseReason
close_liveness = 6

abbrev pub close_overflow : CloseReason
close_overflow = 7

abbrev pub close_unreadable : CloseReason
close_unreadable = 8

pub record CloseRow : Type 0 where
  pub name : Bytes
  pub ws_code : ℕ
  pub ws_reason : Bytes
  pub quic : ℕ

-- `closeTable`. Index 0 holds the zero row.
unfoldable pub close_table : List CloseRow
close_table =
    record { name = []; ws_code = 0; ws_reason = []; quic = 0 }
    ∷ record { name = codes "normal"; ws_code = 1000; ws_reason = codes "normal"; quic = 0 }
    ∷ record { name = codes "shutdown"; ws_code = 1000; ws_reason = codes "shutdown"; quic = 8 }
    ∷ record { name = codes "superseded"; ws_code = 1000; ws_reason = codes "superseded"; quic = 2 }
    ∷ record { name = codes "auth"; ws_code = 1008; ws_reason = codes "auth"; quic = 3 }
    ∷ record {
      name = codes "protocol";
      ws_code = 1002;
      ws_reason = codes "protocol version";
      quic = 4;
    }
    ∷ record { name = codes "liveness"; ws_code = 1008; ws_reason = codes "liveness"; quic = 5 }
    ∷ record { name = codes "overflow"; ws_code = 1011; ws_reason = codes "overflow"; quic = 10 }
    ∷ record { name = codes "unreadable"; ws_code = 1011; ws_reason = codes "unreadable"; quic = 9 }
    ∷ []

-- `Valid`
abbrev pub valid_reason : CloseReason → Bool
valid_reason r = leb close_normal r && leb r close_unreadable

-- `invalidClose`
abbrev pub invalid_close : ℕ
invalid_close = 1011

abbrev pub ws_of_row : Option CloseRow → ℕ × Bytes
ws_of_row none = (0, [])
ws_of_row (some c) = (c.ws_code, c.ws_reason)

abbrev pub quic_of_row : Option CloseRow → ℕ
quic_of_row none = 0
quic_of_row (some c) = c.quic

-- `WS`. The table has a row for each valid reason, so that the case `none` is never met.
unfoldable pub ws_close : CloseReason → ℕ × Bytes
ws_close r =
    if valid_reason r
    then ws_of_row (get_elem? close_table r)
    else (invalid_close, codes "invalid reason")

-- `QUICCode`
unfoldable pub quic_code : CloseReason → ℕ
quic_code r = if valid_reason r then quic_of_row (get_elem? close_table r) else 1

-- The loops of `CloseReasonFromWS` and `CloseReasonFromQUIC`: the list is the table from row `i` on.
unfoldable pub find_ws : List CloseRow → CloseReason → ℕ → Bytes → Option CloseReason
find_ws [] i code reason = none
find_ws (c ∷ cs) i code reason =
    if (c.ws_code == code) && bytes_eq c.ws_reason reason
    then some i
    else find_ws cs (suc i) code reason

unfoldable pub find_quic : List CloseRow → CloseReason → ℕ → Option CloseReason
find_quic [] i code = none
find_quic (c ∷ cs) i code = if c.quic == code then some i else find_quic cs (suc i) code

-- `CloseReasonFromWS`
unfoldable pub reason_from_ws : ℕ → Bytes → Option CloseReason
reason_from_ws code reason = find_ws (drop 1 close_table) close_normal code reason

-- `CloseReasonFromQUIC`
unfoldable pub reason_from_quic : ℕ → Option CloseReason
reason_from_quic code = find_quic (drop 1 close_table) close_normal code
