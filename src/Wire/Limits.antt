-- ===== src/Wire/Limits.antt =====
-- wire/limits.go: the advertised time scale and limits, and their validation.
pub mod Ranges
use capri_hub.Common.{ℕ, ◌+◌, ◌*◌, ◌^◌, ◌≡◌, Bool, ◌||◌, Option, none, some, if◌then◌else◌}
use capri_hub.Common.Int.{ℤ, pos, negsuc, ltb_ℤ}

-- `ErrProtocol`, `ErrUnreadable`, and the error of `Encode` where the frame cannot be marshalled.
pub data FrameError : Type 0 where
  protocol unreadable unencodable : FrameError

pub record Liveness : Type 0 where
  pub keepalive : ℤ
  pub idle : ℤ

pub record Limits : Type 0 where
  pub max_frame : ℤ
  pub max_relay_body : ℤ
  pub resume_window : ℤ

-- `DefaultLiveness` and `DefaultLimits`
abbrev pub default_liveness : Liveness
default_liveness = record { keepalive = pos 5; idle = pos 20 }

abbrev pub default_limits : Limits
default_limits = record {
  max_frame = pos (8 * 2 ^ 20);
  max_relay_body = pos (28 * 2 ^ 20);
  resume_window = pos 1500;
}

-- 2 * n
abbrev pub double : ℤ → ℤ
double (pos n) = pos (2 * n)
double (negsuc n) = negsuc (2 * n + 1)

-- `ValidateLiveness`; `none` is a nil error.
unfoldable pub validate_liveness : Liveness → Option FrameError
validate_liveness l =
    if ltb_ℤ l.keepalive (pos 1) || ltb_ℤ (pos 60) l.keepalive
    then some protocol
    else if ltb_ℤ l.idle (double l.keepalive)
    then some protocol
    else if ltb_ℤ (pos 300) l.idle
    then some protocol
    else none

abbrev outside : ℕ → ℕ → ℤ → Bool
outside low high n = ltb_ℤ n (pos low) || ltb_ℤ (pos high) n

-- `ValidateLimits`
unfoldable pub validate_limits : Limits → Option FrameError
validate_limits l =
    if outside (2 ^ 10) (64 * 2 ^ 20) l.max_frame
    then some protocol
    else if outside (2 ^ 10) (256 * 2 ^ 20) l.max_relay_body
    then some protocol
    else if outside 1 (2 ^ 20) l.resume_window
    then some protocol
    else none
