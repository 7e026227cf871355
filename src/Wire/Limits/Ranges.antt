-- ===== src/Wire/Limits/Ranges.antt =====
-- What the validation of wire/limits.go lets pass.
use capri_hub.Common.{guard-none, ℕ, ◌*◌, ◌^◌, ◌≤◌, ◌≡◌, ◌↔◌, none, false, arith}
use capri_hub.Common.Int.{ℤ, pos, negsuc, pos_part}
use capri_hub.Wire.Limits.{Liveness, Limits, validate_liveness, validate_limits, outside}

-- The number lies in the range.
abbrev pub InRange : ℕ → ℕ → ℤ → Type 0
InRange low high (pos n) = (low ≤ n) × (n ≤ high)
InRange low high (negsuc n) = ⊥

liveness_range :
    (k i : ℤ)
    → (validate_liveness (record { keepalive = k; idle = i }) ≡ none)
      ↔ (InRange 1 60 k × InRange (2 * pos_part k) 300 i)
unfolding validate_liveness
liveness_range (pos n) (pos m) = (λ e. ground arith, λ h. ground arith)
liveness_range (pos n) (negsuc m) = (λ e. ground arith, λ h. absurd h.1)
liveness_range (negsuc n) (pos m) = (λ e. ground arith, λ h. absurd h.0)
liveness_range (negsuc n) (negsuc m) = (λ e. ground arith, λ h. absurd h.0)

-- `ValidateLiveness` passes exactly a keepalive of 1 to 60 seconds with an idle time of at least two
-- keepalives and at most 300 seconds.
pub validate_liveness-none :
    (l : Liveness)
    → (validate_liveness l ≡ none)
      ↔ (InRange 1 60 l.keepalive × InRange (2 * pos_part l.keepalive) 300 l.idle)
validate_liveness-none l = liveness_range l.keepalive l.idle

outside_range : (low high : ℕ) (n : ℤ) → (outside low high n ≡ false) ↔ InRange low high n
outside_range low high (pos n) = (λ e. ground arith, λ h. ground arith)
outside_range low high (negsuc n) = (λ e. ground arith, λ h. absurd h)

-- `ValidateLimits` passes exactly limits that lie in their three ranges.
pub validate_limits-none :
    (l : Limits)
    → (validate_limits l ≡ none) ↔ (
        InRange (2 ^ 10) (2 ^ 26) l.max_frame
        × InRange (2 ^ 10) (2 ^ 28) l.max_relay_body
        × InRange 1 (2 ^ 20) l.resume_window)
unfolding validate_limits
validate_limits-none l =
    let frame = outside_range (2 ^ 10) (2 ^ 26) l.max_frame in
    let body = outside_range (2 ^ 10) (2 ^ 28) l.max_relay_body in
    let window = outside_range 1 (2 ^ 20) l.resume_window in
    (
      λ e.
          let (a, rest) = guard-none _ _ _ e in
          let (b, rest') = guard-none _ _ _ rest in
          let (c, rest'') = guard-none _ _ _ rest' in (frame.0 a, body.0 b, window.0 c),
      λ h. rw (frame.1 h.0, body.1 h.1, window.1 h.2),
    )
