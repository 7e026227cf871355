-- ===== src/Wire/Receiver.antt =====
-- wire/receiver.go: the receiver of one direction's reliable frames.
-- The map of parked frames is an association list. The loop of `Accept` that drains it takes the
-- number of parked frames for fuel: each round removes one of them.
pub mod Drain
pub mod Accept
pub mod Invariant
pub mod Stream
mod Examples
use capri_hub.Common.{
  ℕ, zero, suc, ◌≡◌, Bool, true, false, Option, none, some, List, [], ◌∷◌, ◌++◌, ltb, leb, ◌==◌,
  if◌then◌else◌, length,
}
use capri_hub.Common.Int.{ℤ, pos, ltb_ℤ, pos_part}
use capri_hub.Common.Words.{Bytes, add64}
use capri_hub.Common.Assoc.{lookup, insert, erase}

-- `ResumeWindow`
abbrev pub resume_window : ℕ
resume_window = 1500

pub record Receiver : Type 0 where
  pub acked : ℕ
  pub window : ℕ
  pub buf : List (ℕ × Bytes)

-- `NewReceiverWindow`. The window is a signed `int`; one below 1 falls back to the default.
unfoldable pub new_receiver_window : ℕ → ℤ → Receiver
new_receiver_window acked window =
    if ltb_ℤ window (pos 1)
    then record { acked = acked; window = resume_window; buf = [] }
    else record { acked = acked; window = pos_part window; buf = [] }

-- `NewReceiver`
unfoldable pub new_receiver : ℕ → Receiver
unfolding new_receiver_window
new_receiver acked = new_receiver_window acked (pos resume_window)

-- The errors of `Accept`: a frame with seq 0, and `ErrOverflow`.
pub data AcceptError : Type 0 where
  seq_zero overflow : AcceptError

-- What `Accept` returns.
pub record Accepted : Type 0 where
  pub ready : List Bytes
  pub ack : ℕ
  pub error : Option AcceptError

-- The loop of `Accept`: `ready` is what has been released so far.
unfoldable pub drain : ℕ → Receiver → List Bytes → Receiver × List Bytes
drain zero r ready = (r, ready)
drain (suc fuel) r ready = elim (lookup (add64 r.acked 1) r.buf) [
  | none ↦ (r, ready)
  | some next ↦
      drain fuel (record r { acked = add64 r.acked 1; buf = erase (add64 r.acked 1) r.buf })
        (ready ++ (next ∷ []))
]

-- The branch of `Accept` for a frame ahead of a gap.
unfoldable pub park : Receiver → ℕ → Bytes → Receiver × Accepted
park r seq payload = elim (lookup seq r.buf) [
  | some _ ↦ (r, record { ready = []; ack = r.acked; error = none })
  | none ↦
      if leb r.window (length r.buf)
      then (r, record { ready = []; ack = r.acked; error = some overflow })
      else (
        record r { buf = insert seq payload r.buf },
        record { ready = []; ack = r.acked; error = none },
      )
]

-- The branch of `Accept` for the next contiguous frame.
unfoldable pub release : Receiver → ℕ → Bytes → Receiver × Accepted
release r seq payload =
    let (r', ready) = drain (length r.buf) (record r { acked = seq }) (payload ∷ []) in
    (r', record { ready = ready; ack = r'.acked; error = none })

-- `Accept`
unfoldable pub accept : Receiver → ℕ → Bytes → Receiver × Accepted
accept r seq payload =
    if seq == 0
    then (r, record { ready = []; ack = r.acked; error = some seq_zero })
    else if leb seq r.acked
    then (r, record { ready = []; ack = r.acked; error = none })
    else if ltb (add64 r.acked 1) seq
    then park r seq payload
    else release r seq payload

-- `Buffered`
abbrev pub buffered : Receiver → ℕ
buffered r = length r.buf
