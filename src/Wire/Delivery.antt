-- ===== src/Wire/Delivery.antt =====
-- One direction of a session: a `Sender`, a `Receiver`, and a network between them that loses,
-- repeats and reorders frames and acknowledgements. The steps are the calls that the two session
-- loops make: `Append`, `Accept` on a frame that was sent, and `Ack` with a watermark that the
-- receiver reported at some time.
pub mod Numbering
pub mod Sound
pub mod Replay
mod Examples
use capri_hub.Common.{ℕ, suc, ◌+◌, ◌^◌, ◌≤◌, ◌<◌, ◌≡◌, some, List, [], ◌∷◌, ◌++◌, length, get_elem?}
use capri_hub.Common.Int.{ℤ}
use capri_hub.Common.Words.{Bytes}
use capri_hub.Wire.Sender.{Sender, new_sender, append, ack}
use capri_hub.Wire.Receiver.{Receiver, new_receiver_window, accept}

-- `sent` is every payload that was appended, and `delivered` is what the receiver released.
pub record Link : Type 0 where
  pub sent : List Bytes
  pub sender : Sender
  pub receiver : Receiver
  pub delivered : List Bytes

-- A fresh sequence space, with the window that the hub advertised.
abbrev pub start : ℤ → Link
start window = record {
  sent = [];
  sender = new_sender 0;
  receiver = new_receiver_window 0 window;
  delivered = [];
}

pub data Step : Link → Link → Type 0 where
  send :
      (l : Link) (payload : Bytes)
      → l.sender.next + 1 < 2 ^ 64
      → Step l (record l { sent = l.sent ++ (payload ∷ []); sender = (append l.sender payload).0 })
  arrive :
      (l : Link) (i : ℕ) (payload : Bytes)
      → get_elem? l.sent i ≡ some payload
      → Step l (record l {
        receiver = (accept l.receiver (suc i) payload).0;
        delivered = l.delivered ++ (accept l.receiver (suc i) payload).1.ready;
      })
  confirm :
      (l : Link) (n : ℕ) → n ≤ l.receiver.acked → Step l (record l { sender = ack l.sender n })

pub data Reach (l : Link) : Link → Type 0 where
  here : Reach l l
  next : {m n : Link} → Reach l m → Step m n → Reach l n
