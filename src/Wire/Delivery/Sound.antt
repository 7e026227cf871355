-- ===== src/Wire/Delivery/Sound.antt =====
-- The invariant of a link: what was delivered is a prefix of what was sent, and the sender's log is
-- exactly what is not yet acknowledged.
use capri_hub.Common.{
  ℕ, zero, suc, ◌+◌, ◌-◌, ◌^◌, ◌≤◌, ◌<◌, ◌≡◌, refl, sym, ap, ap₂, ◌∙◌, ◌⊎◌, inl, inr, some, List,
  [], ◌∷◌, ◌++◌, length, get_elem?, take, drop, take-append, drop-append, drop-drop, length-append,
  length-drop, get_elem?-append, get_elem?-lt, arith,
}
use capri_hub.Common.Int.{ℤ}
use capri_hub.Common.Words.{Bytes}
use capri_hub.Common.Assoc.{lookup}
use capri_hub.Wire.Sender.{new_sender, append, ack}
use capri_hub.Wire.Sender.Log
use capri_hub.Wire.Sender.Log.{new_sender-IsValid, append_lem}
use capri_hub.Wire.Sender.Ack.{above, ack_lem}
use capri_hub.Wire.Receiver.{accept}
use capri_hub.Wire.Receiver.Drain.{frames}
use capri_hub.Wire.Receiver.Accept
use capri_hub.Wire.Receiver.Accept.{Holds}
use capri_hub.Wire.Receiver.Invariant.{
  Stepped, Knows, accept-Stepped, new_receiver_window-IsValid, new_receiver_window_lem,
}
use capri_hub.Wire.Delivery.{Link, start, Step, send, arrive, confirm, Reach, here, next}
use capri_hub.Wire.Delivery.Numbering.{
  number, stream, number-append, above-number, stream_at, take-frames,
}

pub record Sound (l : Link) : Type 0 where
  pub sender : Log.IsValid l.sender
  pub receiver : Accept.IsValid l.receiver
  pub assigned : l.sender.next ≡ length l.sent
  pub log : l.sender.log ≡ number l.sender.acked (drop l.sender.acked l.sent)
  pub order : l.sender.acked ≤ l.receiver.acked
  pub ahead : l.receiver.acked ≤ length l.sent
  pub parked :
      (k : ℕ) (v : Bytes)
      → lookup k l.receiver.buf ≡ some v
      → (k ≤ length l.sent) × (v ≡ stream l.sent k)
  pub delivered : l.delivered ≡ take l.receiver.acked l.sent

stream-append :
    (sent more : List Bytes) (k : ℕ) → k ≤ length sent → stream (sent ++ more) k ≡ stream sent k
stream-append sent more zero h = refl
stream-append sent more (suc i) h = rw (get_elem?-append i sent more (omega arith))

start-Sound : (window : ℤ) → Sound (start window)
unfolding new_sender
start-Sound window =
    let (low, empty) = new_receiver_window_lem 0 window in
    record {
      sender = new_sender-IsValid 0 (omega arith);
      receiver = new_receiver_window-IsValid 0 window (omega arith);
      assigned = refl;
      log = refl;
      order = omega (arith, low);
      ahead = omega (arith, low);
      parked = λ k v there. cc (rw empty at there);
      delivered = rw low;
    }

send-Sound :
    (l : Link) (payload : Bytes)
    → l.sender.next + 1 < 2 ^ 64
    → Sound l
    → Sound (record l { sent = l.sent ++ (payload ∷ []); sender = (append l.sender payload).0 })
send-Sound l payload room g =
    let (numbered, nexts, acks, logs, valid) = append_lem l.sender payload g.sender room in
    record {
      sender = valid;
      receiver = g.receiver;
      assigned = omega (arith, nexts, numbered, g.assigned, length-append l.sent (payload ∷ []));
      log =
          logs
          ∙ ap₂ (λ xs k. xs ++ (record { seq = k; payload = payload } ∷ [])) g.log
              (omega
                (arith, numbered, g.assigned, g.order, g.ahead, length-drop l.sender.acked l.sent))
          ∙ sym (number-append l.sender.acked (drop l.sender.acked l.sent) payload)
          ∙ ap₂ number (sym acks) (
              sym
                (drop-append l.sender.acked l.sent (payload ∷ []) (omega (arith, g.order, g.ahead)))
              ∙ ap (λ k. drop k (l.sent ++ (payload ∷ []))) (sym acks));
      order = omega (arith, acks, g.order);
      ahead = omega (arith, g.ahead, length-append l.sent (payload ∷ []));
      parked = λ k v there.
          let (low, same) = g.parked k v there in
          (
            omega (arith, low, length-append l.sent (payload ∷ [])),
            same ∙ sym (stream-append l.sent (payload ∷ []) k low),
          );
      delivered = g.delivered ∙ sym (take-append l.receiver.acked l.sent (payload ∷ []) g.ahead);
    }

-- Whatever the receiver knows after the step is a frame that was sent.
known_sent :
    (l : Link) (k seq : ℕ)
    → Sound l
    → seq ≤ length l.sent
    → Knows l.receiver k ⊎ (k ≡ seq)
    → k ≤ length l.sent
known_sent l k seq g h (inl (inl below)) = omega (arith, g.ahead)
known_sent l k seq g h (inl (inr (v, there))) = (g.parked k v there).0
known_sent l k seq g h (inr e) = omega arith

pub Stepped-Sound :
    (l : Link) (seq : ℕ)
    → Sound l
    → seq ≤ length l.sent
    → Stepped (stream l.sent) l.receiver seq (accept l.receiver seq (stream l.sent seq))
    → Sound (record l {
      receiver = (accept l.receiver seq (stream l.sent seq)).0;
      delivered = l.delivered ++ (accept l.receiver seq (stream l.sent seq)).1.ready;
    })
Stepped-Sound l seq g h st = record {
  sender = g.sender;
  receiver = st.valid;
  assigned = g.assigned;
  log = g.log;
  order = omega (arith, g.order, st.watermark);
  ahead = reached;
  parked = λ k v there. (known_sent l k seq g h (st.source k (inr (v, there))), st.holds k v there);
  delivered =
      ap₂ ◌++◌ g.delivered (st.ready ∙ ap (λ k. frames (stream l.sent) k st.count) next_frame)
      ∙ take-frames l.sent l.receiver.acked st.count (omega (arith, reached, st.watermark))
      ∙ ap (λ k. take k l.sent) (sym st.watermark);
}
  where
    next_frame : l.receiver.acked + 1 ≡ suc l.receiver.acked
    next_frame = omega arith

    reached : (accept l.receiver seq (stream l.sent seq)).0.acked ≤ length l.sent
    reached = known_sent l _ seq g h (st.source _ (inl (omega arith)))

arrive-Sound :
    (l : Link) (i : ℕ) (payload : Bytes)
    → get_elem? l.sent i ≡ some payload
    → Sound l
    → Sound (record l {
      receiver = (accept l.receiver (suc i) payload).0;
      delivered = l.delivered ++ (accept l.receiver (suc i) payload).1.ready;
    })
arrive-Sound l i payload e g =
    let same : stream l.sent (suc i) ≡ payload = stream_at l.sent i payload e in
    rw (← same) (
      Stepped-Sound l (suc i) g (omega (arith, get_elem?-lt i l.sent e)) (
        accept-Stepped (stream l.sent) l.receiver (suc i) g.receiver
          (λ k v there. (g.parked k v there).1)
          (omega (arith, get_elem?-lt i l.sent e, g.assigned, g.sender.word))))

-- The log above a higher watermark is numbered from there.
confirmed_log :
    (l : Link) (m : ℕ)
    → Sound l
    → l.sender.acked ≤ m
    → above m l.sender.log ≡ number m (drop m l.sent)
confirmed_log l m g h =
    ap₂ above (sym up) g.log
    ∙ above-number d a (drop a l.sent)
    ∙ ap (number (a + d)) (drop-drop d a l.sent)
    ∙ ap (λ k. number k (drop k l.sent)) up
  where
    a : ℕ
    a = l.sender.acked

    d : ℕ
    d = m - l.sender.acked

    up : a + d ≡ m
    up = omega arith

confirm-Sound :
    (l : Link) (n : ℕ)
    → n ≤ l.receiver.acked
    → Sound l
    → Sound (record l { sender = ack l.sender n })
confirm-Sound l n h g =
    let (acks, logs, nexts, valid) = ack_lem l.sender n g.sender in
    record {
      sender = valid;
      receiver = g.receiver;
      assigned = nexts ∙ g.assigned;
      log = logs ∙ confirmed_log l (ack l.sender n).acked g (omega (arith, acks));
      order = omega (arith, acks, g.order);
      ahead = g.ahead;
      parked = g.parked;
      delivered = g.delivered;
    }

-- Every step keeps a link sound.
Step-Sound : {l m : Link} → Step l m → Sound l → Sound m
Step-Sound (send l payload room) g = send-Sound l payload room g
Step-Sound (arrive l i payload e) g = arrive-Sound l i payload e g
Step-Sound (confirm l n h) g = confirm-Sound l n h g

pub Reach-Sound : (window : ℤ) {l : Link} → Reach (start window) l → Sound l
Reach-Sound window here = start-Sound window
Reach-Sound window (next r st) = Step-Sound st (Reach-Sound window r)

-- In every link that a fresh one can reach, whatever the network lost, repeated or reordered, the
-- receiver has released exactly the first `acked` payloads that were sent, each once and in order.
-- The sender's watermark is at most the receiver's, and its log holds exactly the payloads above
-- its own watermark, under the seqs that they were given.
pub Reach-prefix :
    (window : ℤ) {l : Link}
    → Reach (start window) l
    → (l.delivered ≡ take l.receiver.acked l.sent)
      × (l.receiver.acked ≤ length l.sent)
      × (l.sender.acked ≤ l.receiver.acked)
      × (l.sender.log ≡ number l.sender.acked (drop l.sender.acked l.sent))
Reach-prefix window r = let g = Reach-Sound window r in (g.delivered, g.ahead, g.order, g.log)
