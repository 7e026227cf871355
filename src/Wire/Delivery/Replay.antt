-- ===== src/Wire/Delivery/Replay.antt =====
-- The repair path after a reconnect: the sender replays its log, oldest entry first.
use capri_hub.Common.{
  ℕ, zero, suc, ◌+◌, ◌^◌, ◌≤◌, ◌<◌, ◌≡◌, refl, sym, ap, subst, ◌∙◌, inl, inr, true, false, none,
  some, List, [], ◌∷◌, ◌++◌, length, get_elem?, drop, append_assoc, append-nil, length-drop,
  take_of_length-le, Option-cases, All, arith,
}
use capri_hub.Common.Int.{ℤ}
use capri_hub.Common.Words.{Bytes, IsU64}
use capri_hub.Wire.Sender.{Entry}
use capri_hub.Wire.Receiver.{Receiver, Accepted, accept}
use capri_hub.Wire.Receiver.Accept.{
  IsValid, Holds, Outcome, unnumbered, duplicate, parked_before, overflowed, parked, released,
  accept-Outcome,
}
use capri_hub.Wire.Receiver.Invariant.{accept-Stepped}
use capri_hub.Wire.Receiver.Stream.{Fed, feed}
use capri_hub.Wire.Delivery.{Link, start, Reach}
use capri_hub.Wire.Delivery.Numbering.{number, stream, stream_at}
use capri_hub.Wire.Delivery.Sound.{Sound, Reach-Sound, Stepped-Sound}

-- Entries of a log arrive in order; the session ends at the first that is refused.
unfoldable pub replay : List Entry → Receiver → Fed
replay [] r = record { receiver = r; delivered = []; failed = false }
replay (e ∷ es) r =
    let rest = replay es (accept r e.seq e.payload).0 in
    let out = accept r e.seq e.payload in
    elim out.1.error [
      | some x ↦ record { receiver = out.0; delivered = out.1.ready; failed = true }
      | none ↦ record rest { delivered = out.1.ready ++ rest.delivered }
    ]

abbrev upto : ℕ → ℕ → List ℕ
upto base zero = []
upto base (suc n) = suc base ∷ upto (suc base) n

Outcome-in_order :
    (f : ℕ → Bytes) (r : Receiver) (seq : ℕ) (out : Receiver × Accepted)
    → 0 < seq
    → seq ≤ r.acked + 1
    → Outcome f r seq (f seq) out
    → (out.1.error ≡ none) × (seq ≤ out.0.acked)
Outcome-in_order f r seq out p h (unnumbered e q) = absurd (omega arith)
Outcome-in_order f r seq out p h (duplicate pos below q) = rw q (refl, below)
Outcome-in_order f r seq out p h (parked_before x high there q) = absurd (omega arith)
Outcome-in_order f r seq out p h (overflowed high fresh full q) = absurd (omega arith)
Outcome-in_order f r seq out p h (parked high fresh room q) = absurd (omega arith)
Outcome-in_order f r seq out p h (released e d ack fine) = (fine, omega (arith, d.watermark))

-- Frames that arrive in order from the watermark or below are never refused.
feed_in_order :
    (f : ℕ → Bytes) (n base : ℕ) (r : Receiver)
    → IsValid r
    → Holds f r
    → base ≤ r.acked
    → base + n < 2 ^ 64
    → let out = feed f (upto base n) r in (out.failed ≡ false) × (base + n ≤ out.receiver.acked)
unfolding feed
feed_in_order f zero base r v h low fits = (refl, omega arith)
feed_in_order f (suc n) base r v h low fits =
    let word : IsU64 (suc base) = omega arith in
    let st = accept-Stepped f r (suc base) v h word in
    let both =
      Outcome-in_order f r (suc base) _ (omega arith) (omega arith)
        (accept-Outcome f r (suc base) (f (suc base)) v h word) in
    let rest = feed_in_order f n (suc base) _ st.valid st.holds both.1 (omega arith) in
    rw (both.0, feed) (rest.0, omega (arith, rest.1))

drop-cons :
    (b : ℕ) (xs : List Bytes) (p : Bytes) (ps : List Bytes)
    → drop b xs ≡ p ∷ ps
    → (get_elem? xs b ≡ some p) × (drop (suc b) xs ≡ ps)
drop-cons zero [] p ps e = cc
drop-cons zero (x ∷ xs) p ps e = ground arith
drop-cons (suc b) [] p ps e = cc
drop-cons (suc b) (x ∷ xs) p ps e = drop-cons b xs p ps e

-- What a session does with an answer of `Accept`: it goes on unless there is an error.
abbrev after : Receiver × Accepted → Fed → Fed
after out rest = elim out.1.error [
  | some x ↦ record { receiver = out.0; delivered = out.1.ready; failed = true }
  | none ↦ record rest { delivered = out.1.ready ++ rest.delivered }
]

-- To replay the numbered payloads behind a watermark is to feed those frames of the stream.
replay-number :
    (sent : List Bytes) (base : ℕ) (ps : List Bytes) (r : Receiver)
    → drop base sent ≡ ps
    → replay (number base ps) r ≡ feed (stream sent) (upto base (length ps)) r
unfolding replay feed
replay-number sent base [] r e = refl
replay-number sent base (p ∷ ps) r e =
    let (there, behind) = drop-cons base sent p ps e in
    ap
      (λ q. after (accept r (suc base) q) (replay (number (suc base) ps) (accept r (suc base) q).0))
      (sym (stream_at sent base p there))
    ∙ ap (after (accept r (suc base) (stream sent (suc base))))
        (replay-number sent (suc base) ps _ behind)

-- A link after its receiver was fed.
abbrev fed : Link → Fed → Link
fed l out = record l { receiver = out.receiver; delivered = l.delivered ++ out.delivered }

fed-next :
    (l : Link) (ready : List Bytes) (r : Receiver) (rest : Fed)
    → Sound (fed (record l { receiver = r; delivered = l.delivered ++ ready }) rest)
    → Sound (fed l (record rest { delivered = ready ++ rest.delivered }))
fed-next l ready r rest g =
    subst (λ d. Sound (record l { receiver = rest.receiver; delivered = d }))
      (append_assoc l.delivered ready rest.delivered) g

-- A feed of frames that were sent keeps a link sound.
feed-Sound :
    (seqs : List ℕ) (l : Link)
    → Sound l
    → All (λ k. k ≤ length l.sent) seqs
    → All IsU64 seqs
    → Sound (fed l (feed (stream l.sent) seqs l.receiver))
unfolding feed
feed-Sound [] l g h ws =
    subst (λ d. Sound (record l { delivered = d })) (sym (append-nil l.delivered)) g
feed-Sound (s ∷ ss) l g h ws =
    let st =
      accept-Stepped (stream l.sent) l.receiver s g.receiver (λ k v there. (g.parked k v there).1)
        ws.0 in
    let stepped = Stepped-Sound l s g h.0 st in
    elim (Option-cases (accept l.receiver s (stream l.sent s)).1.error) [
      | inl e ↦
          rw (e, feed)
            (fed-next l (accept l.receiver s (stream l.sent s)).1.ready
              (accept l.receiver s (stream l.sent s)).0
              (feed (stream l.sent) ss (accept l.receiver s (stream l.sent s)).0)
              (feed-Sound ss _ stepped h.1 ws.1))
      | inr (x, e) ↦ rw (e, feed) stepped
    ]

upto_bounded :
    (b n m : ℕ) → b + n ≤ m → m < 2 ^ 64 → All (λ k. k ≤ m) (upto b n) × All IsU64 (upto b n)
upto_bounded b zero m h w = (tt, tt)
upto_bounded b (suc n) m h w =
    let rest = upto_bounded (suc b) n m (omega arith) w in
    ((omega arith, rest.0), (omega arith, rest.1))

-- From a sound link, the replay is refused nowhere and completes the delivery.
replay_completes :
    (l : Link)
    → Sound l
    → let out = replay l.sender.log l.receiver in
      (out.failed ≡ false) × (l.delivered ++ out.delivered ≡ l.sent)
replay_completes l g =
    let open_frames = drop l.sender.acked l.sent in
    let n = length open_frames in
    let count = length-drop l.sender.acked l.sent in
    let same : replay l.sender.log l.receiver
        ≡ feed (stream l.sent) (upto l.sender.acked n) l.receiver =
      ap (λ log. replay log l.receiver) g.log
      ∙ replay-number l.sent l.sender.acked open_frames l.receiver refl in
    let reach =
      feed_in_order (stream l.sent) n l.sender.acked l.receiver g.receiver
        (λ k v there. (g.parked k v there).1) g.order
        (omega (arith, count, g.order, g.ahead, g.assigned, g.sender.word)) in
    let bounds =
      upto_bounded l.sender.acked n (length l.sent) (omega (arith, count, g.order, g.ahead))
        (omega (arith, g.assigned, g.sender.word)) in
    let after_feed = feed-Sound (upto l.sender.acked n) l g bounds.0 bounds.1 in
    rw same (
      reach.0,
      after_feed.delivered
          ∙ take_of_length-le _ l.sent (omega (arith, reach.1, count, g.order, g.ahead)),
    )

-- At any link that a fresh one can reach, to hand the sender's log to the receiver, in order, is
-- refused nowhere, and makes up what was released before to all that was sent, each payload once
-- and in order: a reconnect repairs every loss, whatever the window.
pub Reach-replay :
    (window : ℤ) {l : Link}
    → Reach (start window) l
    → let out = replay l.sender.log l.receiver in
      (out.failed ≡ false) × (l.delivered ++ out.delivered ≡ l.sent)
Reach-replay window {l} r = replay_completes l (Reach-Sound window r)
