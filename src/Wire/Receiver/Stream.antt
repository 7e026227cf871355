-- ===== src/Wire/Receiver/Stream.antt =====
-- A receiver that is handed the frames of one stream, in any order and any number of times, as the
-- session loop hands them over: it stops at the first error.
use native.Mathlib.Decide.{dec_le}
use capri_hub.Common.{
  ℕ, suc, ◌+◌, ◌≤◌, ◌<◌, ◌≡◌, refl, ap, ap₂, ◌∙◌, ◌⊎◌, inl, inr, Bool, true, false, none, some,
  List, [], ◌∷◌, ◌++◌, All, Option-cases, arith,
}
use capri_hub.Common.Words.{Bytes, IsU64}
use capri_hub.Wire.Receiver.{Receiver, accept}
use capri_hub.Wire.Receiver.Drain.{frames, frames-append}
use capri_hub.Wire.Receiver.Accept.{IsValid, Holds}
use capri_hub.Wire.Receiver.Invariant.{Stepped, Knows, accept-Stepped}

-- The receiver at the end, what it released, and whether it refused a frame.
pub record Fed : Type 0 where
  pub receiver : Receiver
  pub delivered : List Bytes
  pub failed : Bool

unfoldable pub feed : (ℕ → Bytes) → List ℕ → Receiver → Fed
feed f [] r = record { receiver = r; delivered = []; failed = false }
feed f (s ∷ ss) r =
    let rest = feed f ss (accept r s (f s)).0 in
    let out = accept r s (f s) in
    elim out.1.error [
      | some e ↦ record { receiver = out.0; delivered = out.1.ready; failed = true }
      | none ↦ record rest { delivered = out.1.ready ++ rest.delivered }
    ]

pub record Delivers (f : ℕ → Bytes) (r : Receiver) (out : Fed) : Type 0 where
  pub count : ℕ
  pub watermark : out.receiver.acked ≡ r.acked + count
  pub delivered : out.delivered ≡ frames f (r.acked + 1) count
  pub valid : IsValid out.receiver
  pub holds : Holds f out.receiver

Delivers-next :
    (f : ℕ → Bytes) (r : Receiver) (s : ℕ) (rest : Fed)
    → (st : Stepped f r s (accept r s (f s))) → Delivers f (accept r s (f s)).0 rest
    → Delivers f r (record rest { delivered = (accept r s (f s)).1.ready ++ rest.delivered })
Delivers-next f r s rest st d = record {
  count = st.count + d.count;
  watermark = omega (arith, st.watermark, d.watermark);
  delivered =
      ap₂ ◌++◌ st.ready (d.delivered ∙ ap (λ j. frames f j d.count) next_frame)
      ∙ frames-append f (r.acked + 1) st.count d.count;
  valid = d.valid;
  holds = d.holds;
}
  where
    next_frame : (accept r s (f s)).0.acked + 1 ≡ r.acked + 1 + st.count
    next_frame = omega (arith, st.watermark)

-- Whatever frames of the stream arrive, in whatever order and however often, the receiver releases
-- exactly the frames from its watermark to its new watermark, each once and in order; it stays
-- valid, and what it parks are frames of the stream.
pub feed-Delivers :
    (f : ℕ → Bytes) (seqs : List ℕ) (r : Receiver)
    → IsValid r
    → Holds f r
    → All IsU64 seqs
    → Delivers f r (feed f seqs r)
unfolding feed
feed-Delivers f [] r v h ws = record {
  count = 0;
  watermark = omega arith;
  delivered = refl;
  valid = v;
  holds = h;
}
feed-Delivers f (s ∷ ss) r v h ws = elim (Option-cases (accept r s (f s)).1.error) [
  | inl e ↦ rw (e, feed) (Delivers-next f r s _ st (feed-Delivers f ss _ st.valid st.holds ws.1))
  | inr (x, e) ↦
      rw (e, feed)
        (record {
          count = st.count;
          watermark = st.watermark;
          delivered = st.ready;
          valid = st.valid;
          holds = st.holds;
        })
]
  where
    st : Stepped f r s (accept r s (f s))
    st = accept-Stepped f r s v h ws.0

-- The number stands in the list.
abbrev pub Contains : ℕ → List ℕ → Type 0
Contains k [] = ⊥
Contains k (s ∷ ss) = (k ≡ s) ⊎ Contains k ss

Knows-next :
    (f : ℕ → Bytes) (r : Receiver) (s : ℕ) (ss : List ℕ) (k : ℕ)
    → Stepped f r s (accept r s (f s))
    → (accept r s (f s)).1.error ≡ none
    → 0 < k
    → Knows r k ⊎ Contains k (s ∷ ss)
    → Knows (accept r s (f s)).0 k ⊎ Contains k ss
Knows-next f r s ss k st e p (inl old) = inl (st.keeps k old)
Knows-next f r s ss k st e p (inr (inl q)) = inl (rw q (st.learns e (omega arith)))
Knows-next f r s ss k st e p (inr (inr later)) = inr later

feed-Knows :
    (f : ℕ → Bytes) (seqs : List ℕ) (r : Receiver) (k : ℕ)
    → IsValid r
    → Holds f r
    → All IsU64 seqs
    → 0 < k
    → (feed f seqs r).failed ≡ false
    → Knows r k ⊎ Contains k seqs
    → Knows (feed f seqs r).receiver k
unfolding feed
feed-Knows f [] r k v h ws p fine (inl old) = old
feed-Knows f [] r k v h ws p fine (inr no_frame) = absurd no_frame
feed-Knows f (s ∷ ss) r k v h ws p fine known = elim (Option-cases (accept r s (f s)).1.error) [
  | inl e ↦
      rw (e, feed)
        (feed-Knows f ss _ k st.valid st.holds ws.1 p (rw (e, feed) at fine)
          (Knows-next f r s ss k st e p known))
  | inr (x, e) ↦ cc (rw (e, feed) at fine)
]
  where
    st : Stepped f r s (accept r s (f s))
    st = accept-Stepped f r s v h ws.0

-- If no frame is refused, and every frame above the watermark up to `m` is among those handed in,
-- whatever their order, then the watermark ends at `m` or higher: no frame is lost.
pub feed_complete :
    (f : ℕ → Bytes) (seqs : List ℕ) (r : Receiver) (m : ℕ)
    → IsValid r
    → Holds f r
    → All IsU64 seqs
    → (feed f seqs r).failed ≡ false
    → ((k : ℕ) → r.acked < k → k ≤ m → Contains k seqs)
    → m ≤ (feed f seqs r).receiver.acked
feed_complete f seqs r m v h ws fine every = elim (dec_le m out.receiver.acked) [
  | yes reached ↦ reached
  | no short ↦
      let d = feed-Delivers f seqs r v h ws in
      elim (feed-Knows f seqs r (suc out.receiver.acked) v h ws (omega arith) fine
        (inr (every (suc out.receiver.acked) (omega arith) (omega arith)))) [
          | inl below ↦ absurd (omega arith)
          | inr (x, there) ↦ absurd (omega (arith, (d.valid.ahead _ x there).0))
        ]
]
  where
    out : Fed
    out = feed f seqs r
