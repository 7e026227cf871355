-- ===== src/Wire/Receiver/Invariant.antt =====
-- What one call of `Accept` keeps: the invariant, the agreement of what is parked with the stream,
-- and the frames that the receiver already has.
use native.Mathlib.Decide.{ℕ_discrete, dec_le, dec_lt}
use capri_hub.Common.{
  ℕ, suc, ◌+◌, ◌≤◌, ◌<◌, ◌≡◌, refl, sym, ap, ap₂, ◌∙◌, List, ◌⊎◌, inl, inr, none, some, [], ◌∷◌,
  length, ◌==◌, Bool-cases, arith,
}
use capri_hub.Common.Words.{Bytes, IsU64}
use capri_hub.Common.Int.{ℤ, pos, ltb_ℤ, pos_part}
use capri_hub.Common.Assoc.{lookup, insert, lookup-insert, length-insert_new, insert-Distinct}
use capri_hub.Wire.Receiver.{Receiver, Accepted, accept, new_receiver_window, resume_window}
use capri_hub.Wire.Receiver.Drain.{Drained, frames}
use capri_hub.Wire.Receiver.Accept.{
  IsValid, Holds, Outcome, unnumbered, duplicate, parked_before, overflowed, parked, released,
  reply, accept-Outcome,
}

-- The receiver has applied the frame `k`, or parks it.
abbrev pub Knows : Receiver → ℕ → Type 0
Knows r k = (k ≤ r.acked) ⊎ ((v : Bytes) × (lookup k r.buf ≡ some v))

-- One call on a frame of the stream `f` releases the `count` frames behind the watermark, in
-- order, forgets no frame, learns of no frame but that of the call, and of that one unless it
-- reports an error.
pub record Stepped (f : ℕ → Bytes) (r : Receiver) (seq : ℕ) (out : Receiver × Accepted)
    : Type 0 where
  pub count : ℕ
  pub watermark : out.0.acked ≡ r.acked + count
  pub ready : out.1.ready ≡ frames f (r.acked + 1) count
  pub ack : out.1.ack ≡ out.0.acked
  pub valid : IsValid out.0
  pub holds : Holds f out.0
  pub keeps : (k : ℕ) → Knows r k → Knows out.0 k
  pub learns : out.1.error ≡ none → 0 < seq → Knows out.0 seq
  pub source : (k : ℕ) → Knows out.0 k → Knows r k ⊎ (k ≡ seq)

-- A call that changes nothing.
unchanged :
    (f : ℕ → Bytes) (r : Receiver) (seq : ℕ) (out : Receiver × Accepted)
    → IsValid r
    → Holds f r
    → out.0 ≡ r
    → out.1.ready ≡ []
    → out.1.ack ≡ r.acked
    → (out.1.error ≡ none → 0 < seq → Knows r seq)
    → Stepped f r seq out
unchanged f r seq out v h same nothing ack known = record {
  count = 0;
  watermark = rw same (omega arith);
  ready = nothing;
  ack = rw same ack;
  valid = rw same v;
  holds = rw same h;
  keeps = λ k old. rw same old;
  learns = λ fine p. rw same (known fine p);
  source = λ k new. inl (rw same at new);
}

-- Parking a new frame.
insert-IsValid :
    (r : Receiver) (seq : ℕ) (payload : Bytes)
    → IsValid r
    → IsU64 seq
    → r.acked + 1 < seq
    → lookup seq r.buf ≡ none
    → length r.buf < r.window
    → IsValid (record r { buf = insert seq payload r.buf })
insert-IsValid r seq payload v w high fresh room = record {
  word = v.word;
  distinct = insert-Distinct seq payload r.buf v.distinct;
  ahead = λ k p there. elim (Bool-cases (seq == k)) [
    | inl e ↦ ground arith
    | inr e ↦ v.ahead k p (sym (rw e at (lookup-insert seq k payload r.buf)) ∙ there)
  ];
  bounded = omega (arith, length-insert_new seq payload r.buf fresh);
}

insert-Knows :
    (r : Receiver) (seq : ℕ) (payload : Bytes) (k : ℕ)
    → Knows r k
    → Knows (record r { buf = insert seq payload r.buf }) k
insert-Knows r seq payload k (inl below) = inl below
insert-Knows r seq payload k (inr (p, there)) = elim (Bool-cases (seq == k)) [
  | inl e ↦ inr (payload, lookup-insert seq k payload r.buf ∙ rw e)
  | inr e ↦ inr (p, lookup-insert seq k payload r.buf ∙ rw e there)
]

insert-source :
    (r : Receiver) (seq : ℕ) (payload : Bytes) (k : ℕ)
    → Knows (record r { buf = insert seq payload r.buf }) k
    → Knows r k ⊎ (k ≡ seq)
insert-source r seq payload k (inl below) = inl (inl below)
insert-source r seq payload k (inr (p, there)) = elim (Bool-cases (seq == k)) [
  | inl e ↦ inr (ground arith)
  | inr e ↦ inl (inr (p, sym (rw e at (lookup-insert seq k payload r.buf)) ∙ there))
]

insert-Stepped :
    (f : ℕ → Bytes) (r : Receiver) (seq : ℕ)
    → IsValid r
    → Holds f r
    → IsU64 seq
    → r.acked + 1 < seq
    → lookup seq r.buf ≡ none
    → length r.buf < r.window
    → Stepped f r seq (reply (record r { buf = insert seq (f seq) r.buf }) none)
insert-Stepped f r seq v h w high fresh room = record {
  count = 0;
  watermark = omega arith;
  ready = refl;
  ack = refl;
  valid = insert-IsValid r seq (f seq) v w high fresh room;
  holds = λ k p there. ground (arith, lookup-insert seq k (f seq) r.buf, h k p);
  keeps = insert-Knows r seq (f seq);
  learns = λ fine p. inr (f seq, lookup-insert seq seq (f seq) r.buf ∙ ground arith);
  source = insert-source r seq (f seq);
}

-- After a drain the frame behind the watermark is missing.
Drained-ahead :
    (f : ℕ → Bytes) (r : Receiver) (before : List Bytes) (r' : Receiver) (ready : List Bytes)
    → Drained f r before (r', ready)
    → (k : ℕ) (v : Bytes) → lookup k r'.buf ≡ some v
    → (r'.acked + 1 < k) × IsU64 k
Drained-ahead f r before r' ready d k v there = elim (ℕ_discrete (r'.acked + 1) k) [
  | yes q ↦ cc (q, d.gap, there)
  | no q ↦ let up = d.parks.above k v there in (omega (arith, up.0), up.1)
]

Drained-Knows :
    (f : ℕ → Bytes) (r : Receiver) (seq : ℕ) (out : Receiver × Accepted)
    → seq ≡ r.acked + 1
    → Drained f (record r { acked = seq }) (f seq ∷ []) (out.0, out.1.ready)
    → (k : ℕ) → Knows r k
    → Knows out.0 k
Drained-Knows f r seq out e d k (inl below) = inl (omega arith)
Drained-Knows f r seq out e d k (inr (v, there)) = elim (dec_le k out.0.acked) [
  | yes below ↦ inl below
  | no above ↦ inr (v, d.beyond k (omega arith) ∙ there)
]

Drained-source :
    (f : ℕ → Bytes) (r : Receiver) (seq : ℕ) (out : Receiver × Accepted)
    → seq ≡ r.acked + 1
    → Drained f (record r { acked = seq }) (f seq ∷ []) (out.0, out.1.ready)
    → (k : ℕ) → Knows out.0 k
    → Knows r k ⊎ (k ≡ seq)
Drained-source f r seq out e d k (inl below) = elim (dec_lt seq k) [
  | yes above ↦ inl (inr (d.source k above below))
  | no under ↦ elim (ℕ_discrete k seq) [ yes q ↦ inr q | no q ↦ inl (inl (omega arith)) ]
]
Drained-source f r seq out e d k (inr (v, there)) =
    inl (inr (v, sym (d.beyond k (d.parks.above k v there).0) ∙ there))

Drained-Stepped :
    (f : ℕ → Bytes) (r : Receiver) (seq : ℕ) (out : Receiver × Accepted)
    → IsValid r
    → seq ≡ r.acked + 1
    → Drained f (record r { acked = seq }) (f seq ∷ []) (out.0, out.1.ready)
    → out.1.ack ≡ out.0.acked
    → Stepped f r seq out
Drained-Stepped f r seq out v e d ack = record {
  count = suc d.steps;
  watermark = omega arith;
  ready = d.released ∙ ap₂ ◌∷◌ (ap f e) (ap (λ j. frames f j d.steps) next_frame);
  ack = ack;
  valid = record {
    word = d.parks.word;
    distinct = d.parks.distinct;
    ahead = λ k p there. (Drained-ahead f _ _ out.0 out.1.ready d k p there);
    bounded = omega arith;
  };
  holds = λ k p there. (d.parks.above k p there).2;
  keeps = λ k old. Drained-Knows f r seq out e d k old;
  learns = λ fine p. inl (omega arith);
  source = Drained-source f r seq out e d;
}
  where
    next_frame : seq + 1 ≡ suc (r.acked + 1)
    next_frame = omega arith

Outcome-Stepped :
    (f : ℕ → Bytes) (r : Receiver) (seq : ℕ) (out : Receiver × Accepted)
    → IsValid r
    → Holds f r
    → IsU64 seq
    → Outcome f r seq (f seq) out
    → Stepped f r seq out
Outcome-Stepped f r seq out v h w (unnumbered e q) =
    rw q (unchanged f r seq _ v h refl refl refl (λ fine p. absurd (omega arith)))
Outcome-Stepped f r seq out v h w (duplicate p below q) =
    rw q (unchanged f r seq _ v h refl refl refl (λ fine p. inl below))
Outcome-Stepped f r seq out v h w (parked_before x high there q) =
    rw q (unchanged f r seq _ v h refl refl refl (λ fine p. inr (x, there)))
Outcome-Stepped f r seq out v h w (overflowed high fresh full q) =
    rw q (unchanged f r seq _ v h refl refl refl (λ fine p. cc))
Outcome-Stepped f r seq out v h w (parked high fresh room q) =
    rw q (insert-Stepped f r seq v h w high fresh room)
Outcome-Stepped f r seq out v h w (released e d ack fine) = Drained-Stepped f r seq out v e d ack

-- What a call of `Accept` does, in terms of the stream.
pub accept-Stepped :
    (f : ℕ → Bytes) (r : Receiver) (seq : ℕ)
    → IsValid r
    → Holds f r
    → IsU64 seq
    → Stepped f r seq (accept r seq (f seq))
accept-Stepped f r seq v h w =
    Outcome-Stepped f r seq _ v h w (accept-Outcome f r seq (f seq) v h w)

empty-IsValid :
    (acked window : ℕ) → IsU64 acked → IsValid (record { acked = acked; window = window; buf = [] })
empty-IsValid acked window w = record {
  word = w;
  distinct = tt;
  ahead = λ k v e. cc;
  bounded = omega arith;
}

-- A fresh receiver is valid.
pub new_receiver_window-IsValid :
    (acked : ℕ) (window : ℤ) → IsU64 acked → IsValid (new_receiver_window acked window)
unfolding new_receiver_window
new_receiver_window-IsValid acked window w = elim (Bool-cases (ltb_ℤ window (pos 1))) [
  | inl e ↦ rw (e, new_receiver_window) (empty-IsValid acked resume_window w)
  | inr e ↦ rw (e, new_receiver_window) (empty-IsValid acked (pos_part window) w)
]

pub new_receiver_window_lem :
    (acked : ℕ) (window : ℤ)
    → ((new_receiver_window acked window).acked ≡ acked)
      × ((new_receiver_window acked window).buf ≡ [])
unfolding new_receiver_window
new_receiver_window_lem acked window = ground arith
