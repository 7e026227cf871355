-- ===== src/Wire/Receiver/Drain.antt =====
-- The loop of `Accept`: it ends by its own test within the fuel, and releases a contiguous run.
use capri_hub.Common.{
  ℕ, zero, suc, ◌+◌, ◌≤◌, ◌<◌, ◌≡◌, refl, sym, ◌∙◌, ap, ap₂, inl, inr, none, some, List, [], ◌∷◌,
  ◌++◌, append-nil, append_assoc, length, Option-cases, arith,
}
use capri_hub.Common.Words.{Bytes, IsU64, add64}
use capri_hub.Common.Assoc.{
  lookup, erase, Distinct, lookup_of_empty, lookup-erase_ne, lookup-erase_self, length-erase,
  erase-Distinct,
}
use native.Mathlib.Decide.{ℕ_discrete}
use capri_hub.Wire.Receiver.{Receiver, drain}

-- The payloads of the frames `k`, `k + 1`, … of a stream, `n` of them.
abbrev pub frames : (ℕ → Bytes) → ℕ → ℕ → List Bytes
frames f k zero = []
frames f k (suc n) = f k ∷ frames f (suc k) n

pub frames-append :
    (f : ℕ → Bytes) (k m n : ℕ) → frames f k m ++ frames f (k + m) n ≡ frames f k (m + n)
frames-append f k zero n = ground arith
frames-append f k (suc m) n =
    ap (◌∷◌ (f k))
      (ap (λ j. frames f (suc k) m ++ frames f j n) shift ∙ frames-append f (suc k) m n)
    ∙ ap (frames f k) total
  where
    total : suc (m + n) ≡ suc m + n
    total = omega arith

    shift : k + suc m ≡ suc k + m
    shift = omega arith

-- What is parked are frames of the stream `f` above the watermark.
pub record Parks (f : ℕ → Bytes) (r : Receiver) : Type 0 where
  pub word : IsU64 r.acked
  pub distinct : Distinct r.buf
  pub above : (k : ℕ) (v : Bytes) → lookup k r.buf ≡ some v → (r.acked < k) × IsU64 k × (v ≡ f k)

-- What the loop has done when it stops, started at `r` with `ready` released.
pub record Drained (f : ℕ → Bytes) (r : Receiver) (ready : List Bytes) (out : Receiver × List Bytes)
    : Type 0 where
  pub steps : ℕ
  pub watermark : out.0.acked ≡ r.acked + steps
  pub released : out.1 ≡ ready ++ frames f (r.acked + 1) steps
  pub gap : lookup (out.0.acked + 1) out.0.buf ≡ none
  pub beyond : (k : ℕ) → out.0.acked < k → lookup k out.0.buf ≡ lookup k r.buf
  pub parks : Parks f out.0
  pub source : (k : ℕ) → r.acked < k → k ≤ out.0.acked → (v : Bytes) × (lookup k r.buf ≡ some v)
  pub size : length out.0.buf ≤ length r.buf
  pub window : out.0.window ≡ r.window

-- The watermark's successor, once it has wrapped, is never parked.
gap_at_stop :
    (f : ℕ → Bytes) (r : Receiver)
    → Parks f r
    → lookup (add64 r.acked 1) r.buf ≡ none
    → lookup (r.acked + 1) r.buf ≡ none
gap_at_stop f r p e = elim (Option-cases (lookup (r.acked + 1) r.buf)) [
  | inl none_there ↦ none_there
  | inr (v, there) ↦
      let fits = (p.above (r.acked + 1) v there).1 in
      let same : add64 r.acked 1 ≡ r.acked + 1 = omega arith in rw same at e
]

-- A drain that stops at once.
drain_stop :
    (f : ℕ → Bytes) (r : Receiver) (ready : List Bytes)
    → Parks f r
    → lookup (add64 r.acked 1) r.buf ≡ none
    → Drained f r ready (r, ready)
drain_stop f r ready p e = record {
  steps = 0;
  watermark = omega arith;
  released = sym (append-nil ready);
  gap = gap_at_stop f r p e;
  beyond = λ k h. refl;
  parks = p;
  source = λ k above below. absurd (omega arith);
  size = omega arith;
  window = refl;
}

abbrev next_state : Receiver → Receiver
next_state r = record r { acked = add64 r.acked 1; buf = erase (add64 r.acked 1) r.buf }

next_state-Parks :
    (f : ℕ → Bytes) (r : Receiver) (v : Bytes)
    → Parks f r
    → lookup (add64 r.acked 1) r.buf ≡ some v
    → Parks f (next_state r)
next_state-Parks f r v p e = record {
  word = omega arith;
  distinct = erase-Distinct next r.buf p.distinct;
  above = λ k w h. elim (ℕ_discrete next k) [
    | yes q ↦ cc (lookup-erase_self next r.buf p.distinct, q)
    | no q ↦
        let at_k = p.above k w (sym (lookup-erase_ne next k r.buf q) ∙ h) in
        let at_next = p.above next v e in (omega arith, at_k.1, at_k.2)
  ];
}
  where
    next : ℕ
    next = add64 r.acked 1

-- One round releases the frame after the watermark, and the rest follows from the next state.
drain_step :
    (f : ℕ → Bytes) (r : Receiver) (ready : List Bytes) (v : Bytes) (out : Receiver × List Bytes)
    → Parks f r
    → lookup (add64 r.acked 1) r.buf ≡ some v
    → Drained f (next_state r) (ready ++ (v ∷ [])) out
    → Drained f r ready out
drain_step f r ready v out p e d = record {
  steps = suc d.steps;
  watermark = omega (arith, at_next.0, same);
  released =
      d.released
      ∙ append_assoc ready (v ∷ []) (frames f (add64 r.acked 1 + 1) d.steps)
      ∙ ap (◌++◌ ready) (ap₂ ◌∷◌ (at_next.2 ∙ ap f same) (ap (λ j. frames f j d.steps) next_frame));
  gap = d.gap;
  beyond = λ k h. d.beyond k h ∙ lookup-erase_ne (add64 r.acked 1) k r.buf (omega arith);
  parks = d.parks;
  source = λ k above below. elim (ℕ_discrete (add64 r.acked 1) k) [
    | yes q ↦ (v, rw q at e)
    | no q ↦
        let (w, there) = d.source k (omega (arith, same)) below in
        (w, sym (lookup-erase_ne (add64 r.acked 1) k r.buf q) ∙ there)
  ];
  size = omega (arith, length-erase (add64 r.acked 1) r.buf v e);
  window = d.window;
}
  where
    at_next : (r.acked < add64 r.acked 1) × IsU64 (add64 r.acked 1) × (v ≡ f (add64 r.acked 1))
    at_next = p.above (add64 r.acked 1) v e

    same : add64 r.acked 1 ≡ r.acked + 1
    same = omega (arith, at_next.0)

    next_frame : add64 r.acked 1 + 1 ≡ suc (r.acked + 1)
    next_frame = omega (arith, same)

-- Started above the frames of a stream, the loop releases the contiguous run behind the watermark.
pub drain-Drained :
    (f : ℕ → Bytes) (fuel : ℕ) (r : Receiver) (ready : List Bytes)
    → Parks f r
    → length r.buf ≤ fuel
    → Drained f r ready (drain fuel r ready)
unfolding drain
drain-Drained f zero r ready p h =
    drain_stop f r ready p (lookup_of_empty (add64 r.acked 1) r.buf h)
drain-Drained f (suc fuel) r ready p h = elim (Option-cases (lookup (add64 r.acked 1) r.buf)) [
  | inl e ↦ rw (e, drain) (drain_stop f r ready p e)
  | inr (v, e) ↦
      rw (e, drain)
        (drain_step f r ready v _ p e (
          drain-Drained f fuel (next_state r) (ready ++ (v ∷ [])) (next_state-Parks f r v p e)
            (omega (arith, length-erase (add64 r.acked 1) r.buf v e))))
]
