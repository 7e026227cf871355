-- ===== src/Wire/Receiver/Accept.antt =====
-- `Accept` on every branch, and the invariant of a receiver between calls.
use capri_hub.Common.{
  ℕ, ◌+◌, ◌≤◌, ◌<◌, ◌≡◌, refl, inl, inr, Option, none, some, [], ◌∷◌, ltb, leb, ◌==◌, length,
  Bool-cases, Option-cases, arith,
}
use capri_hub.Common.Words.{Bytes, IsU64, add64}
use capri_hub.Common.Assoc.{lookup, insert, Distinct}
use capri_hub.Wire.Receiver.{
  Receiver, Accepted, AcceptError, seq_zero, overflow, park, release, accept,
}
use capri_hub.Wire.Receiver.Drain.{Parks, Drained, drain-Drained}

-- Between calls no parked frame is at or just above the watermark, and the window bounds them.
pub record IsValid (r : Receiver) : Type 0 where
  pub word : IsU64 r.acked
  pub distinct : Distinct r.buf
  pub ahead : (k : ℕ) (v : Bytes) → lookup k r.buf ≡ some v → (r.acked + 1 < k) × IsU64 k
  pub bounded : length r.buf ≤ r.window

-- What is parked are frames of the stream `f`.
abbrev pub Holds : (ℕ → Bytes) → Receiver → Type 0
Holds f r = (k : ℕ) (v : Bytes) → lookup k r.buf ≡ some v → v ≡ f k

abbrev pub reply : Receiver → Option AcceptError → Receiver × Accepted
reply r e = (r, record { ready = []; ack = r.acked; error = e })

-- What `Accept` may do with a frame of the stream `f`, and when.
pub data Outcome (f : ℕ → Bytes) (r : Receiver) (seq : ℕ) (payload : Bytes)
    (out : Receiver × Accepted) : Type 0 where
  unnumbered : seq ≡ 0 → out ≡ reply r (some seq_zero) → Outcome f r seq payload out
  duplicate : 0 < seq → seq ≤ r.acked → out ≡ reply r none → Outcome f r seq payload out
  parked_before :
      (v : Bytes)
      → r.acked + 1 < seq
      → lookup seq r.buf ≡ some v
      → out ≡ reply r none
      → Outcome f r seq payload out
  overflowed :
      r.acked + 1 < seq
      → lookup seq r.buf ≡ none
      → r.window ≤ length r.buf
      → out ≡ reply r (some overflow)
      → Outcome f r seq payload out
  parked :
      r.acked + 1 < seq
      → lookup seq r.buf ≡ none
      → length r.buf < r.window
      → out ≡ reply (record r { buf = insert seq payload r.buf }) none
      → Outcome f r seq payload out
  released :
      seq ≡ r.acked + 1
      → Drained f (record r { acked = seq }) (payload ∷ []) (out.0, out.1.ready)
      → out.1.ack ≡ out.0.acked
      → out.1.error ≡ none
      → Outcome f r seq payload out

park-Outcome :
    (f : ℕ → Bytes) (r : Receiver) (seq : ℕ) (payload : Bytes)
    → r.acked + 1 < seq
    → Outcome f r seq payload (park r seq payload)
unfolding park
park-Outcome f r seq payload h = elim (Option-cases (lookup seq r.buf)) [
  | inr (v, e) ↦ rw (e, park) (parked_before v h e refl)
  | inl e ↦ elim (Bool-cases (leb r.window (length r.buf))) [
    | inl full ↦ rw (e, park, full) (overflowed h e (ground arith) refl)
    | inr room ↦ rw (e, park, room) (parked h e (ground arith) refl)
  ]
]

release-Outcome :
    (f : ℕ → Bytes) (r : Receiver) (seq : ℕ) (payload : Bytes)
    → IsValid r
    → Holds f r
    → IsU64 seq
    → seq ≡ r.acked + 1
    → Outcome f r seq payload (release r seq payload)
unfolding release
release-Outcome f r seq payload v h w e =
    released e (drain-Drained f _ (record r { acked = seq }) (payload ∷ []) parks (omega arith))
      refl refl
  where
    parks : Parks f (record r { acked = seq })
    parks = record {
      word = w;
      distinct = v.distinct;
      above =
          λ k p there. (omega (arith, (v.ahead k p there).0), (v.ahead k p there).1, h k p there);
    }

-- `Accept` on a frame of the stream `f`, on all its branches. It refuses seq 0 and answers a
-- duplicate with the watermark, both without a change. A frame ahead of a gap is parked once, and
-- refused without a change when the window is full. The next frame is released with the contiguous
-- run of parked frames behind it: the watermark moves to the end of that run, the released payloads
-- are those of the stream in order, and what is parked above it stays.
pub accept-Outcome :
    (f : ℕ → Bytes) (r : Receiver) (seq : ℕ) (payload : Bytes)
    → IsValid r
    → Holds f r
    → IsU64 seq
    → Outcome f r seq payload (accept r seq payload)
unfolding accept
accept-Outcome f r seq payload v h w = elim (Bool-cases (seq == 0)) [
  | inl e ↦ rw (e, accept) (unnumbered (ground arith) refl)
  | inr n ↦ elim (Bool-cases (leb seq r.acked)) [
    | inl e ↦ rw (n, accept, e) (duplicate (ground arith) (ground arith) refl)
    | inr m ↦ elim (Bool-cases (ltb (add64 r.acked 1) seq)) [
      | inl e ↦ rw (n, accept, m, e) (park-Outcome f r seq payload (ground arith))
      | inr l ↦ rw (n, accept, m, l) (release-Outcome f r seq payload v h w (ground arith))
    ]
  ]
]
