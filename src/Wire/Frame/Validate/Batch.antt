-- ===== src/Wire/Frame/Validate/Batch.antt =====
-- What `ValidateEvents` lets pass.
use capri_hub.Common.{
  ℕ, zero, suc, ◌≡◌, ◌≢◌, ◌↔◌, refl, sym, ◌∙◌, ap, false, not, Option, none, some, List, [], ◌∷◌,
  ◌+◌, ◌<◌, ◌^◌, ◌==◌, ==_iff, if◌then◌else◌, guard-none, length, get_elem?, arith,
}
use capri_hub.Common.Words.{Bytes, add64}
use capri_hub.Wire.Limits.{FrameError, protocol, unreadable}
use capri_hub.Wire.Frame.{Frame, Json}
use capri_hub.Wire.Frame.Validate.{check_events, validate_events}

module _ (json : Json) where
  -- Each event carries the number of its place in the run that starts at `seq`.
  abbrev pub InRun : ℕ → List Bytes → Type 0
  InRun seq [] = Unit {0}
  InRun seq (raw ∷ raws) = (json.event_seq raw ≡ some seq) × InRun (add64 seq 1) raws

  event_pass :
      (seq : ℕ) (o : Option ℕ) (rest : Option FrameError)
      → elim o [
        | none ↦ some unreadable
        | some n ↦ if not (n == seq) then some unreadable else rest
      ]
        ≡ none
      → (o ≡ some seq) × (rest ≡ none)
  event_pass seq none rest h = absurd (ground arith)
  event_pass seq (some n) rest h =
      let (same, h') = guard-none (not (n == seq)) unreadable rest h in (ap some (ground arith), h')

  events_pass : (seq : ℕ) (raws : List Bytes) → check_events json seq raws ≡ none → InRun seq raws
  unfolding check_events
  events_pass seq [] h = tt
  events_pass seq (raw ∷ raws) h =
      let (e, rest) =
        event_pass seq (json.event_seq raw) (check_events json (add64 seq 1) raws) h in
      (e, events_pass (add64 seq 1) raws rest)

  pass_events : (seq : ℕ) (raws : List Bytes) → InRun seq raws → check_events json seq raws ≡ none
  unfolding check_events
  pass_events seq [] r = refl
  pass_events seq (raw ∷ raws) r =
      rw (r.0, check_events, (==_iff seq seq).1 refl) (pass_events (add64 seq 1) raws r.1)

  -- `ValidateEvents` passes exactly a non-empty batch whose events carry, in order, the numbers of
  -- a run that starts at the number of the frame.
  pub validate_events-none :
      (f : Frame) → (validate_events json f ≡ none) ↔ ((f.events ≢ []) × InRun f.seq f.events)
  unfolding validate_events
  validate_events-none f = batch f.events f.seq
    where
      batch :
          (raws : List Bytes) (seq : ℕ)
          → ((if length raws == 0 then some protocol else check_events json seq raws) ≡ none)
            ↔ ((raws ≢ []) × InRun seq raws)
      batch [] seq = (λ h. absurd (ground arith), λ h. absurd (h.0 refl))
      batch (raw ∷ raws) seq =
          let some_event : (length (raw ∷ raws) == 0) ≡ false = ground arith in
          (
            λ h. (λ e. cc, events_pass seq (raw ∷ raws) (rw some_event at h)),
            λ h. rw some_event (pass_events seq (raw ∷ raws) h.1),
          )

-- The numbers of a run that does not wrap.
pub InRun-at :
    (json : Json) (seq : ℕ) (raws : List Bytes) (i : ℕ) (raw : Bytes)
    → InRun json seq raws
    → get_elem? raws i ≡ some raw
    → seq + i < 2 ^ 64
    → json.event_seq raw ≡ some (seq + i)
InRun-at json seq [] i raw r e b = absurd (ground arith)
InRun-at json seq (x ∷ xs) zero raw r e b =
    let same : x ≡ raw = cc in ap json.event_seq (sym same) ∙ r.0 ∙ ap some (omega arith)
InRun-at json seq (x ∷ xs) (suc i) raw r e b =
    let same : add64 seq 1 + i ≡ seq + suc i = omega arith in
    InRun-at json (add64 seq 1) xs i raw r.1 e (omega (arith, same)) ∙ ap some same
