-- ===== src/Wire/Delivery/Numbering.antt =====
-- The frames of a list of payloads, numbered in order, and the stream that they make up.
use capri_hub.Common.{
  ℕ, zero, suc, ◌+◌, ◌≤◌, ◌≡◌, refl, sym, ap, ◌∙◌, inl, inr, none, some, Option, List, [], ◌∷◌,
  ◌++◌, length, get_elem?, take, drop, take-suc, get_elem?_of_lt, Bool-cases, append_assoc,
  append-nil, leb, arith,
}
use capri_hub.Common.Words.{Bytes}
use capri_hub.Wire.Sender.{Entry}
use capri_hub.Wire.Sender.Log.{Run}
use capri_hub.Wire.Sender.Ack.{above, above_all}
use capri_hub.Wire.Receiver.Drain.{frames}

-- The payloads under the seqs `base + 1`, `base + 2`, and so on.
abbrev pub number : ℕ → List Bytes → List Entry
number base [] = []
number base (p ∷ ps) = record { seq = suc base; payload = p } ∷ number (suc base) ps

abbrev pub or_empty : Option Bytes → Bytes
or_empty none = []
or_empty (some p) = p

-- The payload of frame `k`, for a list of payloads that starts with frame 1.
abbrev pub stream : List Bytes → ℕ → Bytes
stream sent zero = []
stream sent (suc i) = or_empty (get_elem? sent i)

pub number-append :
    (base : ℕ) (ps : List Bytes) (p : Bytes)
    → number base (ps ++ (p ∷ []))
      ≡ number base ps ++ (record { seq = suc (base + length ps); payload = p } ∷ [])
number-append base [] p = ap (λ k. record { seq = suc k; payload = p } ∷ []) (omega arith)
number-append base (q ∷ ps) p = ap (◌∷◌ (record { seq = suc base; payload = q })) (
    number-append (suc base) ps p
    ∙ ap (λ k. number (suc base) ps ++ (record { seq = suc k; payload = p } ∷ [])) (omega arith))

pub length-number : (base : ℕ) (ps : List Bytes) → length (number base ps) ≡ length ps
length-number base [] = refl
length-number base (p ∷ ps) = ap suc (length-number (suc base) ps)

pub number-Run : (base : ℕ) (ps : List Bytes) → Run base (number base ps)
number-Run base [] = tt
number-Run base (p ∷ ps) = (refl, number-Run (suc base) ps)

-- The entries above a watermark are the numbered payloads behind it.
pub above-number :
    (d base : ℕ) (ps : List Bytes)
    → above (base + d) (number base ps) ≡ number (base + d) (drop d ps)
above-number zero base ps =
    above_all (base + 0) base (number base ps) (number-Run base ps) (omega arith)
    ∙ ap (λ k. number k ps) same
  where
    same : base ≡ base + 0
    same = omega arith
above-number (suc d) base [] = refl
above-number (suc d) base (p ∷ ps) = elim (Bool-cases (leb (suc base) (base + suc d))) [
  | inl covered ↦ rw covered (
      ap (λ k. above k (number (suc base) ps)) same
      ∙ above-number d (suc base) ps
      ∙ ap (λ k. number k (drop d ps)) (sym same))
  | inr uncovered ↦ absurd (ground arith)
]
  where
    same : base + suc d ≡ suc base + d
    same = omega arith

pub stream_at :
    (sent : List Bytes) (i : ℕ) (p : Bytes) → get_elem? sent i ≡ some p → stream sent (suc i) ≡ p
stream_at sent i p e = rw e

-- The frames behind a prefix extend it.
pub take-frames :
    (sent : List Bytes) (a n : ℕ)
    → a + n ≤ length sent
    → take a sent ++ frames (stream sent) (suc a) n ≡ take (a + n) sent
take-frames sent a zero h = append-nil (take a sent) ∙ ap (λ k. take k sent) same
  where
    same : a ≡ a + 0
    same = omega arith
take-frames sent a (suc n) h =
    let (p, there) = get_elem?_of_lt a sent (omega arith) in
    ap (λ q. take a sent ++ (q ∷ frames (stream sent) (suc (suc a)) n)) (stream_at sent a p there)
    ∙ sym (append_assoc (take a sent) (p ∷ []) (frames (stream sent) (suc (suc a)) n))
    ∙ ap (λ l. l ++ frames (stream sent) (suc (suc a)) n) (sym (take-suc a sent p there))
    ∙ take-frames sent (suc a) n (omega arith)
    ∙ ap (λ k. take k sent) same
  where
    same : suc a + n ≡ a + suc n
    same = omega arith
