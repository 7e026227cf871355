-- ===== src/Hub/Session/Invariant.antt =====
-- The invariant of `sessionProto`, and how the operations on the down log keep it.
use capri_hub.Common.{
  ℕ, ◌<◌, ◌≤◌, max, min, ◌≡◌, ◌≢◌, ◌⊎◌, inl, inr, refl, ◌∙◌, ap, true, false, not, ◌&&◌, none, some,
  List, [], ◌∷◌, ltb, leb, ◌==◌, if◌then◌else◌, Bool-cases, All, arith,
}
use capri_hub.Common.Assoc.{lookup}
use capri_hub.Common.Int.{ℤ}
use capri_hub.Wire.Limits.{Liveness}
use capri_hub.Wire.Sender.{Sender, ack}
use capri_hub.Wire.Sender.Log
use capri_hub.Wire.Sender.Log.{append_lem}
use capri_hub.Wire.Sender.Ack.{ack_lem}
use capri_hub.Hub.Session.{
  ReqAck, SessionProto, new_session_proto, uncovered, settle_audience, ack_down,
}

-- A number above the watermark that was assigned.
abbrev pub InFlight : Sender → ℕ → Type 0
InFlight s seq = (s.acked < seq) × (seq ≤ s.next)

abbrev pub Tracked : Sender → ℕ × ReqAck → Type 0
Tracked s (seq, ra) = InFlight s seq

-- The down log is valid; each outstanding request, and the audience frame if there is one, has the
-- number of a frame that is not acknowledged; no frame carries a generation above the latest.
pub record IsValid (p : SessionProto) : Type 0 where
  pub down : Log.IsValid p.down
  pub tracked : All (Tracked p.down) p.req_acks
  pub audience : (p.audience_seq ≡ 0) ⊎ InFlight p.down p.audience_seq
  pub newest : p.audience_gen ≤ p.audience_latest.gen

-- The requests that are left are above the watermark.
uncovered-Tracked :
    (s s' : Sender) (m : List (ℕ × ReqAck))
    → s'.next ≡ s.next
    → All (Tracked s) m
    → All (Tracked s') (uncovered s'.acked m)
unfolding uncovered
uncovered-Tracked s s' [] e a = tt
uncovered-Tracked s s' ((seq, ra) ∷ m) e a = elim (Bool-cases (leb seq s'.acked)) [
  | inl covered ↦ rw (covered, uncovered) (uncovered-Tracked s s' m e a.1)
  | inr above ↦ rw (above, uncovered) ((ground arith, omega arith), uncovered-Tracked s s' m e a.1)
]

lookup-uncovered :
    (applied k : ℕ) (m : List (ℕ × ReqAck))
    → lookup k (uncovered applied m) ≡ (if leb k applied then none else lookup k m)
unfolding uncovered
lookup-uncovered applied k [] = ground arith
lookup-uncovered applied k ((seq, ra) ∷ m) = ground (arith, lookup-uncovered applied k m)

settle_audience-IsValid :
    (q : SessionProto) (s : Sender)
    → Log.IsValid q.down
    → All (Tracked q.down) q.req_acks
    → q.down.next ≡ s.next
    → (q.audience_seq ≡ 0) ⊎ InFlight s q.audience_seq
    → q.audience_gen ≤ q.audience_latest.gen
    → IsValid (settle_audience q.down.acked q)
unfolding settle_audience
settle_audience-IsValid q s down tracked next audience newest =
    elim (Bool-cases (not (q.audience_seq == 0) && leb q.audience_seq q.down.acked)) [
      | inl covered ↦
          rw (covered, settle_audience)
            (record { down = down; tracked = tracked; audience = inl refl; newest = omega arith })
      | inr other ↦
          rw (other, settle_audience)
            (record {
              down = down;
              tracked = tracked;
              audience = above_or_none q s next audience other;
              newest = newest;
            })
    ]
  where
    above_or_none :
        (q : SessionProto) (s : Sender)
        → q.down.next ≡ s.next
        → (q.audience_seq ≡ 0) ⊎ InFlight s q.audience_seq
        → (not (q.audience_seq == 0) && leb q.audience_seq q.down.acked) ≡ false
        → (q.audience_seq ≡ 0) ⊎ InFlight q.down q.audience_seq
    above_or_none q s next (inl z) h = inl z
    above_or_none q s next (inr (low, high)) h = inr (ground arith)

settle_audience-other :
    (applied : ℕ) (q : SessionProto)
    → ((settle_audience applied q).down ≡ q.down)
      × ((settle_audience applied q).req_acks ≡ q.req_acks)
unfolding settle_audience
settle_audience-other applied q =
    elim (Bool-cases (not (q.audience_seq == 0) && leb q.audience_seq applied)) [
      | inl covered ↦ rw (covered, settle_audience) (refl, refl)
      | inr other ↦ rw (other, settle_audience) (refl, refl)
    ]

-- `ackDown` on a valid state: the watermark in force is the larger of the old one and the peer's
-- number, clamped to the highest number assigned; the requests that it covers, and no others, are
-- forgotten; and the state stays valid, so the audience frame is forgotten where it is covered.
pub ack_down_lem :
    (p : SessionProto) (n : ℕ)
    → IsValid p
    → let (p', applied) = ack_down p n in
      (applied ≡ max p.down.acked (min n p.down.next))
      × (p'.down.acked ≡ applied)
      × ((k : ℕ) → lookup k p'.req_acks ≡ (if leb k applied then none else lookup k p.req_acks))
      × IsValid p'
unfolding ack_down
ack_down_lem p n v =
    let (watermark, log, next, valid) = ack_lem p.down n v.down in
    let applied = (ack p.down n).acked in
    let q : SessionProto = record p {
      down = ack p.down n;
      req_acks = uncovered applied p.req_acks;
    } in
    let other = settle_audience-other applied q in
    (
      watermark,
      ap (λ s. s.acked) other.0,
      λ k. ap (lookup k) other.1 ∙ lookup-uncovered applied k p.req_acks,
      settle_audience-IsValid q p.down valid
          (uncovered-Tracked p.down (ack p.down n) p.req_acks next v.tracked) next v.audience
          v.newest,
    )

-- Where an acknowledgement covers the audience frame, but its newest generation was not yet
-- written, the latest snapshot is queued to be sent again.
ack_down_resend :
    (p : SessionProto) (n : ℕ)
    → IsValid p
    → p.audience_seq ≢ 0
    → p.audience_seq ≤ n
    → p.audience_sent_gen < p.audience_gen
    → (ack_down p n).0.audience_resend ≡ some p.audience_latest
unfolding ack_down settle_audience
ack_down_resend p n v some_frame covered unwritten =
    let (watermark, log, next, valid) = ack_lem p.down n v.down in
    let test : (not (p.audience_seq == 0) && leb p.audience_seq (ack p.down n).acked) ≡ true =
      covered_test p.audience_seq (ack p.down n).acked some_frame (reached v.audience watermark) in
    let newer : ltb p.audience_sent_gen p.audience_gen ≡ true = ground arith in
    rw (settle_audience, test, newer) refl
  where
    covered_test :
        (seq applied : ℕ) → seq ≢ 0 → seq ≤ applied → (not (seq == 0) && leb seq applied) ≡ true
    covered_test seq applied a b = ground arith

    reached :
        (p.audience_seq ≡ 0) ⊎ InFlight p.down p.audience_seq
        → (ack p.down n).acked ≡ max p.down.acked (min n p.down.next)
        → p.audience_seq ≤ (ack p.down n).acked
    reached (inl z) e = absurd (some_frame z)
    reached (inr (low, high)) e = omega arith

-- A new sequence space is valid.
pub new_session_proto-IsValid :
    (liveness : Liveness) (epoch up_acked : ℕ) (window : ℤ)
    → IsValid (new_session_proto liveness epoch up_acked window)
unfolding new_session_proto
new_session_proto-IsValid liveness epoch up_acked window = record {
  down = Log.new_sender-IsValid 0 (omega arith);
  tracked = tt;
  audience = inl refl;
  newest = omega arith;
}
