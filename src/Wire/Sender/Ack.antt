-- ===== src/Wire/Sender/Ack.antt =====
-- `Ack`: the watermark moves to the clamped value and never back, and exactly the entries that it
-- covers leave the log.
use capri_hub.Common.{
  ℕ, suc, ◌+◌, ◌%◌, ◌^◌, ◌≤◌, min, max, ◌≡◌, refl, sym, ap, inl, inr, List, [], ◌∷◌, length, ltb,
  leb, if◌then◌else◌, Bool-cases, arith,
}
use capri_hub.Common.Words.{sub64}
use capri_hub.Wire.Sender.{Entry, Sender, drop_covered, ack}
use capri_hub.Wire.Sender.Log.{Run, total, IsValid}

-- The entries of a log above a watermark.
abbrev pub above : ℕ → List Entry → List Entry
above n [] = []
above n (e ∷ es) = if leb e.seq n then above n es else e ∷ above n es

pub above_all : (n base : ℕ) (log : List Entry) → Run base log → n ≤ base → above n log ≡ log
above_all n base [] r h = refl
above_all n base (e ∷ es) r h = ground (arith, above_all n (suc base) es r.1)

-- What the loop of `Ack` leaves, with `n` no higher than the last seq of the log.
record Dropped (n base : ℕ) (log : List Entry) (out : List Entry × ℕ) : Type 0 where
  left : out.0 ≡ above n log
  run : Run (max base n) out.0
  size : max base n + length out.0 ≡ base + length log
  counted : out.1 ≡ total out.0 % 2 ^ 64

drop_covered-Dropped :
    (n base : ℕ) (log : List Entry) (bytes : ℕ)
    → Run base log
    → n ≤ base + length log
    → bytes ≡ total log % 2 ^ 64
    → Dropped n base log (drop_covered n log bytes)
unfolding drop_covered
drop_covered-Dropped n base [] bytes r h c = record {
  left = refl;
  run = tt;
  size = omega arith;
  counted = c;
}
drop_covered-Dropped n base (e ∷ es) bytes r h c = elim (Bool-cases (leb e.seq n)) [
  | inl covered ↦
      let rest =
        drop_covered-Dropped n (suc base) es (sub64 bytes (length e.payload)) r.1 (omega arith)
          (omega arith) in
      let same : max (suc base) n ≡ max base n = ground arith in
      rw (covered, drop_covered)
        (record {
          left = rw covered rest.left;
          run = rw same at rest.run;
          size = omega (arith, rest.size, same);
          counted = rest.counted;
        })
  | inr uncovered ↦
      let same : max base n ≡ base = ground arith in
      rw (uncovered, drop_covered)
        (record {
          left = rw uncovered (ap (◌∷◌ e) (sym (above_all n (suc base) es r.1 (ground arith))));
          run = rw same r;
          size = rw same refl;
          counted = c;
        })
]

-- The body of `Ack` on a number that is clamped already.
ack_clamped : Sender → ℕ → Sender
ack_clamped s m =
    let (log, bytes) = drop_covered m s.log s.bytes in
    if leb m s.acked then s else record s { acked = m; log = log; bytes = bytes }

ack_clamped_lem :
    (s : Sender) (m : ℕ)
    → IsValid s
    → m ≤ s.next
    → let s' = ack_clamped s m in
      (s'.acked ≡ max s.acked m) × (s'.log ≡ above s'.acked s.log) × (s'.next ≡ s.next) × IsValid s'
unfolding ack_clamped
ack_clamped_lem s m v h = elim (Bool-cases (leb m s.acked)) [
  | inl old ↦
      rw (old, ack_clamped)
        (ground arith, sym (above_all s.acked v.base s.log v.run v.low), refl, v)
  | inr new ↦
      let d = drop_covered-Dropped m v.base s.log s.bytes v.run (omega (arith, v.top)) v.counted in
      rw (new, ack_clamped)
        (
          ground arith,
          d.left,
          refl,
          record {
            base = max v.base m;
            run = d.run;
            top = omega (arith, d.size, v.top);
            low = omega arith;
            word = v.word;
            counted = d.counted;
          },
        )
]

-- `Ack` clamps the peer's number to the highest seq assigned. The watermark becomes the larger of
-- that and the old one, the log keeps exactly the entries above it, no seq is reassigned, and the
-- log stays valid with its byte count.
pub ack_lem :
    (s : Sender) (n : ℕ)
    → IsValid s
    → let s' = ack s n in
      (s'.acked ≡ max s.acked (min n s.next))
      × (s'.log ≡ above s'.acked s.log)
      × (s'.next ≡ s.next)
      × IsValid s'
unfolding ack ack_clamped
ack_lem s n v = elim (Bool-cases (ltb s.next n)) [
  | inl past ↦
      let same : min n s.next ≡ s.next = ground arith in
      rw (past, ack, same) (ack_clamped_lem s s.next v (omega arith))
  | inr within ↦
      let same : min n s.next ≡ n = ground arith in
      rw (within, ack, same) (ack_clamped_lem s n v (ground arith))
]
