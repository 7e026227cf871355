-- ===== src/Hub/Session/Batches.antt =====
-- `oldestUnacked`: the batch that one retransmission replays.
use capri_hub.Common.{
  ℕ, suc, ◌+◌, ◌<◌, ◌≤◌, ◌≡◌, ◌≢◌, ◌⊎◌, inl, inr, refl, ap, false, ◌&&◌, List, [], ◌∷◌, ltb, leb,
  Bool-cases, length, take, arith,
}
use capri_hub.Wire.Sender.{Entry}
use capri_hub.Wire.Sender.Log.{Run, total}
use capri_hub.Hub.Session.{SessionProto, take_batch, oldest_unacked}
use capri_hub.Hub.Session.Invariant.{IsValid}

few_behind :
    (count most : ℕ) (batch : List Entry)
    → (batch ≡ []) ⊎ (suc count + length batch ≤ most)
    → count < most
    → count + suc (length batch) ≤ most
few_behind count most batch (inl e) h = rw e (omega arith)
few_behind count most batch (inr e) h = omega arith

-- `batch` is a prefix of the log within both bounds, where `count` entries of `bytes` bytes are out.
record Prefix (most most_bytes count bytes : ℕ) (log batch : List Entry) : Type 0 where
  size : ℕ
  cut : batch ≡ take size log
  few : (batch ≡ []) ⊎ (count + length batch ≤ most)
  light : (batch ≡ []) ⊎ ((bytes + total batch ≤ most_bytes) ⊎ (count + length batch ≤ 1))

light_behind :
    (most_bytes count bytes : ℕ) (e : Entry) (batch : List Entry)
    → (ltb 0 count && ltb most_bytes (bytes + length e.payload)) ≡ false
    → (batch ≡ [])
      ⊎ ((bytes + length e.payload + total batch ≤ most_bytes) ⊎ (suc count + length batch ≤ 1))
    → (bytes + total (e ∷ batch) ≤ most_bytes) ⊎ (count + length (e ∷ batch) ≤ 1)
light_behind most_bytes count bytes e batch h (inl none_left) = rw none_left (alone h)
  where
    alone :
        (ltb 0 count && ltb most_bytes (bytes + length e.payload)) ≡ false
        → (bytes + (length e.payload + 0) ≤ most_bytes) ⊎ (count + 1 ≤ 1)
    alone h = elim (Bool-cases (ltb most_bytes (bytes + length e.payload))) [
      | inl e ↦ inr (ground arith)
      | inr e ↦ inl (ground arith)
    ]
light_behind most_bytes count bytes e batch h (inr (inl within)) = inl (omega arith)
light_behind most_bytes count bytes e batch h (inr (inr single)) = inr (omega arith)

take_batch-Prefix :
    (most most_bytes acked count bytes base : ℕ) (log : List Entry)
    → Run base log
    → acked ≤ base
    → Prefix most most_bytes count bytes log (take_batch most most_bytes acked count bytes log)
unfolding take_batch
take_batch-Prefix most most_bytes acked count bytes base [] r h = record {
  size = 0;
  cut = refl;
  few = inl refl;
  light = inl refl;
}
take_batch-Prefix most most_bytes acked count bytes base (e ∷ es) r h =
    let ahead : leb e.seq acked ≡ false = (let s = r.0 in ground arith) in
    elim (Bool-cases (leb most count)) [
      | inl full ↦
          rw (take_batch, ahead, full)
            (record { size = 0; cut = refl; few = inl refl; light = inl refl })
      | inr room ↦ elim (Bool-cases (ltb 0 count && ltb most_bytes (bytes + length e.payload))) [
        | inl heavy ↦
            rw (take_batch, ahead, room, heavy)
              (record { size = 0; cut = refl; few = inl refl; light = inl refl })
        | inr fits ↦
            let rest =
              take_batch-Prefix most most_bytes acked (suc count) (bytes + length e.payload)
                (suc base) es r.1 (omega arith) in
            rw (take_batch, ahead, room, fits)
              (record {
                size = suc rest.size;
                cut = ap (◌∷◌ e) rest.cut;
                few = inr (few_behind count most _ rest.few (ground arith));
                light = inr (light_behind most_bytes count bytes e _ fits rest.light);
              })
      ]
    ]

some_entry :
    (most most_bytes acked base : ℕ) (log : List Entry)
    → Run base log
    → acked ≤ base
    → 0 < most
    → (log ≡ []) ⊎ (take_batch most most_bytes acked 0 0 log ≢ [])
unfolding take_batch
some_entry most most_bytes acked base [] r h m = inl refl
some_entry most most_bytes acked base (e ∷ es) r h m =
    let ahead : leb e.seq acked ≡ false = (let s = r.0 in ground arith) in
    let room : leb most 0 ≡ false = ground arith in rw (take_batch, ahead, room) (inr (λ q. cc))

-- What a retransmission replays on a valid state: the oldest entries of the log, at most `most` of
-- them, of at most `most_bytes` bytes unless it is a single entry, and at least one where the log
-- has one.
pub oldest_unacked_lem :
    (p : SessionProto) (most most_bytes : ℕ)
    → IsValid p
    → 0 < most
    → let batch = oldest_unacked p most most_bytes in
      ((size : ℕ) × (batch ≡ take size p.down.log))
      × (length batch ≤ most)
      × ((total batch ≤ most_bytes) ⊎ (length batch ≤ 1))
      × ((p.down.log ≡ []) ⊎ (batch ≢ []))
oldest_unacked_lem p most most_bytes v h =
    let batch = oldest_unacked p most most_bytes in
    let r =
      take_batch-Prefix most most_bytes p.down.acked 0 0 v.down.base p.down.log v.down.run
        v.down.low in
    (
      (r.size, r.cut),
      few_of batch r.few,
      light_of batch r.light,
      some_entry most most_bytes p.down.acked v.down.base p.down.log v.down.run v.down.low h,
    )
  where
    few_of : (batch : List Entry) → (batch ≡ []) ⊎ (0 + length batch ≤ most) → length batch ≤ most
    few_of batch (inl e) = rw e (omega arith)
    few_of batch (inr e) = omega arith

    light_of :
        (batch : List Entry)
        → (batch ≡ []) ⊎ ((0 + total batch ≤ most_bytes) ⊎ (0 + length batch ≤ 1))
        → (total batch ≤ most_bytes) ⊎ (length batch ≤ 1)
    light_of batch (inl e) = inr (rw e (omega arith))
    light_of batch (inr (inl e)) = inl (omega arith)
    light_of batch (inr (inr e)) = inr (omega arith)
