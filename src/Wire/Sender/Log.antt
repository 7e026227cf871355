-- ===== src/Wire/Sender/Log.antt =====
-- The unacked log: a gapless run of seqs that ends at `next`, with its payload size. `Append` and
-- `AppendAt` extend it.
use capri_hub.Common.{
  ℕ, suc, ◌+◌, ◌%◌, ◌^◌, ◌≤◌, ◌<◌, ◌≡◌, refl, ◌≢◌, ◌⊎◌, inl, inr, none, List, [], ◌∷◌, ◌++◌, length,
  length-append, true, ◌==◌, Bool-cases, arith,
}
use capri_hub.Common.Words.{Bytes, IsU64, add64, sub64}
use capri_hub.Wire.Sender.{Entry, Sender, new_sender, append_entry, append, append_at}

-- The seqs of the log are `base + 1`, `base + 2`, and so on.
abbrev pub Run : ℕ → List Entry → Type 0
Run base [] = Unit {0}
Run base (e ∷ es) = (e.seq ≡ suc base) × Run (suc base) es

-- The payload size of a log.
abbrev pub total : List Entry → ℕ
total [] = 0
total (e ∷ es) = length e.payload + total es

pub total-append : (xs ys : List Entry) → total (xs ++ ys) ≡ total xs + total ys
total-append [] ys = omega arith
total-append (e ∷ xs) ys = omega (arith, total-append xs ys)

pub Run-append :
    (base : ℕ) (log : List Entry) (e : Entry)
    → Run base log
    → e.seq ≡ suc (base + length log)
    → Run base (log ++ (e ∷ []))
Run-append base [] e r h = (omega arith, tt)
Run-append base (x ∷ log) e r h = (r.0, Run-append (suc base) log e r.1 (omega arith))

nil_of_length : (log : List Entry) → length log ≤ 0 → log ≡ []
nil_of_length [] h = refl
nil_of_length (e ∷ log) h = absurd (omega arith)

-- `base` is the seq before the oldest entry. It lies above the watermark only behind `AppendAt` on
-- a fresh sender.
pub record IsValid (s : Sender) : Type 0 where
  pub base : ℕ
  pub run : Run base s.log
  pub top : base + length s.log ≡ s.next
  pub low : s.acked ≤ base
  pub word : IsU64 s.next
  pub counted : s.bytes ≡ total s.log % 2 ^ 64

pub new_sender-IsValid : (acked : ℕ) → IsU64 acked → IsValid (new_sender acked)
unfolding new_sender
new_sender-IsValid acked w = record {
  base = acked;
  run = tt;
  top = omega arith;
  low = omega arith;
  word = w;
  counted = refl;
}

extend-IsValid :
    (s : Sender) (seq : ℕ) (payload : Bytes)
    → IsValid s
    → seq ≡ s.next + 1
    → IsU64 seq
    → IsValid (append_entry s seq payload)
unfolding append_entry
extend-IsValid s seq payload v e w = record {
  base = v.base;
  run = Run-append v.base s.log new v.run (omega (arith, v.top));
  top = omega (arith, length-append s.log (new ∷ []), v.top);
  low = v.low;
  word = w;
  counted = omega (arith, total-append s.log (new ∷ []), v.counted);
}
  where
    new : Entry
    new = record { seq = seq; payload = payload }

-- While seqs are left, `Append` returns the seq after the highest one assigned, keeps the
-- watermark, logs the payload under that seq behind the older entries, and keeps the log valid.
pub append_lem :
    (s : Sender) (payload : Bytes)
    → IsValid s
    → s.next + 1 < 2 ^ 64
    → let (s', seq) = append s payload in
      (seq ≡ s.next + 1)
      × (s'.next ≡ seq)
      × (s'.acked ≡ s.acked)
      × (s'.log ≡ s.log ++ (record { seq = seq; payload = payload } ∷ []))
      × IsValid s'
unfolding append
append_lem s payload v room =
    let fits : add64 s.next 1 ≡ s.next + 1 = omega arith in
    rw (fits, append) (refl, refl, refl, refl, extend-IsValid s (s.next + 1) payload v refl room)

-- The baseline that `AppendAt` sets on a sender that assigned no seq.
abbrev rebased : Sender → ℕ → Sender
rebased s seq = record s { next = sub64 seq 1 }

rebased-IsValid :
    (s : Sender) (seq : ℕ) → IsValid s → s.next ≡ 0 → 0 < seq → IsU64 seq → IsValid (rebased s seq)
rebased-IsValid s seq v e p w =
    let empty = nil_of_length s.log (omega (arith, v.top)) in
    record {
      base = sub64 seq 1;
      run = rw empty tt;
      top = rw empty (omega arith);
      low = omega (arith, v.low, v.top);
      word = omega arith;
      counted = v.counted;
    }

-- `AppendAt` either logs the payload under the seq, behind the older entries, or is refused and
-- changes nothing. It is refused for seq 0 and, once a seq was assigned, for any seq but the next;
-- it takes any other seq.
pub append_at_lem :
    (s : Sender) (seq : ℕ) (payload : Bytes)
    → IsValid s
    → IsU64 seq
    → let (s', err) = append_at s seq payload in
      IsValid s'
      × ((err ≡ none)
            × (0 < seq)
            × ((s.next ≡ 0) ⊎ (seq ≡ s.next + 1))
            × (s'.next ≡ seq)
            × (s'.log ≡ s.log ++ (record { seq = seq; payload = payload } ∷ []))
          ⊎ (err ≢ none) × (s' ≡ s) × ((seq ≡ 0) ⊎ (s.next ≢ 0) × (seq ≢ s.next + 1)))
unfolding append_at
append_at_lem s seq payload v w = elim (Bool-cases (seq == 0)) [
  | inl e ↦ rw (e, append_at) (v, inr (λ q. cc, refl, inl (ground arith)))
  | inr n ↦ elim (Bool-cases (s.next == 0)) [
    | inl z ↦
        let valid = rebased-IsValid s seq v (ground arith) (ground arith) w in
        let same : (seq == add64 (sub64 seq 1) 1) ≡ true = ground arith in
        rw (n, append_at, z, same)
          (
            extend-IsValid (rebased s seq) seq payload valid (ground arith) w,
            inl (refl, ground arith, inl (ground arith), refl, refl),
          )
    | inr nz ↦ elim (Bool-cases (seq == add64 s.next 1)) [
      | inl same ↦
          rw (n, append_at, nz, same)
            (
              extend-IsValid s seq payload v (ground arith) w,
              inl (refl, ground arith, inr (ground arith), refl, refl),
            )
      | inr other ↦
          rw (n, append_at, nz, other)
            (v, inr (λ q. cc, refl, inr (λ q. ground arith, λ q. ground arith)))
    ]
  ]
]
