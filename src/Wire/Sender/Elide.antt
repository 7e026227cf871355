-- ===== src/Wire/Sender/Elide.antt =====
-- `ElideFrom` and `Elide`: one payload is replaced, and no seq changes.
use native.Mathlib.Decide.{dec_le}
use capri_hub.Common.{
  ℕ, zero, suc, ◌+◌, ◌≤◌, ◌<◌, ◌≡◌, ◌≢◌, ◌⊎◌, refl, ap, inl, inr, none, some, List, [], ◌∷◌, length,
  get_elem?, ◌==◌, if◌then◌else◌, Bool-cases, Option, Bool, true, false, arith,
}
use capri_hub.Common.Int.{ℤ, pos, is_neg, pos_part}
use capri_hub.Common.Words.{Bytes}
use capri_hub.Wire.Sender.{Entry, Sender, behind, write_back, elide_loop, elide_from, elide}
use capri_hub.Wire.Sender.Log.{Run, total, IsValid}

-- `log'` is `log` with the payload of the entry `seq`, at index `i`, replaced by `new`.
pub record Replaced (base : ℕ) (log : List Entry) (seq : ℕ) (new : Bytes) (i old : ℕ)
    (log' : List Entry) : Type 0 where
  pub index : base + suc i ≡ seq
  pub inside : i < length log
  pub placed : get_elem? log' i ≡ some (record { seq = seq; payload = new })
  pub others : (j : ℕ) → j ≢ i → get_elem? log' j ≡ get_elem? log j
  pub run : Run base log'
  pub size : length log' ≡ length log
  pub weight : total log' + old ≡ total log + length new

-- What the loop finds from index `start` on.
abbrev Found : ℕ → ℕ → List Entry → ℕ → Bytes → Option (ℕ × ℕ × List Entry) → Type 0
Found start base log seq new none = (seq ≤ base + start) ⊎ (base + length log < seq)
Found start base log seq new (some (i, old, log')) =
    (start ≤ i) × Replaced base log seq new i old log'

Replaced-behind :
    (base : ℕ) (e : Entry) (es : List Entry) (seq : ℕ) (new : Bytes) (i old : ℕ) (log' : List Entry)
    → e.seq ≡ suc base
    → Replaced (suc base) es seq new i old log'
    → Replaced base (e ∷ es) seq new (suc i) old (e ∷ log')
Replaced-behind base e es seq new i old log' h r = record {
  index = omega (arith, r.index);
  inside = omega (arith, r.inside);
  placed = r.placed;
  others = others-behind;
  run = (h, r.run);
  size = ap suc r.size;
  weight = omega (arith, r.weight);
}
  where
    others-behind : (j : ℕ) → j ≢ suc i → get_elem? (e ∷ log') j ≡ get_elem? (e ∷ es) j
    others-behind zero p = refl
    others-behind (suc j) p = r.others j (λ q. p (ap suc q))

behind-Found :
    (start start' base : ℕ) (e : Entry) (es : List Entry) (seq : ℕ) (new : Bytes)
    (out : Option (ℕ × ℕ × List Entry))
    → e.seq ≡ suc base
    → start' ≤ suc start
    → ((seq ≤ suc base + start) → seq ≤ base + start')
    → Found start (suc base) es seq new out
    → Found start' base (e ∷ es) seq new (behind e out)
behind-Found start start' base e es seq new none h le down (inl low) = inl (down low)
behind-Found start start' base e es seq new none h le down (inr high) = inr (omega arith)
behind-Found start start' base e es seq new (some (i, old, log')) h le down (from, r) =
    (omega arith, Replaced-behind base e es seq new i old log' h r)

hit :
    (base : ℕ) (e : Entry) (es : List Entry) (seq : ℕ) (new : Bytes)
    → e.seq ≡ suc base
    → e.seq ≡ seq
    → Run (suc base) es
    → Replaced base (e ∷ es) seq new 0 (length e.payload) (record e { payload = new } ∷ es)
hit base e es seq new h same r = record {
  index = omega arith;
  inside = omega arith;
  placed = ap (λ k. some (record { seq = k; payload = new })) same;
  others = elsewhere;
  run = (h, r);
  size = refl;
  weight = omega arith;
}
  where
    elsewhere :
        (j : ℕ) → j ≢ 0 → get_elem? (record e { payload = new } ∷ es) j ≡ get_elem? (e ∷ es) j
    elsewhere zero p = absurd (p refl)
    elsewhere (suc j) p = refl

elide_loop-Found :
    (start base : ℕ) (log : List Entry) (seq : ℕ) (new : Bytes)
    → Run base log
    → Found start base log seq new (elide_loop start log seq new)
unfolding elide_loop
elide_loop-Found start base [] seq new r = elim (dec_le seq (base + start)) [
  | yes low ↦ inl low
  | no high ↦ inr (omega arith)
]
elide_loop-Found (suc start) base (e ∷ es) seq new r =
    behind-Found start (suc start) base e es seq new _ r.0 (omega arith) (λ low. omega arith)
      (elide_loop-Found start (suc base) es seq new r.1)
elide_loop-Found zero base (e ∷ es) seq new r = elim (Bool-cases (e.seq == seq)) [
  | inl here ↦ rw (here, elide_loop) (omega arith, hit base e es seq new r.0 (ground arith) r.1)
  | inr other ↦
      rw (other, elide_loop)
        (behind-Found zero zero base e es seq new _ r.0 (omega arith) (λ low. ground arith)
          (elide_loop-Found zero (suc base) es seq new r.1))
]

-- The index at which the scan of `ElideFrom` starts.
abbrev pub scan_start : ℤ → ℕ
scan_start start = if is_neg start then 0 else pos_part start

-- What `ElideFrom` returns: an error only where no entry from index `start` on has that seq, with
-- nothing changed; else the entry's index, and the sender with that one payload replaced.
abbrev pub Elided : Sender → ℤ → ℕ → Bytes → Sender × Option ℕ → Type 0
Elided s start seq new (s', none) =
    (s' ≡ s)
    × ((j : ℕ) (e : Entry) → scan_start start ≤ j → get_elem? s.log j ≡ some e → e.seq ≢ seq)
Elided s start seq new (s', some i) =
    (scan_start start ≤ i)
    × (get_elem? s'.log i ≡ some (record { seq = seq; payload = new }))
    × ((j : ℕ) → j ≢ i → get_elem? s'.log j ≡ get_elem? s.log j)
    × (length s'.log ≡ length s.log)
    × (s'.next ≡ s.next)
    × (s'.acked ≡ s.acked)

seq_at :
    (base : ℕ) (log : List Entry) (j : ℕ) (e : Entry)
    → Run base log
    → get_elem? log j ≡ some e
    → (e.seq ≡ base + suc j) × (j < length log)
seq_at base [] j e r h = cc
seq_at base (x ∷ log) zero e r h = ground arith
seq_at base (x ∷ log) (suc j) e r h = let rest = seq_at (suc base) log j e r.1 h in omega arith

write_back-Elided :
    (s : Sender) (start : ℤ) (seq : ℕ) (new : Bytes) (out : Option (ℕ × ℕ × List Entry))
    → (v : IsValid s) → Found (scan_start start) v.base s.log seq new out
    → Elided s start seq new (write_back s new out) × IsValid (write_back s new out).0
write_back-Elided s start seq new none v (inl low) =
    ((refl, λ j e from there same. absurd (omega (arith, seq_at v.base s.log j e v.run there))), v)
write_back-Elided s start seq new none v (inr high) =
    ((refl, λ j e from there same. absurd (omega (arith, seq_at v.base s.log j e v.run there))), v)
write_back-Elided s start seq new (some (i, old, log')) v (from, r) = (
  (from, r.placed, r.others, r.size, refl, refl),
  record {
    base = v.base;
    run = r.run;
    top = omega (arith, r.size, v.top);
    low = v.low;
    word = v.word;
    counted = omega (arith, r.weight, v.counted);
  },
)

-- `ElideFrom` replaces nothing but the payload of the seq, and reports the index of its entry; the
-- seqs, the watermark and the log's validity with its byte count stay. It fails, without a change,
-- only where no entry from the start of the scan on has the seq. A start below 0 is 0.
pub elide_from_lem :
    (s : Sender) (start : ℤ) (seq : ℕ) (new : Bytes)
    → IsValid s
    → Elided s start seq new (elide_from s start seq new) × IsValid (elide_from s start seq new).0
unfolding elide_from
elide_from_lem s start seq new v =
    write_back-Elided s start seq new _ v
      (elide_loop-Found (scan_start start) v.base s.log seq new v.run)

-- `Elide` changes no seq, keeps the watermark and keeps the log valid.
pub elide-IsValid :
    (s : Sender) (seq : ℕ) (new : Bytes)
    → IsValid s
    → let (s', found) = elide s seq new in IsValid s' × (s'.next ≡ s.next) × (s'.acked ≡ s.acked)
unfolding elide
elide-IsValid s seq new v =
    found_or_not (elide_from s (pos 0) seq new) (elide_from_lem s (pos 0) seq new v)
  where
    found_or_not :
        (out : Sender × Option ℕ)
        → Elided s (pos 0) seq new out × IsValid out.0
        → let s' =
            (elim out.1 as (λ o. Sender × Bool) [
              | none ↦ (out.0, false)
              | some i ↦ (out.0, true)
            ]).0 in
          IsValid s' × (s'.next ≡ s.next) × (s'.acked ≡ s.acked)
    found_or_not (s', none) (e, w) = (w, ap (λ x. x.next) e.0, ap (λ x. x.acked) e.0)
    found_or_not (s', some i) (e, w) = (w, e.4, e.5)

-- The log of `s'` is that of `s` with one payload exchanged, that of the entry `seq`.
abbrev pub Exchanged : Sender → ℕ → Bytes → Sender → Type 0
Exchanged s seq new s' =
    (i : ℕ) × (get_elem? s'.log i ≡ some (record { seq = seq; payload = new }))
    × ((j : ℕ) → j ≢ i → get_elem? s'.log j ≡ get_elem? s.log j)
    × (length s'.log ≡ length s.log)

-- `Elide` exchanges the payload of the entry, or finds none and changes nothing.
pub elide_lem :
    (s : Sender) (seq : ℕ) (new : Bytes)
    → IsValid s
    → let (s', found) = elide s seq new in
      (found ≡ false) × (s' ≡ s) ⊎ (found ≡ true) × Exchanged s seq new s'
unfolding elide
elide_lem s seq new v =
    found_or_not (elide_from s (pos 0) seq new) (elide_from_lem s (pos 0) seq new v).0
  where
    found_or_not :
        (out : Sender × Option ℕ)
        → Elided s (pos 0) seq new out
        → let (s', found) = elim out.1 as (λ o. Sender × Bool) [
          | none ↦ (out.0, false)
          | some i ↦ (out.0, true)
        ] in
          (found ≡ false) × (s' ≡ s) ⊎ (found ≡ true) × Exchanged s seq new s'
    found_or_not (s', none) e = inl (refl, e.0)
    found_or_not (s', some i) e = inr (refl, (i, e.1, e.2, e.3))
