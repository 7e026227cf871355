-- ===== src/Wire/Frame/Validate/Shape.antt =====
-- Which fields a frame of each type may carry: the checks of `validate` in front of its `switch`.
use capri_hub.Common.{
  ℕ, ◌≡◌, ◌≢◌, ◌⊎◌, ◌↔◌, inl, inr, refl, Bool, true, false, not, ◌&&◌, ◌||◌, none, List, [], ◌∷◌,
  ltb, ◌==◌, length, All, Bool-cases, guard-none, arith,
}
use capri_hub.Common.Words.{Bytes}
use capri_hub.Common.Text.{bytes_eq, bytes_eq_iff}
use capri_hub.Wire.Frame.{
  Frame, RelayAck, type_hello, type_hello_ack, type_respond, type_heartbeat, reliable, known_type,
}
use capri_hub.Wire.Frame.Validate.{validate_relay_acks, validate_shape}
use capri_hub.Wire.Frame.Validate.Audiences.{NonEmpty, no_text-NonEmpty, passed_test}

-- A relay acknowledgement names its request, and does not say both that it is done and that it is
-- given up.
abbrev pub IsRelayAck : RelayAck → Type 0
IsRelayAck a = NonEmpty a.req_id × ((a.done ≡ false) ⊎ (a.abort ≡ false))

pub record IsShaped (f : Frame) : Type 0 where
  pub known : known_type f.type ≡ true
  pub numbered : (reliable f.type ≡ true) ↔ (f.seq ≢ 0)
  pub epoch : (f.type ≡ type_hello) ⊎ (f.type ≡ type_hello_ack) ⊎ (f.epoch ≡ 0)
  pub hub_boot : (f.type ≡ type_hello_ack) ⊎ (f.hub_boot ≡ 0)
  pub probes : (f.type ≡ type_heartbeat) ⊎ (f.probe ≡ 0) × (f.probe_ack ≡ 0)
  pub chunk_seq : (f.type ≡ type_respond) ⊎ (f.chunk_seq ≡ 0)
  pub relayed : (f.type ≡ type_heartbeat) ⊎ (f.type ≡ type_hello_ack) ⊎ (f.relay_acks ≡ [])
  pub relay_acks : All IsRelayAck f.relay_acks

numbered_lem :
    (every : Bool) (seq : ℕ)
    → (every && (seq == 0)) ≡ false
    → (not every && not (seq == 0)) ≡ false
    → (every ≡ true) ↔ (seq ≢ 0)
numbered_lem true seq h h' = (λ e z. ground arith, λ n. refl)
numbered_lem false seq h h' = (λ e. absurd (ground arith), λ n. absurd (n (ground arith)))

zero_of_test : (n : ℕ) → not (n == 0) ≡ false → n ≡ 0
zero_of_test n h = ground arith

none_of_test : (acks : List RelayAck) → ltb 0 (length acks) ≡ false → acks ≡ []
none_of_test [] h = refl
none_of_test (a ∷ acks) h = absurd (ground arith)

pub neither : (b c : Bool) → (b || c) ≡ false → (b ≡ false) × (c ≡ false)
neither true c h = cc
neither false c h = (refl, h)

-- A test that only other types have to pass.
but_for_type :
    (s t : Bytes) (test : Bool) → (not (bytes_eq s t) && test) ≡ false → (s ≡ t) ⊎ (test ≡ false)
but_for_type s t test h = elim (Bool-cases (bytes_eq s t)) [
  | inl same ↦ inl ((bytes_eq_iff s t).0 same)
  | inr other ↦ inr (rw other at h)
]

not_both : (b c : Bool) → (b && c) ≡ false → (b ≡ false) ⊎ (c ≡ false)
not_both true c h = inr h
not_both false c h = inl refl

relay_acks_lem : (acks : List RelayAck) → validate_relay_acks acks ≡ none → All IsRelayAck acks
unfolding validate_relay_acks
relay_acks_lem [] h = tt
relay_acks_lem (a ∷ acks) h =
    let (named, h₁) = guard-none _ _ _ h in
    let (apart, rest) = guard-none _ _ _ h₁ in
    ((no_text-NonEmpty a.req_id named, not_both a.done a.abort apart), relay_acks_lem acks rest)

epoch_lem :
    (s : Bytes) (n : ℕ)
    → (not (bytes_eq s type_hello) && not (bytes_eq s type_hello_ack) && not (n == 0)) ≡ false
    → (s ≡ type_hello) ⊎ (s ≡ type_hello_ack) ⊎ (n ≡ 0)
epoch_lem s n h = elim (Bool-cases (bytes_eq s type_hello)) [
  | inl e ↦ inl ((bytes_eq_iff s type_hello).0 e)
  | inr other ↦ elim (but_for_type s type_hello_ack _ (rw other at h)) [
    | inl e ↦ inr (inl e)
    | inr z ↦ inr (inr (zero_of_test n z))
  ]
]

relayed_lem :
    (s : Bytes) (acks : List RelayAck)
    → (not (bytes_eq s type_heartbeat) && not (bytes_eq s type_hello_ack) && ltb 0 (length acks))
      ≡ false
    → (s ≡ type_heartbeat) ⊎ (s ≡ type_hello_ack) ⊎ (acks ≡ [])
relayed_lem s acks h = elim (Bool-cases (bytes_eq s type_heartbeat)) [
  | inl e ↦ inl ((bytes_eq_iff s type_heartbeat).0 e)
  | inr other ↦ elim (but_for_type s type_hello_ack _ (rw other at h)) [
    | inl e ↦ inr (inl e)
    | inr z ↦ inr (inr (none_of_test acks z))
  ]
]

unnumbered_lem :
    (s t : Bytes) (n : ℕ) → (not (bytes_eq s t) && not (n == 0)) ≡ false → (s ≡ t) ⊎ (n ≡ 0)
unnumbered_lem s t n h = elim (but_for_type s t _ h) [
  | inl e ↦ inl e
  | inr z ↦ inr (zero_of_test n z)
]

probes_lem :
    (s : Bytes) (m n : ℕ)
    → (not (bytes_eq s type_heartbeat) && (not (m == 0) || not (n == 0))) ≡ false
    → (s ≡ type_heartbeat) ⊎ (m ≡ 0) × (n ≡ 0)
probes_lem s m n h = elim (but_for_type s type_heartbeat _ h) [
  | inl e ↦ inl e
  | inr z ↦ let (first, second) = neither _ _ z in inr (zero_of_test m first, zero_of_test n second)
]

pub validate_shape-IsShaped : (f : Frame) → validate_shape f ≡ none → IsShaped f
unfolding validate_shape
validate_shape-IsShaped f h =
    let (known, h₁) = guard-none _ _ _ h in
    let (has_seq, h₂) = guard-none _ _ _ h₁ in
    let (no_seq, h₃) = guard-none _ _ _ h₂ in
    let (epoch, h₄) = guard-none _ _ _ h₃ in
    let (hub_boot, h₅) = guard-none _ _ _ h₄ in
    let (probes, h₆) = guard-none _ _ _ h₅ in
    let (chunk_seq, h₇) = guard-none _ _ _ h₆ in
    let (relayed, acks) = guard-none _ _ _ h₇ in
    record {
      known = passed_test (known_type f.type) known;
      numbered = numbered_lem (reliable f.type) f.seq has_seq no_seq;
      epoch = epoch_lem f.type f.epoch epoch;
      hub_boot = unnumbered_lem f.type type_hello_ack f.hub_boot hub_boot;
      probes = probes_lem f.type f.probe f.probe_ack probes;
      chunk_seq = unnumbered_lem f.type type_respond f.chunk_seq chunk_seq;
      relayed = relayed_lem f.type f.relay_acks relayed;
      relay_acks = relay_acks_lem f.relay_acks acks;
    }
