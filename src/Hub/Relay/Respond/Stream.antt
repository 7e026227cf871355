-- ===== src/Hub/Relay/Respond/Stream.antt =====
-- The chunks of one answer in their order: what `applyRespondLocked` makes of them, one by one.
use capri_hub.Common.{
  ℕ, zero, suc, ◌+◌, ◌≡◌, refl, ap, ◌∙◌, inl, inr, Bool, true, false, not, ◌&&◌, ◌||◌, [], ◌++◌,
  ltb, ◌==◌, if◌then◌else◌, length, Bool-cases, Option-cases,
}
use capri_hub.Common.Int.{ℤ}
use capri_hub.Common.Text.{codes, bytes_eq}
use capri_hub.Wire.Frame.{Frame, Json}
use capri_hub.Wire.Frame.Validate.{no_text}
use capri_hub.Wire.Frame.Build.{respond_status}
use capri_hub.Hub.Relay.{RelayCodec, RelayLimits, PendingReq, fresh_request}
use capri_hub.Hub.Relay.Respond.{Applied, waits, fails, answers, advance, take_chunk, apply_chunk}

-- The request without its parked frames.
abbrev pub clear : PendingReq → PendingReq
clear pr = record pr { parked = []; parked_bytes = 0 }

abbrev pub clear_applied : Applied → Applied
clear_applied (waits pr) = waits (clear pr)
clear_applied (fails reason) = fails reason
clear_applied (answers resp n) = answers resp n

-- What a chunk leaves of the request: its number is the next one, and the parked frames stay.
abbrev pub After : PendingReq → Frame → Applied → Type 0
After pr f (waits pr') =
    (pr'.next_chunk ≡ f.chunk_seq) × (pr'.parked ≡ pr.parked) × (pr'.parked_bytes ≡ pr.parked_bytes)
After pr f (fails reason) = Unit {0}
After pr f (answers resp n) = n ≡ f.chunk_seq

advance-After :
    (codec : RelayCodec) (status : ℤ) (pr : PendingReq) (f : Frame)
    → After pr f (advance codec status pr f)
advance-After codec status pr f = elim (Bool-cases f.more) [
  | inl more ↦ rw more (refl, refl, refl)
  | inr last ↦ elim (Bool-cases (not pr.chunked && (f.chunk_seq == 1))) [
    | inl single ↦ rw (last, single) refl
    | inr many ↦ elim (Bool-cases (codec.is_json pr.chunks)) [
      | inl valid ↦ rw (last, many, valid) refl
      | inr invalid ↦ rw (last, many, invalid) tt
    ]
  ]
]

advance-clear :
    (codec : RelayCodec) (status : ℤ) (pr : PendingReq) (f : Frame)
    → advance codec status (clear pr) f ≡ clear_applied (advance codec status pr f)
advance-clear codec status pr f = elim (Bool-cases f.more) [
  | inl more ↦ rw more refl
  | inr last ↦ elim (Bool-cases (not pr.chunked && (f.chunk_seq == 1))) [
    | inl single ↦ rw (last, single) refl
    | inr many ↦ elim (Bool-cases (codec.is_json pr.chunks)) [
      | inl valid ↦ rw (last, many, valid) refl
      | inr invalid ↦ rw (last, many, invalid) refl
    ]
  ]
]

-- What holds of a chunk that is applied, with and without the parked frames beside it.
record Fits (codec : RelayCodec) (pr : PendingReq) (f : Frame) (out cleared : Applied)
    : Type 0 where
  after : After pr f out
  same : cleared ≡ clear_applied out

take_chunk-Fits :
    (codec : RelayCodec) (limits : RelayLimits) (status : ℤ) (pr : PendingReq) (f : Frame)
    → Fits codec pr f
        (take_chunk codec limits status pr f)
        (take_chunk codec limits status (clear pr) f)
take_chunk-Fits codec limits status pr f =
    elim (Bool-cases (bytes_eq f.encoding (codes "base64"))) [
      | inr other ↦ rw other (record { after = tt; same = refl })
      | inl base ↦ elim (Option-cases (codec.decode_chunk f.chunk)) [
        | inl e ↦ rw (base, e) (record { after = tt; same = refl })
        | inr (d, e) ↦ elim (Bool-cases (ltb limits.max_body (length pr.chunks + length d))) [
          | inl large ↦ rw (base, e, large) (record { after = tt; same = refl })
          | inr room ↦
              rw (base, e, room)
                (record {
                  after =
                      advance-After codec status
                        (record pr { chunked = true; chunks = pr.chunks ++ d }) f;
                  same =
                      advance-clear codec status
                        (record pr { chunked = true; chunks = pr.chunks ++ d }) f;
                })
        ]
      ]
    ]

-- `apply_chunk` behind the status.
abbrev take_body : RelayCodec → RelayLimits → ℤ → PendingReq → Frame → Applied
take_body codec limits status pr f =
    if not (no_text f.chunk) || not (no_text f.encoding)
    then take_chunk codec limits status pr f
    else if f.more || pr.chunked || ltb 0 pr.next_chunk
    then advance codec status (record pr { chunked = true; chunks = pr.chunks ++ f.body }) f
    else advance codec status pr f

take_body-Fits :
    (codec : RelayCodec) (limits : RelayLimits) (status : ℤ) (pr : PendingReq) (f : Frame)
    → Fits codec pr f
        (take_body codec limits status pr f)
        (take_body codec limits status (clear pr) f)
take_body-Fits codec limits status pr f =
    elim (Bool-cases (not (no_text f.chunk) || not (no_text f.encoding))) [
      | inl coded ↦ rw coded (take_chunk-Fits codec limits status pr f)
      | inr raw ↦ elim (Bool-cases (f.more || pr.chunked || ltb 0 pr.next_chunk)) [
        | inl part ↦
            let q : PendingReq = record pr { chunked = true; chunks = pr.chunks ++ f.body } in
            rw (raw, part)
              (record {
                after = advance-After codec status q f;
                same = advance-clear codec status q f;
              })
        | inr single ↦
            rw (raw, single)
              (record {
                after = advance-After codec status pr f;
                same = advance-clear codec status pr f;
              })
      ]
    ]

-- To note the status does not touch the parked frames.
noted : ℤ → PendingReq → Bool → PendingReq
noted status pr known =
    if not known then record pr { chunk_status = status; chunk_status_set = true } else pr

noted-parked :
    (status : ℤ) (pr : PendingReq) (known : Bool)
    → ((noted status pr known).parked ≡ pr.parked)
      × ((noted status pr known).parked_bytes ≡ pr.parked_bytes)
      × (noted status (clear pr) known ≡ clear (noted status pr known))
unfolding noted
noted-parked status pr true = (refl, refl, refl)
noted-parked status pr false = (refl, refl, refl)

After-same :
    (q pr : PendingReq) (f : Frame) (out : Applied)
    → q.parked ≡ pr.parked
    → q.parked_bytes ≡ pr.parked_bytes
    → After q f out
    → After pr f out
After-same q pr f (waits pr') e e' a = (a.0, a.1 ∙ e, a.2 ∙ e')
After-same q pr f (fails reason) e e' a = tt
After-same q pr f (answers resp n) e e' a = a

module _ (json : Json) (codec : RelayCodec) (limits : RelayLimits) where
  applied-Fits :
      (pr : PendingReq) (f : Frame)
      → Fits codec pr f
          (apply_chunk json codec limits pr f)
          (apply_chunk json codec limits (clear pr) f)
  unfolding apply_chunk noted
  applied-Fits pr f =
      let status = respond_status json f in
      let q = noted status pr pr.chunk_status_set in
      let (parked, bytes, cleared) = noted-parked status pr pr.chunk_status_set in
      let fits = take_body-Fits codec limits status q f in
      record {
        after = After-same q pr f _ parked bytes fits.after;
        same = ap (λ x. take_body codec limits status x f) cleared ∙ fits.same;
      }

  pub apply_chunk-After :
      (pr : PendingReq) (f : Frame) → After pr f (apply_chunk json codec limits pr f)
  apply_chunk-After pr f = (applied-Fits pr f).after

  pub apply_chunk-clear :
      (pr : PendingReq) (f : Frame)
      → apply_chunk json codec limits (clear pr) f
        ≡ clear_applied (apply_chunk json codec limits pr f)
  apply_chunk-clear pr f = (applied-Fits pr f).same

  -- The chunks of a stream, applied in order and without a gap to a fresh request.
  abbrev pub then_apply : Applied → Frame → Applied
  then_apply (waits pr) f = apply_chunk json codec limits pr f
  then_apply (fails reason) f = fails reason
  then_apply (answers resp n) f = answers resp n

  unfoldable pub in_order : (ℕ → Frame) → ℕ → Applied
  in_order fs zero = waits fresh_request
  in_order fs (suc n) = then_apply (in_order fs n) (fs (suc n))
