-- ===== src/Hub/Session.antt =====
-- internal/hub/session.go: `sessionProto`, the protocol state of one host's epoch.
-- A map is an association list, so the order in which Go visits a map is the order of the list. A
-- time is a number of milliseconds on the hub's clock, and the zero time is `none`. `limits` is
-- `SessionLimits`. Each operation holds the state's lock, so it is one step.
pub mod Invariant
pub mod Logging
pub mod Snapshots
pub mod Requests
pub mod Batches
mod Examples
use capri_hub.Common.{
  ℕ, zero, suc, ◌+◌, ◌*◌, ◌≡◌, Bool, true, false, not, ◌&&◌, ◌||◌, Option, none, some, List, [],
  ◌∷◌, ◌++◌, ltb, leb, ◌==◌, if◌then◌else◌, length,
}
use capri_hub.Common.Int.{ℤ, pos, negsuc, ltb_ℤ, pos_part, word_int}
use capri_hub.Common.Words.{Bytes, add64}
use capri_hub.Common.Text.{bytes_eq}
use capri_hub.Common.Assoc.{lookup, insert}
use capri_hub.Common.Result.{Result, ok, err}
use capri_hub.Wire.Limits.{FrameError, Liveness, Limits, double}
use capri_hub.Wire.Frame.{Frame, Json, Audience, type_audience}
use capri_hub.Wire.Frame.Validate.{encode, decode}
use capri_hub.Wire.Frame.Build.{new_audience}
use capri_hub.Wire.Receiver.{Receiver, new_receiver_window}
use capri_hub.Wire.Sender.{Entry, Sender, new_sender, append, ack, elide, entries}

pub record ReqAck : Type 0 where
  pub req_id : Bytes
  pub window : ℤ
  pub deadline : Option ℕ

pub record SessionProto : Type 0 where
  pub epoch : ℕ
  pub up : Receiver
  pub down : Sender
  pub req_acks : List (ℕ × ReqAck)
  pub req_ack_deadline : ℕ
  pub audience_seq : ℕ
  pub audience_gen : ℕ
  pub audience_sent_gen : ℕ
  pub audience_latest : Audience
  pub audience_resend : Option Audience

-- The errors of the operations that log a frame.
pub data LogError : Type 0 where
  unencoded : FrameError → LogError
  drifted overflow : LogError

-- `requestAckDeadline`, in milliseconds
abbrev pub request_ack_deadline : Liveness → ℕ
request_ack_deadline l = 3 * pos_part l.keepalive * 1000

-- `downInflightCap`
abbrev pub down_inflight_cap : Limits → ℤ
down_inflight_cap limits = double limits.max_relay_body

-- `wire.Audience{}`
abbrev pub no_audience : Audience
no_audience = record { gen = 0; watchers = pos 0; all = false; sessions = [] }

-- `newSessionProto`
unfoldable pub new_session_proto : Liveness → ℕ → ℕ → ℤ → SessionProto
new_session_proto liveness epoch up_acked window = record {
  epoch = epoch;
  up = new_receiver_window up_acked window;
  down = new_sender 0;
  req_acks = [];
  req_ack_deadline = request_ack_deadline liveness;
  audience_seq = 0;
  audience_gen = 0;
  audience_sent_gen = 0;
  audience_latest = no_audience;
  audience_resend = none;
}

-- The loop of `ackDown`: the requests that the watermark does not cover.
unfoldable pub uncovered : ℕ → List (ℕ × ReqAck) → List (ℕ × ReqAck)
uncovered applied [] = []
uncovered applied ((seq, ra) ∷ m) =
    let rest = uncovered applied m in if leb seq applied then rest else (seq, ra) ∷ rest

-- No audience frame is in the log.
abbrev pub forget_audience : SessionProto → SessionProto
forget_audience p = record p { audience_seq = 0; audience_gen = 0; audience_sent_gen = 0 }

-- What `ackDown` does with the audience frame.
unfoldable pub settle_audience : ℕ → SessionProto → SessionProto
settle_audience applied p =
    let resend =
      if ltb p.audience_sent_gen p.audience_gen
      then some p.audience_latest
      else p.audience_resend in
    if not (p.audience_seq == 0) && leb p.audience_seq applied
    then forget_audience (record p { audience_resend = resend })
    else p

-- `ackDown`, with the watermark in force
unfoldable pub ack_down : SessionProto → ℕ → SessionProto × ℕ
unfolding uncovered settle_audience
ack_down p n =
    let down = ack p.down n in
    (
      settle_audience down.acked
          (record p { down = down; req_acks = uncovered down.acked p.req_acks }),
      down.acked,
    )

-- `takeAudienceResend`
abbrev pub take_audience_resend : SessionProto → SessionProto × Option Audience
take_audience_resend p = (record p { audience_resend = none }, p.audience_resend)

-- The number of a frame that is logged next.
abbrev pub next_seq : SessionProto → ℕ
next_seq p = add64 p.down.next 1

abbrev pub over_budget : Limits → SessionProto → Bool
over_budget limits p = ltb_ℤ (down_inflight_cap limits) (word_int p.down.bytes)

-- The end of each operation that appends: `note` is what it writes down about the logged frame.
abbrev pub log_payload :
    Limits
    → SessionProto
    → Bytes
    → (SessionProto → SessionProto)
    → SessionProto × ℕ × Option LogError
log_payload limits p payload note =
    let seq = next_seq p in
    let (down, got) = append p.down payload in
    let logged = record p { down = down } in
    if not (got == seq)
    then (logged, 0, some drifted)
    else if over_budget limits (note logged)
    then (note logged, seq, some overflow)
    else (note logged, seq, none)

-- The deadline that `noteWritten` arms at `now`.
unfoldable pub arm : ℕ → ℕ → ReqAck → ReqAck
arm fallback now ra =
    let window = if ltb_ℤ (pos 0) ra.window then pos_part ra.window else fallback in
    let armed = record ra { deadline = some (now + window) } in
    elim ra.deadline [ none ↦ armed | some due ↦ if ltb now due then ra else armed ]

module _ (json : Json) (limits : Limits) where
  -- `appendReliable`
  unfoldable pub append_reliable :
      SessionProto → (ℕ → ℕ → Frame) → SessionProto × ℕ × Option LogError
  append_reliable p build = elim (encode json (build (next_seq p) p.up.acked)) [
    | err e ↦ (p, 0, some (unencoded e))
    | ok payload ↦ log_payload limits p payload (λ q. q)
  ]

  -- `dispatchRequest`
  unfoldable pub dispatch_request :
      SessionProto → Bytes → Frame → ℤ → SessionProto × ℕ × Option LogError
  dispatch_request p req_id f window =
      let seq = next_seq p in
      let ra : ReqAck = record { req_id = req_id; window = window; deadline = none } in
      elim (encode json (record f { seq = seq; ack = p.up.acked })) [
        | err e ↦ (p, 0, some (unencoded e))
        | ok payload ↦
            log_payload limits p payload (λ q. record q { req_acks = insert seq ra q.req_acks })
      ]

  -- The end of `pushAudience`: a new frame.
  unfoldable pub append_audience :
      SessionProto → Audience → SessionProto × (ℕ × Bool) × Option LogError
  append_audience p a =
      let seq = next_seq p in
      elim (encode json (new_audience seq p.up.acked a)) [
        | err e ↦ (p, (0, false), some (unencoded e))
        | ok payload ↦
            let (p', seq', e) =
              log_payload limits p payload (λ q. record q {
                audience_seq = seq;
                audience_gen = a.gen;
                audience_sent_gen = 0;
              }) in
            (p', (seq', false), e)
      ]

  -- The middle of `pushAudience`: a newer payload for the frame in the log.
  unfoldable pub replace_audience :
      SessionProto → Audience → SessionProto × (ℕ × Bool) × Option LogError
  unfolding append_audience
  replace_audience p a = elim (encode json (new_audience p.audience_seq p.up.acked a)) [
    | err e ↦ (p, (0, false), some (unencoded e))
    | ok payload ↦
        let (down, found) = elide p.down p.audience_seq payload in
        let replaced = record p { down = down; audience_gen = a.gen } in
        let appended = append_audience (forget_audience (record p { down = down })) a in
        if not found
        then appended
        else if over_budget limits replaced
        then (replaced, (p.audience_seq, false), some overflow)
        else (replaced, (p.audience_seq, true), none)
  ]

  -- `pushAudience`
  unfoldable pub push_audience :
      SessionProto → Audience → SessionProto × (ℕ × Bool) × Option LogError
  unfolding append_audience replace_audience
  push_audience p a =
      let p₁ = record p { audience_latest = a; audience_resend = none } in
      let stale = not (p₁.audience_seq == 0) && leb p₁.audience_seq p₁.down.acked in
      let p₂ = if stale then forget_audience p₁ else p₁ in
      if ltb a.gen p.audience_latest.gen
      then (p, (0, false), none)
      else if p₂.audience_seq == 0
      then append_audience p₂ a
      else if leb a.gen p₂.audience_gen
      then (p₂, (p₂.audience_seq, false), none)
      else replace_audience p₂ a

module _ (json : Json) where
  -- The generation that `noteWritten` reads off an audience frame.
  abbrev pub written_gen : ℕ → Bytes → ℕ
  written_gen sent payload = elim (decode json payload) [
    | err e ↦ sent
    | ok f ↦ if bytes_eq f.type type_audience && ltb sent f.gen then f.gen else sent
  ]

  -- `noteWritten`
  unfoldable pub note_written : SessionProto → ℕ → ℕ → Bytes → SessionProto
  unfolding arm
  note_written p now seq payload =
      let sent =
        if not (seq == 0) && (seq == p.audience_seq)
        then written_gen p.audience_sent_gen payload
        else p.audience_sent_gen in
      let p' = record p { audience_sent_gen = sent } in
      elim (lookup seq p.req_acks) [
        | none ↦ p'
        | some ra ↦ record p' { req_acks = insert seq (arm p.req_ack_deadline now ra) p.req_acks }
      ]

-- `entriesAfter`
unfoldable pub entries_after : ℕ → List Entry → List Entry
entries_after seq [] = []
entries_after seq (e ∷ es) =
    let rest = entries_after seq es in if ltb seq e.seq then e ∷ rest else rest

-- The earlier of two deadlines, of which one may not be armed.
abbrev pub earlier : Option ℕ → Option ℕ → Option ℕ
earlier none out = out
earlier (some t) none = some t
earlier (some t) (some out) = if ltb t out then some t else some out

-- The loop of `nextRequestDeadline`, from the deadline found so far.
unfoldable pub earliest : Option ℕ → List (ℕ × ReqAck) → Option ℕ
earliest out [] = out
earliest out ((seq, ra) ∷ m) = earliest (earlier ra.deadline out) m

-- `nextRequestDeadline`
abbrev pub next_request_deadline : SessionProto → Option ℕ
next_request_deadline p = earliest none p.req_acks

-- Is the request's deadline armed and over at `now`?
abbrev pub is_due : ℕ → ReqAck → Bool
is_due now ra = elim ra.deadline [ none ↦ false | some due ↦ not (ltb now due) ]

-- The loop of `expireRequests`: what stays, and the requests that are given up.
unfoldable pub split_due : ℕ → List (ℕ × ReqAck) → List (ℕ × ReqAck) × List Bytes
split_due now [] = ([], [])
split_due now ((seq, ra) ∷ m) =
    let (kept, out) = split_due now m in
    if is_due now ra then (kept, ra.req_id ∷ out) else ((seq, ra) ∷ kept, out)

-- `expireRequests`
abbrev pub expire_requests : SessionProto → ℕ → SessionProto × List Bytes
expire_requests p now =
    let (kept, out) = split_due now p.req_acks in (record p { req_acks = kept }, out)

-- The loop of `oldestUnacked`: `count` entries of `bytes` bytes are out already.
unfoldable pub take_batch : ℕ → ℕ → ℕ → ℕ → ℕ → List Entry → List Entry
take_batch most most_bytes acked count bytes [] = []
take_batch most most_bytes acked count bytes (e ∷ es) =
    let size = bytes + length e.payload in
    let skipped = take_batch most most_bytes acked count bytes es in
    let rest = take_batch most most_bytes acked (suc count) size es in
    if leb e.seq acked
    then skipped
    else if leb most count || (ltb 0 count && ltb most_bytes size)
    then []
    else e ∷ rest

-- `oldestUnacked`
abbrev pub oldest_unacked : SessionProto → ℕ → ℕ → List Entry
oldest_unacked p most most_bytes = take_batch most most_bytes p.down.acked 0 0 (entries p.down)
