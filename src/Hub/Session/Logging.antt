-- ===== src/Hub/Session/Logging.antt =====
-- The operations of `sessionProto` that log a frame: what they assign, and that the state stays valid.
use capri_hub.Common.{
  ℕ, ◌+◌, ◌^◌, ◌<◌, ◌≡◌, ◌⊎◌, inl, inr, refl, sym, ◌∙◌, ap, Bool, true, false, Option, none, some,
  List, [], ◌∷◌, ◌++◌, ◌==◌, ==_iff, if◌then◌else◌, Bool-cases, All, arith,
}
use capri_hub.Common.Int.{ℤ}
use capri_hub.Common.Words.{Bytes, add64}
use capri_hub.Common.Assoc.{lookup, insert, lookup-insert}
use capri_hub.Common.Result.{Result, ok, err}
use capri_hub.Wire.Limits.{Limits, FrameError}
use capri_hub.Wire.Frame.{Frame, Json}
use capri_hub.Wire.Frame.Validate.{encode}
use capri_hub.Wire.Sender.{Sender, append}
use capri_hub.Wire.Sender.Log
use capri_hub.Wire.Sender.Log.{append_lem}
use capri_hub.Hub.Session.{
  ReqAck, SessionProto, LogError, unencoded, overflow, log_payload, next_seq, over_budget,
  dispatch_request,
}
use capri_hub.Hub.Session.Invariant.{InFlight, Tracked, IsValid}

-- The state with one more payload in the log.
abbrev pub logged : SessionProto → Bytes → SessionProto
logged p payload = record p { down = (append p.down payload).0 }

-- The number never drifts: the frame is logged under the number that was encoded, and the only
-- error is the overflow, behind the append.
pub log_payload_lem :
    (limits : Limits) (p : SessionProto) (payload : Bytes) (note : SessionProto → SessionProto)
    → let q = note (logged p payload) in
      ◌≡◌ {A = SessionProto × ℕ × Option LogError}
        (log_payload limits p payload note)
        (q, next_seq p, (if over_budget limits q then some overflow else none))
unfolding append
log_payload_lem limits p payload note =
    let same : (next_seq p == next_seq p) ≡ true = (==_iff (next_seq p) (next_seq p)).1 refl in
    rw same (over (over_budget limits (note (logged p payload))))
  where
    over :
        (b : Bool)
        → ◌≡◌ {A = SessionProto × ℕ × Option LogError}
            (if b
              then (note (logged p payload), next_seq p, some overflow)
              else (note (logged p payload), next_seq p, none))
            (note (logged p payload), next_seq p, (if b then some overflow else none))
    over true = refl
    over false = refl

-- A longer log keeps what is in flight in flight.
module _ (s s' : Sender) (next : s'.next ≡ s.next + 1) (acked : s'.acked ≡ s.acked) where
  later_InFlight : (seq : ℕ) → InFlight s seq → InFlight s' seq
  later_InFlight seq f = (omega (arith, f.0), omega (arith, f.1))

  later_Tracked : (m : List (ℕ × ReqAck)) → All (Tracked s) m → All (Tracked s') m
  later_Tracked [] a = tt
  later_Tracked ((seq, ra) ∷ m) a = (later_InFlight seq a.0, later_Tracked m a.1)

insert-Tracked :
    (s : Sender) (seq : ℕ) (ra : ReqAck) (m : List (ℕ × ReqAck))
    → InFlight s seq
    → All (Tracked s) m
    → All (Tracked s) (insert seq ra m)
insert-Tracked s seq ra [] f a = (f, tt)
insert-Tracked s seq ra ((k, x) ∷ m) f a = elim (Bool-cases (k == seq)) [
  | inl e ↦ rw e (f, a.1)
  | inr e ↦ rw e (a.0, insert-Tracked s seq ra m f a.1)
]

pub logged-IsValid :
    (p : SessionProto) (payload : Bytes)
    → IsValid p
    → p.down.next + 1 < 2 ^ 64
    → IsValid (logged p payload) × InFlight (logged p payload).down (next_seq p)
logged-IsValid p payload v room =
    let (seq, next, acked, log, valid) = append_lem p.down payload v.down room in
    let up = next ∙ seq in
    (
      record {
        down = valid;
        tracked = later_Tracked p.down (append p.down payload).0 up acked p.req_acks v.tracked;
        audience = in_flight up acked v.audience;
        newest = v.newest;
      },
      (below p.down v.down room acked, omega arith),
    )
  where
    in_flight :
        (append p.down payload).0.next ≡ p.down.next + 1
        → (append p.down payload).0.acked ≡ p.down.acked
        → (p.audience_seq ≡ 0) ⊎ InFlight p.down p.audience_seq
        → (p.audience_seq ≡ 0) ⊎ InFlight (append p.down payload).0 p.audience_seq
    in_flight up acked (inl z) = inl z
    in_flight up acked (inr f) =
        inr (later_InFlight p.down (append p.down payload).0 up acked p.audience_seq f)

    below :
        (s : Sender)
        → Log.IsValid s
        → s.next + 1 < 2 ^ 64
        → (append s payload).0.acked ≡ s.acked
        → (append s payload).0.acked < add64 s.next 1
    below s w room same = omega (arith, w.low, w.top)

-- What an operation that logs one frame did: nothing, where the frame could not be encoded; else
-- the payload is the newest entry of the log.
pub data Appended (frame : Result FrameError Bytes) (p p' : SessionProto) (seq : ℕ)
    (e : Option LogError) : Type 0 where
  refused :
      (x : FrameError) → frame ≡ err x → p' ≡ p → e ≡ some (unencoded x) → Appended frame p p' seq e
  appended :
      (payload : Bytes)
      → frame ≡ ok payload
      → seq ≡ p.down.next + 1
      → p'.down.log ≡ p.down.log ++ (record { seq = seq; payload = payload } ∷ [])
      → (e ≡ none) ⊎ (e ≡ some overflow)
      → Appended frame p p' seq e

overflow_or_none :
    (b : Bool)
    → ((if b then some overflow else none) ≡ none)
      ⊎ ((if b then some overflow else none) ≡ some overflow)
overflow_or_none true = inr refl
overflow_or_none false = inl refl

-- The next number does not wrap while numbers are left.
pub number :
    (p : SessionProto) (payload : Bytes)
    → IsValid p
    → p.down.next + 1 < 2 ^ 64
    → next_seq p ≡ p.down.next + 1
number p payload v room = omega arith

lookup-insert_self :
    (k : ℕ) (ra : ReqAck) (m : List (ℕ × ReqAck)) → lookup k (insert k ra m) ≡ some ra
lookup-insert_self k ra m =
    lookup-insert k k ra m ∙ ap (λ b. if b then some ra else lookup k m) ((==_iff k k).1 refl)

module _ (json : Json) (limits : Limits) where
  abbrev request_note : SessionProto → Bytes → ℤ → SessionProto → SessionProto
  request_note p req_id window q = record q {
    req_acks =
        insert (next_seq p) (record { req_id = req_id; window = window; deadline = none })
          q.req_acks;
  }

  -- `dispatchRequest` on a valid state with numbers left: a frame that cannot be encoded changes
  -- nothing. Else the frame is logged under the number that it carries, the state stays valid, and
  -- the request is outstanding under that number without a deadline; the only error is the overflow.
  pub dispatch_request_lem :
      (p : SessionProto) (req_id : Bytes) (f : Frame) (window : ℤ)
      → IsValid p
      → p.down.next + 1 < 2 ^ 64
      → let (p', seq, e) = dispatch_request json limits p req_id f window in
        IsValid p'
        × Appended (encode json (record f { seq = next_seq p; ack = p.up.acked })) p p' seq e
        × ((p' ≡ p)
            ⊎ (lookup seq p'.req_acks
                ≡ some (record { req_id = req_id; window = window; deadline = none })))
  unfolding dispatch_request
  dispatch_request_lem p req_id f window v room =
      sent (encode json (record f { seq = next_seq p; ack = p.up.acked })) refl
    where
      sent :
          (frame : Result FrameError Bytes)
          → encode json (record f { seq = next_seq p; ack = p.up.acked }) ≡ frame
          → let (p', seq, e) = dispatch_request json limits p req_id f window in
            IsValid p'
            × Appended frame p p' seq e
            × ((p' ≡ p)
                ⊎ (lookup seq p'.req_acks
                    ≡ some (record { req_id = req_id; window = window; deadline = none })))
      sent (err x) h = rw (dispatch_request, h) (v, refused x refl refl refl, inl refl)
      sent (ok payload) h =
          let out = log_payload_lem limits p payload (request_note p req_id window) in
          let (valid, fresh) = logged-IsValid p payload v room in
          let (seq, next, acked, log, w) = append_lem p.down payload v.down room in
          let ra : ReqAck = record { req_id = req_id; window = window; deadline = none } in
          rw (dispatch_request, h, out)
            (
              record {
                down = valid.down;
                tracked =
                    insert-Tracked (logged p payload).down (next_seq p) ra p.req_acks fresh
                      valid.tracked;
                audience = valid.audience;
                newest = valid.newest;
              },
              appended payload refl (number p payload v room)
                  (log
                    ∙ ap (λ n. p.down.log ++ (record { seq = n; payload = payload } ∷ []))
                        (seq ∙ sym (number p payload v room)))
                  (overflow_or_none _),
              inr (lookup-insert_self (next_seq p) ra p.req_acks),
            )
