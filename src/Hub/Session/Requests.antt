-- ===== src/Hub/Session/Requests.antt =====
-- The deadlines of the outstanding requests: `noteWritten` arms them, `expireRequests` gives the
-- requests up whose deadline is over, and `nextRequestDeadline` is when the loop wakes.
use capri_hub.Common.{
  ℕ, ◌+◌, ◌<◌, ◌≤◌, ◌≡◌, inl, inr, refl, ◌∙◌, ap, true, false, not, Option, none, some, List, [],
  ◌∷◌, ltb, ==_iff, if◌then◌else◌, Bool-cases, length, All, arith,
}
use capri_hub.Common.Int.{pos, ltb_ℤ, pos_part}
use capri_hub.Common.Words.{Bytes}
use capri_hub.Common.Assoc.{lookup, lookup-insert}
use capri_hub.Wire.Frame.{Json}
use capri_hub.Wire.Sender.{Sender}
use capri_hub.Hub.Session.{
  ReqAck, SessionProto, arm, note_written, earlier, earliest, next_request_deadline, is_due,
  split_due, expire_requests,
}
use capri_hub.Hub.Session.Invariant.{Tracked, IsValid}

-- The deadline is not armed, or still to come.
abbrev pub Waits : ℕ → ℕ × ReqAck → Type 0
Waits now (seq, ra) = is_due now ra ≡ false

-- The time is not set, or still to come.
abbrev pub Later : ℕ → Option ℕ → Type 0
Later now none = Unit {0}
Later now (some t) = now < t

-- What `expireRequests` makes of a list of requests: a request stays without a deadline or in front
-- of it, and is given up, its id reported, from its deadline on.
pub data Expired (now : ℕ) : List (ℕ × ReqAck) → List (ℕ × ReqAck) → List Bytes → Type 0 where
  over : Expired now [] [] []
  unarmed :
      (seq : ℕ) (ra : ReqAck) (m kept : List (ℕ × ReqAck)) (out : List Bytes)
      → ra.deadline ≡ none
      → Expired now m kept out
      → Expired now ((seq, ra) ∷ m) ((seq, ra) ∷ kept) out
  in_time :
      (seq : ℕ) (ra : ReqAck) (t : ℕ) (m kept : List (ℕ × ReqAck)) (out : List Bytes)
      → ra.deadline ≡ some t
      → now < t
      → Expired now m kept out
      → Expired now ((seq, ra) ∷ m) ((seq, ra) ∷ kept) out
  too_late :
      (seq : ℕ) (ra : ReqAck) (t : ℕ) (m kept : List (ℕ × ReqAck)) (out : List Bytes)
      → ra.deadline ≡ some t
      → t ≤ now
      → Expired now m kept out
      → Expired now ((seq, ra) ∷ m) kept (ra.req_id ∷ out)

waits_unarmed : (now : ℕ) (ra : ReqAck) → ra.deadline ≡ none → is_due now ra ≡ false
waits_unarmed now ra e = rw e refl

due_by_clock :
    (now : ℕ) (ra : ReqAck) (t : ℕ) → ra.deadline ≡ some t → is_due now ra ≡ not (ltb now t)
due_by_clock now ra t e = rw e refl

split_due-Expired_head :
    (now seq : ℕ) (ra : ReqAck) (m : List (ℕ × ReqAck)) (d : Option ℕ)
    → ra.deadline ≡ d
    → Expired now m (split_due now m).0 (split_due now m).1
    → let (kept, out) = split_due now ((seq, ra) ∷ m) in Expired now ((seq, ra) ∷ m) kept out
unfolding split_due
split_due-Expired_head now seq ra m none e rest =
    rw (split_due, waits_unarmed now ra e)
      (unarmed seq ra m (split_due now m).0 (split_due now m).1 e rest)
split_due-Expired_head now seq ra m (some t) e rest = elim (Bool-cases (ltb now t)) [
  | inl early ↦
      rw (split_due, due_by_clock now ra t e, early)
        (in_time seq ra t m (split_due now m).0 (split_due now m).1 e (ground arith) rest)
  | inr late ↦
      rw (split_due, due_by_clock now ra t e, late)
        (too_late seq ra t m (split_due now m).0 (split_due now m).1 e (ground arith) rest)
]

split_due-Expired :
    (now : ℕ) (m : List (ℕ × ReqAck)) → Expired now m (split_due now m).0 (split_due now m).1
unfolding split_due
split_due-Expired now [] = over
split_due-Expired now ((seq, ra) ∷ m) =
    split_due-Expired_head now seq ra m ra.deadline refl (split_due-Expired now m)

split_due-Waits : (now : ℕ) (m : List (ℕ × ReqAck)) → All (Waits now) (split_due now m).0
unfolding split_due
split_due-Waits now [] = tt
split_due-Waits now ((seq, ra) ∷ m) = elim (Bool-cases (is_due now ra)) [
  | inl due ↦ rw (split_due, due) (split_due-Waits now m)
  | inr waits ↦ rw (split_due, waits) (waits, split_due-Waits now m)
]

split_due-length :
    (now : ℕ) (m : List (ℕ × ReqAck))
    → length (split_due now m).0 + length (split_due now m).1 ≡ length m
unfolding split_due
split_due-length now [] = refl
split_due-length now ((seq, ra) ∷ m) = elim (Bool-cases (is_due now ra)) [
  | inl due ↦ rw (split_due, due) (omega (arith, split_due-length now m))
  | inr waits ↦ rw (split_due, waits) (omega (arith, split_due-length now m))
]

split_due-Tracked :
    (s : Sender) (now : ℕ) (m : List (ℕ × ReqAck))
    → All (Tracked s) m
    → All (Tracked s) (split_due now m).0
unfolding split_due
split_due-Tracked s now [] a = tt
split_due-Tracked s now ((seq, ra) ∷ m) a = elim (Bool-cases (is_due now ra)) [
  | inl due ↦ rw (split_due, due) (split_due-Tracked s now m a.1)
  | inr waits ↦ rw (split_due, waits) (a.0, split_due-Tracked s now m a.1)
]

earlier-Later :
    (now : ℕ) (seq : ℕ) (ra : ReqAck) (out : Option ℕ)
    → is_due now ra ≡ false
    → Later now out
    → Later now (earlier ra.deadline out)
earlier-Later now seq ra out w l = pick ra.deadline out w l
  where
    pick :
        (d out : Option ℕ)
        → (elim d [ none ↦ false | some due ↦ not (ltb now due) ]) ≡ false
        → Later now out
        → Later now (earlier d out)
    pick none out w l = l
    pick (some t) none w l = ground arith
    pick (some t) (some u) w l = elim (Bool-cases (ltb t u)) [
      | inl e ↦ rw e (ground arith)
      | inr e ↦ rw e l
    ]

earliest-Later :
    (now : ℕ) (out : Option ℕ) (m : List (ℕ × ReqAck))
    → Later now out
    → All (Waits now) m
    → Later now (earliest out m)
unfolding earliest
earliest-Later now out [] l a = l
earliest-Later now out ((seq, ra) ∷ m) l a =
    earliest-Later now (earlier ra.deadline out) m (earlier-Later now seq ra out a.0 l) a.1

nothing_due : (now : ℕ) (m : List (ℕ × ReqAck)) → All (Waits now) m → (split_due now m).1 ≡ []
unfolding split_due
nothing_due now [] a = refl
nothing_due now ((seq, ra) ∷ m) a = rw (split_due, a.0) (nothing_due now m a.1)

-- `expireRequests` on a valid state keeps it valid and its log as it is. It gives up exactly the
-- requests whose deadline is armed and over, in their order, with one id reported for each, and
-- keeps all others, unarmed ones included. A second call at that time reports nothing, and
-- `nextRequestDeadline` is none or still to come.
pub expire_requests_lem :
    (p : SessionProto) (now : ℕ)
    → IsValid p
    → let (p', out) = expire_requests p now in
      IsValid p'
      × (p'.down ≡ p.down)
      × Expired now p.req_acks p'.req_acks out
      × (length p'.req_acks + length out ≡ length p.req_acks)
      × ((expire_requests p' now).1 ≡ [])
      × Later now (next_request_deadline p')
expire_requests_lem p now v =
    let waits = split_due-Waits now p.req_acks in
    (
      record {
        down = v.down;
        tracked = split_due-Tracked p.down now p.req_acks v.tracked;
        audience = v.audience;
        newest = v.newest;
      },
      refl,
      split_due-Expired now p.req_acks,
      split_due-length now p.req_acks,
      nothing_due now (split_due now p.req_acks).0 waits,
      earliest-Later now none (split_due now p.req_acks).0 tt waits,
    )

-- The window of a request: its own if that is positive, else the session's.
abbrev pub effective_window : ℕ → ReqAck → ℕ
effective_window fallback ra = if ltb_ℤ (pos 0) ra.window then pos_part ra.window else fallback

arm_in_force :
    (fallback now : ℕ) (ra : ReqAck) (due : ℕ)
    → ra.deadline ≡ some due
    → ltb now due ≡ true
    → arm fallback now ra ≡ ra
unfolding arm
arm_in_force fallback now ra due d early = choose ra.deadline d
  where
    choose :
        (o : Option ℕ)
        → o ≡ some due
        → (elim o [
          | none ↦ record ra { deadline = some (now + effective_window fallback ra) }
          | some t ↦
              if ltb now t
              then ra
              else record ra { deadline = some (now + effective_window fallback ra) }
        ])
          ≡ ra
    choose none e = absurd (ground arith)
    choose (some t) e = let same : t ≡ due = cc in rw (same, early) refl

module _ (json : Json) where
  -- The frame is written again, at each of the times.
  abbrev pub rewrite_at : SessionProto → ℕ → Bytes → List ℕ → SessionProto
  rewrite_at p seq payload [] = p
  rewrite_at p seq payload (now ∷ times) =
      rewrite_at (note_written json p now seq payload) seq payload times

  written_lookup :
      (p : SessionProto) (now seq : ℕ) (payload : Bytes) (ra : ReqAck)
      → lookup seq p.req_acks ≡ some ra
      → let p' = note_written json p now seq payload in
        (lookup seq p'.req_acks ≡ some (arm p.req_ack_deadline now ra))
        × (p'.req_ack_deadline ≡ p.req_ack_deadline)
  unfolding note_written
  written_lookup p now seq payload ra h =
      rw (note_written, h)
        (
          lookup-insert seq seq (arm p.req_ack_deadline now ra) p.req_acks
              ∙ ap (λ b. if b then some (arm p.req_ack_deadline now ra) else lookup seq p.req_acks)
                  ((==_iff seq seq).1 refl),
          refl,
        )

  kept_deadline :
      (p : SessionProto) (seq : ℕ) (payload : Bytes) (ra : ReqAck) (due : ℕ) (times : List ℕ)
      → lookup seq p.req_acks ≡ some ra
      → ra.deadline ≡ some due
      → All (λ t. t < due) times
      → lookup seq (rewrite_at p seq payload times).req_acks ≡ some ra
  unfolding arm
  kept_deadline p seq payload ra due [] h d a = h
  kept_deadline p seq payload ra due (now ∷ times) h d a =
      let written = written_lookup p now seq payload ra h in
      let early : ltb now due ≡ true = ground arith in
      let same = arm_in_force p.req_ack_deadline now ra due d early in
      kept_deadline (note_written json p now seq payload) seq payload ra due times
        (written.0 ∙ ap some same) d a.1

  -- The first write of a request's frame arms its deadline, one window on. However often the frame
  -- is written again before that, the deadline stays.
  pub note_written_deadline :
      (p : SessionProto) (seq : ℕ) (payload : Bytes) (ra : ReqAck) (now : ℕ) (times : List ℕ)
      → lookup seq p.req_acks ≡ some ra
      → ra.deadline ≡ none
      → All (λ t. t < now + effective_window p.req_ack_deadline ra) times
      → lookup seq (rewrite_at p seq payload (now ∷ times)).req_acks
        ≡ some (record ra { deadline = some (now + effective_window p.req_ack_deadline ra) })
  unfolding arm
  note_written_deadline p seq payload ra now times h d a =
      let written = written_lookup p now seq payload ra h in
      let armed : ReqAck = record ra {
        deadline = some (now + effective_window p.req_ack_deadline ra);
      } in
      let same : arm p.req_ack_deadline now ra ≡ armed = rw (arm, d) refl in
      kept_deadline (note_written json p now seq payload) seq payload armed
        (now + effective_window p.req_ack_deadline ra) times (written.0 ∙ ap some same) refl a
