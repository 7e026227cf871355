-- ===== src/Hub/Session/Snapshots/Placing.antt =====
-- Where a snapshot of the audience stands once it was appended, or put in the place of an older one.
use capri_hub.Common.{
  ℕ, ◌+◌, ◌^◌, ◌<◌, ◌≤◌, ◌≡◌, ◌≢◌, ◌⊎◌, inl, inr, refl, sym, subst, ◌∙◌, ap, Bool, true, false,
  Option, none, List, [], ◌∷◌, ◌++◌, Bool-cases, All, arith,
}
use capri_hub.Common.Words.{Bytes}
use capri_hub.Common.Result.{Result, ok, err}
use capri_hub.Wire.Limits.{Limits, FrameError}
use capri_hub.Wire.Frame.{Json, Audience}
use capri_hub.Wire.Frame.Build.{new_audience}
use capri_hub.Wire.Frame.Validate.{encode}
use capri_hub.Wire.Sender.{Sender, elide}
use capri_hub.Wire.Sender.Log
use capri_hub.Wire.Sender.Log.{append_lem}
use capri_hub.Wire.Sender.Elide.{Exchanged, elide_lem, elide-IsValid}
use capri_hub.Hub.Session.{
  ReqAck, SessionProto, LogError, next_seq, over_budget, append_audience, replace_audience,
  forget_audience,
}
use capri_hub.Hub.Session.Invariant.{InFlight, Tracked, IsValid}
use capri_hub.Hub.Session.Logging.{logged, log_payload_lem, logged-IsValid, number}

-- Where the snapshot `a` stands behind a push that reports no error: the link was `s`, its other
-- direction acknowledged up to `acked`, and `gen` was the generation of the audience frame.
pub data Placed (json : Json) (s : Sender) (acked gen : ℕ) (a : Audience) (p' : SessionProto)
    (answer : ℕ × Bool) : Type 0 where
  already :
      p'.down ≡ s
      → gen ≡ a.gen
      → answer ≡ (p'.audience_seq, false)
      → Placed json s acked gen a p' answer
  at_end :
      (payload : Bytes)
      → encode json (new_audience p'.audience_seq acked a) ≡ ok payload
      → p'.down.log ≡ s.log ++ (record { seq = p'.audience_seq; payload = payload } ∷ [])
      → answer ≡ (p'.audience_seq, false)
      → Placed json s acked gen a p' answer
  in_place :
      (payload : Bytes)
      → encode json (new_audience p'.audience_seq acked a) ≡ ok payload
      → Exchanged s p'.audience_seq payload p'.down
      → answer ≡ (p'.audience_seq, true)
      → Placed json s acked gen a p' answer

-- The state behind a push of the snapshot `a`: where there is no error, the one audience frame is
-- in flight and carries it.
pub record Pushed (json : Json) (s : Sender) (acked gen : ℕ) (a : Audience)
    (out : SessionProto × (ℕ × Bool) × Option LogError) : Type 0 where
  pub valid : IsValid out.0
  pub latest : out.0.audience_latest ≡ a
  pub carried : out.2 ≡ none → (out.0.audience_gen ≡ a.gen) × InFlight out.0.down out.0.audience_seq
  pub placed : out.2 ≡ none → Placed json s acked gen a out.0 out.1

audience_note : SessionProto → Audience → SessionProto → SessionProto
audience_note p a q = record q {
  audience_seq = next_seq p;
  audience_gen = a.gen;
  audience_sent_gen = 0;
}

same_Tracked :
    (s s' : Sender) (m : List (ℕ × ReqAck))
    → s'.next ≡ s.next
    → s'.acked ≡ s.acked
    → All (Tracked s) m
    → All (Tracked s') m
same_Tracked s s' [] e e' a = tt
same_Tracked s s' ((seq, ra) ∷ m) e e' a =
    ((omega (arith, a.0.0), omega (arith, a.0.1)), same_Tracked s s' m e e' a.1)

elided-IsValid :
    (p : SessionProto) (s : Sender)
    → IsValid p
    → Log.IsValid s
    → s.next ≡ p.down.next
    → s.acked ≡ p.down.acked
    → IsValid (record p { down = s })
elided-IsValid p s v down next acked = record {
  down = down;
  tracked = same_Tracked p.down s p.req_acks next acked v.tracked;
  audience = moved v.audience;
  newest = v.newest;
}
  where
    moved :
        (p.audience_seq ≡ 0) ⊎ InFlight p.down p.audience_seq
        → (p.audience_seq ≡ 0) ⊎ InFlight s p.audience_seq
    moved (inl z) = inl z
    moved (inr f) = inr (omega (arith, f.0), omega (arith, f.1))

pub forget_audience-IsValid : (p : SessionProto) → IsValid p → IsValid (forget_audience p)
forget_audience-IsValid p v = record {
  down = v.down;
  tracked = v.tracked;
  audience = inl refl;
  newest = omega arith;
}

-- The frame in the log carries the latest generation.
regenerated :
    (q : SessionProto) (a : Audience)
    → IsValid q
    → q.audience_latest ≡ a
    → IsValid (record q { audience_gen = a.gen })
regenerated q a w e = record {
  down = w.down;
  tracked = w.tracked;
  audience = w.audience;
  newest = omega (arith, ap (λ x. x.gen) e);
}

pub in_flight :
    (q : SessionProto)
    → q.audience_seq ≢ 0
    → (q.audience_seq ≡ 0) ⊎ InFlight q.down q.audience_seq
    → InFlight q.down q.audience_seq
in_flight q n (inl z) = absurd (n z)
in_flight q n (inr f) = f

logged_log :
    (p : SessionProto) (payload : Bytes)
    → IsValid p
    → p.down.next + 1 < 2 ^ 64
    → (logged p payload).down.log
      ≡ p.down.log ++ (record { seq = next_seq p; payload = payload } ∷ [])
logged_log p payload v room =
    let (seq, next, acked, log, w) = append_lem p.down payload v.down room in
    log
    ∙ ap (λ n. p.down.log ++ (record { seq = n; payload = payload } ∷ []))
        (seq ∙ sym (number p payload v room))

module _ (json : Json) (limits : Limits) where
  pub append_audience-Pushed :
      (p : SessionProto) (gen : ℕ) (a : Audience)
      → IsValid p
      → p.down.next + 1 < 2 ^ 64
      → p.audience_latest ≡ a
      → Pushed json p.down p.up.acked gen a (append_audience json limits p a)
  unfolding append_audience audience_note
  append_audience-Pushed p gen a v room latest =
      sent (encode json (new_audience (next_seq p) p.up.acked a)) refl
    where
      sent :
          (frame : Result FrameError Bytes)
          → encode json (new_audience (next_seq p) p.up.acked a) ≡ frame
          → Pushed json p.down p.up.acked gen a (append_audience json limits p a)
      sent (err x) h =
          rw (append_audience, h)
            (record { valid = v; latest = latest; carried = λ e. cc; placed = λ e. cc })
      sent (ok payload) h =
          let out = log_payload_lem limits p payload (audience_note p a) in
          let (valid, fresh) = logged-IsValid p payload v room in
          let log = logged_log p payload v room in
          let newest : a.gen ≤ p.audience_latest.gen = omega (arith, ap (λ x. x.gen) latest) in
          rw (append_audience, h, out)
            (record {
              valid = record {
                down = valid.down;
                tracked = valid.tracked;
                audience = inr fresh;
                newest = newest;
              };
              latest = latest;
              carried = λ e. (refl, fresh);
              placed = λ e. at_end payload h log refl;
            })

  pub replace_audience-Pushed :
      (p : SessionProto) (gen : ℕ) (a : Audience)
      → IsValid p
      → p.down.next + 1 < 2 ^ 64
      → p.audience_latest ≡ a
      → p.audience_seq ≢ 0
      → Pushed json p.down p.up.acked gen a (replace_audience json limits p a)
  unfolding replace_audience
  replace_audience-Pushed p gen a v room latest framed =
      sent (encode json (new_audience p.audience_seq p.up.acked a)) refl
    where
      sent :
          (frame : Result FrameError Bytes)
          → encode json (new_audience p.audience_seq p.up.acked a) ≡ frame
          → Pushed json p.down p.up.acked gen a (replace_audience json limits p a)
      sent (err x) h =
          rw (replace_audience, h)
            (record { valid = v; latest = latest; carried = λ e. cc; placed = λ e. cc })
      sent (ok payload) h =
          let (down, next, acked) = elide-IsValid p.down p.audience_seq payload v.down in
          let s : Sender = (elide p.down p.audience_seq payload).0 in
          let kept : IsValid (record p { down = s }) = elided-IsValid p s v down next acked in
          let replaced : SessionProto = record p { down = s; audience_gen = a.gen } in
          elim (elide_lem p.down p.audience_seq payload v.down) [
            | inl (missing, same) ↦
                rw (replace_audience, h, missing)
                  (subst
                    (λ d.
                      Pushed json d p.up.acked gen a
                        (append_audience json limits (forget_audience (record p { down = s })) a))
                    same
                    (append_audience-Pushed (forget_audience (record p { down = s })) gen a
                      (forget_audience-IsValid (record p { down = s }) kept)
                      (omega (arith, room, next)) latest))
            | inr (found, exchanged) ↦ elim (Bool-cases (over_budget limits replaced)) [
              | inl over ↦
                  rw (replace_audience, h, found, over)
                    (record {
                      valid = regenerated (record p { down = s }) a kept latest;
                      latest = latest;
                      carried = λ e. cc;
                      placed = λ e. cc;
                    })
              | inr within ↦
                  rw (replace_audience, h, found, within)
                    (record {
                      valid = regenerated (record p { down = s }) a kept latest;
                      latest = latest;
                      carried = λ e. (refl, in_flight (record p { down = s }) framed kept.audience);
                      placed = λ e. in_place payload h exchanged refl;
                    })
            ]
          ]
