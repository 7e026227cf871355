-- ===== src/Hub/Subscribers/Drops.antt =====
-- What a slow page loses.
use capri_hub.Common.{
  ◌+◌, ◌≤◌, ◌≡◌, ◌⊎◌, refl, inl, inr, Bool, false, not, ◌&&◌, some, [], ◌∷◌, ◌++◌, ltb, length,
  length-append, Bool-cases, arith, subst, sym,
}
use capri_hub.Hub.Subscribers.{
  FeEvent, FeSubscriber, sub_ring_cap, sub_ring_critical_slack, resync_drop_threshold,
  critical_event, resync_frame, note_drop, enqueue, deliver,
}

-- What `deliver` does: the event is the last of the queue, or the queue is full for it and stays,
-- and then a critical event leaves a resync frame behind.
abbrev pub Delivered : FeSubscriber → FeEvent → FeSubscriber → Type 0
Delivered s ev s' =
    (s'.queued ≡ s.queued ++ (ev ∷ [])) × (s'.pending_resync ≡ s.pending_resync)
    ⊎ (sub_ring_cap ≤ length s.queued)
      × (s'.queued ≡ s.queued)
      × ((critical_event ev ≡ false)
          ⊎ (sub_ring_cap + sub_ring_critical_slack ≤ length s.queued)
            × (s'.pending_resync ≡ some (resync_frame ev)))

note_drop_queued :
    (s : FeSubscriber) (ev : FeEvent) (critical : Bool)
    → (note_drop s ev critical).queued ≡ s.queued
unfolding note_drop
note_drop_queued s ev critical =
    elim (Bool-cases (not critical && ltb (s.dropped + 1) resync_drop_threshold)) [
      | inl e ↦ rw (note_drop, e) refl
      | inr e ↦ rw (note_drop, e) refl
    ]

-- The queue of a subscriber never exceeds its ring. An event that finds no room is dropped; where
-- it is critical the room that is reserved for such is used up too, and the page is told at once to
-- rebuild.
pub deliver_lem :
    (s : FeSubscriber) (ev : FeEvent)
    → length s.queued ≤ sub_ring_cap + sub_ring_critical_slack
    → Delivered s ev (deliver s ev)
      × (length (deliver s ev).queued ≤ sub_ring_cap + sub_ring_critical_slack)
unfolding enqueue note_drop
deliver_lem s ev b = elim (Bool-cases (critical_event ev)) [
  | inl c ↦ elim (Bool-cases (ltb (length s.queued) (sub_ring_cap + sub_ring_critical_slack))) [
    | inl room ↦
        rw (enqueue, c, room)
          (inl (refl, refl), (let n = length-append s.queued (ev ∷ []) in ground arith))
    | inr full ↦ rw (enqueue, c, full) (inr (ground arith, refl, inr (ground arith, refl)), b)
  ]
  | inr d ↦ elim (Bool-cases (ltb (length s.queued) sub_ring_cap)) [
    | inl room ↦
        rw (enqueue, d, room)
          (inl (refl, refl), (let n = length-append s.queued (ev ∷ []) in ground arith))
    | inr full ↦
        rw (enqueue, d, full)
          (
            inr (ground arith, note_drop_queued s ev false, inl refl),
            subst (λ x. length x ≤ sub_ring_cap + sub_ring_critical_slack)
                (sym (note_drop_queued s ev false)) b,
          )
  ]
]
