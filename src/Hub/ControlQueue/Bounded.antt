-- ===== src/Hub/ControlQueue/Bounded.antt =====
-- The control queue stays bounded, keeps its order, and drops a probe only as a last resort.
use capri_hub.Common.{
  ℕ, suc, ◌≤◌, ◌<◌, ◌≡◌, ◌⊎◌, inl, inr, refl, ap, false, Option, none, some, List, [], ◌∷◌, ◌++◌,
  ltb, if◌then◌else◌, length, length-append, All, Bool-cases, arith,
}
use capri_hub.Common.Words.{Bytes}
use capri_hub.Hub.ControlQueue.{
  control_queue_depth, is_plain_heartbeat, without_plain, tail_of, drop_oldest_plain, coalesce,
  post_control,
}

-- The frames of a queue that carry a probe or the answer to one.
abbrev pub probes : List Bytes → List Bytes
probes [] = []
probes (p ∷ ps) = if is_plain_heartbeat p then probes ps else p ∷ probes ps

abbrev pub Probe : Bytes → Type 0
Probe p = is_plain_heartbeat p ≡ false

-- What a search for the first plain heartbeat finds.
abbrev Removed : List Bytes → Option (List Bytes) → Type 0
Removed q none = All Probe q
Removed q (some kept) = (probes kept ≡ probes q) × (suc (length kept) ≡ length q)

Removed-behind :
    (p : Bytes) (ps : List Bytes) (rest : Option (List Bytes))
    → Probe p
    → Removed ps rest
    → Removed (p ∷ ps) (elim rest [ none ↦ none | some kept ↦ some (p ∷ kept) ])
Removed-behind p ps none h r = (h, r)
Removed-behind p ps (some kept) h r = rw h (ap (◌∷◌ p) r.0, ap suc r.1)

without_plain-Removed : (q : List Bytes) → Removed q (without_plain q)
unfolding without_plain
without_plain-Removed [] = tt
without_plain-Removed (p ∷ ps) = elim (Bool-cases (is_plain_heartbeat p)) [
  | inl plain ↦ rw (without_plain, plain) (rw plain refl, refl)
  | inr probe ↦
      rw (without_plain, probe)
        (Removed-behind p ps (without_plain ps) probe (without_plain-Removed ps))
]

-- What coalescing does: the last frame makes room for the new one, both plain.
abbrev Coalesced : List Bytes → Bytes → Option (List Bytes) → Type 0
Coalesced q payload none = Unit {0}
Coalesced q payload (some q') = (probes q' ≡ probes (q ++ (payload ∷ []))) × (length q' ≡ length q)

Coalesced-behind :
    (p : Bytes) (ps : List Bytes) (payload : Bytes) (out : Option (List Bytes))
    → Coalesced ps payload out
    → Coalesced (p ∷ ps) payload (elim out [ none ↦ none | some q ↦ some (p ∷ q) ])
Coalesced-behind p ps payload none c = tt
Coalesced-behind p ps payload (some q) c = elim (Bool-cases (is_plain_heartbeat p)) [
  | inl plain ↦ rw plain (c.0, ap suc c.1)
  | inr probe ↦ rw probe (ap (◌∷◌ p) c.0, ap suc c.1)
]

coalesce-Coalesced : (q : List Bytes) (payload : Bytes) → Coalesced q payload (coalesce q payload)
unfolding coalesce
coalesce-Coalesced [] payload = tt
coalesce-Coalesced (p ∷ []) payload = elim (Bool-cases (is_plain_heartbeat payload)) [
  | inr probe ↦ rw (coalesce, probe) tt
  | inl plain ↦ elim (Bool-cases (is_plain_heartbeat p)) [
    | inr probe ↦ rw (coalesce, plain, probe) tt
    | inl plain' ↦ rw (coalesce, plain, plain') (rw plain' refl, refl)
  ]
]
coalesce-Coalesced (p ∷ x ∷ ps) payload =
    Coalesced-behind p (x ∷ ps) payload (coalesce (x ∷ ps) payload)
      (coalesce-Coalesced (x ∷ ps) payload)

abbrev Bounded : List Bytes → Bytes → List Bytes → Type 0
Bounded q payload out =
    (length out ≤ control_queue_depth)
    × ((probes out ≡ probes (q ++ (payload ∷ [])))
        ⊎ All Probe (q ++ (payload ∷ [])) × (control_queue_depth ≤ length q))

length-tail_of : (q : List Bytes) (n : ℕ) → length q ≤ suc n → length (tail_of q) ≤ n
length-tail_of [] n h = omega arith
length-tail_of (p ∷ ps) n h = omega arith

dropped-Bounded :
    (q : List Bytes) (payload : Bytes) (out : Option (List Bytes))
    → length q ≤ control_queue_depth
    → control_queue_depth < length (q ++ (payload ∷ []))
    → Removed (q ++ (payload ∷ [])) out
    → Bounded q payload (elim out [ none ↦ tail_of (q ++ (payload ∷ [])) | some kept ↦ kept ])
dropped-Bounded q payload none h full r =
    let grown = length-append q (payload ∷ []) in
    (
      length-tail_of (q ++ (payload ∷ [])) control_queue_depth (omega (arith, grown)),
      inr (r, omega (arith, grown)),
    )
dropped-Bounded q payload (some kept) h full r =
    (omega (arith, r.1, length-append q (payload ∷ [])), inl r.0)

posted-Bounded :
    (q : List Bytes) (payload : Bytes) (out : Option (List Bytes))
    → length q ≤ control_queue_depth
    → Coalesced q payload out
    → Bounded q payload (elim out [
      | some q' ↦ q'
      | none ↦
          let longer = q ++ (payload ∷ []) in
          if ltb control_queue_depth (length longer) then drop_oldest_plain longer else longer
    ])
unfolding drop_oldest_plain
posted-Bounded q payload (some q') h c = (omega (arith, c.1), inl c.0)
posted-Bounded q payload none h c =
    elim (Bool-cases (ltb control_queue_depth (length (q ++ (payload ∷ []))))) [
      | inl full ↦ rw full (
          dropped-Bounded q payload (without_plain (q ++ (payload ∷ []))) h (ground arith)
            (without_plain-Removed (q ++ (payload ∷ []))))
      | inr room ↦ rw room (ground arith, inl refl)
    ]

-- `postControl` on a queue within its depth keeps it within its depth. Every probe and every answer
-- to one is kept, in order, unless the queue was full of them and the new frame is one too.
pub post_control_lem :
    (q : List Bytes) (payload : Bytes)
    → length q ≤ control_queue_depth
    → (length (post_control q payload) ≤ control_queue_depth)
      × ((probes (post_control q payload) ≡ probes (q ++ (payload ∷ [])))
          ⊎ All Probe (q ++ (payload ∷ [])) × (control_queue_depth ≤ length q))
unfolding post_control
post_control_lem q payload h =
    posted-Bounded q payload (coalesce q payload) h (coalesce-Coalesced q payload)
