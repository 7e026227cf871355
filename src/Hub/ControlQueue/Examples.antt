-- ===== src/Hub/ControlQueue/Examples.antt =====
-- A queue that holds one heartbeat.
use capri_hub.Common.{◌≤◌, ◌≡◌, ◌⊎◌, refl, [], ◌∷◌, ◌++◌, length, All, arith}
use capri_hub.Common.Words.{Bytes}
use capri_hub.Common.Text.{codes}
use capri_hub.Hub.ControlQueue.{
  control_queue_depth, starts_with, contains, is_plain_heartbeat, coalesce, post_control,
}
use capri_hub.Hub.ControlQueue.Bounded.{probes, Probe, post_control_lem}

abbrev plain : Bytes
plain = codes "{}"

abbrev probing : Bytes
probing = codes "{\"probe\":1}"

post_control_lem_example :
    (length (post_control (plain ∷ []) probing) ≤ control_queue_depth)
    × ((probes (post_control (plain ∷ []) probing) ≡ probes ((plain ∷ []) ++ (probing ∷ [])))
        ⊎ All Probe ((plain ∷ []) ++ (probing ∷ [])) × (control_queue_depth ≤ length (plain ∷ [])))
post_control_lem_example = post_control_lem (plain ∷ []) probing (omega arith)

-- A newer plain heartbeat takes the older one's place, and a probe queues behind it.
post_control_run :
    (post_control (plain ∷ []) plain ≡ plain ∷ [])
    × (post_control (plain ∷ []) probing ≡ plain ∷ probing ∷ [])
unfolding post_control coalesce is_plain_heartbeat contains starts_with
post_control_run = (refl, refl)
