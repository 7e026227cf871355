-- ===== src/Hub/ControlQueue.antt =====
-- internal/hub/writer.go: the queue of control frames.
pub mod Bounded
mod Examples
use capri_hub.Common.{
  ℕ, zero, suc, ◌≡◌, Bool, true, false, not, ◌&&◌, ◌||◌, Option, none, some, List, [], ◌∷◌, ◌++◌,
  ltb, leb, ◌==◌, if◌then◌else◌, length,
}
use capri_hub.Common.Words.{Bytes}
use capri_hub.Common.Text.{codes}

-- `controlQueueDepth` and `minDownCompressSize`
abbrev pub control_queue_depth : ℕ
control_queue_depth = 16

abbrev pub min_down_compress_size : ℕ
min_down_compress_size = 256

-- Does the text start with the pattern?
unfoldable pub starts_with : Bytes → Bytes → Bool
starts_with [] text = true
starts_with (p ∷ ps) [] = false
starts_with (p ∷ ps) (t ∷ ts) = (p == t) && starts_with ps ts

-- `bytes.Contains`
unfoldable pub contains : Bytes → Bytes → Bool
unfolding starts_with
contains [] pattern = starts_with pattern []
contains (t ∷ ts) pattern = starts_with pattern (t ∷ ts) || contains ts pattern

-- `isPlainHeartbeat`
unfoldable pub is_plain_heartbeat : Bytes → Bool
unfolding contains
is_plain_heartbeat payload =
    not (contains payload (codes "\"probe\"")) && not (contains payload (codes "\"probeAck\""))

-- The loop of `dropOldestPlainLocked`: the queue without its first plain heartbeat, if it has one.
unfoldable pub without_plain : List Bytes → Option (List Bytes)
without_plain [] = none
without_plain (p ∷ ps) =
    let rest = without_plain ps in
    if is_plain_heartbeat p
    then some ps
    else elim rest [ none ↦ none | some kept ↦ some (p ∷ kept) ]

abbrev pub tail_of : List Bytes → List Bytes
tail_of [] = []
tail_of (p ∷ ps) = ps

-- `dropOldestPlainLocked`
unfoldable pub drop_oldest_plain : List Bytes → List Bytes
unfolding without_plain
drop_oldest_plain q = elim (without_plain q) [ none ↦ tail_of q | some kept ↦ kept ]

-- The coalescing of `postControl`: the queue with its last frame replaced, where both it and the
-- new frame are plain.
unfoldable pub coalesce : List Bytes → Bytes → Option (List Bytes)
coalesce [] payload = none
coalesce (p ∷ []) payload =
    if is_plain_heartbeat payload && is_plain_heartbeat p then some (payload ∷ []) else none
coalesce (p ∷ x ∷ ps) payload = elim (coalesce (x ∷ ps) payload) [
  | none ↦ none
  | some q ↦ some (p ∷ q)
]

-- `postControl`
unfoldable pub post_control : List Bytes → Bytes → List Bytes
unfolding coalesce drop_oldest_plain
post_control q payload = elim (coalesce q payload) [
  | some q' ↦ q'
  | none ↦
      let longer = q ++ (payload ∷ []) in
      if ltb control_queue_depth (length longer) then drop_oldest_plain longer else longer
]

-- `takeControl`
unfoldable pub take_control : List Bytes → List Bytes × Option Bytes
take_control [] = ([], none)
take_control (c ∷ q) = (q, some c)
