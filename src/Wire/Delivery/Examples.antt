-- ===== src/Wire/Delivery/Examples.antt =====
-- A link on which the second frame overtakes the first.
use capri_hub.Common.{◌≤◌, ◌≡◌, refl, false, [], ◌∷◌, ◌++◌, take, drop, length, arith}
use capri_hub.Common.Int.{pos}
use capri_hub.Wire.Sender.{new_sender, append, append_entry}
use capri_hub.Wire.Receiver.{new_receiver_window, accept, park, release, drain}
use capri_hub.Wire.Delivery.{Link, start, Reach, here, next, send, arrive}
use capri_hub.Wire.Delivery.Numbering.{number}
use capri_hub.Wire.Delivery.Sound.{Reach-prefix}
use capri_hub.Wire.Delivery.Replay.{replay, Reach-replay}

abbrev one_sent : Link
one_sent = record (start (pos 4)) {
  sent = [] ++ ((7 ∷ []) ∷ []);
  sender = (append (start (pos 4)).sender (7 ∷ [])).0;
}

abbrev two_sent : Link
two_sent = record one_sent {
  sent = one_sent.sent ++ ((8 ∷ []) ∷ []);
  sender = (append one_sent.sender (8 ∷ [])).0;
}

-- The second frame is parked.
abbrev overtaken : Link
overtaken = record two_sent {
  receiver = (accept two_sent.receiver 2 (8 ∷ [])).0;
  delivered = two_sent.delivered ++ (accept two_sent.receiver 2 (8 ∷ [])).1.ready;
}

two_sent_reached : Reach (start (pos 4)) two_sent
unfolding append append_entry new_sender
two_sent_reached =
    next (next here (send (start (pos 4)) (7 ∷ []) (omega arith)))
      (send one_sent (8 ∷ []) (omega arith))

overtaken_reached : Reach (start (pos 4)) overtaken
overtaken_reached = next two_sent_reached (arrive two_sent 1 (8 ∷ []) refl)

Reach-prefix_example :
    (overtaken.delivered ≡ take overtaken.receiver.acked overtaken.sent)
    × (overtaken.receiver.acked ≤ length overtaken.sent)
    × (overtaken.sender.acked ≤ overtaken.receiver.acked)
    × (overtaken.sender.log
        ≡ number overtaken.sender.acked (drop overtaken.sender.acked overtaken.sent))
Reach-prefix_example = Reach-prefix (pos 4) overtaken_reached

Reach-replay_example :
    ((replay overtaken.sender.log overtaken.receiver).failed ≡ false)
    × (overtaken.delivered ++ (replay overtaken.sender.log overtaken.receiver).delivered
        ≡ overtaken.sent)
Reach-replay_example = Reach-replay (pos 4) overtaken_reached

-- Nothing is released yet, and the first frame releases both.
overtaken_run :
    (overtaken.delivered ≡ [])
    × ((accept overtaken.receiver 1 (7 ∷ [])).1.ready ≡ (7 ∷ []) ∷ (8 ∷ []) ∷ [])
unfolding accept park release drain new_receiver_window
overtaken_run = (refl, refl)
