-- ===== src/Hub/Downlink/Examples.antt =====
-- A small frame, and a codec that does not compress.
use capri_hub.Common.{refl, true, Option, none, [], ◌∷◌, arith}
use capri_hub.Common.Words.{Bytes}
use capri_hub.Common.Int.{pos}
use capri_hub.Hub.Downlink.{write_frame}
use capri_hub.Hub.Downlink.Reception.{Received, write_frame-Received}

abbrev no_deflate : Bytes → Option Bytes
no_deflate payload = none

write_frame-Received_example :
    Received no_deflate true (pos 0) (1 ∷ 2 ∷ []) (write_frame no_deflate true 7 (1 ∷ 2 ∷ [])).1
write_frame-Received_example =
    write_frame-Received no_deflate true 7 (1 ∷ 2 ∷ []) (pos 0) (omega arith) refl
