-- ===== src/Arp/Tests.antt =====
-- An instance of the theorem on ARP requests.
use mathlib.Core.List.{[], ◌∷◌, ◌++◌}
use okam_ha_proxy.Prelude.{◌<◌, All, arith, ◌≡◌, ◌↔◌, refl, some, Bytes, codes, replicate}
use okam_ha_proxy.Arp.{packet_of, observe}
use okam_ha_proxy.Arp.Frames.{Wakes, observe-Wakes}
use okam_ha_proxy.Cs2.Examples.{plain_inet}

-- A broadcast request of the host "cam1".
abbrev request : Bytes
request =
    replicate 6 255
    ++ ((2 ∷ 0 ∷ 0 ∷ 0 ∷ 0 ∷ 1 ∷ 8 ∷ 6 ∷ 0 ∷ 1 ∷ 8 ∷ 0 ∷ 6 ∷ 4 ∷ 0 ∷ 1 ∷ 2 ∷ 0 ∷ 0 ∷ 0 ∷ 0 ∷ 1 ∷ [])
        ++ (codes "cam1" ++ (replicate 6 0 ++ codes "host")))

request_bytes : All (λ b. b < 256) request
request_bytes = ground arith

observe-Wakes_example :
    (observe plain_inet ((codes "cam1", codes "UID") ∷ []) request
      ≡ some (codes "UID", packet_of plain_inet request))
    ↔ Wakes plain_inet
        ((codes "cam1", codes "UID") ∷ [])
        request
        (codes "UID")
        (packet_of plain_inet request)
observe-Wakes_example =
    observe-Wakes plain_inet ((codes "cam1", codes "UID") ∷ []) request (codes "UID")
      (packet_of plain_inet request) request_bytes

wakes :
    observe plain_inet ((codes "cam1", codes "UID") ∷ []) request
    ≡ some (codes "UID", packet_of plain_inet request)
unfolding observe
wakes = refl
