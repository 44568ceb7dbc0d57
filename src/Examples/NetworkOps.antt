-- ===== src/Examples/NetworkOps.antt =====
-- A file with the first and the third of three VLANs, as it is after a deletion of the second.
use ur_webif.Base.{true, some, [], Bytes, codes}
use ur_webif.Examples.Json.{Json, words, nothing, slot, end, cell, program}
use ur_webif.NetworkOps.Store.{Store, World}

abbrev vlan : Bytes → Json
vlan id = slot (codes "id") (words id) (slot (codes "enabled") (words (codes "true")) nothing)

abbrev two_vlans : Json
two_vlans =
    slot (codes "vlans") (cell (vlan (codes "vlan_1")) (cell (vlan (codes "vlan_3")) end)) nothing

abbrev stored : Store Json
stored = record { document = nothing; file = some (program two_vlans []) }

abbrev world : World
world = record { created = codes "2025"; modified = codes "2026"; seconds = 7; can_write = true }
