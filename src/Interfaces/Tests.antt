-- ===== src/Interfaces/Tests.antt =====
-- Three interfaces, the second of them without a link-layer address.
use reac_jack.Common.{List, [], pos, some, ◌∷◌, ◌≡◌}
use reac_jack.Lifetimes.{IsClean}
use reac_jack.Interfaces.{Interface, choose_interface}
use reac_jack.Interfaces.Choice.{choose_interface_lem}

abbrev interfaces : List Interface
interfaces =
    record { family = some 17; name = 101 ∷ 110 ∷ 48 ∷ [] }
    ∷ record { family = some 2; name = 108 ∷ 111 ∷ [] }
    ∷ record { family = some 17; name = 101 ∷ 110 ∷ 49 ∷ 50 ∷ 51 ∷ [] }
    ∷ []

choose_interface_lem_example :
    let (name, actions) = choose_interface 17 4 (some interfaces) (some (pos 2)) in
    (name ≡ some (101 ∷ 110 ∷ 49 ∷ [])) × IsClean actions
choose_interface_lem_example = choose_interface_lem 17 4 interfaces (pos 2)
