-- ===== src/Interfaces.antt =====
-- src/reacjack.c (`chooseInterfaces`) and src/reacjack-pw.c (`choose_interface`): the choice of the
-- interface to capture from. Both are the same code over the family of link-layer addresses,
-- AF_PACKET on Linux and AF_LINK on macOS. A name is its bytes, without the NUL.
pub mod Choice
mod Tests
use reac_jack.Common.{
  Bool, List, Option, [], false, if◌then◌else◌, ltb, negsuc, none, not, pos, some, suc, zero, ℕ, ℤ,
  ◌&&◌, ◌+◌, ◌==◌, ◌||◌, ◌∷◌,
}
use reac_jack.Lifetimes.{Action, acquire, interface_list, release}

-- `struct ifaddrs`: the family of its address, if it has one, and its name.
pub record Interface : Type 0 where
  pub family : Option ℕ
  pub name : List ℕ

-- `ifa->ifa_addr == NULL || !is_link_layer_family(ifa->ifa_addr->sa_family)`, the other way round.
abbrev pub is_link_layer : ℕ → Interface → Bool
is_link_layer link i = elim (i.family) [ none ↦ false | some family ↦ family == link ]

-- The first loop, which shows and counts.
pub count_shown : ℕ → List Interface → ℕ → ℕ
count_shown link [] shown = shown
count_shown link (i ∷ l) shown =
    count_shown link l (if is_link_layer link i then shown + 1 else shown)

-- `snprintf(name, nameSize, "%s", …)`
abbrev pub printed : ℕ → List ℕ → List ℕ
printed zero l = []
printed (suc size) [] = []
printed (suc zero) (x ∷ l) = []
printed (suc (suc size)) (x ∷ l) = x ∷ printed (suc size) l

-- The second loop, which looks for the number selected.
pub pick : ℕ → ℕ → ℕ → List Interface → ℕ → Option (List ℕ)
pick link size selected [] current = none
pick link size selected (i ∷ l) current =
    let rest = pick link size selected l current in
    let counted = pick link size selected l (current + 1) in
    if not (is_link_layer link i)
    then rest
    else if current + 1 == selected
    then some (printed size i.name)
    else counted

-- What `scanf` gave for the number: `result != 1`, or the number.
abbrev pub is_selectable : ℕ → ℤ → Bool
is_selectable shown (pos n) = not (ltb n 1) && not (ltb shown n)
is_selectable shown (negsuc n) = false

abbrev chosen : ℕ → ℕ → List Interface → ℤ → Option (List ℕ)
chosen link size l (pos n) = pick link size n l 0
chosen link size l (negsuc n) = none

-- The function: none for -1, or the name for 0; and what it did with the list of `getifaddrs`.
unfoldable pub choose_interface :
    ℕ → ℕ → Option (List Interface) → Option ℤ → Option (List ℕ) × List Action
unfolding count_shown pick
choose_interface link size none answer = (none, [])
choose_interface link size (some l) none =
    (none, acquire interface_list ∷ release interface_list ∷ [])
choose_interface link size (some l) (some selected) =
    let shown = count_shown link l 0 in
    (
      if shown == 0 || not (is_selectable shown selected)
          then none
          else chosen link size l selected,
      acquire interface_list ∷ release interface_list ∷ [],
    )
