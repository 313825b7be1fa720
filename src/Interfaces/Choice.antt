-- ===== src/Interfaces/Choice.antt =====
-- src/reacjack.c, src/reacjack-pw.c: the interface that is chosen is the one whose number was shown.
use mathlib.Core.Option
use reac_jack.Common.{
  Bool-cases, List, Option, [], ap, arith, eq→==, get_elem?, if◌then◌else◌, inl, inr, length,
  negsuc, ne→==, none, pos, refl, some, suc, zero, ℕ, ℤ, ◌+◌, ◌∙◌, ◌∷◌, ◌≡◌, ◌≤◌,
}
use reac_jack.Lifetimes.{IsClean, perform_all}
use reac_jack.Interfaces.{Interface, choose_interface, count_shown, is_link_layer, pick, printed}

abbrev link_layers : ℕ → List Interface → List Interface
link_layers link [] = []
link_layers link (i ∷ l) =
    let rest = link_layers link l in if is_link_layer link i then i ∷ rest else rest

-- The name of the interface with the number `selected`, counted from 1 over the link-layer ones.
abbrev pub numbered : ℕ → ℕ → List Interface → ℤ → Option (List ℕ)
numbered link size l (negsuc n) = none
numbered link size l (pos zero) = none
numbered link size l (pos (suc k)) =
    Option.map (λ (i : Interface). printed size i.name) (get_elem? (link_layers link l) k)

count_shown_lem :
    (link : ℕ) (l : List Interface) (n : ℕ) → count_shown link l n ≡ n + length (link_layers link l)
unfolding count_shown
count_shown_lem link [] n = omega arith
count_shown_lem link (i ∷ l) n = elim (Bool-cases (is_link_layer link i)) [
  | inl this ↦ rw this (count_shown_lem link l (n + 1) ∙ omega arith)
  | inr other ↦ rw other (count_shown_lem link l n)
]

pick_lem :
    (link size k : ℕ) (l : List Interface) (current : ℕ)
    → pick link size (current + suc k) l current
      ≡ Option.map (λ (i : Interface). printed size i.name) (get_elem? (link_layers link l) k)
unfolding pick
pick_lem link size k [] current = refl
pick_lem link size zero (i ∷ l) current = elim (Bool-cases (is_link_layer link i)) [
  | inr other ↦ rw other (pick_lem link size zero l current)
  | inl this ↦ rw (this, eq→== (current + 1) (current + suc zero) (omega arith))
]
pick_lem link size (suc k) (i ∷ l) current = elim (Bool-cases (is_link_layer link i)) [
  | inr other ↦ rw other (pick_lem link size (suc k) l current)
  | inl this ↦
      let number : current + suc (suc k) ≡ current + 1 + suc k = omega arith in
      rw (this, ne→== (current + 1) (current + suc (suc k)) (omega arith))
        (ap (λ (n : ℕ). pick link size n l (current + 1)) number
          ∙ pick_lem link size k l (current + 1))
]

past_end {ℓ} : {A : Type ℓ} (l : List A) (i : ℕ) → length l ≤ i → get_elem? l i ≡ none
past_end [] i h = refl
past_end (x ∷ l) zero h = absurd (omega arith)
past_end (x ∷ l) (suc i) h = past_end l i (omega arith)

-- On a list of interfaces and a number that was entered, the call gives exactly the name, cut to the
-- buffer, of the link-layer interface with that number; it fails for every other number, and where
-- there is none; and it has freed the list.
pub choose_interface_lem :
    (link size : ℕ) (l : List Interface) (selected : ℤ)
    → let (name, actions) = choose_interface link size (some l) (some selected) in
      (name ≡ numbered link size l selected) × IsClean actions
unfolding choose_interface perform_all
choose_interface_lem link size l (negsuc n) = (ground arith, refl)
choose_interface_lem link size l (pos zero) = (ground arith, refl)
choose_interface_lem link size l (pos (suc k)) = (
  ground
      (arith, count_shown_lem link l 0, pick_lem link size k l 0, past_end (link_layers link l) k),
  refl,
)
