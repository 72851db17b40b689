-- ===== src/IntrusiveList/Loops.antt =====
-- src/intrusive_list.h: the loops over all nodes, of an iterator and of `clear`.
use sming_nvs.Prelude.{
  ℕ, zero, suc, ◌+◌, ◌<◌, ◌≤◌, ◌≡◌, refl, ap, ◌∙◌, inl, inr, arith, none, some, List, [], ◌∷◌,
  length, get_elem?, drop, Option-cases,
}
use sming_nvs.IntrusiveList.{Links, erase, walk, clear}
use sming_nvs.IntrusiveList.Refines.{IsList, none-above, erase-IsList}
use sming_nvs.IntrusiveList.Pushes.{get-beyond}

drop-get : (xs : List ℕ) (i y : ℕ) → get_elem? xs i ≡ some y → drop i xs ≡ y ∷ drop (suc i) xs
drop-get [] i y e = absurd (ground (arith, e))
drop-get (x ∷ xs) zero y e = ground (arith, e)
drop-get (x ∷ xs) (suc i) y e = drop-get xs i y e

drop-beyond : (xs : List ℕ) (i : ℕ) → length xs ≤ i → drop i xs ≡ []
drop-beyond [] zero le = refl
drop-beyond [] (suc i) le = refl
drop-beyond (x ∷ xs) zero le = absurd (omega (arith, le))
drop-beyond (x ∷ xs) (suc i) le = drop-beyond xs i (omega (arith, le))

walk-none : (k : ℕ) (l : Links) → walk k none l ≡ some []
walk-none zero l = refl
walk-none (suc k) l = refl

walk-from :
    (l : Links) (xs : List ℕ)
    → IsList l xs
    → (k i : ℕ) → i + k ≡ length xs
    → walk k (get_elem? xs i) l ≡ some (drop i xs)
walk-from l xs w zero i e =
    rw (get-beyond xs i (omega (arith, e)), drop-beyond xs i (omega (arith, e))) refl
walk-from l xs w (suc k) i e = elim (Option-cases (get_elem? xs i)) [
  | inl none_left ↦ rw (none_left, drop-beyond xs i (none-above xs i none_left)) refl
  | inr (y, there) ↦
      rw
        (
          there,
          drop-get xs i y there,
          w.next i y there,
          walk-from l xs w k (suc i) (omega (arith, e)),
        )
        refl
]

-- An iterator that runs from `begin()` to `end()` meets the nodes of the list, each once and in order.
pub walk-list : (l : Links) (xs : List ℕ) → IsList l xs → walk (length xs) l.first l ≡ some xs
walk-list l xs w =
    ap (λ p. walk (length xs) p l) w.head ∙ walk-from l xs w (length xs) 0 (omega arith)

-- `clear` and `clearAndFreeNodes` come to an end, after as many rounds as there are nodes: they take
-- the nodes in their order, and leave an empty list.
pub clear-IsList :
    (l : Links) (xs : List ℕ)
    → IsList l xs
    → length xs < 0x1_0000_0000
    → (end : Links) × (clear (suc (length xs)) l ≡ some (xs, end)) × IsList end []
clear-IsList l [] w small = (l, rw w.head refl, w)
clear-IsList l (x ∷ xs) w small =
    let (end, cleared, empty) =
      clear-IsList (erase x l) xs (erase-IsList l (x ∷ xs) 0 x w refl small)
        (omega (arith, small)) in
    (end, rw (clear, w.head, cleared) refl, empty)
