-- ===== src/HashList/Erase.antt =====
-- `HashList::erase` against the one list of entries.
use sming_nvs.Prelude.{ℕ, ◌<◌, ◌≡◌, refl, arith, Bool, true, false, ◌&&◌, ◌||◌, List, [], ◌∷◌, ◌++◌}
use sming_nvs.HashList.{Node, Block, HashList, erase_nodes, erase}
use sming_nvs.HashList.Entries.{live, entries, without, holds, Distinct}

holds-append : (i : ℕ) (xs ys : List Node) → holds i (xs ++ ys) ≡ (holds i xs || holds i ys)
holds-append i [] ys = refl
holds-append i (x ∷ xs) ys = ground (arith, holds-append i xs ys)

without-append : (i : ℕ) (xs ys : List Node) → without i (xs ++ ys) ≡ without i xs ++ without i ys
without-append i [] ys = refl
without-append i (x ∷ xs) ys = ground (arith, without-append i xs ys)

without-absent : (i : ℕ) (xs : List Node) → holds i xs ≡ false → without i xs ≡ xs
without-absent i [] h = refl
without-absent i (x ∷ xs) h = ground (arith, without-absent i xs)

Distinct-left : (xs ys : List Node) → Distinct (xs ++ ys) → Distinct xs
Distinct-left [] ys d = tt
Distinct-left (x ∷ xs) ys d = ground (arith, holds-append x.index xs ys, Distinct-left xs ys d.1)

Distinct-right : (xs ys : List Node) → Distinct (xs ++ ys) → Distinct ys
Distinct-right [] ys d = d
Distinct-right (x ∷ xs) ys d = Distinct-right xs ys d.1

Distinct-apart :
    (i : ℕ) (xs ys : List Node) → Distinct (xs ++ ys) → holds i xs ≡ true → holds i ys ≡ false
Distinct-apart i [] ys d h = cc
Distinct-apart i (x ∷ xs) ys d h =
    ground (arith, holds-append x.index xs ys, Distinct-apart i xs ys d.1)

erase_nodes-Nodes :
    (i : ℕ) (have found : Bool) (b : Block)
    → i < 255
    → Distinct (live b)
    → (have && found) ≡ false
    → (found ≡ true → holds i (live b) ≡ false)
    → let (b', have_end, found_end) = erase_nodes i have found b in
      (live b' ≡ without i (live b))
      × (found_end ≡ (found || holds i (live b)))
      × (have_end ≡ false → (live b' ≡ []) × (have ≡ false))
unfolding erase_nodes
erase_nodes-Nodes i have found [] lt d split past = ground arith
erase_nodes-Nodes i true true (n ∷ ns) lt d split past = cc
erase_nodes-Nodes i true false (n ∷ ns) lt d split past =
    ground (arith, without-absent i (live ns), erase_nodes-Nodes i true false ns lt)
erase_nodes-Nodes i false true (n ∷ ns) lt d split past =
    ground (arith, without-absent i (live ns), erase_nodes-Nodes i false true ns lt)
erase_nodes-Nodes i false false (n ∷ ns) lt d split past = ground (
  arith,
  without-absent i (live ns),
  erase_nodes-Nodes i false true ns lt,
  erase_nodes-Nodes i true false ns lt,
  erase_nodes-Nodes i false false ns lt,
)

-- Of a cache that lists no index twice, `erase` takes out the entry of the index and leaves all
-- others, in their order; it reports the entry as missing exactly where the cache has none.
pub erase-without :
    (i : ℕ) (h : HashList)
    → i < 255
    → Distinct (entries h)
    → (entries (erase i h).0 ≡ without i (entries h)) × ((erase i h).1 ≡ holds i (entries h))
unfolding erase
erase-without i [] lt d = (refl, refl)
erase-without i (b ∷ bs) lt d =
    let nodes = erase_nodes-Nodes i false false b lt (Distinct-left (live b) (entries bs) d) refl in
    ground (
      arith,
      nodes (λ e. absurd (cc e)),
      erase-without i bs lt (Distinct-right (live b) (entries bs) d),
      without-append i (live b) (entries bs),
      holds-append i (live b) (entries bs),
      without-absent i (entries bs),
      Distinct-apart i (live b) (entries bs) d,
    )
