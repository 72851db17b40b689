-- ===== src/HashList/Entries.antt =====
-- What a cache holds, as one list of live nodes in the order of their insertion.
use mathlib.Core.Path.{subst}
use sming_nvs.Prelude.{
  suc, ap, ltb, ◌+◌, ◌⊎◌, Bool-cases, length-append, ℕ, ◌≤◌, ◌<◌, ◌≡◌, ◌≢◌, refl, sym, arith, Bool,
  false, ◌&&◌, ◌||◌, Option, none, some, List, [], ◌∷◌, ◌++◌, length, append-nil, append_assoc, leb,
  ◌==◌, if◌then◌else◌, Option-cases, inl, inr,
}
use sming_nvs.HashList.{
  Node, new_node, Block, HashList, block_entries, insert_last, insert, find_node, find,
}

-- The live nodes of a block.
abbrev pub live : Block → List Node
live [] = []
live (n ∷ ns) = if n.index == 255 then live ns else n ∷ live ns

abbrev pub entries : HashList → List Node
entries [] = []
entries (b ∷ bs) = live b ++ entries bs

-- The first of them at or after `start` with the hash.
abbrev pub first_match : ℕ → ℕ → List Node → Option ℕ
first_match start hash [] = none
first_match start hash (n ∷ ns) =
    if leb start n.index && n.hash == hash then some n.index else first_match start hash ns

-- The list without the node of an index.
abbrev pub without : ℕ → List Node → List Node
without index [] = []
without index (n ∷ ns) = if n.index == index then without index ns else n ∷ without index ns

abbrev pub holds : ℕ → List Node → Bool
holds index [] = false
holds index (n ∷ ns) = n.index == index || holds index ns

-- No index is listed twice.
abbrev pub Distinct : List Node → Type 0
Distinct [] = Unit {0}
Distinct (n ∷ ns) = (holds n.index ns ≡ false) × Distinct ns

-- Every block is within its size.
abbrev pub Fits : HashList → Type 0
Fits [] = Unit {0}
Fits (b ∷ bs) = (length b ≤ block_entries) × Fits bs

pub first_match-append :
    (start hash : ℕ) (xs ys : List Node)
    → first_match start hash (xs ++ ys)
      ≡ (elim (first_match start hash xs) [ some i ↦ some i | none ↦ first_match start hash ys ])
first_match-append start hash [] ys = refl
first_match-append start hash (x ∷ xs) ys = ground (arith, first_match-append start hash xs ys)

find_node-live :
    (start hash : ℕ) (b : Block) → find_node start hash b ≡ first_match start hash (live b)
unfolding find_node
find_node-live start hash [] = refl
find_node-live start hash (n ∷ ns) = ground (arith, find_node-live start hash ns)

-- `find` returns the first live entry, in the order of insertion, whose hash is the one sought and
-- whose index is not below `start`.
pub find-first_match :
    (start hash : ℕ) (h : HashList) → find start hash h ≡ first_match start hash (entries h)
unfolding find
find-first_match start hash [] = refl
find-first_match start hash (b ∷ bs) = ground (
  arith,
  find_node-live start hash b,
  find-first_match start hash bs,
  first_match-append start hash (live b) (entries bs),
)

live-append : (xs ys : Block) → live (xs ++ ys) ≡ live xs ++ live ys
live-append [] ys = refl
live-append (x ∷ xs) ys = ground (arith, live-append xs ys)

entries-append : (xs ys : HashList) → entries (xs ++ ys) ≡ entries xs ++ entries ys
entries-append [] ys = refl
entries-append (x ∷ xs) ys = rw (entries-append xs ys) (sym (append_assoc (live x) _ _))

live_one : (n : Node) → n.index ≢ 255 → live (n ∷ []) ≡ n ∷ []
live_one n ne = ground arith

entries-insert_last :
    (n : Node) (h h' : HashList)
    → n.index ≢ 255
    → insert_last n h ≡ some h'
    → entries h' ≡ entries h ++ n ∷ []
unfolding insert_last
entries-insert_last n [] h' ne e = cc
entries-insert_last n (b ∷ []) h' ne e =
    ground (
      arith,
      live-append b (n ∷ []),
      live_one n,
      append-nil (live b ++ n ∷ []),
      append-nil (live b),
    )
entries-insert_last n (b ∷ c ∷ bs) h' ne e = elim (Option-cases (insert_last n (c ∷ bs))) [
  | inl q ↦ absurd (ground arith)
  | inr (t, q) ↦ ground (
    arith,
    entries-insert_last n (c ∷ bs) t ne q,
    append_assoc (live b) (entries (c ∷ bs)) (n ∷ []),
  )
]

-- A new entry stands behind all others, whether it fills a block up or begins one.
pub entries-insert :
    (hash index : ℕ) (granted : Bool) (h h' : HashList)
    → index < 255
    → insert hash index granted h ≡ some h'
    → entries h' ≡ entries h ++ new_node hash index ∷ []
unfolding insert
entries-insert hash index granted h h' lt e =
    let n : Node = new_node hash index in
    let ne : n.index ≢ 255 = omega arith in
    let old = Option-cases (insert_last n h) in
    ground (
      arith,
      old,
      entries-insert_last n h h' ne,
      entries-append h ((n ∷ []) ∷ []),
      append-nil (n ∷ []),
      live_one n ne,
    )

insert_last-Fits :
    (n : Node) (h h' : HashList)
    → Fits h
    → insert_last n h ≡ some h'
    → Fits h' × (length h' ≡ length h)
unfolding insert_last
insert_last-Fits n [] h' w e = absurd (ground (arith, e))
insert_last-Fits n (b ∷ []) h' w e = elim (Bool-cases (ltb (length b) block_entries)) [
  | inl room ↦
      let same : (b ++ n ∷ []) ∷ [] ≡ h' = ground (arith, e, room) in
      subst (λ (x : HashList). Fits x × (length x ≡ 1)) same
        ((ground (arith, room, length-append b (n ∷ [])), tt), refl)
  | inr full ↦ absurd (ground (arith, e, full))
]
insert_last-Fits n (b ∷ c ∷ bs) h' w e = elim (Option-cases (insert_last n (c ∷ bs))) [
  | inl q ↦ absurd (ground (arith, e, q))
  | inr (t, q) ↦
      let same : b ∷ t ≡ h' = ground (arith, e, q) in
      let rest = insert_last-Fits n (c ∷ bs) t w.1 q in
      subst (λ (x : HashList). Fits x × (length x ≡ length (b ∷ c ∷ bs))) same
        ((w.0, rest.0), ap suc rest.1)
]

Fits-append : (h : HashList) (b : Block) → Fits h → length b ≤ block_entries → Fits (h ++ b ∷ [])
Fits-append [] b w le = (le, tt)
Fits-append (c ∷ h) b w le = (w.0, Fits-append h b w.1 le)

-- An insertion into a cache whose blocks are within their size puts the new entry behind all others
-- and leaves all blocks within their size; it takes no new block, or one.
pub insert-Fits :
    (hash index : ℕ) (granted : Bool) (h h' : HashList)
    → index < 255
    → Fits h
    → insert hash index granted h ≡ some h'
    → (entries h' ≡ entries h ++ new_node hash index ∷ [])
      × Fits h'
      × ((length h' ≡ length h) ⊎ (length h' ≡ length h + 1))
unfolding insert
insert-Fits hash index granted h h' lt w e =
    let n : Node = new_node hash index in
    let (fits, count) : Fits h' × ((length h' ≡ length h) ⊎ (length h' ≡ length h + 1)) =
      elim (Option-cases (insert_last n h)) [
        | inl none_left ↦
            let same : h ++ (n ∷ []) ∷ [] ≡ h' = ground (arith, e, none_left) in
            subst (λ (x : HashList). Fits x × ((length x ≡ length h) ⊎ (length x ≡ length h + 1)))
              same (Fits-append h (n ∷ []) w (omega arith), inr (length-append h ((n ∷ []) ∷ [])))
        | inr (t, q) ↦
            let same : t ≡ h' = ground (arith, e, q) in
            let rest = insert_last-Fits n h t w q in
            subst (λ (x : HashList). Fits x × ((length x ≡ length h) ⊎ (length x ≡ length h + 1)))
              same (rest.0, inl rest.1)
      ] in
    (entries-insert hash index granted h h' lt (unfold insert in e), fits, count)
