-- ===== src/IntrusiveList.antt =====
-- src/intrusive_list.h: `intrusive_list`, whose nodes carry their neighbours. A node is its address;
-- `prev` and `next` are the memory of all nodes, those of other lists too.
pub mod Refines
pub mod Pushes
pub mod Loops
use sming_nvs.Prelude.{
  ℕ, zero, suc, ◌+◌, Bool, true, false, Option, none, some, List, [], ◌∷◌, ◌==◌, if◌then◌else◌, u32,
}

pub record Links : Type 0 where
  pub first : Option ℕ
  pub last : Option ℕ
  pub size : ℕ
  pub prev : ℕ → Option ℕ
  pub next : ℕ → Option ℕ

-- A pointer written to a node, where the node is one.
abbrev link : Option ℕ → Option ℕ → (ℕ → Option ℕ) → ℕ → Option ℕ
link none target links x = links x
link (some node) target links x = if x == node then target else links x

-- The end that stays where the other is a node.
abbrev or_end : Option ℕ → Option ℕ → Option ℕ → Option ℕ
or_end none replaced old = replaced
or_end (some node) replaced old = old

pub push_back : ℕ → Links → Links
push_back node l = record {
  first = or_end l.first (some node) l.first;
  last = some node;
  size = u32 (l.size + 1);
  prev = link (some node) l.last l.prev;
  next = link (some node) none (link l.last (some node) l.next);
}

pub push_front : ℕ → Links → Links
push_front node l = record {
  first = some node;
  last = or_end l.last (some node) l.last;
  size = u32 (l.size + 1);
  prev = link l.first (some node) (link (some node) none l.prev);
  next = link (some node) l.first l.next;
}

-- `insert` between two nodes.
abbrev insert_between : ℕ → ℕ → ℕ → Links → Links
insert_between prev next node l = record l {
  size = u32 (l.size + 1);
  prev = link (some node) (some prev) (link (some next) (some node) l.prev);
  next = link (some node) (some next) (link (some prev) (some node) l.next);
}

abbrev insert : Option ℕ → ℕ → Links → Links
insert none node l = push_back node l
insert (some next) node l = elim (l.prev next) [
  | none ↦ push_front node l
  | some prev ↦ insert_between prev next node l
]

pub erase : ℕ → Links → Links
erase it l = record {
  first = or_end (l.prev it) (l.next it) l.first;
  last = or_end (l.next it) (l.prev it) l.last;
  size = u32 (l.size + 0xffff_ffff);
  prev = link (l.next it) (l.prev it) l.prev;
  next = link (l.prev it) (l.next it) l.next;
}

-- `pop_front` and `pop_back` of a list that has a node.
abbrev pop_front : Links → Option Links
pop_front l = elim l.first [ none ↦ none | some node ↦ some (erase node l) ]

abbrev pop_back : Links → Option Links
pop_back l = elim l.last [ none ↦ none | some node ↦ some (erase node l) ]

abbrev is_empty : Links → Bool
is_empty l = l.size == 0

-- `clear`, and the nodes that `clearAndFreeNodes` deletes, in the order of their deletion.
abbrev pub clear : ℕ → Links → Option (List ℕ × Links)
clear zero l = none
clear (suc fuel) l = elim l.first [
  | none ↦ some ([], l)
  | some node ↦ elim (clear fuel (erase node l)) [
    | none ↦ none
    | some (nodes, end) ↦ some (node ∷ nodes, end)
  ]
]

-- The nodes that an iterator meets from a position to the end.
abbrev pub walk : ℕ → Option ℕ → Links → Option (List ℕ)
walk fuel none l = some []
walk zero (some node) l = none
walk (suc fuel) (some node) l = elim (walk fuel (l.next node) l) [
  | none ↦ none
  | some nodes ↦ some (node ∷ nodes)
]
