-- ===== src/Page/Commands.antt =====
-- src/nvs_page.cpp: the searches and the commands on the items of a page, against the state and the
-- identity of the page.
use sming_nvs.Prelude.{
  ℕ, suc, zero, ◌+◌, ◌-◌, Bool, true, false, Option, none, some, List, M, Esp, Attempt, done,
  failed, not, ◌||◌, ◌==◌, leb, ltb, if◌then◌else◌,
}
use sming_nvs.EnumTable
use sming_nvs.Item.{Item}
use sming_nvs.Platform.{Platform}
use sming_nvs.Page.State.{Page, Store, corrupt, invalid, uninitialized, entry_count, entry_shape}
use sming_nvs.Page.Find.{
  Query, Found, Verdict, skip, mismatch, hit, find_loop, find_start, find_fuel, missing, find_item,
  find_or_fail, erase_item,
}
use sming_nvs.Page.Items.{
  write_primitive, write_variable, write_item, read_chunks, read_primitive, read_variable,
  read_item, cmp_chunks, cmp_primitive, cmp_variable, cmp_item,
}
use sming_nvs.Page.Copy.{read_from, copy_data, copy_loop, copy_items}
use sming_nvs.Page.Keeps.{
  Kept, Keeps, bind-Keeps, or_invalid-Keeps, pure-Keeps, or_abort-Keeps, if-Keeps, stuck-Keeps,
  gets-Keeps, assert-Keeps, try-Keeps, attempt-Keeps, raise_if-Keeps, keeping,
}
use sming_nvs.Page.Lifecycle.{
  entry_state-Keeps, read_entry-Keeps, erase_entry_and_span-Keeps, hash_insert-Keeps,
  write_entry-Keeps, write_entry_data-Keeps, initialize-Keeps,
}

-- The rules for a case split.
module _ {Dev A : Type 0} where
  bool-Keeps :
      (b : Bool) {m n : M (Store Dev) A}
      → Keeps m
      → Keeps n
      → Keeps {A = A} (elim b [ false ↦ m | true ↦ n ])
  bool-Keeps false h k = h
  bool-Keeps true h k = k

  option-Keeps :
      {B : Type 0} (o : Option B) {m : M (Store Dev) A} {f : B → M (Store Dev) A}
      → Keeps m
      → ((b : B) → Keeps (f b))
      → Keeps {A = A} (elim o [ none ↦ m | some b ↦ f b ])
  option-Keeps none h k = h
  option-Keeps (some b) h k = k b

  attempted-Keeps :
      {B : Type 0} (a : Attempt B) {f : Esp → M (Store Dev) A} {g : B → M (Store Dev) A}
      → ((e : Esp) → Keeps (f e))
      → ((b : B) → Keeps (g b))
      → Keeps {A = A} (elim a [ failed e ↦ f e | done b ↦ g b ])
  attempted-Keeps (failed e) h k = h e
  attempted-Keeps (done b) h k = k b

  verdict-Keeps :
      (v : Verdict) {m n o : M (Store Dev) A}
      → Keeps m
      → Keeps n
      → Keeps o
      → Keeps {A = A} (elim v [ skip ↦ m | mismatch ↦ n | hit ↦ o ])
  verdict-Keeps skip h k l = h
  verdict-Keeps mismatch h k l = k
  verdict-Keeps hit h k l = l

module _ {Dev : Type 0} ⦃P : Platform Dev⦄ where
  find_loop-Keeps :
      (q : Query) (end fuel i : ℕ) (r : Found) → Keeps {Dev = Dev} (find_loop q end fuel i r)
  unfolding find_loop
  find_loop-Keeps q end zero i r = if-Keeps _ stuck-Keeps (pure-Keeps r)
  find_loop-Keeps q end (suc fuel) i r =
      let again = λ (j : ℕ) (r' : Found). find_loop-Keeps q end fuel j r' in
      bool-Keeps _ (pure-Keeps r) (
        bind-Keeps (entry_state-Keeps i) (λ state. bool-Keeps _ (again _ r) (
          bind-Keeps (attempt-Keeps (or_invalid-Keeps (read_entry-Keeps i))) (λ read.
            attempted-Keeps read (λ e. pure-Keeps _)
              (λ item.
                bool-Keeps _
                  (bind-Keeps (try-Keeps (or_invalid-Keeps (erase_entry_and_span-Keeps i)))
                    (λ rc. option-Keeps rc (again _ _) (λ e. pure-Keeps _)))
                  (verdict-Keeps _ (again _ _) (pure-Keeps _) (pure-Keeps _)))))))

  find_item-Keeps : (q : Query) (i : ℕ) (item : Item) → Keeps {Dev = Dev} (find_item q i item)
  unfolding find_item
  find_item-Keeps q i item = bind-Keeps (gets-Keeps (λ p. p)) (λ p.
      if-Keeps (p.state == corrupt || p.state == invalid || p.state == uninitialized)
        (pure-Keeps (missing i item))
        (if-Keeps (leb entry_count i) (pure-Keeps (missing i item)) (
          option-Keeps (find_start P.crc32_le q i p) (pure-Keeps (missing i item)) (λ start.
            find_loop-Keeps q
              (if ltb entry_count p.next_free_entry then entry_count else p.next_free_entry)
              find_fuel start (missing i item)))))

  find_or_fail-Keeps : (q : Query) → Keeps {Dev = Dev} (find_or_fail q)
  unfolding find_or_fail
  find_or_fail-Keeps q = search (keeping, find_item-Keeps) depth 9

  erase_item-Keeps : (q : Query) → Keeps {Dev = Dev} (erase_item q)
  unfolding erase_item
  erase_item-Keeps q = search (keeping, find_or_fail-Keeps, erase_entry_and_span-Keeps) depth 9

  read_chunks-Keeps : (n i left : ℕ) (out : List ℕ) → Keeps {Dev = Dev} (read_chunks n i left out)
  unfolding read_chunks
  read_chunks-Keeps zero i left out = pure-Keeps out
  read_chunks-Keeps (suc n) i left out =
      bind-Keeps (read_entry-Keeps i) (λ e. read_chunks-Keeps n _ _ _)

  cmp_chunks-Keeps : (n i left : ℕ) (rest : List ℕ) → Keeps {Dev = Dev} (cmp_chunks n i left rest)
  unfolding cmp_chunks
  cmp_chunks-Keeps zero i left rest = pure-Keeps tt
  cmp_chunks-Keeps (suc n) i left rest =
      bind-Keeps (read_entry-Keeps i)
        (λ e. bind-Keeps (raise_if-Keeps _ _) (λ _. cmp_chunks-Keeps n _ _ _))

  read_primitive-Keeps :
      (buffer : List ℕ) (q : Query) (r : Found) → Keeps {Dev = Dev} (read_primitive buffer q r)
  unfolding read_primitive
  read_primitive-Keeps buffer q r = search keeping depth 9

  read_variable-Keeps : (buffer : List ℕ) (r : Found) → Keeps {Dev = Dev} (read_variable buffer r)
  unfolding read_variable
  read_variable-Keeps buffer r =
      search (keeping, read_chunks-Keeps, erase_entry_and_span-Keeps) depth 9

  read_item-Keeps : (q : Query) (buffer : List ℕ) → Keeps {Dev = Dev} (read_item q buffer)
  unfolding read_item
  read_item-Keeps q buffer =
      search (keeping, find_or_fail-Keeps, read_variable-Keeps, read_primitive-Keeps) depth 9

  cmp_primitive-Keeps :
      (bytes : List ℕ) (q : Query) (r : Found) → Keeps {Dev = Dev} (cmp_primitive bytes q r)
  unfolding cmp_primitive
  cmp_primitive-Keeps bytes q r = search keeping depth 9

  cmp_variable-Keeps : (bytes : List ℕ) (r : Found) → Keeps {Dev = Dev} (cmp_variable bytes r)
  unfolding cmp_variable
  cmp_variable-Keeps bytes r = search (keeping, cmp_chunks-Keeps) depth 9

  cmp_item-Keeps : (q : Query) (bytes : List ℕ) → Keeps {Dev = Dev} (cmp_item q bytes)
  unfolding cmp_item
  cmp_item-Keeps q bytes =
      search (keeping, find_or_fail-Keeps, cmp_variable-Keeps, cmp_primitive-Keeps) depth 9

  write_primitive-Keeps :
      (item : Item) (bytes : List ℕ) → Keeps {Dev = Dev} (write_primitive item bytes)
  unfolding write_primitive
  write_primitive-Keeps item bytes = write_entry-Keeps _

  write_variable-Keeps :
      (item : Item) (bytes : List ℕ) → Keeps {Dev = Dev} (write_variable item bytes)
  unfolding write_variable
  write_variable-Keeps item bytes =
      search (keeping, write_entry-Keeps, write_entry_data-Keeps) depth 9

  write_item-Keeps :
      (ns t : ℕ) (key bytes : List ℕ) (c : ℕ) → Keeps {Dev = Dev} (write_item ns t key bytes c)
  unfolding write_item
  write_item-Keeps ns t key bytes c =
      search
        (keeping, initialize-Keeps, hash_insert-Keeps, write_variable-Keeps, write_primitive-Keeps)
        depth 14

  read_from-Keeps : (from : Page) (i : ℕ) → Keeps {Dev = Dev} (read_from from i)
  unfolding read_from
  read_from-Keeps from i = search keeping depth 9

  copy_data-Keeps :
      (from : Page) (n i : ℕ) (entry : Item) → Keeps {Dev = Dev} (copy_data from n i entry)
  unfolding copy_data
  copy_data-Keeps from zero i entry = pure-Keeps tt
  copy_data-Keeps from (suc n) i entry =
      let again = λ (e : Item). copy_data-Keeps from n (i + 1) e in
      search (keeping, again, read_from-Keeps, write_entry-Keeps) depth 9

  copy_loop-Keeps : (from : Page) (fuel i : ℕ) → Keeps {Dev = Dev} (copy_loop from fuel i)
  unfolding copy_loop
  copy_loop-Keeps from zero i = if-Keeps (ltb i entry_count) stuck-Keeps (pure-Keeps tt)
  copy_loop-Keeps from (suc fuel) i =
      let again = λ (j : ℕ). copy_loop-Keeps from fuel j in
      bool-Keeps _ (pure-Keeps tt) (
        bind-Keeps (or_abort-Keeps (EnumTable.get entry_shape i from.entry_table)) (λ state.
          bool-Keeps _
            (bind-Keeps (assert-Keeps (not (i == from.first_used_entry))) (λ _. again (i + 1)))
            (bind-Keeps (read_from-Keeps from i) (λ entry. bind-Keeps (gets-Keeps (λ p. p)) (λ p.
              bind-Keeps (hash_insert-Keeps entry p.next_free_entry) (λ _.
                bind-Keeps (write_entry-Keeps entry) (λ _.
                  bind-Keeps (assert-Keeps (leb (i + entry.span) entry_count)) (λ _.
                    bind-Keeps (copy_data-Keeps from (i + entry.span - (i + 1)) (i + 1) entry)
                      (λ _. again (i + entry.span))))))))))

  copy_items-Keeps : (from : Page) → Keeps {Dev = Dev} (copy_items from)
  unfolding copy_items
  copy_items-Keeps from = search (keeping, initialize-Keeps, copy_loop-Keeps) depth 14

  pub write_item-Kept :
      (s : Store Dev) (ns_index datatype : ℕ) (key bytes : List ℕ) (chunk : ℕ)
      → Kept s.page (write_item ns_index datatype key bytes chunk s).1.page
  write_item-Kept s ns_index datatype key bytes chunk =
      (write_item-Keeps ns_index datatype key bytes chunk).apply s

  pub search-Kept :
      (s : Store Dev) (q : Query) (index : ℕ) (item : Item) (bytes : List ℕ)
      → Kept s.page (find_item q index item s).1.page
        × Kept s.page (read_item q bytes s).1.page
        × Kept s.page (cmp_item q bytes s).1.page
        × Kept s.page (erase_item q s).1.page
  search-Kept s q index item bytes = (
    (find_item-Keeps q index item).apply s,
    (read_item-Keeps q bytes).apply s,
    (cmp_item-Keeps q bytes).apply s,
    (erase_item-Keeps q).apply s,
  )

  pub copy_items-Kept : (s : Store Dev) (from : Page) → Kept s.page (copy_items from s).1.page
  copy_items-Kept s from = (copy_items-Keeps from).apply s
