-- ===== src/Page/Lifecycle.antt =====
-- src/nvs_page.cpp: the operations on the entries of a page, against the state and the identity of the
-- page.
use sming_nvs.Prelude.{
  ℕ, suc, zero, ◌+◌, Bool, true, false, Option, none, some, List, M, Void, no_mem, fail, ◌%◌, ◌||◌,
  ◌≡◌, refl, ◌++◌, bytes32, replicate, ◌>>◌, if◌then◌else◌, pure, arith, ltb, ◌==◌,
}
use sming_nvs.EnumTable
use sming_nvs.HashList
use sming_nvs.Item.{Item, calculate_crc32_without_value}
use sming_nvs.Platform.{Platform}
use sming_nvs.Page.State.{
  Store, entry_shape, active, written, erased, empty, uninitialized, set_page,
}
use sming_nvs.Page.Table.{
  entry_state, put_entry_state, hash_erase, first_written, update_first_used_entry, count_erased,
  hash_insert, alter_entry_state, alter_range, alter_entry_range_state, read_entry, write_entry,
  write_entry_data, erase_broken, erase_item_span, erase_written, erase_entry_and_span,
}
use sming_nvs.Page.Header.{initialize, header_fields}
use sming_nvs.Page.Keeps.{
  Kept, Kept-refl, Keeps, bind-Keeps, or_invalid-Keeps, pure-Keeps, fail-Keeps, or_abort-Keeps,
  if-Keeps, set_page-Keeps, gets-Keeps, request-Keeps, assert-Keeps, on_dev-Keeps, keeping,
}

module _ {Dev : Type 0} where
  pub entry_state-Keeps : (i : ℕ) → Keeps {Dev = Dev} (entry_state i)
  unfolding entry_state
  entry_state-Keeps i = record {
    apply = λ s. (or_abort-Keeps (EnumTable.get entry_shape i s.page.entry_table)).apply s;
  }

  put_entry_state-Keeps : (i v : ℕ) → Keeps {Dev = Dev} (put_entry_state i v)
  unfolding put_entry_state
  put_entry_state-Keeps i v = record { apply = λ s. ground arith }

  hash_erase-Keeps : (i : ℕ) (b : Bool) → Keeps {Dev = Dev} (hash_erase i b)
  unfolding hash_erase
  hash_erase-Keeps i b = record { apply = λ s. ground arith }

  first_written-Keeps : (n i : ℕ) → Keeps {Dev = Dev} (first_written n i)
  unfolding first_written
  first_written-Keeps zero i = pure-Keeps tt
  first_written-Keeps (suc n) i =
      bind-Keeps (entry_state-Keeps i)
        (λ st. if-Keeps _ (set_page-Keeps _ (λ p. ground arith)) (first_written-Keeps n (i + 1)))

  update_first_used_entry-Keeps : (i n : ℕ) → Keeps {Dev = Dev} (update_first_used_entry i n)
  unfolding update_first_used_entry
  update_first_used_entry-Keeps i n = search (keeping, first_written-Keeps, arith) depth 9

  count_erased-Keeps : (i n : ℕ) → Keeps {Dev = Dev} (count_erased i n)
  unfolding count_erased
  count_erased-Keeps i zero = pure-Keeps tt
  count_erased-Keeps i (suc n) =
      search (keeping, entry_state-Keeps, count_erased-Keeps i n, arith) depth 9

module _ {Dev : Type 0} ⦃P : Platform Dev⦄ where
  hash_insert_result :
      (o : Option HashList.HashList)
      → Keeps {Dev = Dev} {A = Void}
          (elim o [ none ↦ fail no_mem | some h' ↦ set_page (λ p. record p { hash_list = h' }) ])
  hash_insert_result none = fail-Keeps no_mem
  hash_insert_result (some h) = search (keeping, arith)

  pub hash_insert-Keeps : (item : Item) (i : ℕ) → Keeps {Dev = Dev} (hash_insert item i)
  unfolding hash_insert
  hash_insert-Keeps item i = bind-Keeps (gets-Keeps (λ p. p.hash_list)) (λ h.
      bind-Keeps (if-Keeps (HashList.asks h) request-Keeps (pure-Keeps true)) (λ granted.
        hash_insert_result
          (HashList.insert (calculate_crc32_without_value P.crc32_le item % 16777216) i granted h)))

  alter_entry_state-Keeps : (i v : ℕ) → Keeps {Dev = Dev} (alter_entry_state i v)
  unfolding alter_entry_state
  alter_entry_state-Keeps i v = search (keeping, put_entry_state-Keeps) depth 9

  alter_range-Keeps : (i v w n : ℕ) → Keeps {Dev = Dev} (alter_range i v w n)
  unfolding alter_range
  alter_range-Keeps i v w zero = pure-Keeps tt
  alter_range-Keeps i v w (suc n) =
      let ih = λ (k : ℕ). alter_range-Keeps i v k n in
      search (keeping, put_entry_state-Keeps, ih) depth 9

  alter_entry_range_state-Keeps : (i j v : ℕ) → Keeps {Dev = Dev} (alter_entry_range_state i j v)
  unfolding alter_entry_range_state
  alter_entry_range_state-Keeps i j v = search (keeping, alter_range-Keeps) depth 9

  pub read_entry-Keeps : (i : ℕ) → Keeps {Dev = Dev} (read_entry i)
  unfolding read_entry
  read_entry-Keeps i = search keeping depth 9

  pub write_entry-Keeps : (item : Item) → Keeps {Dev = Dev} (write_entry item)
  unfolding write_entry
  write_entry-Keeps item = search (keeping, alter_entry_state-Keeps, arith) depth 9

  pub write_entry_data-Keeps : (bytes : List ℕ) → Keeps {Dev = Dev} (write_entry_data bytes)
  unfolding write_entry_data
  write_entry_data-Keeps bytes = search (keeping, alter_entry_range_state-Keeps, arith) depth 12

  erase_broken-Keeps : (i : ℕ) → Keeps {Dev = Dev} (erase_broken i)
  unfolding erase_broken
  erase_broken-Keeps i = search (keeping, hash_erase-Keeps, alter_entry_state-Keeps, arith) depth 9

  erase_item_span-Keeps : (i n : ℕ) → Keeps {Dev = Dev} (erase_item_span i n)
  unfolding erase_item_span
  erase_item_span-Keeps i n =
      search
        (
          keeping, hash_erase-Keeps, count_erased-Keeps, alter_entry_state-Keeps,
          alter_entry_range_state-Keeps,
        )
        depth 9

  erase_written-Keeps : (i : ℕ) → Keeps {Dev = Dev} (erase_written i)
  unfolding erase_written
  erase_written-Keeps i =
      search (keeping, read_entry-Keeps, erase_broken-Keeps, erase_item_span-Keeps) depth 9

  erase_any-Keeps :
      (b : Bool) (i : ℕ)
      → Keeps {Dev = Dev} (if b then erase_written i else (alter_entry_state i erased >> pure 1))
  erase_any-Keeps true i = erase_written-Keeps i
  erase_any-Keeps false i = bind-Keeps (alter_entry_state-Keeps i erased) (λ _. pure-Keeps 1)

  pub erase_entry_and_span-Keeps : (i : ℕ) → Keeps {Dev = Dev} (erase_entry_and_span i)
  unfolding erase_entry_and_span
  erase_entry_and_span-Keeps i = bind-Keeps (entry_state-Keeps i) (λ st.
      bind-Keeps (assert-Keeps (st == written || st == empty)) (λ _.
        bind-Keeps (erase_any-Keeps (st == written) i) (λ n. bind-Keeps (gets-Keeps (λ p. p)) (λ p.
          bind-Keeps
            (if-Keeps (i == p.first_used_entry) (update_first_used_entry-Keeps i n) (pure-Keeps tt))
            (λ _.
              set_page-Keeps
                (λ q. record q {
                  next_free_entry =
                      if ltb q.next_free_entry (i + n) then i + n else q.next_free_entry;
                })
                (λ q. ground arith))))))

  -- A blank page that is set to `ACTIVE` first.
  opened-Kept :
      (s : Store Dev) {m : M (Store Dev) Void}
      → Keeps m
      → s.page.state ≡ uninitialized
      → Kept s.page (m (record s { page = record s.page { state = active } })).1.page
  opened-Kept s k e =
      let after = k.apply (record s { page = record s.page { state = active } }) in
      ground (arith, after.state, after.base_address, after.seq_number, after.version, e)

  initialize_result :
      (s : Store Dev) (b : Bool)
      → (s.page.state == uninitialized) ≡ b
      → Kept s.page (initialize s).1.page
  unfolding initialize
  initialize_result s false h = rw h (Kept-refl s.page)
  initialize_result s true h =
      let fields = header_fields s.page.seq_number s.page.version in
      let header = bytes32 active ++ (fields ++ bytes32 (P.crc32_le 0xffff_ffff fields)) in
      rw h (
        opened-Kept s
          (bind-Keeps (or_invalid-Keeps (on_dev-Keeps (P.write_raw s.page.base_address header)))
            (λ _.
              set_page-Keeps
                (λ p. record p { next_free_entry = 0; entry_table = replicate 8 0xffff_ffff })
                (λ p. ground arith)))
          (ground arith))

  pub initialize-Keeps : Keeps {Dev = Dev} initialize
  initialize-Keeps = record { apply = λ s. initialize_result s _ refl }
