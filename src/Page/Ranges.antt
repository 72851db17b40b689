-- ===== src/Page/Ranges.antt =====
-- src/nvs_page.cpp: the entries that `writeEntryData` leaves, with the loop over their states.
use mathlib.Core.Path.{subst}
use native.Mathlib.Decide.{ℕ_discrete}
use sming_nvs.Prelude.{
  ℕ, zero, suc, ◌>>=◌, ◌+◌, ◌-◌, ◌*◌, ◌/◌, ◌%◌, ◌<◌, ◌≤◌, ◌≡◌, ◌⊎◌, inl, inr, refl, sym, ap, ◌∙◌,
  arith, false, some, List, M, Void, ok, not, pure, length, ltb, leb, ◌==◌, if◌then◌else◌, ◌>>◌,
}
use sming_nvs.Prelude.Returns.{Gives, then-Gives, pure-Gives, assert-Gives, if-Gives, weaken-Gives}
use sming_nvs.EnumTable
use sming_nvs.EnumTable.Table.{IsTable}
use sming_nvs.Platform.{Platform}
use sming_nvs.Platform.Flash.{Flash, IsBytes}
use sming_nvs.Page.State.{
  Page, Store, written, entry_size, entry_count, invalid_entry, entry_shape, on_dev, gets_page,
}
use sming_nvs.Page.Table.{
  entry_address, table_word, put_entry_state, alter_range, alter_entry_range_state,
  write_entry_data,
}
use sming_nvs.Page.Written.{
  Marked, Appended, or_invalid-Gives, on_dev-Gives, gets_page-Gives, set_page-Gives,
  put_entry_state-Gives,
}

-- The states of `n` entries from `begin` on are `v`, and nothing else of the page has changed.
pub record Ranged {Dev : Type 0} {P : Platform Dev} (F : Flash P) (begin n v : ℕ) (s t : Store Dev)
    : Type 0 where
  pub table : IsTable entry_shape t.page.entry_table
  pub marks :
      (j : ℕ) → begin ≤ j → j < begin + n → EnumTable.get entry_shape j t.page.entry_table ≡ some v
  pub others :
      (j : ℕ)
      → j < 126
      → (j < begin) ⊎ (begin + n ≤ j)
      → EnumTable.get entry_shape j t.page.entry_table
        ≡ EnumTable.get entry_shape j s.page.entry_table
  pub frame :
      record s { page = record s.page { entry_table = t.page.entry_table }; dev = t.dev } ≡ t
  pub keeps :
      (a : ℕ) (old : List ℕ)
      → s.page.base_address + 64 ≤ a
      → F.Holds s.dev a old
      → F.Holds t.dev a old

-- The entries that the bytes fill.
abbrev pub entries_of : List ℕ → ℕ
entries_of bytes = length bytes / 32 % 65536

module _ {Dev : Type 0} ⦃P : Platform Dev⦄ (F : Flash P) where
  -- The device may have changed, but nothing behind the table.
  record Behind (s t : Store Dev) : Type 0 where
    frame : record s { dev = t.dev } ≡ t
    keeps :
        (a : ℕ) (old : List ℕ)
        → s.page.base_address + 64 ≤ a
        → F.Holds s.dev a old
        → F.Holds t.dev a old

  word_written :
      (w : ℕ) (s : Store Dev) (p : Page)
      → s.page ≡ p
      → w < 8
      → Gives s
          (λ _ t. Behind s t)
          (on_dev (P.write_raw (p.base_address + 32 + w * 4) (table_word w p)))
  word_written w s p same lt =
      let base : s.page.base_address ≡ p.base_address = ap (λ (x : Page). x.base_address) same in
      weaken-Gives (on_dev-Gives (P.write_raw (p.base_address + 32 + w * 4) (table_word w p)) s)
        (λ _ t (wrote, to_t). record {
          frame = to_t;
          keeps = λ a old behind h.
              subst (λ d. F.Holds d a old) (ap (λ r. r.1) wrote)
                (F.write_raw_keeps s.dev (p.base_address + 32 + w * 4) (table_word w p) a old
                  (inr (omega (arith, base))) h);
        })

  -- `s` with the table and the device of `t`.
  abbrev put_back : Store Dev → Store Dev → Store Dev
  put_back t s = record s { page = record s.page { entry_table = t.page.entry_table }; dev = t.dev }

  -- One round of the loop, and the rounds behind it.
  range_step :
      (begin v n : ℕ) (table : List ℕ) (s s1 s2 t : Store Dev)
      → begin + n < 126
      → Marked (begin + n) v s.page.entry_table table
      → record s { page = record s.page { entry_table = table } } ≡ s1
      → Behind s1 s2
      → Ranged F begin n v s2 t
      → Ranged F begin (suc n) v s t
  range_step begin v n table s s1 s2 t lt first to_s1 moved rest =
      let tables : table ≡ s2.page.entry_table =
        ap (λ (x : Store Dev). x.page.entry_table) to_s1
        ∙ ap (λ (x : Store Dev). x.page.entry_table) moved.frame in
      let at_base : s.page.base_address ≡ s1.page.base_address =
        ap (λ (x : Store Dev). x.page.base_address) to_s1 in
      let at_base' : s1.page.base_address ≡ s2.page.base_address =
        ap (λ (x : Store Dev). x.page.base_address) moved.frame in
      record {
        table = rest.table;
        marks = λ j above below. elim (ℕ_discrete j (begin + n)) [
          | yes last ↦
              rest.others j (omega arith) (inr (omega (arith, last)))
              ∙ rw (last, ← tables) first.marked
          | no earlier ↦ rest.marks j above (omega (arith, earlier))
        ];
        others = λ j below side.
            rest.others j below (omega (arith, side))
            ∙ rw (← tables) (first.others j below (λ e. omega (arith, e, side)));
        frame = ap (put_back t) to_s1 ∙ ap (put_back t) moved.frame ∙ rest.frame;
        keeps = λ a old behind h. rest.keeps a old (omega (arith, at_base, at_base')) (
            moved.keeps a old (omega (arith, at_base))
              (subst (λ d. F.Holds d a old) (ap (λ (x : Store Dev). x.dev) to_s1) h));
      }

  -- A round of the loop behind the change in memory; `next` is the word of the next entry.
  abbrev rest_of_round : ℕ → ℕ → ℕ → ℕ → ℕ → M (Store Dev) Void
  rest_of_round begin v word next n = do
    p ← gets_page (λ p. p)
    if next == word
        then pure tt
        else on_dev (P.write_raw (p.base_address + 32 + word * 4) (table_word word p))
    alter_range begin v next n

  abbrev next_word : ℕ → ℕ → ℕ
  next_word begin n =
      if n == 0 then 0xffff_ffff else EnumTable.get_word_index entry_shape (begin + n - 1)

  alter_range-Ranged :
      (begin v word n : ℕ) (s : Store Dev)
      → IsTable entry_shape s.page.entry_table
      → v < 4
      → begin + n ≤ 126
      → (0 < n → word < 8)
      → Gives s (λ _ t. Ranged F begin n v s t) (alter_range begin v word n)
  unfolding alter_range
  alter_range-Ranged begin v word zero s w small fits in_table = pure-Gives tt (record {
    table = w;
    marks = λ j above below. absurd (omega arith);
    others = λ j lt _. refl;
    frame = refl;
    keeps = λ a old _ h. h;
  })
  alter_range-Ranged begin v word (suc n) s w small fits in_table =
      then-Gives (put_entry_state (begin + n) v)
        {k = rest_of_round begin v word (next_word begin n) n}
        (put_entry_state-Gives (begin + n) v s w (omega arith) small)
        (λ s1 (table, marks, to_s1).
          gets_page-Gives (λ p. p)
            (λ p same.
              then-Gives _
                (if-Gives (next_word begin n == word)
                  (λ _. pure-Gives tt (record { frame = refl; keeps = λ a old _ h. h }))
                  (λ _. word_written word s1 p same (in_table (omega arith))))
                (λ s2 moved.
                  weaken-Gives
                    (alter_range-Ranged begin v (next_word begin n) n s2
                      (subst (IsTable entry_shape)
                        (ap (λ (x : Store Dev). x.page.entry_table) to_s1
                          ∙ ap (λ (x : Store Dev). x.page.entry_table) moved.frame)
                        marks.table)
                      small (omega arith) (λ more. ground arith))
                    (λ _ t rest.
                      range_step begin v n table s s1 s2 t (omega arith) marks to_s1 moved rest))))

  alter_entry_range_state-Ranged :
      (begin end v : ℕ) (s : Store Dev)
      → IsTable entry_shape s.page.entry_table
      → v < 4
      → Gives s
          (λ _ t. Ranged F begin (end - begin) v s t × (end ≤ 126) × (begin < end))
          (alter_entry_range_state begin end v)
  unfolding alter_entry_range_state
  alter_entry_range_state-Ranged begin end v s w small = assert-Gives (leb end 126) (λ top.
      assert-Gives (ltb begin end) (λ some_left.
        weaken-Gives
          (alter_range-Ranged begin v (EnumTable.get_word_index entry_shape (end - 1)) (end - begin)
            s w small (ground arith) (λ _. ground arith))
          (λ _ t ranged. (ranged, ground arith, ground arith))))

  -- The counters that `writeEntryData` changes in the end.
  abbrev counted : ℕ → Page → Page
  counted count q = record q {
    used_entry_count = (q.used_entry_count + count) % 65536;
    next_free_entry = q.next_free_entry + count;
  }

  module _ (count : ℕ) (bytes : List ℕ) (s t u v : Store Dev) (to_t : record s { dev = t.dev } ≡ t)
      (begun : (s.page.first_used_entry == invalid_entry) ≡ false)
      (range : Ranged F s.page.next_free_entry
        (s.page.next_free_entry + count - s.page.next_free_entry)
        written
        t
        u)
      (fits : s.page.next_free_entry + count ≤ 126)
      (to_v : record u { page = counted count u.page } ≡ v) (size : length bytes ≡ count * 32)
      (wrote : P.write (entry_address s.page.next_free_entry s.page) bytes s.dev
        ≡ (ok tt, t.dev)) where
    after_data :
        (a : ℕ) (old : List ℕ)
        → s.page.base_address + 64 ≤ a
        → F.Holds t.dev a old
        → F.Holds v.dev a old
    after_data a old behind h =
        subst (λ d. F.Holds d a old) (ap (λ (x : Store Dev). x.dev) to_v)
          (range.keeps a old (rw (ap (λ (x : Store Dev). x.page.base_address) (sym to_t)) behind) h)

    table_after : u.page.entry_table ≡ v.page.entry_table
    table_after = ap (λ (x : Store Dev). x.page.entry_table) to_v

    many_entries : IsBytes bytes → Appended F count bytes s v
    many_entries small = record {
      room = fits;
      next = ground (arith, to_t, range.frame, to_v);
      first = ground (arith, to_t, range.frame, to_v);
      base = ground (arith, to_t, range.frame, to_v);
      state = ground (arith, to_t, range.frame, to_v);
      cache = cc (to_t, range.frame, to_v);
      table = rw (← table_after) range.table;
      marks = λ j above below. rw (← table_after) (range.marks j above (omega arith));
      others = λ j below.
          rw (← table_after) (range.others j (omega arith) (inl below))
          ∙ ap (λ (x : Store Dev). EnumTable.get entry_shape j x.page.entry_table) (sym to_t);
      holds = after_data _ _ (omega arith) (
          F.write_holds s.dev t.dev (entry_address s.page.next_free_entry s.page) bytes small
            wrote);
      keeps = λ a old behind before h. after_data a old behind (
          subst (λ d. F.Holds d a old) (ap (λ r. r.1) wrote)
            (F.write_keeps s.dev (entry_address s.page.next_free_entry s.page) bytes a old
              (inl before) h));
    }

  pub write_entry_data-Appended :
      (bytes : List ℕ) (s : Store Dev)
      → IsTable entry_shape s.page.entry_table
      → IsBytes bytes
      → length bytes ≡ entries_of bytes * 32
      → Gives s (λ _ t. Appended F (entries_of bytes) bytes s t) (write_entry_data bytes)
  unfolding write_entry_data
  write_entry_data-Appended bytes s w small size =
      let count : ℕ = entries_of bytes in
      gets_page-Gives (λ p. p)
        (λ p same. assert-Gives (length bytes % entry_size == 0) (λ _.
          assert-Gives (not (p.next_free_entry == invalid_entry)) (λ _.
            assert-Gives (not (p.first_used_entry == invalid_entry)) (λ begun.
              assert-Gives (ltb p.next_free_entry entry_count) (λ below.
                then-Gives _
                  (or_invalid-Gives _
                    (on_dev-Gives (P.write (entry_address p.next_free_entry p) bytes) s))
                  (λ t (wrote, to_t).
                    then-Gives _
                      (alter_entry_range_state-Ranged p.next_free_entry (p.next_free_entry + count)
                        written t (rw (← (ap (λ (x : Store Dev). x.page.entry_table) to_t)) w)
                        (omega arith))
                      (λ u (range, fits, _).
                        weaken-Gives (set_page-Gives (counted count) u) (λ _ v to_v.
                          many_entries count bytes s t u v to_t (rw same (ground (arith, begun)))
                            (subst
                              (λ (x : Page).
                                Ranged F x.next_free_entry
                                  (x.next_free_entry + count - x.next_free_entry) written t u)
                              (sym same) range)
                            (rw same fits) to_v size
                            (subst
                              (λ (x : Page).
                                P.write (entry_address x.next_free_entry x) bytes s.dev
                                ≡ (ok tt, t.dev))
                              (sym same) wrote)
                            small))))))))
