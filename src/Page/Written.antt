-- ===== src/Page/Written.antt =====
-- src/nvs_page.cpp: the entry that `writeEntry` leaves, in the table and on the flash.
use mathlib.Core.Path.{subst}
use sming_nvs.Prelude.{
  ℕ, ◌+◌, ◌*◌, ◌<◌, ◌≤◌, ◌≡◌, ◌≢◌, inl, inr, refl, sym, ap, ◌∙◌, arith, some, List, M, Outcome, ok,
  err, abort, stuck, length, ltb, ◌==◌, if◌then◌else◌, inc16, ltb→lt, ◌>>=◌,
}
use sming_nvs.Prelude.Returns.{Gives, then-Gives, weaken-Gives, assert-Gives}
use sming_nvs.EnumTable
use sming_nvs.EnumTable.Table.{IsShape, IsTable, put-Writes}
use sming_nvs.Item.{Item, to_raw}
use sming_nvs.Platform.{Platform}
use sming_nvs.Platform.Flash.{Flash, IsBytes}
use sming_nvs.Page.State.{
  Page, Store, written, invalid_entry, entry_shape, on_dev, or_invalid, gets_page, set_page,
}
use sming_nvs.Page.Table.{
  entry_address, table_word, put_entry_state, alter_entry_state, write_entry,
}

pub entry_shape-IsShape : IsShape entry_shape
entry_shape-IsShape = record { fills = refl; wide = omega arith; several = omega arith }

module _ {Dev A : Type 0} where
  stored_dev :
      (m : M Dev A) (s : Store Dev) {a : A} {t : Store Dev}
      → on_dev m s ≡ (ok a, t)
      → record s { dev = t.dev } ≡ t
  stored_dev m s e = ap (λ r. record s { dev = r.1.dev }) (sym e) ∙ ap (λ r. r.1) e

  invalid_result :
      (r : Outcome A) (s t : Store Dev) {a : A} {u : Store Dev}
      → or_invalid (λ (_ : Store Dev). (r, t)) s ≡ (ok a, u)
      → (r ≡ ok a) × (t ≡ u)
  invalid_result (ok a) s t e = (ap (λ r. r.0) e, ap (λ r. r.1) e)
  invalid_result (err c) s t e = absurd (ground (arith, e))
  invalid_result abort s t e = absurd (ground (arith, e))
  invalid_result stuck s t e = absurd (ground (arith, e))

  pub or_invalid-Gives :
      {s : Store Dev} {Post : A → Store Dev → Type 0} (m : M (Store Dev) A)
      → Gives s Post m
      → Gives s Post (or_invalid m)
  or_invalid-Gives {s} m h = record {
    apply =
        λ a t e. let (r, u) = invalid_result (m s).0 s (m s).1 e in h.apply a t (λ i. (r i, u i));
  }

  pub on_dev-Gives :
      (m : M Dev A) (s : Store Dev)
      → Gives s (λ a t. (m s.dev ≡ (ok a, t.dev)) × (record s { dev = t.dev } ≡ t)) (on_dev m)
  on_dev-Gives m s = record { apply = λ a t e. ((λ i. ((e i).0, (e i).1.dev)), stored_dev m s e) }

module _ {Dev B : Type 0} {s : Store Dev} {Post : B → Store Dev → Type 0} where
  pub gets_page-Gives :
      {A : Type 0} (g : Page → A) {f : A → M (Store Dev) B}
      → ((a : A) → g s.page ≡ a → Gives s Post (f a))
      → Gives s Post (gets_page g >>= f)
  gets_page-Gives g h = record { apply = λ a t e. (h (g _) refl).apply a t e }

module _ {Dev : Type 0} where
  pub set_page-Gives :
      (g : Page → Page) (s : Store Dev)
      → Gives s (λ _ t. record s { page = g s.page } ≡ t) (set_page g)
  set_page-Gives g s = record { apply = λ a t e. ap (λ r. r.1) e }

-- The address of the word of the table that has the state of an entry.
abbrev word_address : ℕ → Page → ℕ
word_address i p = p.base_address + 32 + EnumTable.get_word_index entry_shape i * 4

-- The table with a new state for an entry.
pub record Marked (i v : ℕ) (old new : List ℕ) : Type 0 where
  pub table : IsTable entry_shape new
  pub marked : EnumTable.get entry_shape i new ≡ some v
  pub others :
      (j : ℕ) → j < 126 → i ≢ j → EnumTable.get entry_shape j new ≡ EnumTable.get entry_shape j old

module _ {Dev : Type 0} where
  pub put_entry_state-Gives :
      (i v : ℕ) (s : Store Dev)
      → IsTable entry_shape s.page.entry_table
      → i < 126
      → v < 4
      → Gives s
          (λ _ t.
            (table : List ℕ) × Marked i v s.page.entry_table table
            × (record s { page = record s.page { entry_table = table } } ≡ t))
          (put_entry_state i v)
  unfolding put_entry_state
  put_entry_state-Gives i v s w lt small = record {
    apply = λ u t e.
        let (table, stored, new, self, others) =
          put-Writes entry_shape entry_shape-IsShape i v s.page.entry_table w lt small in
        (
          table,
          record { table = new; marked = self; others = others },
          ap (λ r. r.1) (rw (stored, put_entry_state) at e),
        );
  }

-- The state is in the table in memory, and one of its words was written to the flash.
record Altered {Dev : Type 0} (P : Platform Dev) (i v : ℕ) (s t : Store Dev) : Type 0 where
  table : List ℕ
  word : List ℕ
  marks : Marked i v s.page.entry_table table
  room : i < 126
  word_4 : length word ≡ 4
  rest : record s { page = record s.page { entry_table = table }; dev = t.dev } ≡ t
  device : (P.write_raw (word_address i s.page) word s.dev).1 ≡ t.dev

module _ {Dev : Type 0} ⦃P : Platform Dev⦄ where
  alter_entry_state-Gives :
      (i v : ℕ) (s : Store Dev)
      → IsTable entry_shape s.page.entry_table
      → v < 4
      → Gives s (λ _ t. Altered P i v s t) (alter_entry_state i v)
  unfolding alter_entry_state
  alter_entry_state-Gives i v s w small = assert-Gives (ltb i 126) (λ below.
      then-Gives (put_entry_state i v) (put_entry_state-Gives i v s w (ltb→lt i 126 below) small)
        (λ t (table, marks, to_t).
          gets_page-Gives (λ p. p)
            (λ p same. or_invalid-Gives _ (
              weaken-Gives
                (on_dev-Gives
                  (P.write_raw (word_address i p)
                    (table_word (EnumTable.get_word_index entry_shape i) p))
                  t)
                (λ _ u (wrote, to_u). record {
                  table = table;
                  word = table_word (EnumTable.get_word_index entry_shape i) p;
                  marks = marks;
                  room = ltb→lt i 126 below;
                  word_4 = refl;
                  rest = ap (λ (x : Store Dev). record x { dev = u.dev }) to_t ∙ to_u;
                  device =
                      let page = ap (λ (x : Store Dev). x.page) to_t ∙ same in
                      (λ j.
                        (P.write_raw (word_address i (page j))
                          (table_word (EnumTable.get_word_index entry_shape i) p) (to_t j).dev).1)
                      ∙ ap (λ r. r.1) wrote;
                })))))

-- The page with `n` more entries behind the others: their states are those of written ones, the
-- flash holds their bytes, and what was before is there still.
pub record Appended {Dev : Type 0} {P : Platform Dev} (F : Flash P) (n : ℕ) (bytes : List ℕ)
    (s t : Store Dev) : Type 0 where
  pub room : s.page.next_free_entry + n ≤ 126
  pub next : t.page.next_free_entry ≡ s.page.next_free_entry + n
  pub first : t.page.first_used_entry ≡ (
      if s.page.first_used_entry == invalid_entry
      then s.page.next_free_entry
      else s.page.first_used_entry)
  pub base : t.page.base_address ≡ s.page.base_address
  pub state : t.page.state ≡ s.page.state
  pub cache : t.page.hash_list ≡ s.page.hash_list
  pub table : IsTable entry_shape t.page.entry_table
  pub marks :
      (j : ℕ)
      → s.page.next_free_entry ≤ j
      → j < s.page.next_free_entry + n
      → EnumTable.get entry_shape j t.page.entry_table ≡ some written
  pub others :
      (j : ℕ)
      → j < s.page.next_free_entry
      → EnumTable.get entry_shape j t.page.entry_table
        ≡ EnumTable.get entry_shape j s.page.entry_table
  pub holds : F.Holds t.dev (entry_address s.page.next_free_entry s.page) bytes
  pub keeps :
      (a : ℕ) (old : List ℕ)
      → s.page.base_address + 64 ≤ a
      → a + length old ≤ entry_address s.page.next_free_entry s.page
      → F.Holds s.dev a old
      → F.Holds t.dev a old

-- The members that `writeEntry` changes in the end.
abbrev counted : Page → Page
counted q = record q {
  first_used_entry =
      if q.first_used_entry == invalid_entry then q.next_free_entry else q.first_used_entry;
  used_entry_count = inc16 q.used_entry_count;
  next_free_entry = q.next_free_entry + 1;
}

module _ {Dev : Type 0} ⦃P : Platform Dev⦄ (F : Flash P) where
  -- What the flash holds behind the table stays where a word of the table is written.
  altered_keeps :
      (i v : ℕ) (s t : Store Dev) (a : ℕ) (bytes : List ℕ)
      → Altered P i v s t
      → s.page.base_address + 64 ≤ a
      → F.Holds s.dev a bytes
      → F.Holds t.dev a bytes
  altered_keeps i v s t a bytes alt behind h =
      subst (λ d. F.Holds d a bytes) alt.device
        (F.write_raw_keeps s.dev (word_address i s.page) alt.word a bytes
          (inr (omega (arith, alt.room, alt.word_4))) h)

  module _ (item : Item) (s t u v : Store Dev) (to_t : record s { dev = t.dev } ≡ t)
      (alt : Altered P s.page.next_free_entry written t u)
      (to_v : record u { page = counted u.page } ≡ v)
      (wrote : P.write (entry_address s.page.next_free_entry s.page) (to_raw item) s.dev
        ≡ (ok tt, t.dev)) where
    start : t.page.base_address ≡ s.page.base_address
    start = ap (λ (x : Store Dev). x.page.base_address) (sym to_t)

    -- What the flash holds after the write of the entry, it holds in the end.
    after_entry :
        (a : ℕ) (bytes : List ℕ)
        → s.page.base_address + 64 ≤ a
        → F.Holds t.dev a bytes
        → F.Holds v.dev a bytes
    after_entry a bytes behind h =
        subst (λ d. F.Holds d a bytes) (ap (λ (x : Store Dev). x.dev) to_v)
          (altered_keeps s.page.next_free_entry written t u a bytes alt (rw start behind) h)

    table_after : alt.table ≡ v.page.entry_table
    table_after =
        ap (λ (x : Store Dev). x.page.entry_table) alt.rest
        ∙ ap (λ (x : Store Dev). x.page.entry_table) to_v

    one_entry : IsBytes (to_raw item) → length (to_raw item) ≡ 32 → Appended F 1 (to_raw item) s v
    one_entry small size = record {
      room = omega (arith, alt.room);
      next = ground (arith, to_t, alt.rest, to_v);
      first = ground (arith, to_t, alt.rest, to_v);
      base = ground (arith, to_t, alt.rest, to_v);
      state = ground (arith, to_t, alt.rest, to_v);
      cache = cc (to_t, alt.rest, to_v);
      table = rw (← table_after) alt.marks.table;
      marks = λ j above below.
          let e : j ≡ s.page.next_free_entry = omega arith in
          rw (e, ← table_after) alt.marks.marked;
      others = λ j below.
          rw (← table_after) (alt.marks.others j (omega (arith, alt.room)) (λ e. omega (arith, e)))
          ∙ ap (λ (x : Store Dev). EnumTable.get entry_shape j x.page.entry_table) (sym to_t);
      holds = after_entry _ _ (omega arith) (
          F.write_holds s.dev t.dev (entry_address s.page.next_free_entry s.page) (to_raw item)
            small wrote);
      keeps = λ a old behind before h. after_entry a old behind (
          subst (λ d. F.Holds d a old) (ap (λ r. r.1) wrote)
            (F.write_keeps s.dev (entry_address s.page.next_free_entry s.page) (to_raw item) a old
              (inl before) h));
    }

  pub write_entry-Appended :
      (item : Item) (s : Store Dev)
      → IsTable entry_shape s.page.entry_table
      → IsBytes (to_raw item)
      → length (to_raw item) ≡ 32
      → Gives s (λ _ t. Appended F 1 (to_raw item) s t) (write_entry item)
  unfolding write_entry
  write_entry-Appended item s w small size =
      gets_page-Gives (λ p. p)
        (λ p same. assert-Gives (ltb p.next_free_entry 126) (λ below.
          then-Gives _
            (or_invalid-Gives _
              (on_dev-Gives (P.write (entry_address p.next_free_entry p) (to_raw item)) s))
            (λ t (wrote, to_t).
              then-Gives _
                (alter_entry_state-Gives p.next_free_entry written t
                  (rw (← (ap (λ (x : Store Dev). x.page.entry_table) to_t)) w) (omega arith))
                (λ u alt. weaken-Gives (set_page-Gives counted u) (λ _ v to_v.
                  one_entry item s t u v to_t
                    (subst (λ (x : Page). Altered P x.next_free_entry written t u) (sym same) alt)
                    to_v
                    (subst
                      (λ (x : Page).
                        P.write (entry_address x.next_free_entry x) (to_raw item) s.dev
                        ≡ (ok tt, t.dev))
                      (sym same) wrote)
                    small size)))))
