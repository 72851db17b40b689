-- ===== src/Page/Answers.antt =====
-- src/nvs_page.cpp: what `findItem` has found where it returns `ESP_OK`.
use sming_nvs.Prelude.{
  ℕ, suc, zero, ◌≡◌, ◌⊎◌, ◌<◌, ◌≤◌, refl, arith, true, ◌||◌, Option, none, some, List, M, Esp,
  Outcome, ok, err, abort, stuck, pure, attempt, try, done, ◌>>=◌, if◌then◌else◌, ltb, leb, ◌==◌,
  or_abort, sym, ap, ◌∙◌,
}
use mathlib.Core.Path.{subst}
use sming_nvs.Prelude.Returns.{
  Leads, any-Leads, Gives-Leads, weaken-Gives, pure-Leads, bind-Leads, after-Leads, if-Leads,
  split-Leads, option-Leads, attempt-Leads, stuck-Leads, Gives, bind-Gives, pure-Gives,
  assert-Gives,
}
use sming_nvs.EnumTable
use sming_nvs.Item.{
  Item, of_raw, calculate_crc32, strncmp_eq, max_key_length, chunk_any, ver_any, blob_chunk_start,
}
use sming_nvs.Item.ItemType
use sming_nvs.Platform.{Platform}
use sming_nvs.Page.State.{
  Page, Store, entry_shape, entry_size, on_dev, gets_page, or_invalid, written, ns_any, entry_count,
  corrupt, invalid, uninitialized,
}
use sming_nvs.Page.Table.{entry_address, entry_state, read_entry, erase_entry_and_span}
use sming_nvs.Page.Find.{
  Query, Found, Verdict, skip, mismatch, hit, verdict, find_loop, find_start, find_fuel, missing,
  find_item,
}

-- An item that has what the query asks for: the chunk counts for a piece of a blob, the version for
-- the index of one.
pub record Answers (q : Query) (i : Item) : Type 0 where
  pub namespace : (q.ns_index ≡ ns_any) ⊎ (i.ns_index ≡ q.ns_index)
  pub datatype : (q.datatype ≡ ItemType.any) ⊎ (i.datatype ≡ q.datatype)
  pub key : (k : List ℕ) → q.key ≡ some k → strncmp_eq max_key_length k i.key ≡ true
  pub chunk :
      q.datatype ≡ ItemType.blob_data → (q.chunk_idx ≡ chunk_any) ⊎ (i.chunk_index ≡ q.chunk_idx)
  pub version :
      q.datatype ≡ ItemType.blob_idx
      → (q.chunk_start ≡ ver_any) ⊎ (blob_chunk_start i ≡ q.chunk_start)

hit-Answers : (q : Query) (i : Item) → verdict q i ≡ hit → Answers q i
unfolding verdict
hit-Answers q i e = ground arith

module _ {A : Type 0} where
  tried_outcome :
      {Dev : Type 0} {Post : A → Store Dev → Type 0} (o : Outcome A) (s t : Store Dev)
      → ((a : A) → o ≡ ok a → Post a t)
      → Gives s
          (λ r u. (a : A) → r ≡ done a → Post a u)
          (attempt (or_invalid (λ (_ : Store Dev). (o, t))))
  tried_outcome {Post} (ok a) s t h = record {
    apply = λ r u e b d.
        subst (λ (c : A). Post c u) (ground (arith, e, d))
          (subst (λ (x : Store _). Post a x) (ap (λ x. x.1) e) (h a refl));
  }
  tried_outcome (err c) s t h = record { apply = λ r u e b d. absurd (ground (arith, e, d)) }
  tried_outcome abort s t h = record { apply = λ r u e. absurd (ground (arith, e)) }
  tried_outcome stuck s t h = record { apply = λ r u e. absurd (ground (arith, e)) }

-- What a call gives, where its result is used only if it succeeds.
attempt-Gives :
    {Dev A : Type 0} {Post : A → Store Dev → Type 0} {s : Store Dev} {m : M (Store Dev) A}
    → Gives s Post m
    → Gives s (λ r u. (a : A) → r ≡ done a → Post a u) (attempt (or_invalid m))
attempt-Gives {s} {m} h = record {
  apply =
      (tried_outcome (m s).0 s (m s).1 (λ a e. h.apply a (m s).1 (ap (λ o. (o, (m s).1)) e))).apply;
}

verdict-Leads :
    {S A : Type 0} {Pre : S → Type 0} {Post : A → S → Type 0} (v : Verdict) {m n o : M S A}
    → Leads Pre Post m
    → Leads Pre Post n
    → (v ≡ hit → Leads Pre Post o)
    → Leads {A = A} Pre Post (elim v [ skip ↦ m | mismatch ↦ n | hit ↦ o ])
verdict-Leads skip h k l = h
verdict-Leads mismatch h k l = k
verdict-Leads hit h k l = l refl

module _ {Dev : Type 0} ⦃P : Platform Dev⦄ where
  -- The item stands in an entry of the page that is written: it is what the device has just given for
  -- that entry.
  pub record StandsAt (index : ℕ) (item : Item) (t : Store Dev) : Type 0 where
    pub marked : EnumTable.get entry_shape index t.page.entry_table ≡ some written
    pub before : Dev
    pub raw : List ℕ
    pub read : P.read (entry_address index t.page) entry_size before ≡ (ok raw, t.dev)
    pub is : of_raw raw ≡ item

  -- A search that succeeds has found an intact item in an entry of the page.
  abbrev pub Succeeds : Query → Found → Store Dev → Type 0
  Succeeds q r t =
      r.code ≡ none
      → Answers q r.item
        × (calculate_crc32 P.crc32_le r.item ≡ r.item.crc32)
        × (r.index < entry_count)
        × StandsAt r.index r.item t

  failing : (q : Query) (r : Found) (e : Esp) (t : Store Dev) → r.code ≡ some e → Succeeds q r t
  failing q r e t h n = absurd (ground (arith, h, n))

  -- What `readEntry` gives is what the device gives.
  abbrev Reads : ℕ → Store Dev → Item → Store Dev → Type 0
  Reads i s item t =
      (t.page ≡ s.page)
      × ((raw : List ℕ) × (P.read (entry_address i s.page) entry_size s.dev ≡ (ok raw, t.dev))
          × (of_raw raw ≡ item))

  read_entry-Reads : (i : ℕ) (s : Store Dev) → Gives s (Reads i s) (read_entry i)
  unfolding read_entry
  read_entry-Reads i s =
      let rest : M (Store Dev) Item = (do
        p ← gets_page (λ p. p)
        bytes ← on_dev (P.read (entry_address i p) entry_size)
        pure (of_raw bytes)) in
      assert-Gives (ltb i entry_count) {m = rest} (λ _. record {
        apply =
            (bind-Gives {s = s}
              {Mid = λ raw t.
                (t.page ≡ s.page)
                × (P.read (entry_address i s.page) entry_size s.dev ≡ (ok raw, t.dev))}
              (on_dev (P.read (entry_address i s.page) entry_size))
              (record {
                apply = λ raw t e. (sym (ap (λ x. x.1.page) e), ap (λ x. (x.0, x.1.dev)) e);
              })
              (λ raw t (same, read). pure-Gives (of_raw raw) (same, (raw, read, refl)))).apply;
      })

  marked_result :
      (i : ℕ) (o : Option ℕ) (s : Store Dev)
      → EnumTable.get entry_shape i s.page.entry_table ≡ o
      → Gives s
          (λ state t. EnumTable.get entry_shape i t.page.entry_table ≡ some state)
          (or_abort o)
  marked_result i none s h = record { apply = λ a t e. absurd (ground (arith, e)) }
  marked_result i (some v) s h = pure-Gives v h

  entry_state-Marked :
      (i : ℕ) (s : Store Dev)
      → Gives s
          (λ state t. EnumTable.get entry_shape i t.page.entry_table ≡ some state)
          (entry_state i)
  unfolding entry_state
  entry_state-Marked i s = record {
    apply = (marked_result i (EnumTable.get entry_shape i s.page.entry_table) s refl).apply;
  }

  stands :
      (i state : ℕ) (item : Item) (t u : Store Dev)
      → EnumTable.get entry_shape i t.page.entry_table ≡ some state
      → (state == written) ≡ true
      → Reads i t item u
      → StandsAt i item u
  stands i state item t u got is (same, (raw, read, made)) = record {
    marked =
        ap (λ (p : Page). EnumTable.get entry_shape i p.entry_table) same
        ∙ got
        ∙ ap (λ (n : ℕ). some n) (ground (arith, is));
    before = t.dev;
    raw = raw;
    read = ap (λ (p : Page). P.read (entry_address i p) entry_size t.dev) same ∙ read;
    is = made;
  }

  -- The entry is marked as written, and the item that is read from it stands there.
  read-StandsAt :
      (i state : ℕ)
      → (state == written) ≡ true
      → Leads
          (λ (t : Store Dev). EnumTable.get entry_shape i t.page.entry_table ≡ some state)
          (λ read u. (item : Item) → read ≡ done item → StandsAt i item u)
          (attempt (or_invalid (read_entry i)))
  read-StandsAt i state is = Gives-Leads (λ t got.
      weaken-Gives (attempt-Gives (read_entry-Reads i t))
        (λ read u known item d. stands i state item t u got is (known item d)))

  find_loop-Succeeds :
      (q : Query) (end fuel i : ℕ) (r : Found) (e : Esp)
      → end ≤ entry_count
      → r.code ≡ some e
      → Leads (λ _. Unit {0}) (Succeeds q) (find_loop q end fuel i r)
  unfolding find_loop
  find_loop-Succeeds q end zero i r e le h =
      if-Leads _ stuck-Leads (pure-Leads r (λ s _. failing q r e s h))
  find_loop-Succeeds q end (suc fuel) i r e le h =
      split-Leads (ltb i end) (λ _. pure-Leads r (λ s _. failing q r e s h))
        (λ below. bind-Leads (entry_state i) (Gives-Leads (λ s _. entry_state-Marked i s)) (λ state.
          split-Leads (state == written) (λ _. any-Leads (find_loop-Succeeds q end fuel _ r e le h))
            (λ is.
              bind-Leads (attempt (or_invalid (read_entry i))) (read-StandsAt i state is) (λ read.
                attempt-Leads read (λ c. pure-Leads _ (λ u _. failing q _ c u refl))
                  (λ item is_done.
                    split-Leads (calculate_crc32 P.crc32_le item == item.crc32)
                      (λ _. after-Leads (try (or_invalid (erase_entry_and_span i))) (λ rc.
                        option-Leads rc (λ _. find_loop-Succeeds q end fuel _ _ e le h)
                          (λ c. pure-Leads _ (λ u _. failing q _ c u refl))))
                      (λ intact.
                        verdict-Leads (verdict q item)
                          (any-Leads (find_loop-Succeeds q end fuel _ _ e le h))
                          (pure-Leads _ (λ u _. failing q _ _ u refl))
                          (λ is_hit.
                            pure-Leads (record { code = none; index = i; item = item })
                              (λ u known _. (
                                hit-Answers q item is_hit,
                                ground (arith, intact),
                                ground (arith, below, le),
                                known item is_done,
                              )))))))))

  pub find_item-Succeeds :
      (q : Query) (i : ℕ) (item : Item) → Leads (λ _. Unit {0}) (Succeeds q) (find_item q i item)
  unfolding find_item
  find_item-Succeeds q i item =
      let none_found = λ (s : Store Dev). failing q (missing i item) _ s refl in
      after-Leads (gets_page (λ p. p)) (λ p.
        if-Leads (p.state == corrupt || p.state == invalid || p.state == uninitialized)
          (pure-Leads (missing i item) (λ s _. none_found s))
          (if-Leads (leb entry_count i) (pure-Leads (missing i item) (λ s _. none_found s)) (
            option-Leads (find_start P.crc32_le q i p)
              (λ _. pure-Leads (missing i item) (λ s _. none_found s))
              (λ start.
                find_loop-Succeeds q
                  (if ltb entry_count p.next_free_entry then entry_count else p.next_free_entry)
                  find_fuel start (missing i item) _ (ground arith) refl))))

  -- Where `findItem` returns `ESP_OK`, the item has the namespace, the type and the key that are asked
  -- for, and the chunk if a piece of a blob is asked for, and the version if an index is; its checksum
  -- is right; and it is what the device gave for the entry at the position that is returned, which
  -- is an entry of the page that is marked as written.
  pub find_item-Answers :
      (q : Query) (index : ℕ) (item : Item) (s t : Store Dev) (r : Found)
      → find_item q index item s ≡ (ok r, t)
      → r.code ≡ none
      → Answers q r.item
        × (calculate_crc32 P.crc32_le r.item ≡ r.item.crc32)
        × (r.index < entry_count)
        × StandsAt r.index r.item t
  find_item-Answers q index item s t r returns success =
      (find_item-Succeeds q index item).apply s tt r t returns success
