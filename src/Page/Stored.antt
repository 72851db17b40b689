-- ===== src/Page/Stored.antt =====
-- src/nvs_page.cpp: what `writeItem` has put on the page where it returns `ESP_OK`.
use mathlib.Core.Path.{subst}
use sming_nvs.Prelude.{
  ℕ, ◌+◌, ◌%◌, ◌<◌, ◌≤◌, ◌≡◌, refl, sym, ap, ◌∙◌, arith, Bool, true, ◌||◌, Option, some, none, List,
  [], ◌∷◌, M, Void, Outcome, ok, no_mem, nvs_invalid_state, nvs_page_full, nvs_key_too_long,
  nvs_value_too_long, pure, fail, length, ltb, ◌==◌, if◌then◌else◌,
}
use sming_nvs.Prelude.Returns.{
  Gives, bind-Gives, then-Gives, pure-Gives, raise_if-Gives, if-Gives, weaken-Gives,
}
use sming_nvs.HashList
use sming_nvs.HashList.{HashList}
use sming_nvs.Item.{Item, calculate_crc32_without_value, max_key_length, is_variable_length_type}
use sming_nvs.Platform.{Platform}
use sming_nvs.Page.State.{
  Page, Store, active, invalid, uninitialized, full, chunk_max_size, invalid_entry, entry_count,
  request, set_page,
}
use sming_nvs.Page.Items.{entries_needed, write_item, write_variable, write_primitive}
use sming_nvs.Page.Header.{initialize}
use sming_nvs.Page.Tailroom.{variable_item}
use sming_nvs.Page.Table.{hash_insert}
use sming_nvs.Page.Written.{gets_page-Gives, set_page-Gives}

module _ {Dev : Type 0} where
  request_result :
      (heap : List Bool) (s : Store Dev) {a : Bool} {t : Store Dev}
      → ◌≡◌ {A = Outcome Bool × Store Dev}
          (elim heap [
            | [] ↦ (ok true, s)
            | granted ∷ rest ↦ (ok granted, record s { heap = rest })
          ])
          (ok a, t)
      → record s { heap = t.heap } ≡ t
  request_result [] s e = ap (λ r. record s { heap = r.1.heap }) (sym e) ∙ ap (λ r. r.1) e
  request_result (g ∷ rest) s e = ap (λ r. record s { heap = r.1.heap }) (sym e) ∙ ap (λ r. r.1) e

  request-Gives : (s : Store Dev) → Gives s (λ _ t. record s { heap = t.heap } ≡ t) request
  request-Gives s = record { apply = λ a t e. request_result s.heap s e }

-- The part of the checksum of an item that the cache keeps.
abbrev pub item_hash : (ℕ → List ℕ → ℕ) → Item → ℕ
item_hash crc32_le item = calculate_crc32_without_value crc32_le item % 16777216

module _ {Dev : Type 0} ⦃P : Platform Dev⦄ where
  -- `mHashList.insert` has put the item into the cache.
  pub record Cached (item : Item) (index : ℕ) (s t : Store Dev) : Type 0 where
    pub granted : Bool
    pub inserted :
        HashList.insert (item_hash P.crc32_le item) index granted s.page.hash_list
        ≡ some t.page.hash_list
    pub frame :
        record s { page = record s.page { hash_list = t.page.hash_list }; heap = t.heap } ≡ t

  cache_new :
      (item : Item) (index : ℕ) (granted : Bool) (s s1 : Store Dev) (h : HashList)
      → s.page.hash_list ≡ h
      → record s { heap = s1.heap } ≡ s1
      → (o : Option HashList) → HashList.insert (item_hash P.crc32_le item) index granted h ≡ o
      → Gives {A = Void} s1
          (λ _ t. Cached item index s t)
          (elim o [ none ↦ fail no_mem | some h' ↦ set_page (λ p. record p { hash_list = h' }) ])
  cache_new item index granted s s1 h same to_s1 none e = record {
    apply = λ a t r. absurd (ground (arith, r));
  }
  cache_new item index granted s s1 h same to_s1 (some h') e =
      weaken-Gives (set_page-Gives (λ p. record p { hash_list = h' }) s1) (λ _ t to_t. record {
        granted = granted;
        inserted = rw same e ∙ ap (λ (x : Store Dev). some x.page.hash_list) to_t;
        frame =
            ap
              (λ (x : Store Dev). record s {
                page = record s.page { hash_list = x.page.hash_list };
                heap = x.heap;
              })
              (sym to_t)
            ∙ ap (λ (x : Store Dev). record x { page = record x.page { hash_list = h' } }) to_s1
            ∙ to_t;
      })

  hash_insert-Cached :
      (item : Item) (index : ℕ) (s : Store Dev)
      → Gives s (λ _ t. Cached item index s t) (hash_insert item index)
  unfolding hash_insert
  hash_insert-Cached item index s =
      gets_page-Gives (λ p. p.hash_list)
        (λ h same.
          bind-Gives _
            (if-Gives (HashList.asks h) (λ _. request-Gives s) (λ _. pure-Gives true refl))
            (λ granted s1 to_s1. cache_new item index granted s s1 h same to_s1 _ refl))

module _ {Dev : Type 0} ⦃P : Platform Dev⦄ where
  -- `writeItem` behind its guards.
  abbrev write_body : ℕ → Item → List ℕ → M (Store Dev) Void
  write_body datatype item bytes =
      if is_variable_length_type datatype
      then write_variable item bytes
      else write_primitive item bytes

  -- A `writeItem` that returned: the item is in the cache, and then its entries were written.
  pub record Parts (item : Item) (datatype : ℕ) (bytes : List ℕ) (s t : Store Dev) : Type 0 where
    pub middle : Store Dev
    pub cached : Cached item s.page.next_free_entry s middle
    pub body : write_body datatype item bytes middle ≡ (ok tt, t)
    pub short : length bytes ≤ chunk_max_size
    pub room : s.page.next_free_entry < entry_count

  pub write_item-Parts :
      (ns_index datatype : ℕ) (key bytes : List ℕ) (chunk : ℕ) (s : Store Dev)
      → s.page.state ≡ active
      → Gives s
          (λ _ t. Parts (variable_item ns_index datatype key bytes chunk) datatype bytes s t)
          (write_item ns_index datatype key bytes chunk)
  unfolding write_item
  write_item-Parts ns_index datatype key bytes chunk s in_use =
      gets_page-Gives (λ p. p)
        (λ before same. raise_if-Gives (before.state == invalid) nvs_invalid_state (λ _.
          then-Gives {Mid = λ _ t. s ≡ t}
            (if before.state == uninitialized then initialize else pure tt)
            (if-Gives (before.state == uninitialized) {m = initialize}
              (λ blank. absurd (ground (arith, same, in_use, blank))) (λ _. pure-Gives tt refl))
            (λ s1 to_s1.
              gets_page-Gives (λ p. p)
                (λ p same_p. raise_if-Gives (p.state == full) nvs_page_full (λ _.
                  raise_if-Gives (ltb max_key_length (length key)) nvs_key_too_long (λ _.
                    raise_if-Gives (ltb chunk_max_size (length bytes)) nvs_value_too_long (λ short.
                      raise_if-Gives
                        (p.next_free_entry == invalid_entry
                          || ltb entry_count
                              (p.next_free_entry + entries_needed datatype (length bytes)))
                        nvs_page_full
                        (λ space.
                          then-Gives _
                            (hash_insert-Cached (variable_item ns_index datatype key bytes chunk)
                              p.next_free_entry s1)
                            (λ middle cached. record {
                              apply = λ _ t e. record {
                                middle = middle;
                                cached =
                                    subst
                                      (λ (x : Store Dev).
                                        Cached (variable_item ns_index datatype key bytes chunk)
                                          x.page.next_free_entry x middle)
                                      (sym to_s1)
                                      (subst
                                        (λ (x : Page).
                                          Cached (variable_item ns_index datatype key bytes chunk)
                                            x.next_free_entry s1 middle)
                                        (sym same_p) cached);
                                body = e;
                                short = ground arith;
                                room = rw (to_s1, same_p) (ground (arith, space));
                              };
                            })))))))))
