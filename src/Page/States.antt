-- ===== src/Page/States.antt =====
-- src/nvs_page.cpp: the life of a page between two erasures, as a run of commands on it.
use sming_nvs.Prelude.{ℕ, ◌≡◌, ◌≤◌, ◌⊎◌, arith, List, [], ◌∷◌}
use sming_nvs.Item.{Item}
use sming_nvs.Platform.{Platform}
use sming_nvs.Page.State.{Page, Store, full, freeing, invalid}
use sming_nvs.Page.Header.{set_seq_number, set_version, alter_page_state, mark_full, mark_freeing}
use sming_nvs.Page.Find.{Query, no_item, find_item, erase_item}
use sming_nvs.Page.Items.{write_item, read_item, cmp_item}
use sming_nvs.Page.Copy.{copy_items}
use sming_nvs.Page.Keeps.{Kept}
use sming_nvs.Page.Commands.{write_item-Kept, search-Kept, copy_items-Kept}

-- The calls that the page manager and the storage make of a page, all but `erase` and `load`.
pub data Command : Type 0 where
  do_write : ℕ → ℕ → List ℕ → List ℕ → ℕ → Command
  do_find : Query → ℕ → Item → Command
  do_read do_compare : Query → List ℕ → Command
  do_erase_item : Query → Command
  do_copy_from : Page → Command
  do_set_seq_number do_set_version : ℕ → Command
  do_mark_full do_mark_freeing : Command

Kept-falls : (p q : Page) → Kept p q → (q.state ≤ p.state) × (q.base_address ≡ p.base_address)
Kept-falls p q k = ground (arith, k.state, k.base_address)

module _ {Dev : Type 0} ⦃P : Platform Dev⦄ where
  -- The store behind a call, whatever it returns.
  pub after : Command → Store Dev → Store Dev
  after (do_write ns t key bytes chunk) s = (write_item ns t key bytes chunk s).1
  after (do_find q i item) s = (find_item q i item s).1
  after (do_read q buffer) s = (read_item q buffer s).1
  after (do_compare q bytes) s = (cmp_item q bytes s).1
  after (do_erase_item q) s = (erase_item q s).1
  after (do_copy_from p) s = (copy_items p s).1
  after (do_set_seq_number n) s = (set_seq_number n s).1
  after (do_set_version v) s = (set_version v s).1
  after do_mark_full s = (mark_full s).1
  after do_mark_freeing s = (mark_freeing s).1

  pub run : List Command → Store Dev → Store Dev
  run [] s = s
  run (c ∷ cs) s = run cs (after c s)

  alter_page_state-cases :
      (st : ℕ) (s : Store Dev)
      → let q = (alter_page_state st s).1.page in
        ((q.state ≡ st) ⊎ (q.state ≡ invalid) ⊎ (q.state ≡ s.page.state))
        × (q.base_address ≡ s.page.base_address)
  unfolding alter_page_state
  alter_page_state-cases st s = ground arith

  mark_full-falls :
      (s : Store Dev)
      → ((mark_full s).1.page.state ≤ s.page.state)
        × ((mark_full s).1.page.base_address ≡ s.page.base_address)
  unfolding mark_full
  mark_full-falls s = ground (arith, alter_page_state-cases full s)

  mark_freeing-falls :
      (s : Store Dev)
      → ((mark_freeing s).1.page.state ≤ s.page.state)
        × ((mark_freeing s).1.page.base_address ≡ s.page.base_address)
  unfolding mark_freeing
  mark_freeing-falls s = ground (arith, alter_page_state-cases freeing s)

  set_seq_number-falls :
      (n : ℕ) (s : Store Dev)
      → ((set_seq_number n s).1.page.state ≤ s.page.state)
        × ((set_seq_number n s).1.page.base_address ≡ s.page.base_address)
  unfolding set_seq_number
  set_seq_number-falls n s = ground arith

  set_version-falls :
      (v : ℕ) (s : Store Dev)
      → ((set_version v s).1.page.state ≤ s.page.state)
        × ((set_version v s).1.page.base_address ≡ s.page.base_address)
  unfolding set_version
  set_version-falls v s = ground arith

  after-falls :
      (c : Command) (s : Store Dev)
      → ((after c s).page.state ≤ s.page.state)
        × ((after c s).page.base_address ≡ s.page.base_address)
  unfolding after
  after-falls (do_write ns t key bytes chunk) s =
      Kept-falls _ _ (write_item-Kept s ns t key bytes chunk)
  after-falls (do_find q i item) s = Kept-falls _ _ (search-Kept s q i item []).0
  after-falls (do_read q buffer) s = Kept-falls _ _ (search-Kept s q 0 no_item buffer).1
  after-falls (do_compare q bytes) s = Kept-falls _ _ (search-Kept s q 0 no_item bytes).2
  after-falls (do_erase_item q) s = Kept-falls _ _ (search-Kept s q 0 no_item []).3
  after-falls (do_copy_from p) s = Kept-falls _ _ (copy_items-Kept s p)
  after-falls (do_set_seq_number n) s = set_seq_number-falls n s
  after-falls (do_set_version v) s = set_version-falls v s
  after-falls do_mark_full s = mark_full-falls s
  after-falls do_mark_freeing s = mark_freeing-falls s

  -- Along any calls of a page's methods other than `erase` and `load`, whether they succeed or fail,
  -- the number that stands for the page's state never rises, so that a page which is full or
  -- freeing is not active again; and the page stays the same sector.
  pub run-falls :
      (cs : List Command) (s : Store Dev)
      → ((run cs s).page.state ≤ s.page.state)
        × ((run cs s).page.base_address ≡ s.page.base_address)
  unfolding run
  run-falls [] s = ground arith
  run-falls (c ∷ cs) s = ground (arith, after-falls c s, run-falls cs (after c s))
