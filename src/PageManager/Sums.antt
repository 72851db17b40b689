-- ===== src/PageManager/Sums.antt =====
-- src/nvs_pagemanager.cpp: the totals of `fillStats`.
use sming_nvs.Prelude.{
  ℕ, suc, ◌+◌, ◌*◌, ◌≡◌, ◌≤◌, ◌<◌, refl, arith, none, some, List, [], ◌∷◌, length, get_elem?, Void,
  Outcome, ok, err, abort, stuck, Option-cases, M, modify, ◌>>◌, inl, inr,
}
use sming_nvs.Page.State.{Page, entry_count}
use sming_nvs.Page.Header.{Stats, count_used, calc_entries}
use sming_nvs.PageManager.{Manager}
use sming_nvs.PageManager.Totals.{count_pages, fill_stats}

-- One page more in the totals.
abbrev Grown : Stats → Stats → ℕ → Type 0
Grown s t n =
    (t.total_entries ≡ s.total_entries + n * entry_count)
    × (t.used_entries + t.free_entries ≡ s.used_entries + s.free_entries + n * entry_count)

calc_entries-Grown :
    (p : Page) (s : Stats)
    → p.used_entry_count ≤ entry_count
    → s.free_entries + entry_count < 4294967296
    → (calc_entries p s).0 ≡ ok tt
    → Grown s (calc_entries p s).1 1
unfolding calc_entries count_used
calc_entries-Grown p s le lt e = ground (arith, e)

-- No page counts more entries than it has.
abbrev pub Counts : List Page → List ℕ → Type 0
Counts pages is =
    (k i : ℕ) (p : Page)
    → get_elem? is k ≡ some i
    → get_elem? pages i ≡ some p
    → p.used_entry_count ≤ entry_count

then_ok :
    (r : Outcome Void) (s t : Stats) (k : M Stats Void)
    → (((λ (_ : Stats). (r, t)) >> k) s).0 ≡ ok tt
    → (r ≡ ok tt) × ((((λ (_ : Stats). (r, t)) >> k) s) ≡ k t)
then_ok (ok tt) s t k e = (refl, refl)
then_ok (err c) s t k e = absurd (ground (arith, e))
then_ok abort s t k e = absurd (ground (arith, e))
then_ok stuck s t k e = absurd (ground (arith, e))

count_pages-none :
    (pages : List Page) (is : List ℕ) (s : Stats) (i : ℕ)
    → get_elem? pages i ≡ none
    → (count_pages pages (i ∷ is) s).0 ≡ abort
unfolding count_pages
count_pages-none pages is s i h = rw h

count_pages_one :
    (pages : List Page) (is : List ℕ) (p : Page) (s : Stats) (i : ℕ)
    → get_elem? pages i ≡ some p
    → count_pages pages (i ∷ is) s ≡ (calc_entries p >> count_pages pages is) s
unfolding count_pages
count_pages_one pages is p s i h = rw h

count_pages-Grown :
    (pages : List Page) (is : List ℕ) (s : Stats)
    → Counts pages is
    → s.used_entries + s.free_entries + length is * entry_count < 4294967296
    → (count_pages pages is s).0 ≡ ok tt
    → Grown s (count_pages pages is s).1 (length is)
unfolding count_pages
count_pages-Grown pages [] s c lt e = ground arith
count_pages-Grown pages (i ∷ is) s c lt e = elim (Option-cases (get_elem? pages i)) [
  | inl h ↦ absurd (ground (arith, count_pages-none pages is s i h, e))
  | inr (p, h) ↦
      let one = count_pages_one pages is p s i h in
      let calc = (calc_entries p s).1 in
      let (good, rest) =
        then_ok (calc_entries p s).0 s calc (count_pages pages is) (ground (arith, one, e)) in
      let first = calc_entries-Grown p s (c 0 i p refl h) (ground (arith, lt)) good in
      let others =
        count_pages-Grown pages is calc (λ k. c (suc k)) (ground (arith, lt, first))
          (ground (arith, one, rest, e)) in
      ground (arith, one, rest, first, others)
]

-- Where `fillStats` returns, the total is all entries of the pages in use and of the free pages, and
-- the used and the free entries together are that total; as long as no page counts more used
-- entries than it has and the total fits in 32 bits.
pub fill_stats-total :
    {Dev : Type 0} (m : Manager Dev) (s : Stats)
    → Counts m.pages m.page_list
    → (length m.page_list + length m.free_page_list) * entry_count < 4294967296
    → (fill_stats m s).0 ≡ ok tt
    → let t = (fill_stats m s).1 in
      (t.total_entries ≡ (length m.page_list + length m.free_page_list) * entry_count)
      × (t.used_entries + t.free_entries ≡ t.total_entries)
unfolding fill_stats
fill_stats-total m s c lt e =
    let none_yet : Stats = record s { used_entries = 0; free_entries = 0; total_entries = 0 } in
    let counted = count_pages m.pages m.page_list none_yet in
    let (good, rest) =
      then_ok counted.0 none_yet counted.1
        (modify (λ s. record s {
          total_entries = s.total_entries + length m.free_page_list * entry_count;
          free_entries = s.free_entries + length m.free_page_list * entry_count;
        }))
        e in
    let grown = count_pages-Grown m.pages m.page_list none_yet c (ground (arith, lt)) good in
    ground (arith, grown, rest)
