-- ===== src/Api/Lengths.antt =====
-- src/nvs_api.cpp: the length that `nvs_get_str` and `nvs_get_blob` take and give back.
use sming_nvs.Prelude.{
  sym, ap, ◌∙◌, ◌>>=◌, ℕ, ◌≡◌, ◌≤◌, ◌<◌, refl, arith, none, some, List, ok, nvs_invalid_length,
  attempt, ltb, take,
}
use sming_nvs.Platform.{Platform}
use sming_nvs.Prelude.Preserves.{bind-value}
use sming_nvs.Prelude.Returns.{Leads, after-Leads, pure-Leads, split-Leads, attempt-Leads}
use sming_nvs.PartitionManager.{Registry}
use sming_nvs.Handle
use sming_nvs.Api.{
  find_entry, Entry, Api, Fetched, on_registry, find_ns_handle, nvs_get_str_or_blob, fetch,
}

-- The size is reported in any case; the call succeeds only where it fits the buffer, and where it does
-- not, the call is refused and the buffer left alone.
pub record Fits (size length : ℕ) (buffer : List ℕ) (r : Fetched) : Type 0 where
  pub reported : r.length ≡ some size
  pub fits : r.code ≡ none → size ≤ length
  pub refused : length < size → (r.code ≡ some nvs_invalid_length) × (r.value ≡ some buffer)

module _ {Dev : Type 0} ⦃P : Platform Dev⦄ (size length : ℕ) (buffer : List ℕ) where
  fetch-Fits :
      (h t : ℕ) (key : List ℕ)
      → Leads {S = Api Dev}
          (λ _. Unit {0})
          (λ r _. Fits size length buffer r)
          (fetch h t key (some buffer) (some length) size)
  unfolding fetch
  fetch-Fits h t key =
      split-Leads (ltb length size)
        (λ enough.
          after-Leads (attempt (on_registry (Handle.get_typed_item t key (take size buffer) h)))
            (λ r.
              attempt-Leads r
                (λ e.
                  pure-Leads (record { code = some e; length = some size; value = none })
                    (λ _ _. record {
                      reported = refl;
                      fits = λ h. absurd (ground (arith, h));
                      refused = λ lt. absurd (ground (arith, enough, lt));
                    }))
                (λ bytes _.
                  pure-Leads (record { code = none; length = some size; value = some bytes })
                    (λ _ _. record {
                      reported = refl;
                      fits = λ h. ground (arith, enough);
                      refused = λ lt. absurd (ground (arith, enough, lt));
                    }))))
        (λ short.
          pure-Leads
            (record { code = some nvs_invalid_length; length = some size; value = some buffer })
            (λ _ _. record {
              reported = refl;
              fits = λ h. absurd (ground (arith, h));
              refused = λ lt. (refl, refl);
            }))

module _ {Dev : Type 0} ⦃P : Platform Dev⦄ where
  -- A read of a string or a blob by a number that is known, of a value whose size the storage gives,
  -- into a buffer of a given length, reports that size; it succeeds only where the size is at most the
  -- length, and where the size is above it, the call is refused and leaves the buffer alone.
  pub nvs_get_str_or_blob-Fits :
      (c t : ℕ) (key buffer : List ℕ) (length : ℕ) (a b : Api Dev) (e : Entry) (size : ℕ)
      (r' : Registry Dev) (r : Fetched)
      → find_entry c a.entries ≡ some e
      → Handle.get_item_size t key e.handle a.registry ≡ (ok size, r')
      → nvs_get_str_or_blob c t key (some buffer) (some length) a ≡ (ok r, b)
      → Fits size length buffer r
  unfolding nvs_get_str_or_blob
  nvs_get_str_or_blob-Fits c t key buffer length a b e size r' r known sized returns =
      let found : find_ns_handle c a ≡ (ok e.handle, a) =
        unfold find_ns_handle in ground (arith, known) in
      let opened =
        bind-value (find_ns_handle c)
          (λ h. on_registry (Handle.get_item_size t key h) >>= λ n.
            fetch h t key (some buffer) (some length) n)
          a a e.handle found in
      let measured =
        bind-value (on_registry (Handle.get_item_size t key e.handle))
          (λ n. fetch e.handle t key (some buffer) (some length) n) a (record a { registry = r' })
          size (ap (λ x. (x.0, record a { registry = x.1 })) sized) in
      (fetch-Fits size length buffer e.handle t key).apply (record a { registry = r' }) tt r b
        (sym measured ∙ sym opened ∙ returns)
