-- ===== src/Page/State.antt =====
-- src/nvs_page.hpp: the members of `Page`, its constants, and what its methods work on.
use sming_nvs.Prelude.{ℕ, ◌*◌, Bool, true, List, [], ◌∷◌, M, Void, ok, err, abort, stuck, replicate}
use sming_nvs.EnumTable.{Shape}
use sming_nvs.HashList.{HashList}

-- `PageState`, the values that are written to the header.
abbrev pub uninitialized : ℕ
uninitialized = 0xffff_ffff

abbrev pub active : ℕ
active = 0xffff_fffe

abbrev pub full : ℕ
full = 0xffff_fffc

abbrev pub freeing : ℕ
freeing = 0xffff_fff8

abbrev pub corrupt : ℕ
corrupt = 0xffff_fff0

abbrev pub invalid : ℕ
invalid = 0

-- `EntryState`; the two bits of an entry may also read 1.
abbrev pub empty : ℕ
empty = 3

abbrev pub written : ℕ
written = 2

abbrev pub erased : ℕ
erased = 0

abbrev pub sec_size : ℕ
sec_size = 4096

abbrev pub entry_size : ℕ
entry_size = 32

abbrev pub entry_count : ℕ
entry_count = 126

abbrev pub invalid_entry : ℕ
invalid_entry = 0xffff_ffff

abbrev pub chunk_max_size : ℕ
chunk_max_size = 32 * 125

abbrev pub ns_any : ℕ
ns_any = 255

abbrev pub nvs_version : ℕ
nvs_version = 0xfe

abbrev pub entry_table_offset : ℕ
entry_table_offset = 32

abbrev pub entry_data_offset : ℕ
entry_data_offset = 64

-- `CompressedEnumTable<EntryState, 2, ENTRY_COUNT>`
abbrev pub entry_shape : Shape
entry_shape = record { nbits = 2; nitems = 126 }

-- The members of `Page`, but for `mPartition`: the partition is the same for all pages.
pub record Page : Type 0 where
  pub base_address : ℕ
  pub state : ℕ
  pub seq_number : ℕ
  pub version : ℕ
  pub entry_table : List ℕ
  pub next_free_entry : ℕ
  pub first_used_entry : ℕ
  pub used_entry_count : ℕ
  pub erased_entry_count : ℕ
  pub hash_list : HashList

-- `Page()`. The table of states is not initialized; it is read or filled before it is used.
pub new_page : Page
new_page = record {
  base_address = 0;
  state = invalid;
  seq_number = 0xffff_ffff;
  version = nvs_version;
  entry_table = replicate 8 0;
  next_free_entry = invalid_entry;
  first_used_entry = invalid_entry;
  used_entry_count = 0;
  erased_entry_count = 0;
  hash_list = [];
}

-- A page, the answers to the coming requests for memory (granted, where none is left), and the
-- device.
pub record Store (Dev : Type 0) : Type 0 where
  pub page : Page
  pub heap : List Bool
  pub dev : Dev

module _ {Dev : Type 0} where
  abbrev pub on_dev : {A : Type 0} → M Dev A → M (Store Dev) A
  on_dev m s = let (r, d) = m s.dev in (r, record s { dev = d })

  abbrev pub gets_page : {A : Type 0} → (Page → A) → M (Store Dev) A
  gets_page f s = (ok (f s.page), s)

  abbrev pub set_page : (Page → Page) → M (Store Dev) Void
  set_page f s = (ok tt, record s { page = f s.page })

  abbrev pub set_state : ℕ → M (Store Dev) Void
  set_state st = set_page (λ p. record p { state = st })

  -- `if (err != ESP_OK) { mState = PageState::INVALID; return err; }`
  abbrev pub or_invalid : {A : Type 0} → M (Store Dev) A → M (Store Dev) A
  or_invalid m s =
      let (r, t) = m s in
      elim r [
        | ok a ↦ (ok a, t)
        | err e ↦ (err e, record t { page = record t.page { state = invalid } })
        | abort ↦ (abort, t)
        | stuck ↦ (stuck, t)
      ]

  -- `new (std::nothrow)`
  abbrev pub request : M (Store Dev) Bool
  request s = elim s.heap [
    | [] ↦ (ok true, s)
    | granted ∷ rest ↦ (ok granted, record s { heap = rest })
  ]
