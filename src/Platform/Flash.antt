-- ===== src/Platform/Flash.antt =====
-- src/partition.hpp: what a flash keeps of the bytes that are written to it.
use sming_nvs.Prelude.{ℕ, ◌%◌, ◌+◌, ◌≤◌, ◌<◌, ◌≡◌, ◌⊎◌, List, ok, All, length, take, drop}
use sming_nvs.Platform.{Platform}

-- Two ranges of addresses that do not meet.
abbrev pub Apart : ℕ → ℕ → ℕ → ℕ → Type 0
Apart a n b m = (a + n ≤ b) ⊎ (b + m ≤ a)

abbrev pub IsBytes : List ℕ → Type 0
IsBytes = All (λ b. b < 256)

-- `Holds d a bytes`: the device holds these bytes at that address. They are read back; a write that
-- succeeds leaves its bytes there; reads, and writes elsewhere, change nothing; what is held is held
-- in parts, cut between entries.
pub record Flash {Dev : Type 0} (P : Platform Dev) : Type 1 where
  pub Holds : Dev → ℕ → List ℕ → Type 0
  pub read_back :
      (d : Dev) (a : ℕ) (bytes : List ℕ)
      → Holds d a bytes
      → (P.read a (length bytes) d).0 ≡ ok bytes
  pub read_keeps :
      (d : Dev) (b n a : ℕ) (bytes : List ℕ) → Holds d a bytes → Holds (P.read b n d).1 a bytes
  pub write_holds :
      (d d' : Dev) (a : ℕ) (bytes : List ℕ)
      → IsBytes bytes
      → P.write a bytes d ≡ (ok tt, d')
      → Holds d' a bytes
  pub write_keeps :
      (d : Dev) (b : ℕ) (other : List ℕ) (a : ℕ) (bytes : List ℕ)
      → Apart a (length bytes) b (length other)
      → Holds d a bytes
      → Holds (P.write b other d).1 a bytes
  pub parts :
      (d : Dev) (a n : ℕ) (bytes : List ℕ)
      → n % 32 ≡ 0
      → n ≤ length bytes
      → Holds d a bytes
      → Holds d a (take n bytes) × Holds d (a + n) (drop n bytes)
  pub write_raw_keeps :
      (d : Dev) (b : ℕ) (other : List ℕ) (a : ℕ) (bytes : List ℕ)
      → Apart a (length bytes) b (length other)
      → Holds d a bytes
      → Holds (P.write_raw b other d).1 a bytes
