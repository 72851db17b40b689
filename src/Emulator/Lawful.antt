-- ===== src/Emulator/Lawful.antt =====
-- test_nvs_host/spi_flash_emulation.h: the emulated flash is one that keeps what is written to it.
use mathlib.Core.Path.{subst}
use sming_nvs.Prelude.{
  ℕ, ◌+◌, ◌-◌, ◌*◌, ◌/◌, ◌%◌, ◌≤◌, ◌≡◌, inl, inr, refl, sym, ap, ◌∙◌, arith, Bool, true, false,
  List, Void, Outcome, ok, err, flash_op_fail, length, length-take, length-drop, take, drop,
  if◌then◌else◌,
}
use sming_nvs.Platform.Flash.{Flash, Apart, IsBytes}
use sming_nvs.Emulator.{SpiFlashEmulator, bytes_of, slice, read, write}
use sming_nvs.Emulator.Words.{
  take-slice, drop-slice, bytes_of-words_of, take-bytes_of, drop-bytes_of,
}
use sming_nvs.Emulator.Devices.{emu_read, emu_write, partition_emulation}
use sming_nvs.Emulator.Holding.{Framed, write-Framed, write-Wrote}

-- The bytes stand at an address, both of which are in whole words.
pub record Holding (e : SpiFlashEmulator) (a : ℕ) (bytes : List ℕ) : Type 0 where
  pub aligned : a % 4 ≡ 0
  pub whole : length bytes % 4 ≡ 0
  pub inside : a + length bytes ≤ length e.words * 4
  pub same : bytes_of (slice (length bytes / 4) (a / 4) e.words) ≡ bytes

kept :
    (e e' : SpiFlashEmulator) (a : ℕ) (bytes : List ℕ)
    → Framed (length bytes / 4) (a / 4) e (true, e')
    → Holding e a bytes
    → Holding e' a bytes
kept e e' a bytes frame h = record {
  aligned = h.aligned;
  whole = h.whole;
  inside = omega (arith, h.inside, frame.1);
  same = ap bytes_of frame.0 ∙ h.same;
}

read_words : (b n : ℕ) (e : SpiFlashEmulator) → (emu_read b n e).1.words ≡ e.words
unfolding emu_read read
read_words b n e = ground arith

-- `if (!flash_emu->write(...)) return ESP_ERR_FLASH_OP_FAIL;`
abbrev status : Bool × SpiFlashEmulator → Outcome Void × SpiFlashEmulator
status (done, e) = if done then (ok tt, e) else (err flash_op_fail, e)

-- The result of a call of `write`, as the partition passes it on.
passed_on : (r : Bool × SpiFlashEmulator) → (status r).1 ≡ r.1
passed_on (true, e) = refl
passed_on (false, e) = refl

succeeded :
    (r : Bool × SpiFlashEmulator) {e : SpiFlashEmulator}
    → status r ≡ (ok tt, e)
    → (r.0 ≡ true) × (r.1 ≡ e)
succeeded (true, e) h = (refl, ap (λ x. x.1) h)
succeeded (false, e) h = absurd (ground (arith, h))

read_back :
    (e : SpiFlashEmulator) (a : ℕ) (bytes : List ℕ)
    → Holding e a bytes
    → (emu_read a (length bytes) e).0 ≡ ok bytes
unfolding emu_read read
read_back e a bytes h = ground (arith, h.aligned, h.whole, h.inside, h.same)

write_holds :
    (e e' : SpiFlashEmulator) (a : ℕ) (bytes : List ℕ)
    → IsBytes bytes
    → emu_write a bytes e ≡ (ok tt, e')
    → Holding e' a bytes
unfolding emu_write
write_holds e e' a bytes small h =
    let (done, final) = succeeded (write a bytes e) h in
    let w = write-Wrote a bytes e done in
    subst (λ x. Holding x a bytes) final
      (record {
        aligned = w.aligned;
        whole = w.whole;
        inside = w.inside;
        same = ap bytes_of w.same ∙ bytes_of-words_of bytes w.whole small;
      })

write_keeps :
    (e : SpiFlashEmulator) (b : ℕ) (other : List ℕ) (a : ℕ) (bytes : List ℕ)
    → Apart a (length bytes) b (length other)
    → Holding e a bytes
    → Holding (emu_write b other e).1 a bytes
unfolding emu_write
write_keeps e b other a bytes apart h =
    subst (λ x. Holding x a bytes) (sym (passed_on (write b other e)))
      (kept e (write b other e).1 a bytes
        (write-Framed b other e (length bytes / 4) (a / 4) (elim apart [
          | inl before ↦ inl (omega (arith, before, h.aligned, h.whole))
          | inr behind ↦ inr (omega (arith, behind))
        ]))
        h)

parts :
    (e : SpiFlashEmulator) (a n : ℕ) (bytes : List ℕ)
    → n % 32 ≡ 0
    → n ≤ length bytes
    → Holding e a bytes
    → Holding e a (take n bytes) × Holding e (a + n) (drop n bytes)
parts e a n bytes cut le h =
    let k : ℕ = n / 4 in
    let i : ℕ = a / 4 in
    let all : ℕ = length bytes / 4 in
    let words = slice all i e.words in
    let front : length (take n bytes) ≡ n = omega (arith, length-take n bytes, le) in
    let back : length (drop n bytes) ≡ length bytes - n = length-drop n bytes in
    let size : n ≡ k * 4 = omega (arith, cut) in
    let k_le : k ≤ all = omega (arith, le) in
    let at_k : (a + n) / 4 ≡ i + k = omega (arith, h.aligned, cut) in
    let left : (length bytes - n) / 4 ≡ all - k = omega (arith, h.whole, cut, le) in
    let taken : bytes_of (slice k i e.words) ≡ take n bytes =
      ap bytes_of (sym (take-slice k all i e.words k_le))
      ∙ sym (take-bytes_of k words)
      ∙ ap (take (k * 4)) h.same
      ∙ ap (λ (m : ℕ). take m bytes) (sym size) in
    let dropped : bytes_of (slice (all - k) (i + k) e.words) ≡ drop n bytes =
      ap bytes_of (sym (drop-slice k all i e.words))
      ∙ sym (drop-bytes_of k words)
      ∙ ap (drop (k * 4)) h.same
      ∙ ap (λ (m : ℕ). drop m bytes) (sym size) in
    (
      record {
        aligned = h.aligned;
        whole = omega (arith, front, cut);
        inside = omega (arith, front, h.inside, le);
        same = rw front taken;
      },
      record {
        aligned = omega (arith, h.aligned, cut);
        whole = omega (arith, back, h.whole, cut, le);
        inside = omega (arith, back, h.inside, le);
        same = rw (back, at_k, left) dropped;
      },
    )

read_same :
    (e e' : SpiFlashEmulator) (b n : ℕ)
    → Framed (n / 4) (b / 4) e (true, e')
    → (emu_read b n e').0 ≡ (emu_read b n e).0
unfolding emu_read read
read_same e e' b n frame = let same = ap bytes_of frame.0 in ground (arith, same, frame.1)

-- After a write to the emulated flash that succeeds, a read of its range gives the bytes that were
-- written, and a read of a range apart from it gives what it gave before, an error included.
pub emu_write-emu_read :
    (e e' : SpiFlashEmulator) (a b n : ℕ) (bytes : List ℕ)
    → IsBytes bytes
    → emu_write a bytes e ≡ (ok tt, e')
    → Apart b n a (length bytes)
    → ((emu_read a (length bytes) e').0 ≡ ok bytes) × ((emu_read b n e').0 ≡ (emu_read b n e).0)
unfolding emu_write
emu_write-emu_read e e' a b n bytes small h apart =
    let (done, final) = succeeded (write a bytes e) h in
    let w = write-Wrote a bytes e done in
    (
      read_back e' a bytes (write_holds e e' a bytes small (unfold emu_write in h)),
      read_same e e' b n (
          subst (λ x. Framed (n / 4) (b / 4) e (true, x)) final
            (write-Framed a bytes e (n / 4) (b / 4) (elim apart [
              | inl before ↦ inl (omega (arith, w.aligned))
              | inr behind ↦ inr (omega (arith, behind))
            ]))),
    )

-- `PartitionEmulation` is a flash that keeps what is written.
pub emulation_flash : (crc32_le : ℕ → List ℕ → ℕ) → Flash (partition_emulation crc32_le)
emulation_flash crc32_le = record {
  Holds = Holding;
  read_back = read_back;
  read_keeps = λ e b n a bytes h.
      kept e (emu_read b n e).1 a bytes
        (ap (slice (length bytes / 4) (a / 4)) (read_words b n e), ap length (read_words b n e)) h;
  write_holds = write_holds;
  write_keeps = write_keeps;
  parts = parts;
  write_raw_keeps = write_keeps;
}
