-- ===== src/Emulator/Holding.antt =====
-- test_nvs_host/spi_flash_emulation.h: what the emulated flash keeps of what is written to it.
use Prim.Native.Nat.{bit_and}
use mathlib.Core.Path.{subst}
use sming_nvs.Prelude.{
  ℕ, ◌+◌, ◌-◌, ◌*◌, ◌/◌, ◌%◌, ◌≤◌, ◌≡◌, ◌⊎◌, inl, inr, refl, sym, ap, ◌∙◌, arith, Bool, true, false,
  List, [], ◌∷◌, ◌++◌, length, length-set, set, get_or, ◌==◌, ◌||◌, if◌then◌else◌,
}
use sming_nvs.Emulator.{
  SpiFlashEmulator, words_of, slice, size_max, is_out_of_bounds, trips, counted_down, misplaced,
  write_loop, write,
}
use sming_nvs.Emulator.Words.{length-words_of, slice-set, slice-set_self, slice-suc}

-- How a round of the loop of `write` goes on: it ends the loop, or it writes its word.
abbrev written_word : ℕ → ℕ → SpiFlashEmulator → SpiFlashEmulator
written_word sv pos e = record (counted_down e) { words = set e.words pos sv }

branch :
    (t c : Bool) (x y : Bool × SpiFlashEmulator)
    → ((elim t [ true ↦ x | false ↦ elim c [ false ↦ x | true ↦ y ] ]) ≡ x)
      ⊎ ((elim t [ true ↦ x | false ↦ elim c [ false ↦ x | true ↦ y ] ]) ≡ y)
branch true c x y = inl refl
branch false false x y = inl refl
branch false true x y = inr refl

round :
    (sv : ℕ) (src : List ℕ) (pos : ℕ) (e : SpiFlashEmulator)
    → (write_loop (sv ∷ src) pos e ≡ (false, counted_down e))
      ⊎ (write_loop (sv ∷ src) pos e ≡ write_loop src (pos + 1) (written_word sv pos e))
unfolding write_loop
round sv src pos e =
    branch (trips e) (bit_and (0xffff_ffff - get_or e.words pos 0) sv == 0) (false, counted_down e)
      (write_loop src (pos + 1) (written_word sv pos e))

-- Outside a range nothing has changed.
abbrev pub Framed : ℕ → ℕ → SpiFlashEmulator → Bool × SpiFlashEmulator → Type 0
Framed n i e r = (slice n i r.1.words ≡ slice n i e.words) × (length r.1.words ≡ length e.words)

-- The loop of `write`, complete or not, changes words of its range only.
write_loop-Framed :
    (src : List ℕ) (pos : ℕ) (e : SpiFlashEmulator) (n i : ℕ)
    → (i + n ≤ pos) ⊎ (pos + length src ≤ i)
    → Framed n i e (write_loop src pos e)
write_loop-Framed [] pos e n i h = unfold write_loop in (refl, refl)
write_loop-Framed (sv ∷ src) pos e n i h = elim (round sv src pos e) [
  | inl ended ↦ subst (Framed n i e) (sym ended) (refl, refl)
  | inr on ↦
      let rest =
        write_loop-Framed src (pos + 1) (written_word sv pos e) n i
          (elim h [ inl before ↦ inl (omega arith) | inr behind ↦ inr (omega arith) ]) in
      subst (Framed n i e) (sym on) (
        rest.0
            ∙ slice-set e.words n i pos sv
                (elim h [ inl before ↦ inr before | inr behind ↦ inl (omega arith) ]),
        rest.1 ∙ length-set e.words pos sv,
      )
]

-- A loop that is complete has written its words.
abbrev Complete : List ℕ → ℕ → Bool × SpiFlashEmulator → Type 0
Complete src pos r = r.0 ≡ true → slice (length src) pos r.1.words ≡ src

write_loop-Complete :
    (src : List ℕ) (pos : ℕ) (e : SpiFlashEmulator)
    → pos + length src ≤ length e.words
    → Complete src pos (write_loop src pos e)
write_loop-Complete [] pos e fits = unfold write_loop in (λ _. refl)
write_loop-Complete (sv ∷ src) pos e fits = elim (round sv src pos e) [
  | inl ended ↦ subst (Complete (sv ∷ src) pos) (sym ended) (λ h. absurd (ground (arith, h)))
  | inr on ↦
      let e' = written_word sv pos e in
      let frame = write_loop-Framed src (pos + 1) e' 1 pos (inl (omega arith)) in
      let size : length (set e.words pos sv) ≡ length e.words = length-set e.words pos sv in
      let rest = write_loop-Complete src (pos + 1) e' (omega (arith, fits, size)) in
      subst (Complete (sv ∷ src) pos) (sym on) (λ h.
        slice-suc (write_loop src (pos + 1) e').1.words (length src) pos
          (omega (arith, frame.1, size, fits))
        ∙ ap (λ x. x ++ slice (length src) (pos + 1) (write_loop src (pos + 1) e').1.words)
            (frame.0 ∙ slice-set_self e.words pos sv (omega (arith, fits)))
        ∙ ap (λ x. sv ∷ x) (rest h))
]

-- The end of `write`, which counts the operation if the loop is complete.
abbrev finish : ℕ → Bool × SpiFlashEmulator → Bool × SpiFlashEmulator
finish n (done, e') =
    if done
    then (
      true,
      record e' {
        write_ops = (e'.write_ops + 1) % (size_max + 1);
        write_bytes = (e'.write_bytes + n) % (size_max + 1);
      },
    )
    else (false, e')

finish_words :
    (n : ℕ) (r : Bool × SpiFlashEmulator)
    → ((finish n r).0 ≡ r.0) × ((finish n r).1.words ≡ r.1.words)
finish_words n (true, e) = (refl, refl)
finish_words n (false, e) = (refl, refl)

guard_cases :
    (b : Bool) (x y : Bool × SpiFlashEmulator)
    → ((if b then x else y) ≡ x) ⊎ ((b ≡ false) × ((if b then x else y) ≡ y))
guard_cases true x y = inl refl
guard_cases false x y = inr (refl, refl)

write_cases :
    (a : ℕ) (src : List ℕ) (e : SpiFlashEmulator)
    → (write a src e ≡ (false, e))
      ⊎ ((misplaced a (length src) e ≡ false)
          × (write a src e ≡ finish (length src) (write_loop (words_of src) (a / 4) e)))
unfolding write
write_cases a src e =
    elim (guard_cases (is_out_of_bounds (a / 4096 % 4294967296) e || misplaced a (length src) e)
      (false, e) (finish (length src) (write_loop (words_of src) (a / 4) e))) [
        | inl refused ↦ inl refused
        | inr (placed, on) ↦ inr (ground (arith, placed), on)
      ]

-- A write, complete or not, leaves the words outside its range.
pub write-Framed :
    (a : ℕ) (src : List ℕ) (e : SpiFlashEmulator) (n i : ℕ)
    → (i + n ≤ a / 4) ⊎ (a / 4 + length src / 4 ≤ i)
    → Framed n i e (write a src e)
write-Framed a src e n i h = elim (write_cases a src e) [
  | inl refused ↦ subst (Framed n i e) (sym refused) (refl, refl)
  | inr (_, on) ↦
      let r = write_loop (words_of src) (a / 4) e in
      let words = (finish_words (length src) r).1 in
      let frame = write_loop-Framed (words_of src) (a / 4) e n i (elim h [
        | inl before ↦ inl before
        | inr behind ↦ inr (omega (arith, length-words_of src))
      ]) in
      subst (Framed n i e) (sym on) (ap (slice n i) words ∙ frame.0, ap length words ∙ frame.1)
]

-- What a write that succeeds has done.
pub record Wrote (a : ℕ) (src : List ℕ) (r : Bool × SpiFlashEmulator) : Type 0 where
  pub aligned : a % 4 ≡ 0
  pub whole : length src % 4 ≡ 0
  pub inside : a + length src ≤ length r.1.words * 4
  pub same : slice (length src / 4) (a / 4) r.1.words ≡ words_of src

pub write-Wrote :
    (a : ℕ) (src : List ℕ) (e : SpiFlashEmulator)
    → (write a src e).0 ≡ true
    → Wrote a src (write a src e)
write-Wrote a src e h = elim (write_cases a src e) [
  | inl refused ↦ absurd (ground (arith, refused, h))
  | inr (placed, on) ↦
      let r = write_loop (words_of src) (a / 4) e in
      let (done, words) = finish_words (length src) r in
      let complete : r.0 ≡ true = sym done ∙ ap (λ x. x.0) (sym on) ∙ h in
      let size = (write_loop-Framed (words_of src) (a / 4) e 0 (a / 4) (inl (omega arith))).1 in
      let final : (write a src e).1.words ≡ r.1.words = ap (λ x. x.1.words) on ∙ words in
      let inside : a + length src ≤ length e.words * 4 = ground (arith, placed) in
      record {
        aligned = ground (arith, placed);
        whole = ground (arith, placed);
        inside = omega (arith, inside, ap length final, size);
        same =
            ap (slice (length src / 4) (a / 4)) final
            ∙ subst (λ (n : ℕ). slice n (a / 4) r.1.words ≡ words_of src) (length-words_of src)
                (write_loop-Complete (words_of src) (a / 4) e
                  (omega (arith, length-words_of src, inside)) complete);
      }
]
