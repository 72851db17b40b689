-- ===== src/EspPartition/RoundTrip.antt =====
-- src/nvs_encrypted_partition.cpp: an entry that is written and read back.
use mathlib.Core.Path.{subst}
use sming_nvs.Prelude.{
  ℕ, suc, zero, ◌≡◌, refl, Bool, no_mem, sym, ap, ◌∙◌, arith, true, false, not, Option, none, some,
  List, [], ◌∷◌, ◌++◌, append-nil, M, Void, Outcome, ok, err, raise_if, ◌>>=◌, ◌>>◌, ◌/◌, ◌*◌, ◌+◌,
  ltb, u8, inl, inr, nvs_xts_encr_failed, length, take, drop, Option-cases,
}
use sming_nvs.Prelude.Preserves.{bind-ok, bind-returned}
use sming_nvs.EspPartition.{
  EspFlash, Xts, Encrypted, item_size, data_unit, encrypt_loop, on_flash, request_buffer,
  request_from, returns, decrypted, encrypted_read, encrypted_write,
}

take-all : (n : ℕ) (xs : List ℕ) → length xs ≡ n → take n xs ≡ xs
take-all zero [] e = refl
take-all (suc n) [] e = refl
take-all zero (x ∷ xs) e = absurd (omega (arith, e))
take-all (suc n) (x ∷ xs) e = ap (λ ys. x ∷ ys) (take-all n xs (omega (arith, e)))

drop-all : (n : ℕ) (xs : List ℕ) → length xs ≡ n → drop n xs ≡ []
drop-all zero [] e = refl
drop-all (suc n) [] e = refl
drop-all zero (x ∷ xs) e = absurd (omega (arith, e))
drop-all (suc n) (x ∷ xs) e = drop-all n xs (omega (arith, e))

-- What the cipher promises: bytes that it encrypts have their length still, and are decrypted.
pub record IsCipher (X : Xts) : Type 0 where
  pub size :
      (unit plain bytes : List ℕ) → X.encrypt unit plain ≡ some bytes → length bytes ≡ length plain
  pub inverse :
      (unit plain bytes : List ℕ)
      → X.encrypt unit plain ≡ some bytes
      → X.decrypt unit bytes ≡ some plain

module _ (X : Xts) (address : ℕ) where
  -- The bytes of an entry of the buffer, encrypted.
  unfoldable pub sealed : ℕ → List ℕ → Option (List ℕ)
  sealed entry buffer =
      X.encrypt (data_unit (address + entry * item_size))
        (take item_size (drop (entry * item_size) buffer))

  pub loop-step :
      (fuel entry : ℕ) (buffer bytes : List ℕ)
      → ltb entry (length buffer / item_size) ≡ true
      → sealed entry buffer ≡ some bytes
      → encrypt_loop X address (suc fuel) entry buffer
        ≡ encrypt_loop X address fuel (u8 (entry + 1)) (
            take (entry * item_size) buffer ++ bytes ++ drop (entry * item_size + item_size) buffer)
  unfolding encrypt_loop sealed
  loop-step fuel entry buffer bytes h k = rw (encrypt_loop, h, k) refl

  pub loop-fails :
      (fuel entry : ℕ) (buffer : List ℕ)
      → ltb entry (length buffer / item_size) ≡ true
      → sealed entry buffer ≡ none
      → encrypt_loop X address (suc fuel) entry buffer ≡ err nvs_xts_encr_failed
  unfolding encrypt_loop sealed
  loop-fails fuel entry buffer h k = rw (encrypt_loop, h, k) refl

  pub loop-ends :
      (fuel entry : ℕ) (buffer : List ℕ)
      → ltb entry (length buffer / item_size) ≡ false
      → encrypt_loop X address (suc fuel) entry buffer ≡ ok buffer
  unfolding encrypt_loop
  loop-ends fuel entry buffer h = rw (encrypt_loop, h) refl

  first_entry :
      (src : List ℕ) → length src ≡ item_size → sealed 0 src ≡ X.encrypt (data_unit address) src
  unfolding sealed
  first_entry src size =
      let same : address + 0 * item_size ≡ address = omega arith in
      rw (sealed, take-all item_size src size) (ap (λ a. X.encrypt (data_unit a) src) same)

  one_entry :
      (src : List ℕ)
      → IsCipher X
      → length src ≡ item_size
      → (buffer : List ℕ) → encrypt_loop X address 257 0 src ≡ ok buffer
      → X.encrypt (data_unit address) src ≡ some buffer
  one_entry src c size buffer e = elim (Option-cases (sealed 0 src)) [
    | inl fails ↦ absurd (ground (arith, e, loop-fails 256 0 src (rw size refl) fails))
    | inr (bytes, is) ↦
        let whole : length bytes ≡ item_size =
          c.size (data_unit address) src bytes (sym (first_entry src size) ∙ is) ∙ size in
        let rest : bytes ++ drop item_size src ≡ bytes =
          rw (drop-all item_size src size) (append-nil bytes) in
        let done : encrypt_loop X address 257 0 src ≡ ok bytes =
          loop-step 256 0 src bytes (rw size refl) is
          ∙ ap (encrypt_loop X address 256 1) rest
          ∙ loop-ends 255 1 bytes (rw whole refl) in
        sym (first_entry src size) ∙ is ∙ ap some (ground (arith, done, e))
  ]

-- What the platform's flash promises of an entry: what is written is read back.
pub record ReadsBack {Dev : Type 0} (F : EspFlash Dev) : Type 0 where
  pub entry :
      (address : ℕ) (bytes : List ℕ) (d d' : Dev)
      → length bytes ≡ item_size
      → F.write address bytes d ≡ (ok tt, d')
      → (F.read address item_size d').0 ≡ ok bytes

module _ {Dev : Type 0} (F : EspFlash Dev) (X : Xts) where
  -- The last steps of `write`, and what they have done where they return.
  rest : ℕ → List ℕ → M (Encrypted Dev) Void
  rest address src = do
    buffer ← returns (encrypt_loop X address 257 0 src)
    on_flash (F.write address buffer)

  abbrev Written : ℕ → List ℕ → Encrypted Dev → Outcome Void × Encrypted Dev → Type 0
  Written address src s out =
      (buffer : List ℕ) × (encrypt_loop X address 257 0 src ≡ ok buffer)
      × (F.write address buffer s.dev ≡ (ok tt, out.1.dev))

  rest-Written :
      (address : ℕ) (src : List ℕ) (s : Encrypted Dev)
      → (rest address src s).0 ≡ ok tt
      → Written address src s (rest address src s)
  unfolding rest
  rest-Written address src s returned =
      let finish : List ℕ → M (Encrypted Dev) Void = λ buffer. on_flash (F.write address buffer) in
      let (buffer, loop, same) =
        bind-returned (returns (encrypt_loop X address 257 0 src)) finish s tt returned in
      subst (Written address src s) (sym same) (
        buffer,
        loop,
        ap (λ o. (o, (F.write address buffer s.dev).1)) (sym (ap (λ x. x.0) same) ∙ returned),
      )

  granted-Written :
      (granted : Bool) (address : ℕ) (src : List ℕ) (s : Encrypted Dev)
      → ((raise_if (not granted) no_mem >> rest address src) s).0 ≡ ok tt
      → Written address src s ((raise_if (not granted) no_mem >> rest address src) s)
  granted-Written true address src s returned = rest-Written address src s returned
  granted-Written false address src s returned = absurd (ground (arith, returned))

  asked-Written :
      (heap : List Bool) (address : ℕ) (src : List ℕ) (s : Encrypted Dev)
      → let m : M (Encrypted Dev) Void = (λ t. request_from t heap) >>= λ granted.
          raise_if (not granted) no_mem >> rest address src in
        (m s).0 ≡ ok tt → Written address src s (m s)
  asked-Written [] address src s returned = granted-Written true address src s returned
  asked-Written (granted ∷ heap) address src s returned =
      granted-Written granted address src (record s { heap = heap }) returned

  -- A `write` of an entry that returns has written the encrypted bytes.
  written :
      (address : ℕ) (src : List ℕ) (s : Encrypted Dev)
      → length src ≡ item_size
      → (encrypted_write F X address src s).0 ≡ ok tt
      → Written address src s (encrypted_write F X address src s)
  unfolding encrypted_write rest
  written address src s size returned =
      let passes : encrypted_write F X address src s
          ≡ (request_buffer >>= λ granted. raise_if (not granted) no_mem >> rest address src) s =
        rw (encrypted_write, size) refl in
      subst (Written address src s) (sym passes)
        (asked-Written s.heap address src s (sym (ap (λ x. x.0) passes) ∙ returned))

  -- An entry that is written to an encrypted partition is read back as it was, on a flash that reads
  -- back what was written and with a cipher whose two directions are inverse.
  pub encrypted_write-encrypted_read :
      ReadsBack F
      → IsCipher X
      → (address : ℕ) (src : List ℕ) (s : Encrypted Dev) → length src ≡ item_size
      → (encrypted_write F X address src s).0 ≡ ok tt
      → (encrypted_read F X address item_size (encrypted_write F X address src s).1).0 ≡ ok src
  unfolding encrypted_read
  encrypted_write-encrypted_read flash c address src s size returned =
      let (buffer, loop, done) = written address src s size returned in
      let is = one_entry X address src c size buffer loop in
      let back =
        flash.entry address buffer s.dev _ (c.size (data_unit address) src buffer is ∙ size) done in
      ap (λ x. x.0)
        (bind-ok (on_flash (F.read address item_size)) (decrypted X address) _ buffer back)
      ∙ rw (decrypted, c.inverse (data_unit address) src buffer is) refl
