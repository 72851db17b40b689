-- ===== src/Page/Rows.antt =====
-- src/nvs_page.cpp: entries of data one behind the other, and the loop of `readItem` over them.
use Prim.Native.Nat.{min}
use mathlib.Core.Path.{subst}
use sming_nvs.Prelude.{
  ℕ, zero, suc, ◌+◌, ◌-◌, ◌*◌, ◌<◌, ◌≤◌, ◌≡◌, refl, sym, ap, ◌∙◌, arith, List, [], ◌∷◌, ◌++◌,
  append_assoc, append-nil, ok, length, length-drop, length-take, take, drop, take-append-drop, All,
  All-take, All-drop,
}
use sming_nvs.Item.Codec.{to_raw-of_raw}
use sming_nvs.Prelude.Preserves.{bind-value}
use sming_nvs.Item.{to_raw, of_raw}
use sming_nvs.Platform.{Platform}
use sming_nvs.Platform.Flash.{Flash, IsBytes}
use sming_nvs.Page.State.{Store}
use sming_nvs.Page.Table.{entry_address, read_entry}
use sming_nvs.Page.Items.{read_chunks}
use sming_nvs.Page.Recall.{after_read, read_entry_back}

-- The 32 bytes of an entry.
abbrev pub IsRow : List ℕ → Type 0
IsRow r = (length r ≡ 32) × IsBytes r

abbrev pub joined : List (List ℕ) → List ℕ
joined [] = []
joined (r ∷ rs) = r ++ joined rs

abbrev pub chunks : ℕ → List ℕ → List (List ℕ)
chunks zero xs = []
chunks (suc k) xs = take 32 xs ∷ chunks k (drop 32 xs)

pub chunks-IsRow : (k : ℕ) (xs : List ℕ) → length xs ≡ k * 32 → IsBytes xs → All IsRow (chunks k xs)
chunks-IsRow zero xs e h = tt
chunks-IsRow (suc k) xs e h = (
  (omega (arith, length-take 32 xs), All-take (λ b. b < 256) 32 xs h),
  chunks-IsRow k (drop 32 xs) (omega (arith, length-drop 32 xs)) (All-drop (λ b. b < 256) 32 xs h),
)

pub joined-chunks : (k : ℕ) (xs : List ℕ) → length xs ≡ k * 32 → joined (chunks k xs) ≡ xs
joined-chunks zero [] e = refl
joined-chunks zero (x ∷ xs) e = absurd (omega (arith, e))
joined-chunks (suc k) xs e =
    ap (λ t. take 32 xs ++ t) (joined-chunks k (drop 32 xs) (omega (arith, length-drop 32 xs)))
    ∙ take-append-drop 32 xs

pub joined-append : (rs ss : List (List ℕ)) → joined (rs ++ ss) ≡ joined rs ++ joined ss
joined-append [] ss = refl
joined-append (r ∷ rs) ss = rw (joined-append rs ss) (sym (append_assoc r (joined rs) (joined ss)))

pub length-chunks : (k : ℕ) (xs : List ℕ) → length (chunks k xs) ≡ k
length-chunks zero xs = refl
length-chunks (suc k) xs = omega (arith, length-chunks k (drop 32 xs))

take_row :
    (left : ℕ) (r rest : List ℕ)
    → take (min left (length r)) r ++ take (left - min left (length r)) rest ≡ take left (r ++ rest)
take_row left [] rest =
    let e : min left 0 ≡ 0 = omega arith in rw e (ap (λ (n : ℕ). take n rest) (omega arith))
take_row zero (x ∷ r) rest = let e : min 0 (suc (length r)) ≡ 0 = omega arith in rw e
take_row (suc left) (x ∷ r) rest =
    let e : min (suc left) (suc (length r)) ≡ suc (min left (length r)) = omega arith in
    let d : suc left - suc (min left (length r)) ≡ left - min left (length r) = omega arith in
    rw (e, d) (ap (λ t. x ∷ t) (take_row left r rest))

row_joined :
    (left : ℕ) (r rest out raw : List ℕ)
    → raw ≡ r
    → length r ≡ 32
    → (out ++ take (min left 32) raw) ++ take (left - min left 32) rest
      ≡ out ++ take left (r ++ rest)
row_joined left r rest out raw same size =
    append_assoc out (take (min left 32) raw) (take (left - min left 32) rest)
    ∙ ap (λ x. out ++ x)
        (rw same (
          subst
            (λ (n : ℕ).
              take (min left n) r ++ take (left - min left n) rest ≡ take left (r ++ rest))
            size (take_row left r rest)))

take-nil : (n : ℕ) → take {A = ℕ} n [] ≡ []
take-nil zero = refl
take-nil (suc n) = refl

module _ {Dev : Type 0} ⦃P : Platform Dev⦄ (F : Flash P) where
  -- The flash holds the entries, from an address on.
  abbrev pub Rows : Dev → ℕ → List (List ℕ) → Type 0
  Rows d a [] = Unit
  Rows d a (r ∷ rs) = F.Holds d a r × Rows d (a + 32) rs

  pub Rows-chunks :
      (d : Dev) (a k : ℕ) (xs : List ℕ)
      → length xs ≡ k * 32
      → F.Holds d a xs
      → Rows d a (chunks k xs)
  Rows-chunks d a zero xs e h = tt
  Rows-chunks d a (suc k) xs e h =
      let (first, rest) = F.parts d a 32 xs refl (omega (arith, e)) h in
      (first, Rows-chunks d (a + 32) k (drop 32 xs) (omega (arith, length-drop 32 xs)) rest)

  pub Rows-append :
      (d : Dev) (a : ℕ) (rs ss : List (List ℕ))
      → Rows d a rs
      → Rows d (a + length rs * 32) ss
      → Rows d a (rs ++ ss)
  Rows-append d a [] ss h k = subst (λ (b : ℕ). Rows d b ss) (omega arith) k
  Rows-append d a (r ∷ rs) ss h k =
      (h.0, Rows-append d (a + 32) rs ss h.1 (subst (λ (b : ℕ). Rows d b ss) (omega arith) k))

  -- Whatever keeps each of them, keeps all.
  pub Rows-keeps :
      (d d' : Dev) (low high a : ℕ) (rs : List (List ℕ))
      → ((b : ℕ) (r : List ℕ) → low ≤ b → b + length r ≤ high → F.Holds d b r → F.Holds d' b r)
      → low ≤ a
      → a + length rs * 32 ≤ high
      → All IsRow rs
      → Rows d a rs
      → Rows d' a rs
  Rows-keeps d d' low high a [] keeps above below w h = tt
  Rows-keeps d d' low high a (r ∷ rs) keeps above below w h = (
    keeps a r above (omega (arith, below, w.0.0)) h.0,
    Rows-keeps d d' low high (a + 32) rs keeps (omega arith) (omega (arith, below)) w.1 h.1,
  )

  pub Rows-read :
      (d : Dev) (b n a : ℕ) (rs : List (List ℕ)) → Rows d a rs → Rows (P.read b n d).1 a rs
  Rows-read d b n a [] h = tt
  Rows-read d b n a (r ∷ rs) h = (F.read_keeps d b n a r h.0, Rows-read d b n (a + 32) rs h.1)

  -- The loop of `readItem` copies the bytes of the entries, as many as are left.
  pub read_chunks-Rows :
      (rs : List (List ℕ)) (i left : ℕ) (out : List ℕ) (t : Store Dev)
      → All IsRow rs
      → i + length rs ≤ 126
      → Rows t.dev (entry_address i t.page) rs
      → (u : Store Dev) × (read_chunks (length rs) i left out t
          ≡ (ok (out ++ take left (joined rs)), u))
  unfolding read_chunks
  read_chunks-Rows [] i left out t w fits h =
      (t, ap (λ x. (ok x, t)) (sym (append-nil out) ∙ ap (λ x. out ++ x) (sym (take-nil left))))
  read_chunks-Rows (r ∷ rs) i left out t w fits h =
      let read = read_entry_back F i r t (omega (arith, fits)) w.0.0 h.0 in
      let same = to_raw-of_raw r w.0.0 w.0.1 in
      let (u, rest) =
        read_chunks-Rows rs (i + 1) (left - min left 32)
          (out ++ take (min left 32) (to_raw (of_raw r))) (after_read i t) w.1 (omega (arith, fits))
          (subst (λ (a : ℕ). Rows (after_read i t).dev a rs) (omega arith)
            (Rows-read t.dev (entry_address i t.page) 32 (entry_address i t.page + 32) rs h.1)) in
      (
        u,
        bind-value (read_entry i)
              (λ ditem.
                read_chunks (length rs) (i + 1) (left - min left 32)
                  (out ++ take (min left 32) (to_raw ditem)))
              t (after_read i t) (of_raw r) read
            ∙ rest
            ∙ ap (λ x. (ok x, u))
                (row_joined left r (joined rs) out (to_raw (of_raw r)) same w.0.0),
      )
