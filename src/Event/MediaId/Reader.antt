-- ===== src/Event/MediaId/Reader.antt =====
-- Bytes, little-endian words, and the reads of a `bytes.Reader`: the value and what is left.
use native.Mathlib.Nat.{pow-suc}
use wsapi_app.Common.{
  ℕ, zero, suc, ◌+◌, ◌*◌, ◌/◌, ◌%◌, ◌^◌, ◌<◌, ◌≤◌, ◌≡◌, refl, List, [], ◌∷◌, ◌++◌, length, arith,
  Result, ok, err, ◌>>=◌, >>=-eq-ok,
}

abbrev pub Bytes : Type 0
Bytes = List ℕ

-- `binary.Write(&buf, binary.LittleEndian, n)` for a word of `k` bytes.
unfoldable pub le_bytes : ℕ → ℕ → Bytes
le_bytes zero n = []
le_bytes (suc k) n = (n % 256) ∷ le_bytes k (n / 256)

-- A word of one byte more is below the larger bound by its quotient.
div_bound : (k n : ℕ) → n < 256 ^ suc k → n / 256 < 256 ^ k
div_bound k n h = omega (arith, pow-suc 256 k)

-- The conversions `byte(n)` and `uint16(n)` keep a length that fits.
pub byte_exact : (n : ℕ) → n ≤ 255 → n % 256 ≡ n
byte_exact n h = omega arith

pub word_exact : (n : ℕ) → n ≤ 65535 → n % 2 ^ 16 ≡ n
word_exact n h = omega arith

module _ {ℓ} {E : Type ℓ} where
  -- `buf.ReadByte()`
  unfoldable pub read_byte : E → Bytes → Result E (ℕ × Bytes)
  read_byte e [] = err e
  read_byte e (b ∷ bs) = ok (b, bs)

  -- `io.ReadFull(buf, make([]byte, n))`
  unfoldable pub read_full : E → ℕ → Bytes → Result E (Bytes × Bytes)
  read_full e zero bs = ok ([], bs)
  read_full e (suc n) [] = err e
  read_full e (suc n) (b ∷ bs) = do (xs, rest) ← read_full e n bs; ok (b ∷ xs, rest)

  -- `binary.Read(buf, binary.LittleEndian, &word)` for a word of `k` bytes.
  unfoldable pub read_le : E → ℕ → Bytes → Result E (ℕ × Bytes)
  read_le e zero bs = ok (0, bs)
  read_le e (suc k) [] = err e
  read_le e (suc k) (b ∷ bs) = do (n, rest) ← read_le e k bs; ok (b + 256 * n, rest)

  -- Reading as many bytes as were written gives them back, and leaves the rest.
  pub read_full-append :
      (e : E) (xs rest : Bytes) → read_full e (length xs) (xs ++ rest) ≡ ok (xs, rest)
  unfolding read_full
  read_full-append e [] rest = refl
  read_full-append e (x ∷ xs) rest = rw (read_full-append e xs rest)

  -- Reading a word that fits gives back the word.
  pub read_le-le_bytes :
      (e : E) (k n : ℕ) (rest : Bytes)
      → n < 256 ^ k
      → read_le e k (le_bytes k n ++ rest) ≡ ok (n, rest)
  unfolding read_le le_bytes
  read_le-le_bytes e zero n rest h = ground arith
  read_le-le_bytes e (suc k) n rest h =
      rw (read_le-le_bytes e k (n / 256) rest (div_bound k n h)) (ground arith)

  -- The same at the end of the input.
  pub read_full_self : (e : E) (xs : Bytes) → read_full e (length xs) xs ≡ ok (xs, [])
  unfolding read_full
  read_full_self e [] = refl
  read_full_self e (x ∷ xs) = rw (read_full_self e xs)

  -- What a full read returns is as long as was asked for.
  pub length-read_full :
      (e : E) (n : ℕ) (bs xs rest : Bytes) → read_full e n bs ≡ ok (xs, rest) → length xs ≡ n
  unfolding read_full
  length-read_full e zero bs xs rest h = ground arith
  length-read_full e (suc n) [] xs rest h = cc
  length-read_full e (suc n) (b ∷ bs) xs rest h =
      let (r, p, q) = >>=-eq-ok (read_full e n bs) (λ r. ok (b ∷ r.0, r.1)) h in
      ground (arith, length-read_full e n bs r.0 r.1 p, q)
