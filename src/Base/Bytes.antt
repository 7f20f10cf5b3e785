-- ===== src/Base/Bytes.antt =====
-- Python's `bytes` as lists of numbers below 256: slices, and integers in both byte orders.
use Prim.Native.Nat.{ℕ, zero, suc, ◌+◌, ◌*◌, ◌-◌, ◌≤◌, ◌<◌, ◌/◌, ◌%◌}
use mathlib.Core.Path.{◌≡◌, refl, ap}
use mathlib.Core.List.{List, [], ◌∷◌, ◌++◌}
use native.Mathlib.Omega.{arith}
use native.Mathlib.Nat.{div-add-mod}
use nsf_research_open_siem.Base.Dict.{length}

-- `data[:n]` and `data[n:]`
unfoldable pub take {ℓ} : {A : Type ℓ} → ℕ → List A → List A
take zero xs = []
take (suc n) [] = []
take (suc n) (x ∷ xs) = x ∷ take n xs

unfoldable pub drop {ℓ} : {A : Type ℓ} → ℕ → List A → List A
drop zero xs = xs
drop (suc n) [] = []
drop (suc n) (x ∷ xs) = drop n xs

zero_add : (n : ℕ) → 0 + n ≡ n
zero_add n = omega arith

add_zero : (n : ℕ) → n + 0 ≡ n
add_zero n = omega arith

suc_add : (m n : ℕ) → suc m + n ≡ suc (m + n)
suc_add m n = omega arith

module _ {ℓ} {A : Type ℓ} where
  pub length-drop : (n : ℕ) (xs : List A) → length (drop n xs) ≡ length xs - n
  unfolding drop
  length-drop zero xs = omega arith
  length-drop (suc n) [] = omega arith
  length-drop (suc n) (x ∷ xs) = omega (arith, length-drop n xs)

  pub take_all : (xs ys : List A) → take (length xs) (xs ++ ys) ≡ xs
  unfolding take
  take_all [] ys = refl
  take_all (x ∷ xs) ys = ap (◌∷◌ x) (take_all xs ys)

  pub drop_all : (xs ys : List A) → drop (length xs) (xs ++ ys) ≡ ys
  unfolding drop
  drop_all [] ys = refl
  drop_all (x ∷ xs) ys = drop_all xs ys

  pub take-append-drop : (n : ℕ) (xs : List A) → take n xs ++ drop n xs ≡ xs
  unfolding take drop
  take-append-drop zero xs = refl
  take-append-drop (suc n) [] = refl
  take-append-drop (suc n) (x ∷ xs) = ap (◌∷◌ x) (take-append-drop n xs)

  pub drop-append : (n : ℕ) (xs ys : List A) → n ≤ length xs → drop n (xs ++ ys) ≡ drop n xs ++ ys
  unfolding drop
  drop-append zero xs ys h = refl
  drop-append (suc n) [] ys h = absurd (omega (arith, h))
  drop-append (suc n) (x ∷ xs) ys h = drop-append n xs ys (omega arith)

  pub drop_end : (xs : List A) → drop (length xs) xs ≡ []
  unfolding drop
  drop_end [] = refl
  drop_end (x ∷ xs) = drop_end xs

  pub drop-drop : (m n : ℕ) (xs : List A) → drop (m + n) xs ≡ drop n (drop m xs)
  unfolding drop
  drop-drop zero n xs = rw (zero_add n) refl
  drop-drop (suc m) zero [] = rw (add_zero (suc m)) refl
  drop-drop (suc m) (suc n) [] = rw (suc_add m (suc n)) refl
  drop-drop (suc m) n (x ∷ xs) = rw (suc_add m n) (drop-drop m n xs)

-- `data[n]`; a caller has checked the length.
unfoldable pub byte : ℕ → List ℕ → ℕ
byte n [] = 0
byte zero (b ∷ bs) = b
byte (suc n) (b ∷ bs) = byte n bs

-- The numbers that `struct.unpack` reads: `!H` at an offset, and all the bytes of a slice in the
-- byte orders `>` and `<`.
unfoldable pub big_endian_16 : ℕ → List ℕ → ℕ
unfolding byte
big_endian_16 n bs = byte n bs * 256 + byte (n + 1) bs

unfoldable pub big_endian_32 : ℕ → List ℕ → ℕ
unfolding big_endian_16
big_endian_32 n bs = big_endian_16 n bs * 65_536 + big_endian_16 (n + 2) bs

unfoldable pub little_endian_32 : ℕ → List ℕ → ℕ
unfolding byte
little_endian_32 n bs =
    byte n bs + byte (n + 1) bs * 256 + byte (n + 2) bs * 65_536 + byte (n + 3) bs * 16_777_216

abbrev pub AreBytes : List ℕ → Type 0
AreBytes [] = Unit
AreBytes (b ∷ bs) = (b < 256) × AreBytes bs

pub byte_lt : (n : ℕ) (bs : List ℕ) → AreBytes bs → byte n bs < 256
unfolding byte
byte_lt n [] h = omega arith
byte_lt zero (b ∷ bs) h = h.0
byte_lt (suc n) (b ∷ bs) h = byte_lt n bs h.1

pub big_endian_16_lt : (n : ℕ) (bs : List ℕ) → AreBytes bs → big_endian_16 n bs < 65_536
unfolding big_endian_16
big_endian_16_lt n bs h = omega (arith, byte_lt n bs h, byte_lt (n + 1) bs h)

pub drop-AreBytes : (n : ℕ) (bs : List ℕ) → AreBytes bs → AreBytes (drop n bs)
unfolding drop
drop-AreBytes zero bs h = h
drop-AreBytes (suc n) [] h = tt
drop-AreBytes (suc n) (b ∷ bs) h = drop-AreBytes n bs h.1

-- `struct.pack` in both byte orders
unfoldable pub pack_16 : ℕ → List ℕ
pack_16 n = n / 256 ∷ n % 256 ∷ []

unfoldable pub pack_32_little : ℕ → List ℕ
pack_32_little n = n % 256 ∷ n / 256 % 256 ∷ n / 65_536 % 256 ∷ n / 16_777_216 % 256 ∷ []

unfoldable pub pack_32_big : ℕ → List ℕ
pack_32_big n = n / 16_777_216 % 256 ∷ n / 65_536 % 256 ∷ n / 256 % 256 ∷ n % 256 ∷ []

pub pack_16_lem : (n : ℕ) (bs : List ℕ) → big_endian_16 0 (pack_16 n ++ bs) ≡ n
unfolding big_endian_16 pack_16 byte
pack_16_lem n bs = omega (arith, div-add-mod n 256)

pub pack_32_little_lem :
    (n : ℕ) (bs : List ℕ) → n < 4_294_967_296 → little_endian_32 0 (pack_32_little n ++ bs) ≡ n
unfolding little_endian_32 pack_32_little byte
pack_32_little_lem n bs h = omega arith

pub pack_32_big_lem :
    (n : ℕ) (bs : List ℕ) → n < 4_294_967_296 → big_endian_32 0 (pack_32_big n ++ bs) ≡ n
unfolding big_endian_32 big_endian_16 pack_32_big byte
pack_32_big_lem n bs h = omega arith
