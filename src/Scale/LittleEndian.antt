-- ===== src/Scale/LittleEndian.antt =====
-- The little-endian loops of packages/chain/scale/src/index.ts against the number that bytes spell.
use native.Mathlib.Nat.{pow-succ'}
use predictor_common.Prelude.Int.{ℤ, pos, negsuc}
use predictor_common.Prelude.{
  ℕ, zero, suc, ◌+◌, ◌*◌, ◌/◌, ◌%◌, ◌^◌, ◌<◌, ◌≤◌, ◌≡◌, refl, inl, inr, [], ◌∷◌, length, All, ltb,
  Bool-cases, arith,
}
use predictor_common.Scale.{Bytes, le_bytes, low_bytes, as_uint64, u64le}

-- The number that bytes spell, the lowest first.
abbrev pub le_value : Bytes → ℕ
le_value [] = 0
le_value (b ∷ bytes) = b + 256 * le_value bytes

abbrev pub IsByte : ℕ → Type 0
IsByte b = b < 256

le_bytes_zero : (f : ℕ) → le_bytes f 0 ≡ []
unfolding le_bytes
le_bytes_zero zero = refl
le_bytes_zero (suc f) = refl

le_bytes_pos : (f x : ℕ) → 0 < x → le_bytes (suc f) x ≡ x % 256 ∷ le_bytes f (x / 256)
unfolding le_bytes
le_bytes_pos f x h = ground arith

pub le_value-le_bytes : (f x : ℕ) → x ≤ f → le_value (le_bytes f x) ≡ x
unfolding le_bytes
le_value-le_bytes zero x h = omega arith
le_value-le_bytes (suc f) x h = ground (arith, le_value-le_bytes f (x / 256))

pub le_bytes-IsByte : (f x : ℕ) → All IsByte (le_bytes f x)
unfolding le_bytes
le_bytes-IsByte zero x = tt
le_bytes-IsByte (suc f) x = elim (Bool-cases (ltb 0 x)) [
  | inl more ↦ rw (more, le_bytes) (omega arith, le_bytes-IsByte f (x / 256))
  | inr done ↦ rw (done, le_bytes) tt
]

pub length-le_bytes : (k f x : ℕ) → x < 256 ^ k → length (le_bytes f x) ≤ k
length-le_bytes zero f x h = let e : x ≡ 0 = omega arith in rw (e, le_bytes_zero f) (omega arith)
length-le_bytes (suc k) zero x h = unfold le_bytes in (omega arith)
length-le_bytes (suc k) (suc f) x h = elim (Bool-cases (ltb 0 x)) [
  | inl more ↦
      let h' : x < 256 * 256 ^ k = omega (arith, pow-succ' 256 k) in
      rw (le_bytes_pos f x (ground arith)) (omega (arith, length-le_bytes k f (x / 256)))
  | inr done ↦ let e : x ≡ 0 = ground arith in rw (e, le_bytes_zero (suc f)) (omega arith)
]

-- A number at or above 2 ^ 24 takes four bytes or more.
pub length-le_bytes_ge : (f x : ℕ) → 2 ^ 24 ≤ x → x ≤ f → 4 ≤ length (le_bytes f x)
length-le_bytes_ge zero x h fuel = absurd (omega arith)
length-le_bytes_ge (suc zero) x h fuel = absurd (omega arith)
length-le_bytes_ge (suc (suc zero)) x h fuel = absurd (omega arith)
length-le_bytes_ge (suc (suc (suc zero))) x h fuel = absurd (omega arith)
length-le_bytes_ge (suc (suc (suc (suc f)))) x h fuel =
    rw (le_bytes_pos (suc (suc (suc f))) x (omega arith)) (
      rw (le_bytes_pos (suc (suc f)) (x / 256) (omega arith)) (
        rw (le_bytes_pos (suc f) (x / 256 / 256) (omega arith))
          (rw (le_bytes_pos f (x / 256 / 256 / 256) (omega arith)) (omega arith))))

pub as_uint64-lt : (v : ℤ) → as_uint64 v < 2 ^ 64
as_uint64-lt (pos n) = omega arith
as_uint64-lt (negsuc n) = omega arith

-- `u64le` writes eight bytes, and they spell the value reduced modulo 2 ^ 64.
pub u64le_lem :
    (v : ℤ) → (length (u64le v) ≡ 8) × All IsByte (u64le v) × (le_value (u64le v) ≡ as_uint64 v)
unfolding u64le low_bytes
u64le_lem v = go (as_uint64 v) (as_uint64-lt v)
  where
    go :
        (x : ℕ)
        → x < 2 ^ 64
        → (length (low_bytes 8 x) ≡ 8) × All IsByte (low_bytes 8 x) × (le_value (low_bytes 8 x) ≡ x)
    go x h = (refl, omega arith, omega arith)
