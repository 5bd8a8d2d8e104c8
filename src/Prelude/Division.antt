-- ===== src/Prelude/Division.antt =====
-- Division on the native numbers, as bounds on products.
use native.Mathlib.Nat.{div-add-mod, mod-lt}
use libllfat.Prelude.{ℕ, ◌+◌, ◌-◌, ◌*◌, ◌/◌, ◌%◌, ◌<◌, ◌≤◌, ◌≡◌, ◌↔◌, ap, arith}

pub div_bounds : (n k : ℕ) → 0 < k → (n / k * k ≤ n) × (n < n / k * k + k)
div_bounds n k h = ground (arith, div-add-mod n k)

-- The multiples of `k` tell quotients apart.
pub mul_gap : (a b k : ℕ) → a < b → a * k + k ≤ b * k
mul_gap a b k h = grind arith

pub quotient_unique :
    (a b k n : ℕ) → (a * k ≤ n) × (n < a * k + k) → (b * k ≤ n) × (n < b * k + k) → a ≡ b
quotient_unique a b k n p q = ground (arith, mul_gap a b k, mul_gap b a k)

pub quotient_iff : (n k c : ℕ) → 0 < k → (n / k ≡ c) ↔ ((c * k ≤ n) × (n < c * k + k))
quotient_iff n k c h =
    (λ e. ground (arith, div_bounds n k h), λ p. quotient_unique (n / k) c k n (div_bounds n k h) p)

pub div-lt_of : (p size k : ℕ) → 0 < k → p < size * k → p / k < size
div-lt_of p size k h below = ground (arith, div_bounds p k h, mul_mono size (p / k) k)
  where
    mul_mono : (a b k : ℕ) → a ≤ b → a * k ≤ b * k
    mul_mono a b k h = grind arith

-- The neighbour of a place in the same piece, and at a piece's end.
pub step_inside : (p i k : ℕ) → p % k + i < k → ((p + i) / k ≡ p / k) × ((p + i) % k ≡ p % k + i)
step_inside p i k below =
    let q = div-add-mod p k in
    let e : (p + i) / k ≡ p / k =
      (quotient_iff (p + i) k (p / k) (omega arith)).1 (omega (arith, q), omega (arith, q)) in
    (e, omega (arith, q, div-add-mod (p + i) k, ap (λ (t : ℕ). k * t) e))

pub next_outside : (p k : ℕ) → 0 < k → p % k ≡ k - 1 → ((p + 1) / k ≡ p / k + 1) × ((p + 1) % k ≡ 0)
next_outside p k h last =
    let q = div-add-mod p k in
    let e : (p + 1) / k ≡ p / k + 1 =
      (quotient_iff (p + 1) k (p / k + 1) h).1 (omega (arith, q), omega (arith, q, mod-lt p h)) in
    (e, omega (arith, q, div-add-mod (p + 1) k, ap (λ (t : ℕ). k * t) e))
