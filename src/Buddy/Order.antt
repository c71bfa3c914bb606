-- ===== src/Buddy/Order.antt =====
-- What `check_order` of src/mm/buddy.c finds, and the arithmetic of blocks of `2 ^ order` pages.
use native.Mathlib.Nat.{pow-suc, add-zero, add-suc, div-add-mod, mul-mod_right}
use mathlib.Core.Bool.{false≢true}
use fat.Prelude.{
  ℕ, zero, suc, ◌+◌, ◌-◌, ◌*◌, ◌/◌, ◌%◌, ◌^◌, ◌≤◌, ◌<◌, ◌≡◌, arith, ◌∙◌, sym, subst, ap, ◌↔◌,
  Bool-cases, ◌==◌, ==_iff, inl, inr, ℕ_discrete,
}
use fat.Buddy.{check_order, check_order_loop, max_order}

pub pow2-suc : (o : ℕ) → 2 ^ suc o ≡ 2 ^ o + 2 ^ o
pow2-suc o = omega (arith, pow-suc 2 o)

pub pow2_pos : (o : ℕ) → 0 < 2 ^ o
pow2_pos zero = omega arith
pow2_pos (suc o) = omega (arith, pow2-suc o, pow2_pos o)

loop-lt : (k offset : ℕ) → 0 < k → check_order_loop k offset < k
unfolding check_order_loop
loop-lt zero offset h = absurd (omega arith)
loop-lt (suc zero) offset h = ground arith
loop-lt (suc (suc k)) offset h = ground (arith, loop-lt (suc k) offset)

pub check_order-lt : (page : ℕ) → check_order page < max_order
unfolding check_order
check_order-lt page = loop-lt 8 (page % 2 ^ 32) (omega arith)

loop-mod : (k offset : ℕ) → offset % 2 ^ check_order_loop k offset ≡ 0
unfolding check_order_loop
loop-mod zero offset = omega arith
loop-mod (suc k) offset = elim (Bool-cases (offset % 2 ^ k == 0)) [
  | inl e ↦ rw e ((==_iff _ _).0 e)
  | inr e ↦ rw e (loop-mod k offset)
]

loop_max : (k offset o : ℕ) → o < k → offset % 2 ^ o ≡ 0 → o ≤ check_order_loop k offset
unfolding check_order_loop
loop_max zero offset o h e = absurd (omega arith)
loop_max (suc k) offset o h e = elim (Bool-cases (offset % 2 ^ k == 0)) [
  | inl f ↦ rw f (omega arith)
  | inr f ↦ rw f (elim (ℕ_discrete o k) [
    | yes q ↦ absurd (false≢true (sym f ∙ (==_iff _ _).1 (rw (← q) e)))
    | no q ↦ loop_max k offset o (omega arith) e
  ])
]

-- Truncation to 32 bits leaves the low bits of the index.
low_bits : (o page : ℕ) → o < max_order → page % 2 ^ 32 % 2 ^ o ≡ page % 2 ^ o
low_bits zero page h = omega arith
low_bits (suc zero) page h = omega arith
low_bits (suc (suc zero)) page h = omega arith
low_bits (suc (suc (suc zero))) page h = omega arith
low_bits (suc (suc (suc (suc zero)))) page h = omega arith
low_bits (suc (suc (suc (suc (suc zero))))) page h = omega arith
low_bits (suc (suc (suc (suc (suc (suc zero)))))) page h = omega arith
low_bits (suc (suc (suc (suc (suc (suc (suc zero))))))) page h = omega arith
low_bits (suc (suc (suc (suc (suc (suc (suc (suc o)))))))) page h = absurd (omega arith)

half-mod : (m page : ℕ) → page % (m + m) ≡ 0 → page % m ≡ 0
half-mod m page h =
    let q = page / (m + m) in
    let e : page ≡ m * (q + q) = omega (arith, div-add-mod page (m + m)) in
    subst (λ n. n % m ≡ 0) (sym e) (mul-mod_right m (q + q))

-- A multiple of a larger power of two is one of a smaller power.
mod_down : (d o page : ℕ) → page % 2 ^ (o + d) ≡ 0 → page % 2 ^ o ≡ 0
mod_down zero o page h = subst (λ k. page % 2 ^ k ≡ 0) (add-zero o) h
mod_down (suc d) o page h = mod_down d o page (
    half-mod (2 ^ (o + d)) page
      (subst (λ n. page % n ≡ 0) (ap (λ k. 2 ^ k) (add-suc o d) ∙ pow2-suc (o + d)) h))

pub mod_mono : (o k page : ℕ) → o ≤ k → page % 2 ^ k ≡ 0 → page % 2 ^ o ≡ 0
mod_mono o k page h e =
    mod_down (k - o) o page
      (subst (λ n. page % 2 ^ n ≡ 0) (let d : k ≡ o + (k - o) = omega arith in d) e)

check_order-mod : (page : ℕ) → page % 2 ^ check_order page ≡ 0
unfolding check_order
check_order-mod page =
    sym (low_bits (check_order page) page (check_order-lt page))
    ∙ loop-mod max_order (page % 2 ^ 32)

-- The index of a page is a multiple of `2 ^ o`, for an order `o` below `MAX_ORDER`, exactly if
-- `check_order` returns at least `o`.
pub check_order_iff : (page o : ℕ) → o < max_order → (o ≤ check_order page) ↔ (page % 2 ^ o ≡ 0)
unfolding check_order
check_order_iff page o h = (
  λ le. mod_mono o (check_order page) page le (check_order-mod page),
  λ e. loop_max max_order (page % 2 ^ 32) o h (low_bits o page h ∙ e),
)
