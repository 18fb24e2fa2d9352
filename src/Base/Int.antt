-- ===== src/Base/Int.antt =====
-- Signed integers over the native numbers. A Decimal of the program is an integer in a stated unit.
use Prim.Native.Nat.{ℕ, zero, suc, ◌+◌, ◌-◌, ◌*◌, ◌≤◌, ◌<◌}
use mathlib.Core.Path.{◌≡◌, refl, ap}
use mathlib.Core.Bool.{Bool}
use native.Mathlib.Omega.{arith}
use native.Mathlib.Nat.{mul-le-mul_left}
use kalshi_copilot.Base.Tests.{ltb, leb, ◌==◌, if◌then◌else◌}

-- `negsuc n` is -(n + 1).
pub data ℤ : Type 0 where
  pos : ℕ → ℤ
  negsuc : ℕ → ℤ

abbrev pub pos_part : ℤ → ℕ
pos_part (pos n) = n
pos_part (negsuc n) = 0

abbrev pub neg_part : ℤ → ℕ
neg_part (pos n) = 0
neg_part (negsuc n) = suc n

-- a - b, as an integer.
abbrev pub sub_ℕ : ℕ → ℕ → ℤ
sub_ℕ a b = if leb b a then pos (a - b) else negsuc (b - a - 1)

infixl 65 ◌+ℤ◌ ◌-ℤ◌
infixl 70 ◌*ℤ◌
infix 50 ◌≤ℤ◌ ◌<ℤ◌
unfoldable pub ◌+ℤ◌ : ℤ → ℤ → ℤ
a +ℤ b = sub_ℕ (pos_part a + pos_part b) (neg_part a + neg_part b)

unfoldable pub ◌-ℤ◌ : ℤ → ℤ → ℤ
a -ℤ b = sub_ℕ (pos_part a + neg_part b) (neg_part a + pos_part b)

unfoldable pub ◌*ℤ◌ : ℤ → ℤ → ℤ
a *ℤ b =
    sub_ℕ (pos_part a * pos_part b + neg_part a * neg_part b)
      (pos_part a * neg_part b + neg_part a * pos_part b)

-- `-a`
unfoldable pub negate : ℤ → ℤ
negate a = sub_ℕ (neg_part a) (pos_part a)

-- `abs(a)`, as a natural number.
abbrev pub abs : ℤ → ℕ
abs a = pos_part a + neg_part a

-- `k * a` for a natural number `k`.
unfoldable pub scale : ℕ → ℤ → ℤ
scale k a = sub_ℕ (k * pos_part a) (k * neg_part a)

abbrev pub ◌≤ℤ◌ : ℤ → ℤ → Type 0
a ≤ℤ b = pos_part a + neg_part b ≤ pos_part b + neg_part a

abbrev pub ◌<ℤ◌ : ℤ → ℤ → Type 0
a <ℤ b = pos_part a + neg_part b < pos_part b + neg_part a

abbrev pub ltb_ℤ : ℤ → ℤ → Bool
ltb_ℤ a b = ltb (pos_part a + neg_part b) (pos_part b + neg_part a)

abbrev pub leb_ℤ : ℤ → ℤ → Bool
leb_ℤ a b = leb (pos_part a + neg_part b) (pos_part b + neg_part a)

abbrev pub eqb_ℤ : ℤ → ℤ → Bool
eqb_ℤ a b = (pos_part a + neg_part b) == (pos_part b + neg_part a)

abbrev pub min_ℤ : ℤ → ℤ → ℤ
min_ℤ a b = if leb_ℤ a b then a else b

abbrev pub max_ℤ : ℤ → ℤ → ℤ
max_ℤ a b = if leb_ℤ a b then b else a

-- With these `omega` works with the operations shut, at any depth.
pub +ℤ_parts :
    (a b : ℤ)
    → pos_part (a +ℤ b) + neg_part a + neg_part b ≡ neg_part (a +ℤ b) + pos_part a + pos_part b
unfolding ◌+ℤ◌
+ℤ_parts a b = ground arith

pub -ℤ_parts :
    (a b : ℤ)
    → pos_part (a -ℤ b) + neg_part a + pos_part b ≡ neg_part (a -ℤ b) + pos_part a + neg_part b
unfolding ◌-ℤ◌
-ℤ_parts a b = ground arith

pub negate_parts : (a : ℤ) → (pos_part (negate a) ≡ neg_part a) × (neg_part (negate a) ≡ pos_part a)
unfolding negate
negate_parts a = ground arith

pos_part-negate : (a : ℤ) → pos_part (negate a) ≡ neg_part a
pos_part-negate a = (negate_parts a).0

neg_part-negate : (a : ℤ) → neg_part (negate a) ≡ pos_part a
neg_part-negate a = (negate_parts a).1

pub *ℤ_parts :
    (a b : ℤ)
    → pos_part (a *ℤ b) + (pos_part a * neg_part b + neg_part a * pos_part b)
      ≡ neg_part (a *ℤ b) + (pos_part a * pos_part b + neg_part a * neg_part b)
unfolding ◌*ℤ◌
*ℤ_parts a b = ground arith

pub *ℤ-pos : (a : ℤ) (n : ℕ) → a *ℤ pos n ≡ scale n a
unfolding ◌*ℤ◌ scale
*ℤ-pos a n = ground arith

pub pos-*ℤ : (n : ℕ) (a : ℤ) → pos n *ℤ a ≡ scale n a
unfolding ◌*ℤ◌ scale
pos-*ℤ n a = ground arith

pub pos_part-scale : (k : ℕ) (a : ℤ) → pos_part (scale k a) ≡ k * pos_part a
unfolding scale
pos_part-scale k (pos n) = ground arith
pos_part-scale k (negsuc n) = ground arith

pub neg_part-scale : (k : ℕ) (a : ℤ) → neg_part (scale k a) ≡ k * neg_part a
unfolding scale
neg_part-scale k (pos n) = ground arith
neg_part-scale k (negsuc n) = ground arith

pub eq_of_parts : (a b : ℤ) → pos_part a + neg_part b ≡ pos_part b + neg_part a → a ≡ b
eq_of_parts a b h = ground arith

pub ruleset int_laws =
    (arith, +ℤ_parts, -ℤ_parts, negate_parts, pos_part-scale, neg_part-scale, eq_of_parts)

pub +ℤ_assoc : (a b c : ℤ) → a +ℤ b +ℤ c ≡ a +ℤ (b +ℤ c)
+ℤ_assoc a b c = omega int_laws

-- A sign moves from one factor to the other.
pub negate-*ℤ : (a b : ℤ) → negate a *ℤ b ≡ a *ℤ negate b
negate-*ℤ a b = eq_of_parts _ _ (
    omega (
      arith,
      *ℤ_parts (negate a) b,
      *ℤ_parts a (negate b),
      ap_parts (negate_parts a).0 (negate_parts a).1 (pos_part b) (neg_part b),
      ap_parts (negate_parts b).0 (negate_parts b).1 (pos_part a) (neg_part a),
    ))
  where
    ap_parts :
        {x y u v : ℕ}
        → x ≡ u
        → y ≡ v
        → (p q : ℕ) → (x * p ≡ u * p) × (y * p ≡ v * p) × (x * q ≡ u * q) × (y * q ≡ v * q)
    ap_parts e f p q = (cc, cc, cc, cc)

pub scale_mono : (k : ℕ) (a b : ℤ) → a ≤ℤ b → scale k a ≤ℤ scale k b
scale_mono k a b h =
    let m : k * (pos_part a + neg_part b) ≤ k * (pos_part b + neg_part a) = mul-le-mul_left k h in
    omega (int_laws, m)

pub scale-add : (j k : ℕ) (a : ℤ) → scale (j + k) a ≡ scale j a +ℤ scale k a
scale-add j k a = omega int_laws

pub scale-+ℤ : (k : ℕ) (a b : ℤ) → scale k (a +ℤ b) ≡ scale k a +ℤ scale k b
scale-+ℤ k a b =
    let sum : k * (pos_part (a +ℤ b) + neg_part a + neg_part b)
        ≡ k * (neg_part (a +ℤ b) + pos_part a + pos_part b) =
      ap (λ (t : ℕ). k * t) (+ℤ_parts a b) in
    omega (int_laws, sum)

pub scale--ℤ : (k : ℕ) (a b : ℤ) → scale k (a -ℤ b) ≡ scale k a -ℤ scale k b
scale--ℤ k a b =
    let difference : k * (pos_part (a -ℤ b) + neg_part a + pos_part b)
        ≡ k * (neg_part (a -ℤ b) + pos_part a + neg_part b) =
      ap (λ (t : ℕ). k * t) (-ℤ_parts a b) in
    omega (int_laws, difference)

pub scale-scale : (j k : ℕ) (a : ℤ) → scale j (scale k a) ≡ scale (j * k) a
scale-scale j k a = eq_of_parts _ _ (simp (pos_part-scale, neg_part-scale) (omega arith))

pub scale-negate : (k : ℕ) (a : ℤ) → scale k (negate a) ≡ negate (scale k a)
scale-negate k a =
    eq_of_parts _ _ (simp (pos_part-scale, neg_part-scale, pos_part-negate, neg_part-negate) refl)

pub negsuc-*ℤ : (n : ℕ) (a : ℤ) → negsuc n *ℤ a ≡ negate (scale (suc n) a)
unfolding ◌*ℤ◌ scale negate
negsuc-*ℤ n a = ground arith

pub negate-pos-*ℤ : (n : ℕ) (a : ℤ) → negate (pos n) *ℤ a ≡ negate (scale n a)
unfolding ◌*ℤ◌ scale negate
negate-pos-*ℤ zero a = ground arith
negate-pos-*ℤ (suc n) a = ground arith

pub ruleset linear =
    (pos-*ℤ, negsuc-*ℤ, negate-pos-*ℤ, *ℤ-pos, scale-+ℤ, scale--ℤ, scale-scale, scale-negate)
