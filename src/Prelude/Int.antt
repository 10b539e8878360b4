-- ===== src/Prelude/Int.antt =====
-- Python's int, as far as the program compares it: orders and priorities.
use aurora_bot.Prelude.{ℕ, ◌≡◌, ◌↔◌, refl, not, Bool, true, false, leb, nat_beq, arith}

pub data ℤ : Type 0 where
  pos negsuc : ℕ → ℤ

-- a <= b on int
abbrev pub int_le : ℤ → ℤ → Bool
int_le (pos m) (pos n) = leb m n
int_le (pos m) (negsuc n) = false
int_le (negsuc m) (pos n) = true
int_le (negsuc m) (negsuc n) = leb n m

-- a == b on int
abbrev pub int_beq : ℤ → ℤ → Bool
int_beq (pos m) (pos n) = nat_beq m n
int_beq (pos m) (negsuc n) = false
int_beq (negsuc m) (pos n) = false
int_beq (negsuc m) (negsuc n) = nat_beq m n

pub int_le_total : (a b : ℤ) → int_le a b ≡ false → int_le b a ≡ true
int_le_total (pos m) (pos n) h = ground arith
int_le_total (pos m) (negsuc n) h = refl
int_le_total (negsuc m) (pos n) h = absurd (cc)
int_le_total (negsuc m) (negsuc n) h = ground arith

pub int_le_trans : (a b c : ℤ) → int_le a b ≡ true → int_le b c ≡ true → int_le a c ≡ true
int_le_trans (pos m) (pos n) (pos k) h g = ground arith
int_le_trans (pos m) (pos n) (negsuc k) h g = g
int_le_trans (pos m) (negsuc n) c h g = absurd (cc)
int_le_trans (negsuc m) b (pos k) h g = refl
int_le_trans (negsuc m) (pos n) (negsuc k) h g = absurd (cc)
int_le_trans (negsuc m) (negsuc n) (negsuc k) h g = ground arith

pub int_beq-int_le : (a b : ℤ) → int_beq a b ≡ true → int_le a b ≡ true
int_beq-int_le (pos m) (pos n) h = ground arith
int_beq-int_le (pos m) (negsuc n) h = absurd (cc)
int_beq-int_le (negsuc m) (pos n) h = absurd (cc)
int_beq-int_le (negsuc m) (negsuc n) h = ground arith

pub int_beq_join : (a b c : ℤ) → int_beq a c ≡ true → int_beq b c ≡ true → int_le a b ≡ true
int_beq_join (pos m) (pos n) (pos k) h g = ground arith
int_beq_join (pos m) (negsuc n) (pos k) h g = absurd (cc)
int_beq_join (pos m) b (negsuc k) h g = absurd (cc)
int_beq_join (negsuc m) b (pos k) h g = absurd (cc)
int_beq_join (negsuc m) (pos n) (negsuc k) h g = absurd (cc)
int_beq_join (negsuc m) (negsuc n) (negsuc k) h g = ground arith

pub int_beq_refl : (a : ℤ) → int_beq a a ≡ true
int_beq_refl (pos m) = ground arith
int_beq_refl (negsuc m) = ground arith

pub int_beq_sym : (a b : ℤ) → int_beq a b ≡ int_beq b a
int_beq_sym (pos m) (pos n) = ground arith
int_beq_sym (pos m) (negsuc n) = refl
int_beq_sym (negsuc m) (pos n) = refl
int_beq_sym (negsuc m) (negsuc n) = ground arith

-- Nothing below a number that is not above the next is equal to it.
pub int_beq_low :
    (a b c : ℤ) → int_beq b a ≡ false → int_le b a ≡ true → int_le c b ≡ true → int_beq c a ≡ false
int_beq_low (pos m) (pos n) (pos k) h g f = ground arith
int_beq_low (pos m) (negsuc n) (pos k) h g f = absurd (cc)
int_beq_low (pos m) b (negsuc k) h g f = refl
int_beq_low (negsuc m) b (pos k) h g f = refl
int_beq_low (negsuc m) (pos n) (negsuc k) h g f = absurd (cc)
int_beq_low (negsuc m) (negsuc n) (negsuc k) h g f = ground arith

-- a < b on int
abbrev pub int_lt : ℤ → ℤ → Bool
int_lt a b = not (int_le b a)

pub int_beq_iff : (a b : ℤ) → (int_beq a b ≡ true) ↔ (a ≡ b)
int_beq_iff (pos m) (pos n) = ground arith
int_beq_iff (pos m) (negsuc n) = ground arith
int_beq_iff (negsuc m) (pos n) = ground arith
int_beq_iff (negsuc m) (negsuc n) = ground arith
