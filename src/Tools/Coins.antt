-- ===== src/Tools/Coins.antt =====
-- master/internal/server/vendor.go: amounts of copper as coins.
use layforge.Prelude.{
  ℕ, suc, ◌+◌, ◌-◌, ◌*◌, ◌/◌, ◌%◌, ◌^◌, ◌<◌, ◌≡◌, ap, arith, if◌then◌else◌, ltb, int_laws, ℤ, pos,
  negsuc, pos_part, ◌+ℤ◌, ◌-ℤ◌,
}
use layforge.Tools.Services.{Purse}

-- Go's `/` and `%` by a positive number, which round towards zero.
unfoldable pub quot : ℤ → ℕ → ℤ
quot (pos n) k = pos (n / k)
quot (negsuc n) k = pos 0 -ℤ pos (suc n / k)

unfoldable pub rem : ℤ → ℕ → ℤ
rem (pos n) k = pos (n % k)
rem (negsuc n) k = pos 0 -ℤ pos (suc n % k)

-- The residue modulo 2 ^ 32 that int32 holds.
unfoldable pub signed32 : ℕ → ℤ
signed32 m = if ltb m (2 ^ 31) then pos m else pos m -ℤ pos (2 ^ 32)

-- `int32(x)`
unfoldable pub int32 : ℤ → ℤ
unfolding signed32
int32 (pos n) = signed32 (n % 2 ^ 32)
int32 (negsuc n) = signed32 ((2 ^ 32 - suc n % 2 ^ 32) % 2 ^ 32)

-- `copperToDenominations`
unfoldable pub copper_to_denominations : ℤ → Purse
unfolding quot rem int32
copper_to_denominations total =
    let after_platinum = rem total 1000 in
    let after_gold = rem after_platinum 100 in
    let after_silver = rem after_gold 10 in
    record {
      copper = int32 after_silver;
      silver = int32 (quot after_gold 10);
      gold = int32 (quot after_platinum 100);
      platinum = int32 (quot total 1000);
    }

-- `x * k`, for the factors of the coins.
unfoldable pub times : ℤ → ℕ → ℤ
times (pos n) k = pos (n * k)
times (negsuc n) k = pos 0 -ℤ pos (suc n * k)

-- `denominationsToCopper`
unfoldable pub denominations_to_copper : Purse → ℤ
unfolding times
denominations_to_copper p =
    p.copper +ℤ times p.silver 10 +ℤ times p.gold 100 +ℤ times p.platinum 1000

int32-small : (n : ℕ) → n < 2 ^ 31 → int32 (pos n) ≡ pos n
unfolding int32 signed32
int32-small n h = let small : n % 2 ^ 32 ≡ n = omega arith in rw small (ground arith)

pos_add : (a b : ℕ) → pos a +ℤ pos b ≡ pos (a + b)
pos_add a b = omega int_laws

-- Each amount of copper that int32 platinum coins can hold comes back from its coins, of which there
-- are fewer than ten copper, silver and gold ones each.
pub denominations_to_copper-copper_to_denominations :
    (n : ℕ)
    → n < 1000 * 2 ^ 31
    → (denominations_to_copper (copper_to_denominations (pos n)) ≡ pos n)
      × (pos_part (copper_to_denominations (pos n)).copper < 10)
      × (pos_part (copper_to_denominations (pos n)).silver < 10)
      × (pos_part (copper_to_denominations (pos n)).gold < 10)
unfolding copper_to_denominations denominations_to_copper quot rem times
denominations_to_copper-copper_to_denominations n h =
    rw
      (
        int32-small (n % 1000 % 100 % 10) (omega arith),
        int32-small (n % 1000 % 100 / 10) (omega arith),
        int32-small (n % 1000 / 100) (omega arith),
        int32-small (n / 1000) (omega arith),
        pos_add (n % 1000 % 100 % 10) (n % 1000 % 100 / 10 * 10),
        pos_add (n % 1000 % 100 % 10 + n % 1000 % 100 / 10 * 10) (n % 1000 / 100 * 100),
        pos_add (n % 1000 % 100 % 10 + n % 1000 % 100 / 10 * 10 + n % 1000 / 100 * 100)
            (n / 1000 * 1000),
      )
      (ap pos (omega arith), omega arith, omega arith, omega arith)
