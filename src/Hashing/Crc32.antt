-- ===== src/Hashing/Crc32.antt =====
-- `crc32.ChecksumIEEE` of Go's standard library: the reflected CRC-32 with the polynomial of
-- IEEE 802.3, bit by bit.
use Prim.Native.Nat.{bit_xor}
use pole.Prelude.{ℕ, zero, suc, ◌/◌, ◌%◌, ◌≡◌, refl, [], ◌∷◌, Text, codes, ◌==◌, if◌then◌else◌}

abbrev polynomial : ℕ
polynomial = 0xedb88320

abbrev all_ones : ℕ
all_ones = 0xffffffff

shift_bit : ℕ → ℕ
shift_bit c = if c % 2 == 1 then bit_xor (c / 2) polynomial else c / 2

shift_bits : ℕ → ℕ → ℕ
shift_bits zero c = c
shift_bits (suc k) c = shift_bits k (shift_bit c)

update : ℕ → Text → ℕ
update c [] = c
update c (b ∷ bytes) = update (shift_bits 8 (bit_xor c b)) bytes

unfoldable pub checksum_ieee : Text → ℕ
unfolding shift_bit shift_bits update
checksum_ieee bytes = bit_xor (update all_ones bytes) all_ones

-- The check value of the standard.
checksum_of_digits : checksum_ieee (codes "123456789") ≡ 0xcbf43926
unfolding checksum_ieee
checksum_of_digits = refl
