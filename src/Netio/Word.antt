-- ===== src/Netio/Word.antt =====
-- The machine words of the embedded BPF programs.
use linuxtools.Base.{ℕ, ◌+◌, ◌*◌, ◌/◌, ◌%◌, ◌≡◌, ◌<◌, Bool, leb, arith}

-- `(u32) x` and `x >> 32` on a u64
abbrev pub low32 : ℕ → ℕ
low32 x = x % 4294967296

abbrev pub high32 : ℕ → ℕ
high32 x = x / 4294967296 % 4294967296

-- `(int) x < 0`: the sign bit of the low word.
abbrev pub is_negative : ℕ → Bool
is_negative x = leb 2147483648 (low32 x)

-- `ntohs` on a little-endian machine swaps the two bytes of a u16.
unfoldable pub ntohs : ℕ → ℕ
ntohs x = x % 256 * 256 + x / 256 % 256

pub ntohs_twice : (x : ℕ) → x < 65536 → ntohs (ntohs x) ≡ x
unfolding ntohs
ntohs_twice x h = omega arith
