-- ===== src/Prelude/Word.antt =====
-- uint64_t arithmetic, with its wrap-around.
use Prim.Native.Nat.{ℕ, ◌+◌, ◌-◌, ◌*◌, ◌%◌, ◌^◌, ◌<◌}

abbrev pub u64_max : ℕ
u64_max = 0xffff_ffff_ffff_ffff

abbrev pub add64 : ℕ → ℕ → ℕ
add64 a b = (a + b) % 2 ^ 64

abbrev pub sub64 : ℕ → ℕ → ℕ
sub64 a b = (a + 2 ^ 64 - b) % 2 ^ 64

abbrev pub mul64 : ℕ → ℕ → ℕ
mul64 a b = a * b % 2 ^ 64

abbrev pub IsU64 : ℕ → Type 0
IsU64 v = v < 2 ^ 64

abbrev pub IsByte : ℕ → Type 0
IsByte b = b < 256
