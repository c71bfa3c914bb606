-- ===== src/Prelude/Bytes.antt =====
-- Numbers in memory, which is a function from an address to its byte.
use Prim.Native.Nat.{ℕ, zero, suc, ◌+◌, ◌*◌}

-- `n` bytes from the address on, the lowest first.
unfoldable pub little_endian : ℕ → ℕ → (ℕ → ℕ) → ℕ
little_endian zero a mem = 0
little_endian (suc n) a mem = mem a + 256 * little_endian n (a + 1) mem
