-- ===== src/Hybi/Opcode.antt =====
-- src/main/c/internal/HybiPacketDecoder.h: the values of `enum class Opcode`.
use Prim.Native.Nat.{ℕ}

abbrev pub cont : ℕ
cont = 0x0

abbrev pub text : ℕ
text = 0x1

abbrev pub binary : ℕ
binary = 0x2

abbrev pub close : ℕ
close = 0x8

abbrev pub ping : ℕ
ping = 0x9

abbrev pub pong : ℕ
pong = 0xa
