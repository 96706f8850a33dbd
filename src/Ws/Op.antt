-- ===== src/Ws/Op.antt =====
-- The opcodes of ws.go.
use rain_net.Common.{ℕ}

abbrev pub continuation : ℕ
continuation = 0x0

abbrev pub text : ℕ
text = 0x1

abbrev pub binary : ℕ
binary = 0x2

abbrev pub close : ℕ
close = 0x8

abbrev pub ping : ℕ
ping = 0x9

abbrev pub pong : ℕ
pong = 0xA
