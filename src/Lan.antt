-- ===== src/Lan.antt =====
-- crates/dash-router/src/lan.rs: the addresses that a message may come from. A version 4 address is
-- its four octets, and a version 6 address its number.
use dash_router.Base.{ℕ, Bool, ◌&&◌, ◌||◌, leb, ◌==◌}

pub data IpAddr : Type 0 where
  v4 : ℕ → ℕ → ℕ → ℕ → IpAddr
  v6 : ℕ → IpAddr

-- `is_private` and `is_loopback` of the standard library: 10/8, 172.16/12, 192.168/16; 127/8; `::1`.
is_private : ℕ → ℕ → Bool
is_private a b = (a == 10) || (((a == 172) && (leb 16 b && leb b 31)) || ((a == 192) && (b == 168)))

pub is_lan : IpAddr → Bool
is_lan (v4 a b c d) = is_private a b || (a == 127)
is_lan (v6 n) = n == 1
