-- ===== src/Types/Net.antt =====
-- `std::net::IpAddr`, as core/src/types/config.rs and core/src/api/auth.rs use it. An IPv6 address is its
-- 128 bits as one number.
use core_tempo.Common.{ℕ, Bool, false, ◌&&◌, ◌==◌, nat_eq}

pub data IpAddr : Type 0 where
  v4 : ℕ → ℕ → ℕ → ℕ → IpAddr
  v6 : ℕ → IpAddr

abbrev pub localhost : IpAddr
localhost = v4 127 0 0 1

abbrev pub is_loopback : IpAddr → Bool
is_loopback (v4 a b c d) = a == 127
is_loopback (v6 n) = n == 1

abbrev pub same_ip : IpAddr → IpAddr → Bool
same_ip (v4 a b c d) (v4 e f g h) = a == e && b == f && c == g && d == h
same_ip (v6 m) (v6 n) = m == n
same_ip _ _ = false
