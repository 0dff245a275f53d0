-- ===== src/Http/Inet.antt =====
-- `inet_pton` and `inet_ntop` of the C library, which the gateway reads addresses with. They are
-- parameters: a value of `Inet` stands for them.
use php_fpm_ng.Base.{Option, Bytes}

-- AF_INET and AF_INET6.
pub data Family : Type 0 where
  inet inet6 : Family

-- `pton` gives the bytes of the address that a C string writes, `ntop` the text of such bytes.
pub record Inet : Type 0 where
  pub pton : Family → Bytes → Option Bytes
  pub ntop : Family → Bytes → Option Bytes
