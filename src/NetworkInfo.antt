-- ===== src/NetworkInfo.antt =====
-- lib/common.c: network_info, and struct network_info of include/common.h.
use vmnet_broker.Base.{ℕ, Option, none, some, List, CString}

-- INET_ADDRSTRLEN and INET6_ADDRSTRLEN
abbrev pub inet_addrstrlen : ℕ
inet_addrstrlen = 16

abbrev pub inet6_addrstrlen : ℕ
inet6_addrstrlen = 46

pub data Family : Type 0 where
  af_inet af_inet6 : Family

-- Each buffer is the string that stands in it.
pub record NetworkInfo : Type 0 where
  pub subnet : CString
  pub mask : CString
  pub ipv6_prefix : CString
  pub prefix_len : ℕ

-- What the calls of vmnet tell of a network, and what inet_ntop writes to a buffer of a size, or none
-- for NULL, when it leaves the buffer as it is. Addresses are their bytes.
pub record Addresses : Type 0 where
  pub get_ipv4_subnet : ℕ → List ℕ × List ℕ
  pub get_ipv6_prefix : ℕ → List ℕ × ℕ
  pub inet_ntop : Family → List ℕ → (size : ℕ) → Option CString

abbrev write : Option CString → CString → CString
write none buffer = buffer
write (some text) buffer = text

unfoldable pub network_info : Addresses → (network : ℕ) → NetworkInfo → NetworkInfo
network_info calls network info =
    let (subnet, mask) = calls.get_ipv4_subnet network in
    let (ipv6_prefix, prefix_len) = calls.get_ipv6_prefix network in
    record {
      subnet = write (calls.inet_ntop af_inet subnet inet_addrstrlen) info.subnet;
      mask = write (calls.inet_ntop af_inet mask inet_addrstrlen) info.mask;
      ipv6_prefix = write (calls.inet_ntop af_inet6 ipv6_prefix inet6_addrstrlen) info.ipv6_prefix;
      prefix_len = prefix_len;
    }
