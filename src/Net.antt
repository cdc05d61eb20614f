-- ===== src/Net.antt =====
-- Addresses and prefixes as abuse.go, ranges.go and config.go use them (`net/netip`).
use concert.Prelude.{
  ℕ, ◌+◌, ◌-◌, ◌*◌, ◌/◌, ◌%◌, ◌^◌, ◌≡◌, ◌↔◌, Bool, true, false, ◌&&◌, not, List, [], ◌∷◌, arith,
  leb, if◌then◌else◌, nat_beq, Key, Option, none, some,
}

-- netip.Addr: the zero value, 32 bits, or 128 bits with an interned zone (0: none).
pub data Addr : Type 0 where
  invalid : Addr
  v4 : ℕ → Addr
  v6 : ℕ → ℕ → Addr

unfoldable pub addr_beq : Addr → Addr → Bool
addr_beq invalid invalid = true
addr_beq (v4 a) (v4 b) = nat_beq a b
addr_beq (v6 a y) (v6 b z) = nat_beq a b && nat_beq y z
addr_beq _ _ = false

pub addr_beq_iff : (a b : Addr) → (addr_beq a b ≡ true) ↔ (a ≡ b)
unfolding addr_beq
addr_beq_iff invalid b = ground arith
addr_beq_iff a b = ground arith

instance abbrev pub addr_eq : Key Addr
addr_eq = record { is_same = addr_beq; is_same_iff = addr_beq_iff }

unfoldable pub is_valid : Addr → Bool
is_valid invalid = false
is_valid (v4 n) = true
is_valid (v6 n z) = true

unfoldable pub is_6 : Addr → Bool
is_6 (v6 n z) = true
is_6 _ = false

-- ::ffff:0:0/96
unfoldable pub is_4in6 : Addr → Bool
is_4in6 (v6 n z) = nat_beq (n / 2 ^ 32) 0xffff
is_4in6 _ = false

unfoldable pub unmap : Addr → Addr
unmap (v6 n z) = if nat_beq (n / 2 ^ 32) 0xffff then v4 (n % 2 ^ 32) else v6 n z
unmap a = a

unfoldable pub bit_len : Addr → ℕ
bit_len invalid = 0
bit_len (v4 n) = 32
bit_len (v6 n z) = 128

unfoldable pub has_zone : Addr → Bool
has_zone (v6 n z) = not (nat_beq z 0)
has_zone _ = false

unfoldable pub without_zone : Addr → Addr
without_zone (v6 n z) = v6 n 0
without_zone a = a

-- The address with all but its first `bits` bits cleared.
unfoldable pub mask : ℕ → Addr → Addr
mask bits invalid = invalid
mask bits (v4 n) = v4 (n / 2 ^ (32 - bits) * 2 ^ (32 - bits))
mask bits (v6 n z) = v6 (n / 2 ^ (128 - bits) * 2 ^ (128 - bits)) 0

-- netip.Prefix: `bits_plus_one` is 0 in an invalid one.
pub record Prefix : Type 0 where
  pub addr : Addr
  pub bits_plus_one : ℕ

unfoldable pub prefix_beq : Prefix → Prefix → Bool
unfolding addr_beq
prefix_beq p q = addr_beq p.addr q.addr && nat_beq p.bits_plus_one q.bits_plus_one

pub prefix_beq_iff : (p q : Prefix) → (prefix_beq p q ≡ true) ↔ (p ≡ q)
unfolding prefix_beq
prefix_beq_iff p q = ground (arith, addr_beq_iff p.addr q.addr)

instance abbrev pub prefix_eq : Key Prefix
prefix_eq = record { is_same = prefix_beq; is_same_iff = prefix_beq_iff }

-- netip.PrefixFrom
unfoldable pub prefix_from : Addr → ℕ → Prefix
unfolding is_valid bit_len without_zone
prefix_from a bits = record {
  addr = without_zone a;
  bits_plus_one = if is_valid a && leb bits (bit_len a) then bits + 1 else 0;
}

-- Prefix.Masked; an invalid prefix becomes the zero one.
unfoldable pub masked : Prefix → Prefix
unfolding mask
masked p =
    if nat_beq p.bits_plus_one 0
    then record { addr = invalid; bits_plus_one = 0 }
    else record { addr = mask (p.bits_plus_one - 1) p.addr; bits_plus_one = p.bits_plus_one }

-- Whether two numbers of `width` bits agree in the first `bits` of them.
unfoldable pub same_top : ℕ → ℕ → ℕ → ℕ → Bool
same_top width bits a b = nat_beq (a / 2 ^ (width - bits)) (b / 2 ^ (width - bits))

within : ℕ → Addr → Addr → Bool
unfolding same_top
within bits (v4 n) (v4 m) = same_top 32 bits n m
within bits (v6 n y) (v6 m z) = nat_beq z 0 && same_top 128 bits n m
within bits _ _ = false

-- Prefix.Contains: an IPv4 address matches no IPv6 prefix, and a zoned address none at all.
unfoldable pub contains : Prefix → Addr → Bool
unfolding within
contains p a = if nat_beq p.bits_plus_one 0 then false else within (p.bits_plus_one - 1) p.addr a

-- config.go: containsAddr
unfoldable pub contains_addr : List Prefix → Addr → Bool
contains_addr [] a = false
contains_addr (p ∷ ps) a = if contains p a then true else contains_addr ps a

-- Byte i of Addr.As16.
unfoldable pub byte_16 : Addr → ℕ → ℕ
byte_16 invalid i = 0
byte_16 (v4 n) i = (0xffff * 2 ^ 32 + n) / 2 ^ (8 * (15 - i)) % 256
byte_16 (v6 n z) i = n / 2 ^ (8 * (15 - i)) % 256

-- abuse.go: abuseKey. The address itself for IPv4, the /64 for IPv6.
unfoldable pub abuse_key : Addr → Option Addr
unfolding is_valid is_6 masked prefix_from unmap
abuse_key ip =
    let a = unmap ip in
    if not (is_valid a)
    then none
    else if is_6 a
    then some (masked (prefix_from a 64)).addr
    else some a

-- abuse.go: keyPrefix
unfoldable pub key_prefix : Addr → Prefix
unfolding is_6 prefix_from
key_prefix k = if is_6 k then prefix_from k 64 else prefix_from k 32
