-- ===== src/Ranges/Targets.antt =====
-- ranges.go: banTarget, what an administrator may ban: an address or a CIDR range. What strings and
-- netip read of the request is a parameter.
use concert.Prelude.{
  ℕ, ◌+◌, ◌-◌, ◌≤◌, ◌<◌, ◌≡◌, refl, sym, ap, Bool, true, false, not, ◌&&◌, Option, none, some,
  String, ◌==◌, string_eq, ltb, leb, nat_beq, if◌then◌else◌, inl, inr, ◌⊎◌, arith,
}
use mathlib.Core.Path.{subst}
use concert.Net.{
  Addr, invalid, v4, v6, Prefix, unmap, is_4in6, bit_len, prefix_from, masked, without_zone,
  abuse_key, key_prefix,
}

abbrev pub min_range_bits_v4 : ℕ
min_range_bits_v4 = 8

abbrev pub min_range_bits_v6 : ℕ
min_range_bits_v6 = 16

pub record BanTarget : Type 0 where
  pub prefix : Prefix
  pub single : Bool

pub data TargetError : Type 0 where
  bad_ban_target range_too_broad : TargetError

pub record Names : Type 0 where
  pub trim : String → String
  pub has_slash : String → Bool
  pub parse_prefix : String → Option Prefix
  pub parse_addr : String → Option Addr

abbrev pub host_prefix : Option Addr → Option Prefix
host_prefix none = none
host_prefix (some a) = some (prefix_from (without_zone a) (bit_len a))

unfoldable pub read_prefix : Names → String → Option Prefix
read_prefix t s = if t.has_slash s then t.parse_prefix s else host_prefix (t.parse_addr s)

-- An IPv4-mapped prefix of 96 bits or more is one of IPv4.
unfoldable pub unmapped : Prefix → Prefix
unmapped p =
    if is_4in6 p.addr && leb 97 p.bits_plus_one
    then prefix_from (unmap p.addr) (p.bits_plus_one - 97)
    else p

-- The test of the length, on a masked prefix.
unfoldable pub narrow : Prefix → Bool → ℕ → TargetError ⊎ BanTarget
narrow p single least =
    if not single && ltb (p.bits_plus_one - 1) least
    then inl range_too_broad
    else inr (record { prefix = p; single = single })

unfoldable pub target_of : Prefix → Addr → TargetError ⊎ BanTarget
unfolding narrow
target_of p invalid = inl bad_ban_target
target_of p (v4 n) = narrow p (nat_beq (p.bits_plus_one - 1) 32) min_range_bits_v4
target_of p (v6 n z) = narrow p (leb 64 (p.bits_plus_one - 1)) min_range_bits_v6

unfoldable pub checked : Option Prefix → TargetError ⊎ BanTarget
unfolding target_of unmapped
checked none = inl bad_ban_target
checked (some p) =
    let q = masked (unmapped p) in
    if nat_beq q.bits_plus_one 0 then inl bad_ban_target else target_of q q.addr

-- parseBanTarget
unfoldable pub parse_ban_target : Names → String → TargetError ⊎ BanTarget
unfolding checked read_prefix
parse_ban_target t s =
    if t.trim s == "" then inl bad_ban_target else checked (read_prefix t (t.trim s))

-- scope; a single target's address always has a key
unfoldable pub scope : BanTarget → Prefix
scope t =
    if t.single
    then elim (abuse_key t.prefix.addr) [ none ↦ key_prefix invalid | some k ↦ key_prefix k ]
    else t.prefix

-- The shortest prefix of the address's family that may be banned, and its host's length.
abbrev pub least_bits : Addr → ℕ
least_bits (v6 n z) = min_range_bits_v6
least_bits _ = min_range_bits_v4

-- Whether a prefix is one client: an IPv4 address, or an IPv6 block of 64 bits or more.
abbrev pub is_client : Prefix → Addr → Bool
is_client p (v6 n z) = leb 64 (p.bits_plus_one - 1)
is_client p _ = nat_beq (p.bits_plus_one - 1) 32

-- A masked prefix that is narrow enough, and whether it is one client.
pub record IsNarrow (t : BanTarget) : Type 0 where
  pub valid : 0 < t.prefix.bits_plus_one
  pub least : least_bits t.prefix.addr + 1 ≤ t.prefix.bits_plus_one
  pub single : t.single ≡ is_client t.prefix t.prefix.addr

accepted : (r : TargetError ⊎ BanTarget) (t u : BanTarget) → r ≡ inr t → r ≡ inr u → t ≡ u
accepted r t u e f = cc

refused :
    (r : TargetError ⊎ BanTarget) (why : TargetError) (t : BanTarget) → r ≡ inl why → r ≡ inr t → ⊥
refused r why t e f = cc

narrow-target :
    (p : Prefix) (t : BanTarget) (single : Bool) (least : ℕ)
    → (single ≡ true → least + 1 ≤ p.bits_plus_one)
    → 0 < p.bits_plus_one
    → narrow p single least ≡ inr t
    → (t ≡ record { prefix = p; single = single }) × (least + 1 ≤ p.bits_plus_one)
unfolding narrow
narrow-target p t true least h v e =
    (accepted (inr t) t (record { prefix = p; single = true }) refl (sym e), h refl)
narrow-target p t false least h v e = by_length (ltb (p.bits_plus_one - 1) least) refl e
  where
    by_length :
        (b : Bool)
        → ltb (p.bits_plus_one - 1) least ≡ b
        → (if b then inl range_too_broad else inr (record { prefix = p; single = false })) ≡ inr t
        → (t ≡ record { prefix = p; single = false }) × (least + 1 ≤ p.bits_plus_one)
    by_length true c e = absurd (refused (inl range_too_broad) range_too_broad t refl e)
    by_length false c e =
        (accepted (inr t) t (record { prefix = p; single = false }) refl (sym e), ground arith)

target_of-IsNarrow :
    (p : Prefix) (a : Addr) (t : BanTarget)
    → p.addr ≡ a
    → 0 < p.bits_plus_one
    → target_of p a ≡ inr t
    → IsNarrow t
unfolding target_of
target_of-IsNarrow p invalid t s v e = absurd (refused (inl bad_ban_target) bad_ban_target t refl e)
target_of-IsNarrow p (v4 n) t s v e =
    let n4 = narrow-target p t (nat_beq (p.bits_plus_one - 1) 32) 8 wide v e in
    subst IsNarrow (sym n4.0) (record {
      valid = v;
      least = subst (λ a. least_bits a + 1 ≤ p.bits_plus_one) (sym s) n4.1;
      single = sym (ap (is_client p) s);
    })
  where
    wide : nat_beq (p.bits_plus_one - 1) 32 ≡ true → 9 ≤ p.bits_plus_one
    wide c = ground arith
target_of-IsNarrow p (v6 n z) t s v e =
    let n6 = narrow-target p t (leb 64 (p.bits_plus_one - 1)) 16 wide v e in
    subst IsNarrow (sym n6.0) (record {
      valid = v;
      least = subst (λ a. least_bits a + 1 ≤ p.bits_plus_one) (sym s) n6.1;
      single = sym (ap (is_client p) s);
    })
  where
    wide : leb 64 (p.bits_plus_one - 1) ≡ true → 17 ≤ p.bits_plus_one
    wide c = ground arith

checked-IsNarrow : (o : Option Prefix) (t : BanTarget) → checked o ≡ inr t → IsNarrow t
unfolding checked
checked-IsNarrow none t e = absurd (refused (inl bad_ban_target) bad_ban_target t refl e)
checked-IsNarrow (some p) t e = by_bits (nat_beq (masked (unmapped p)).bits_plus_one 0) refl e
  where
    by_bits :
        (b : Bool)
        → nat_beq (masked (unmapped p)).bits_plus_one 0 ≡ b
        → (if b
            then inl bad_ban_target
            else target_of (masked (unmapped p)) (masked (unmapped p)).addr)
          ≡ inr t
        → IsNarrow t
    by_bits true c e = absurd (refused (inl bad_ban_target) bad_ban_target t refl e)
    by_bits false c e =
        target_of-IsNarrow (masked (unmapped p)) (masked (unmapped p)).addr t refl (ground arith) e

-- A request to ban that is accepted is a valid prefix of at least 8 bits for IPv4 and 16 for IPv6,
-- and is one client exactly if it is a whole IPv4 address or an IPv6 block of 64 bits or more.
pub parse_ban_target-IsNarrow :
    (t : Names) (s : String) (target : BanTarget)
    → parse_ban_target t s ≡ inr target
    → IsNarrow target
unfolding parse_ban_target
parse_ban_target-IsNarrow t s target e = by_text (t.trim s == "") e
  where
    by_text :
        (b : Bool)
        → (if b then inl bad_ban_target else checked (read_prefix t (t.trim s))) ≡ inr target
        → IsNarrow target
    by_text true e = absurd (refused (inl bad_ban_target) bad_ban_target target refl e)
    by_text false e = checked-IsNarrow (read_prefix t (t.trim s)) target e
