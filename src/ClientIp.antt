-- ===== src/ClientIp.antt =====
-- net_ip.go: clientIP, the client's address behind trusted proxies. Header values are lists of bytes;
-- what strings and netip make of them are parameters. The loop over one value takes its length as
-- fuel: each round cuts at least its last comma or ends.
pub mod Parts
pub mod Laws
mod Tests
use concert.Prelude.{
  ℕ, zero, suc, ◌+◌, ◌≡◌, Bool, true, false, not, Option, none, some, List, [], ◌∷◌, ◌++◌, nat_beq,
  if◌then◌else◌, length,
}
use concert.Net.{Addr, Prefix, invalid, unmap, contains_addr}

-- strings.TrimSpace and netip.ParseAddr
pub record Names : Type 0 where
  pub trim : List ℕ → List ℕ
  pub parse : List ℕ → Option Addr

-- remoteAddr: from what ParseAddrPort and ParseAddr make of RemoteAddr
abbrev pub remote_addr : Option Addr → Option Addr → Option Addr
remote_addr (some a) o = some (unmap a)
remote_addr none (some a) = some (unmap a)
remote_addr none none = none

-- The chain goes on, with the last hop, or the client is found.
pub data Scan : Type 0 where
  goes_on : Addr → Scan
  stops : Addr → Scan

abbrev pub resume : Scan → (Addr → Scan) → Scan
resume (goes_on h) next = next h
resume (stops a) next = stops a

abbrev pub cut_step : ℕ → List ℕ → Option (List ℕ × List ℕ) → Option (List ℕ × List ℕ)
cut_step x xs none = if nat_beq x b',' then some ([], xs) else none
cut_step x xs (some p) = some (x ∷ p.0, p.1)

-- s[:j] and s[j+1:] at the last comma
unfoldable pub cut_last : List ℕ → Option (List ℕ × List ℕ)
cut_last [] = none
cut_last (x ∷ xs) = cut_step x xs (cut_last xs)

unfoldable pub check_addr : List Prefix → Addr → Option Addr → Scan
check_addr trusted remote none = stops remote
check_addr trusted remote (some a) =
    if not (contains_addr trusted (unmap a)) then stops (unmap a) else goes_on (unmap a)

-- One entry, trimmed.
unfoldable pub check_part : Names → List Prefix → Addr → Addr → List ℕ → Scan
unfolding check_addr
check_part t trusted remote hop [] = goes_on hop
check_part t trusted remote hop (x ∷ xs) = check_addr trusted remote (t.parse (x ∷ xs))

abbrev pub last_part : List ℕ → Option (List ℕ × List ℕ) → List ℕ
last_part s none = s
last_part s (some p) = p.1

abbrev pub rest_of : Option (List ℕ × List ℕ) → List ℕ
rest_of none = []
rest_of (some p) = p.0

-- for s != "" { … }
unfoldable pub scan : Names → List Prefix → Addr → ℕ → List ℕ → Addr → Scan
unfolding check_part
scan t trusted remote zero s hop = goes_on hop
scan t trusted remote (suc n) [] hop = goes_on hop
scan t trusted remote (suc n) (x ∷ xs) hop =
    resume (check_part t trusted remote hop (t.trim (last_part (x ∷ xs) (cut_last (x ∷ xs)))))
      (λ h. scan t trusted remote n (rest_of (cut_last (x ∷ xs))) h)

-- The values from the last to the first.
unfoldable pub scan_values : Names → List Prefix → Addr → List (List ℕ) → Addr → Scan
unfolding scan
scan_values t trusted remote [] hop = goes_on hop
scan_values t trusted remote (v ∷ vs) hop =
    resume (scan_values t trusted remote vs hop) (λ h. scan t trusted remote (length v) v h)

abbrev pub address_of : Scan → Addr
address_of (goes_on a) = a
address_of (stops a) = a

-- clientIP; `remote` is remoteAddr, none where it cannot be read
unfoldable pub client_ip : Names → List Prefix → Option Addr → List (List ℕ) → Addr
unfolding scan_values
client_ip t trusted none values = invalid
client_ip t trusted (some remote) values =
    if not (contains_addr trusted remote)
    then remote
    else address_of (scan_values t trusted remote values remote)
