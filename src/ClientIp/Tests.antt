-- ===== src/ClientIp/Tests.antt =====
-- A request through one trusted proxy, with a forged entry in front.
use concert.Prelude.{ℕ, ◌≡◌, refl, true, Option, none, some, List, [], ◌∷◌, ◌++◌}
use concert.Net.{Addr, Prefix, v4, contains_addr}
use concert.ClientIp.{Names, goes_on, stops, scan_values, address_of, client_ip}
use concert.ClientIp.Parts.{walk}
use concert.ClientIp.Laws.{all_entries, client_ip-walk, client_ip-spoofed}

-- An address is written as one byte.
abbrev read : List ℕ → Option Addr
read [] = none
read (x ∷ xs) = some (v4 x)

abbrev names : Names
names = record { trim = λ s. s; parse = read }

abbrev proxies : List Prefix
proxies = record { addr = v4 10; bits_plus_one = 33 } ∷ []

-- "C", from the proxy 10, after a forged "A".
abbrev proxied : List ℕ
proxied = b'C' ∷ []

abbrev forged : List ℕ
forged = b'A' ∷ []

proxy_trusted : contains_addr proxies (v4 10) ≡ true
unfolding contains_addr concert.Net.contains
proxy_trusted = refl

proxied_found : scan_values names proxies (v4 10) (proxied ∷ []) (v4 10) ≡ stops (v4 67)
unfolding scan_values concert.ClientIp.cut_last contains_addr concert.Net.contains concert.Net.unmap
proxied_found = refl

client_ip-walk_example :
    client_ip names proxies (some (v4 10)) (forged ∷ proxied ∷ [])
    ≡ address_of (walk names proxies (v4 10) (all_entries (forged ∷ proxied ∷ [])) (v4 10))
client_ip-walk_example =
    client_ip-walk names proxies (v4 10) (forged ∷ proxied ∷ []) refl proxy_trusted

client_ip-spoofed_example :
    client_ip names proxies (some (v4 10)) ((forged ∷ []) ++ (forged ++ b',' ∷ proxied) ∷ [])
    ≡ client_ip names proxies (some (v4 10)) (proxied ∷ [])
client_ip-spoofed_example =
    client_ip-spoofed names proxies (v4 10) (v4 67) (forged ∷ []) [] forged proxied refl
      proxied_found
