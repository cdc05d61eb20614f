-- ===== src/Priority.antt =====
-- priority.go: the ranks, the Concert-Priority header that grants them, and the settings.
--
-- A rank is its number, 0 (guest) to 6 (staff). Texts are lists of bytes; an int and a time.Duration
-- are int64 patterns (Int64). The semaphore of the lane is in Lane.
pub mod Header
pub mod Grants
pub mod Line
pub mod Gate
mod Tests
use concert.Prelude.{
  ℕ, zero, suc, ◌+◌, ◌-◌, ◌*◌, ◌/◌, ◌%◌, ◌^◌, ◌<◌, ◌≡◌, Bool, true, false, not, ◌&&◌, ◌||◌, Option,
  none, some, List, [], ◌∷◌, ◌==◌, ltb, leb, nat_beq, if◌then◌else◌, get_elem?, max,
}
use concert.Int64.{mul64, slt}
use concert.Bytes.{bytes_beq, bytes_eq}

abbrev pub second : ℕ
second = 1000000000

abbrev pub priority_min_ttl : ℕ
priority_min_ttl = 60 * second

abbrev pub priority_max_ttl : ℕ
priority_max_ttl = 86400 * second

abbrev pub max_priority_wait : ℕ
max_priority_wait = 60 * second

abbrev pub ranked_line_max : ℕ
ranked_line_max = 100000

abbrev pub rank_guest : ℕ
rank_guest = 0

abbrev pub rank_customer : ℕ
rank_customer = 3

abbrev pub rank_count : ℕ
rank_count = 7

abbrev pub rank_names : List (List ℕ)
rank_names =
    (b'g' ∷ b'u' ∷ b'e' ∷ b's' ∷ b't' ∷ [])
    ∷ (b'm' ∷ b'e' ∷ b'm' ∷ b'b' ∷ b'e' ∷ b'r' ∷ [])
    ∷ (b'p' ∷ b'r' ∷ b'o' ∷ b's' ∷ b'p' ∷ b'e' ∷ b'c' ∷ b't' ∷ [])
    ∷ (b'c' ∷ b'u' ∷ b's' ∷ b't' ∷ b'o' ∷ b'm' ∷ b'e' ∷ b'r' ∷ [])
    ∷ (b's' ∷ b'u' ∷ b'b' ∷ b's' ∷ b'c' ∷ b'r' ∷ b'i' ∷ b'b' ∷ b'e' ∷ b'r' ∷ [])
    ∷ (b'c' ∷ b'h' ∷ b'e' ∷ b'c' ∷ b'k' ∷ b'o' ∷ b'u' ∷ b't' ∷ [])
    ∷ (b's' ∷ b't' ∷ b'a' ∷ b'f' ∷ b'f' ∷ [])
    ∷ []

-- rankDefaultTTL: nothing, half an hour, or eight hours
abbrev pub rank_default_ttl : ℕ → ℕ
rank_default_ttl rank =
    if nat_beq rank 0
    then 0
    else if nat_beq rank 2 || nat_beq rank 5
    then 1800 * second
    else 28800 * second

-- What the header's parser takes of strings, strconv and time.
pub record Text : Type 0 where
  pub trim : List ℕ → List ℕ
  pub lower : List ℕ → List ℕ
  pub equal_fold : List ℕ → List ℕ → Bool
  pub atoi : List ℕ → Option ℕ
  pub parse_duration : List ℕ → Option ℕ

-- A duration is an int64.
pub record IsText (t : Text) : Type 0 where
  pub duration_fits : (v : List ℕ) (d : ℕ) → t.parse_duration v ≡ some d → d < 2 ^ 64

-- The index of the first name that is the text.
unfoldable pub find_rank : ℕ → List (List ℕ) → List ℕ → Option ℕ
find_rank i [] s = none
find_rank i (n ∷ ns) s = if n == s then some i else find_rank (i + 1) ns s

-- parseRank; none: (rankGuest, false)
unfoldable pub parse_rank : Text → List ℕ → Option ℕ
unfolding find_rank
parse_rank t s = find_rank 0 rank_names (t.lower (t.trim s))

-- strings.Split: the part before the first separator, and the others.
unfoldable pub split_parts : ℕ → List ℕ → List ℕ × List (List ℕ)
split_parts sep [] = ([], [])
split_parts sep (x ∷ xs) =
    let rest = split_parts sep xs in
    if nat_beq x sep then ([], rest.0 ∷ rest.1) else (x ∷ rest.0, rest.1)

-- strings.Cut; none: not found
unfoldable pub cut : ℕ → List ℕ → Option (List ℕ × List ℕ)
cut sep [] = none
cut sep (x ∷ xs) =
    let rest = cut sep xs in
    if nat_beq x sep
    then some ([], xs)
    else elim rest [ none ↦ none | some p ↦ some (x ∷ p.0, p.1) ]

abbrev pub ttl_name : List ℕ
ttl_name = b't' ∷ b't' ∷ b'l' ∷ []

-- The number of seconds, or else the duration; none: bad ttl.
unfoldable pub read_ttl : Text → List ℕ → Option ℕ → Option ℕ
read_ttl t val none = t.parse_duration val
read_ttl t val (some n) = some (mul64 n second)

unfoldable pub option_ttl : Text → ℕ → Option (List ℕ × List ℕ) → Option ℕ
unfolding read_ttl
option_ttl t ttl none = some ttl
option_ttl t ttl (some (k, val)) =
    if t.equal_fold (t.trim k) ttl_name
    then read_ttl t (t.trim val) (t.atoi (t.trim val))
    else some ttl

-- The options after the rank; a later ttl replaces an earlier one.
unfoldable pub options_ttl : Text → List (List ℕ) → Option ℕ → Option ℕ
unfolding option_ttl cut
options_ttl t [] o = o
options_ttl t (p ∷ ps) none = none
options_ttl t (p ∷ ps) (some ttl) = options_ttl t ps (option_ttl t ttl (cut b'=' (t.trim p)))

-- min(max(ttl, priorityMinTTL), priorityMaxTTL)
unfoldable pub clamp : ℕ → ℕ
clamp ttl =
    let least = if slt ttl priority_min_ttl then priority_min_ttl else ttl in
    if slt priority_max_ttl least then priority_max_ttl else least

unfoldable pub clamped : ℕ → Option ℕ → Option (ℕ × ℕ)
unfolding clamp
clamped rank none = none
clamped rank (some ttl) = some (rank, if nat_beq rank rank_guest then ttl else clamp ttl)

unfoldable pub parse_ranked : Text → List (List ℕ) → Option ℕ → Option (ℕ × ℕ)
unfolding options_ttl clamped
parse_ranked t parts none = none
parse_ranked t parts (some rank) = clamped rank (options_ttl t parts (some (rank_default_ttl rank)))

-- parsePriorityHeader; none: an error
unfoldable pub parse_priority_header : Text → List ℕ → Option (ℕ × ℕ)
unfolding parse_ranked split_parts parse_rank
parse_priority_header t v =
    let parts = split_parts b';' v in parse_ranked t parts.1 (parse_rank t parts.0)

-- The settings, with int64 patterns.
pub record PrioritySettings : Type 0 where
  pub capacity : ℕ
  pub priority_cap : ℕ
  pub priority_wait : ℕ
  pub priority_lane_rank : ℕ
  pub priority_forms : Bool

-- normalizePriority; none: an error
unfoldable pub normalize_priority : PrioritySettings → Option PrioritySettings
normalize_priority c =
    let lane = if nat_beq c.priority_lane_rank 0 then rank_customer else c.priority_lane_rank in
    if slt c.priority_cap 0 || slt (2 ^ 31 - 1) c.priority_cap
    then none
    else if slt c.priority_wait 0 || slt max_priority_wait c.priority_wait
    then none
    else if slt lane 1 || slt rank_count lane
    then none
    else some (record c { priority_lane_rank = lane })

-- effectivePriorityCap; a capacity that is not negative
unfoldable pub effective_priority_cap : PrioritySettings → ℕ
effective_priority_cap c = if slt 0 c.priority_cap then c.priority_cap else max 1 (c.capacity / 4)
