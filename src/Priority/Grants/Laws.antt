-- ===== src/Priority/Grants/Laws.antt =====
-- On priorityGrants: what verify makes of a grant, and what a rank above guest shows.
use concert.Prelude.{
  ℕ, ◌*◌, ◌/◌, ◌%◌, ◌^◌, ◌<◌, ◌≡◌, refl, ap, ◌∙◌, Bool, true, false, not, ◌&&◌, ◌||◌, Option, none,
  some, List, [], ◌∷◌, ◌++◌, ◌==◌, ltb, leb, if◌then◌else◌, length, take, drop, ==_refl, arith,
  length-append,
}
use mathlib.Core.List.{append_assoc}
use concert.Int64.{slt}
use concert.Bytes.{IsBytes, bytes_eq, put_be, get_be, Crypto, IsCrypto}
use concert.Bytes.Laws.{
  take-append_at, drop-append_at, IsBytes-append, IsBytes-take, length-put_be, put_be-IsBytes,
  get_be-put_be, length-take,
}
use concert.Passes.Roundtrip.{IsPassId}
use concert.Priority.{second, rank_count}
use concert.Priority.Grants.{
  grant_mac, grant_body, mint_grant, verify_grant_raw, verify_grant_decoded, verify_grant,
}

-- verify on a value of the right layout.
abbrev judged :
    Crypto → List ℕ → List ℕ → ℕ → (bound : List ℕ) (rank : ℕ) (exp mac : List ℕ) → Option ℕ
judged c key id now bound rank exp mac =
    if not (mac == grant_mac c key ((bound ++ rank ∷ []) ++ exp))
    then none
    else if not (bound == id)
    then none
    else if leb rank_count rank || not (slt (now / second) (get_be 0 exp))
    then none
    else some rank

body-length :
    (bound : List ℕ) (rank : ℕ) (exp : List ℕ)
    → length bound ≡ 16
    → length exp ≡ 8
    → length ((bound ++ rank ∷ []) ++ exp) ≡ 25
body-length bound rank exp h k =
    omega (arith, length-append (bound ++ rank ∷ []) exp, length-append bound (rank ∷ []), h, k)

flat :
    (bound : List ℕ) (rank : ℕ) (exp mac : List ℕ)
    → ((bound ++ rank ∷ []) ++ exp) ++ mac ≡ bound ++ (rank ∷ (exp ++ mac))
flat bound rank exp mac =
    append_assoc (bound ++ rank ∷ []) exp mac ∙ append_assoc bound (rank ∷ []) (exp ++ mac)

seventeen : (bound : List ℕ) (rank : ℕ) → length bound ≡ 16 → length (bound ++ rank ∷ []) ≡ 17
seventeen bound rank h = omega (arith, length-append bound (rank ∷ []), h)

verify_grant_raw-laid :
    (c : Crypto) (key id : List ℕ) (now : ℕ) (bound : List ℕ) (rank : ℕ) (exp mac : List ℕ)
    → length bound ≡ 16
    → length exp ≡ 8
    → verify_grant_raw c key id now (((bound ++ rank ∷ []) ++ exp) ++ mac)
      ≡ judged c key id now bound rank exp mac
unfolding verify_grant_raw
verify_grant_raw-laid c key id now bound rank exp mac h k =
    rw
      (
        take-append_at 25 ((bound ++ rank ∷ []) ++ exp) mac (body-length bound rank exp h k),
        drop-append_at 25 ((bound ++ rank ∷ []) ++ exp) mac (body-length bound rank exp h k),
        ap (take 16) (flat bound rank exp mac) ∙ take-append_at 16 bound (rank ∷ (exp ++ mac)) h,
        ap (drop 16) (flat bound rank exp mac) ∙ drop-append_at 16 bound (rank ∷ (exp ++ mac)) h,
        ap (drop 17) (append_assoc (bound ++ rank ∷ []) exp mac)
            ∙ drop-append_at 17 (bound ++ rank ∷ []) (exp ++ mac) (seventeen bound rank h),
        take-append_at 8 exp mac k,
      )
      refl

verify_grant-encoded :
    (c : Crypto) (key id buf : List ℕ) (now : ℕ)
    → IsCrypto c
    → IsBytes buf
    → length buf ≡ 41
    → verify_grant c key (c.encode buf) id now ≡ verify_grant_raw c key id now buf
unfolding verify_grant verify_grant_decoded
verify_grant-encoded c key id buf now h b n =
    rw (h.decode_encode buf b, h.encoded_len buf b, n) refl

-- For pass ids of 16 bytes, a rank of the seven and times below 2^62 seconds: a grant verifies, as
-- its rank, exactly together with the pass that it was made for and before its expiry, cut to
-- seconds; moved to any other pass it is worth nothing.
pub verify_grant-mint_grant :
    (c : Crypto) (key id other : List ℕ) (rank exp now : ℕ)
    → IsCrypto c
    → IsPassId id
    → rank < rank_count
    → exp / second < 2 ^ 62
    → now / second < 2 ^ 62
    → verify_grant c key (mint_grant c key id rank exp) other now
      ≡ (if (id == other) && ltb now (exp / second * second) then some rank else none)
unfolding mint_grant
verify_grant-mint_grant c key id other rank exp now h p known fits small =
    verify_grant-encoded c key other (body ++ grant_mac c key body) now h
      (IsBytes-append body (grant_mac c key body)
        (IsBytes-append (id ++ (rank % 256) ∷ []) (put_be 8 (exp / second))
          (IsBytes-append id ((rank % 256) ∷ []) p.id_bytes (omega arith, tt))
          (put_be-IsBytes 8 (exp / second)))
        (IsBytes-take 16 (c.mac key body) (h.mac_bytes key body)))
      (omega (
        arith,
        length-append body (grant_mac c key body),
        body-length id (rank % 256) (put_be 8 (exp / second)) p.id_length
            (length-put_be 8 (exp / second)),
        length-take 16 (c.mac key body) (omega (arith, h.mac_length key body)),
      ))
    ∙ verify_grant_raw-laid c key other now id (rank % 256) (put_be 8 (exp / second))
        (grant_mac c key body) p.id_length (length-put_be 8 (exp / second))
    ∙ rw
        (
          ==_refl (grant_mac c key body),
          get_be-put_be 8 (exp / second) (omega (arith, fits)),
          small_rank,
          in_time,
        )
        (by_pass (id == other) (ltb now (exp / second * second)))
  where
    body : List ℕ
    body = grant_body id rank exp

    small_rank : rank % 256 ≡ rank
    small_rank = omega (arith, known)

    in_time : slt (now / second) (exp / second) ≡ ltb now (exp / second * second)
    in_time = unfold slt in ground arith

    by_pass :
        (t u : Bool)
        → (if not t then none else if leb rank_count rank || not u then none else some rank)
          ≡ (if t && u then some rank else none)
    by_pass true true = ground arith
    by_pass true false = ground arith
    by_pass false u = refl
