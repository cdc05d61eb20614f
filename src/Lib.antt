-- ===== src/Lib.antt =====
-- Concert, a waiting room that stands in front of a web application (Go): the parts that decide who
-- is kept out, who goes first, and which payment bought whose place.
--
-- A request meets these parts in this order. Its client is the address behind the trusted proxies.
-- The abuse registry answers whether its client is
-- banned, on its own account or by a range; handlers report strikes to it. An asset request needs a
-- signed admission pass and a slot of the pass's own semaphore and of the global one. A page request
-- meets the priority gate: its rank comes from a signed grant that the origin's Concert-Priority
-- header issued for its pass, and while the room is busy it goes over the lane, whose semaphore
-- serves by rank, or joins room's line. The kick list refuses a ticket that an administrator dropped.
-- A visitor who pays is admitted by a receipt in the fast-lane ledger, which the payment requests of
-- all sessions write; the gateway that settles such payments keeps its own journal. The portal keeps
-- a note on every waiting visitor and limits failed sign-ins.
--
-- Parts, by file of this library and of the repository:
--   Net.antt       netip addresses and prefixes, abuseKey, keyPrefix (abuse.go), containsAddr (config.go)
--   Abuse.antt     abuse.go: abuseRegistry. Entries: entryLocked with its eviction; Strikes: cooldown,
--                  banLocked, strike, banNow; Admin: banned, banFor, unban, tracked, sweep. Proofs:
--                  Store, Shape, Steps, Operations, Reach, Keeps, Cooldown, Banned, Lifts, Sweep
--   Ranges.antt    ranges.go: rangeBanned, banRange, unbanRange, sweepRanges, rangeCount. Targets:
--                  parseBanTarget and scope, with the proof about them
--   Bytes.antt     byte strings, big endian numbers, and crypto/hmac and encoding/base64 as parameters
--   Passes.antt    pass.go: the admitter. Store: userStore; Guard: assetGuard. Proofs: Roundtrip,
--                  Soundness, Store/Counts, Store/Pools, Store/Keeps, Guard/Laws, Streams/Laws;
--                  Streams: stream.go's streamGuard, and gated of router.go
--   Priority.antt  priority.go: ranks, header and settings. Grants: priorityGrants; Line: rankedLine,
--                  issuedTicket and ticket.go; Gate: priorityGate. Proofs: Header, Grants/Laws,
--                  Grants/Ranks, Gate/Laws
--   Lane.antt      priority.go: rankedSem. System: every interleaving of its callers
--   Ledger.antt    internal/fastlane/store.go: the payment ledger and its replay. Proofs: Replay,
--                  Reopen, Payments, Answers
--   Fastlane.antt  internal/fastlane/service.go. Payment: the payment request, cut at its waits;
--                  Flights: the requests of all sessions as steps; Limits: allow; Leases:
--                  makeChallenge, proveNFT, screen, Eligible; Sessions: parseToken, startSession,
--                  with their proofs. Proofs: Flights/Ownership,
--                  Flights/Agreement, Flights/Changes, Flights/Safety, Flights/Offers,
--                  Flights/Waiting, Limits/Windows,
--                  Limits/Laws, Leases/Challenges, Leases/Laws
--   Journal.antt   internal/gateway/journal.go: the settlement journal and its replay. Proofs:
--                  Settled, Reopen, Restart
--   ClientIp.antt  net_ip.go: clientIP. Proofs: Parts, Laws
--   Base58.antt    internal/chain/base58/base58.go: the encoding of Solana's and XRPL's addresses
--   Limiter.antt   limiter.go, Notes.antt visitor.go, KickList.antt kick.go
--   Int64.antt     Go's int64 on bit patterns; Prelude the shared tests, lists, equality and tables
--
-- State. A Go map is a table, an association list; what its order of iteration could change is an
-- argument (the `order` in which entryLocked meets the clients of a shard). A mutex makes a critical
-- section one step; where a method has two, they are two functions and other steps may come between
-- (the lane's acquire, the notes' prune, the registry's sweep with its 64 shards and the correction of
-- the counter after the last). An operation on one client is one step under its shard's lock: sections
-- of different shards do not overlap in the model, so the counter that they share is as it is between
-- them. The sweep of pass.go's user store, which takes its shards one after
-- another as well, is one step. A nil registry is `none`. A time on the abuse path is an
-- int64 of nanoseconds with its wrap-around (a bit pattern below 2 ^ 64); a time.Time elsewhere is a
-- number. Counts that the code bounds far below the word (strikes, offenses, slots) are numbers.
-- The handler of a payment is one function for each stretch between two waits; its first stretch, a
-- look-up by session and then one by fingerprint, is one step: only the session's own request, of
-- which `active` lets one in, changes the session's receipt. A semaphore of package sema is the
-- number it was allocated under; what it answers, and what the gateway, the policy service, room and
-- the clock answer, are arguments.
-- Names: `purge` is the method sweep of limiter.go and kick.go; that of abuse.go is `sweep_begin`,
-- 64 times `sweep_shard` and `sweep_end`, and `sweep_entries` is these with nothing in between;
-- an operation that the code writes as one method with a nil test is two functions, the second of
-- which takes the answer of the look-up.
--
-- Outside the model: encoding/json and the disk (an append to a file takes what happens to it as an
-- argument, and a file is its whole lines with a mark for a partial one; the length of a line, which
-- the scanner of a restart limits, is an argument `size` of the receipt or record), the callbacks
-- that drop a banned client's connections (their arguments are kept in order), goroutines that call
-- the janitor methods, logs, and the views that list state for the portal. The loops run over a list
-- or a
-- count, but for the digits of a number in base58.go, which take the number itself as fuel: each
-- division by the base lowers it, and the loop of clientIP, which takes the length of a value: each
-- round shortens it.
--
-- Not modelled: HTTP routing, templates, TLS and reload, and the room library, which is not part of
-- the repository; of ranges.go, the views; of the fast-lane service, its
-- routing and configuration; persistence, the history log, the settings, and the settlement codecs of
-- internal/chain.
pub mod Prelude
pub mod Int64
pub mod Bytes
pub mod Net
pub mod KickList
pub mod Limiter
pub mod Notes
pub mod Lane
pub mod Passes
pub mod Priority
pub mod Abuse
pub mod Ranges
pub mod Ledger
pub mod Journal
pub mod Fastlane
pub mod ClientIp
pub mod Base58
