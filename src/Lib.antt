-- ===== src/Lib.antt =====
-- A verification library for peekd, a watcher of the Ethereum consensus p2p network: it joins the
-- gossip topics, decodes each message, records when it arrived, and saves the records to ClickHouse.
--
-- The parts of the program and the files that model them (paths from the root of the repository):
--
-- - processor/: Processor. `Process` decodes a message, asks the extractor registry whether it has a slot
--   and records it in the slot cache or saves it; the message id function of gossipSub counts sightings;
--   the loop of `Serve` flushes slots.
--     Processor/SeenCounter   seen_counter.go (hexEncode, IncreaseByRawID, Pop)
--     Processor/SlotCache     slot_cache.go (Add, CompletedSlots, DrainSlot)
--     Processor/SlotExtractor slot_extractor.go (the registry and extract), on Processor/Messages
--     Processor/Topics        TopicToTopicGroup and parseEth2Topic
--     Processor/State         the records of beacon_message_processor.go and beacon_messages.go
--     Processor/Process       Process and what it calls
--     Processor/Flush         flushCompletedSlots and saveToRepository
--     Processor/Serve         the calls and the rounds of Serve as events, and runs of them
--     Processor/Serve/Account, Schedules, Stored, Sightings, Unpopped, General
--                             what runs take in, whatever the goroutines' schedule, what ClickHouse gets
--                             and what the seen counts are
--     Processor/Threads       the goroutines in single steps: Kept and Sent (what no interleaving loses),
--                             Whole (runs of events are interleavings)
-- - repository/: Repository. Models (models.go), Options (NewRepository), Open (the connection), ClickHouse
--   (the two saves), Adapter (the interface).
-- - eth/network.go: Eth, with Eth/Subnets for the bit vectors of subnets.
-- - gossip/: Gossip. Destination and Handler (handler.go), Subscription (the loop of subscription.go),
--   Prune (isBadPeer and prune of gossipsub.go, and the snapshots of peer_score.go).
--     Gossip/Pipeline         a subscription, its handler and the processor together
--     Gossip/Topics           NewGossipSub of gossipsub.go, with the list of topics
--     Gossip/Service          the parameters of Serve of gossipsub.go and the joining of the topics
--     Gossip/Service/Serve    Serve from start to end, run once and again
--     Gossip/PeerScore        peer_score.go: Defaults (one function per kind of topic) and Params (params)
-- - host/: Host, the counts of peers, Host/Create, NewHost, and Host/Serve, Serve and notify.go.
-- - peering/: Peering. Dialer (dialer.go), Create and Discovery (discovery.go), Found, the way of a node
--   from the one to the other, and Lifecycle, Serve of discovery.go from start to end, run once and again.
-- - reqresp/: Reqresp. Stream (what is used of libp2p's streams), Frames and Handler (handler.go), Serve
--   (reqresp.go), Reliable (a connection on which calls succeed while the stream is open), RoundTrip and Exchange.
-- - watcher/watcher.go and cmd/cmd_watcher.go: Watcher and Watcher/Launch, from flags to options, and
--   Watcher/Setup, the steps of NewWatcher, which makes the parts above and hands them to the supervisor.
-- - cmd/: Cmd. Names, Table and Reads (the flags, and what is read of them), Settings (what each flag
--   sets), and launchWatcher and main.
--
-- Base has what these share: Go strings as lists of bytes, maps as association lists, int64 and the
-- conversions to uint32 and uint16, errors and panics (`Result`), calls on a state one after another
-- (Actions), and the schedules of goroutines (Schedules). Witness has examples.
--
-- How Go is rendered. State is passed explicitly, each function returning the new state. A panic is a
-- result of its own, and so is an error with its chain of wrapped messages. uint64 and uint32 are natural
-- numbers with the wrap-around of each operation written out; time is an integer number of nanoseconds
-- since the Unix epoch, time.Duration the int64 it is, saturation of `Sub` included. A map is visited in
-- an order that is an argument, so the theorems hold for every order. Loops are structural recursion; no
-- definition takes fuel.
--
-- What is outside the repository is an argument or the field of a record: the SSZ decoder (`decode`), the
-- message names and topic formats of Prysm (`MessageNames`, `TopicFormats`), its configurations
-- (`Params`), go-bitfield (`Bitvector`, with the law of a written bit), the scores of libp2p
-- (`Scores`, a strict order; NaN is left out), the connections of the host, the driver of ClickHouse (`Driver`
-- and `Conn`, with `IsBatching`), the clock, and sort.Slice (a permutation in ascending order). So are float64 (`Floats`, its operations with
-- no law assumed), libp2p's streams and the SSZ encoder (`Streams`, `Codec`; what they do on a reliable
-- connection, while their half of the stream is open, is `IsReliable` and `IsCoding`), fmt.Sprintf and the fork digest (`Printing`), the key and
-- address parsers (`Keys`, `Network`, `Discv5`, `Parsers`), and the supervisor.
--
-- Concurrency: the mutexes make each operation of a store atomic. Processor/Serve and Base/Schedules take
-- a call and a whole flush as one event, and goroutines as lists of events. Processor/Threads takes a flush
-- in its single steps, between which the other goroutines go on.
-- Logs are left out. The save of a message without a slot runs in a goroutine of its own: that it was
-- started, and with which row, is in the state; when it runs and whether it succeeds is not.
--
-- Each call of `Connect` runs on its own beside the dialer's loop, and is only noted. The configuration of
-- the beacon chain does not change while a function of peer_score.go runs.
--
-- Not modelled: the code of others that these parts open and call (sockets, discv5, libp2p, ClickHouse, the
-- supervisor, the library of the command line), beyond the answers that are arguments; what is logged, but
-- for the host; how a signal ends the context; the migrations. When and whether the supervisor starts a
-- service again is its own: theorems on restarts hold for any number of runs. The response to a request is
-- not bounded in size, since the encoder does that.
pub mod Base
pub mod Repository
pub mod Processor
pub mod Eth
pub mod Gossip
pub mod Host
pub mod Watcher
pub mod Reqresp
pub mod Peering
pub mod Witness
pub mod Cmd
