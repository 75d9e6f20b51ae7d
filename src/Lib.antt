-- ===== src/Lib.antt =====
-- VioletGW, a UDP load balancer over DPDK: packets from clients to a virtual address (the VIP) are
-- sent on to an upstream under the gateway's own address and a port of its pool, and the replies are
-- sent back to the client under the address of the VIP.
--
-- The parts, each a module of the name of its source:
-- * Session (src/session.hpp, src/session.cpp): the sessions with their two maps and the SNAT ports.
--   A `Session*` is an address in `heap`; `sessions` is the vector of the code. Session/Pool and
--   Session/Ports are about the ports, Session/Index about the maps, Session/Invariant,
--   Session/Owners and Session/Keeps about the form of a valid table, Session/Expiry about the loop
--   of `expire`, Session/Lookups about what callers see.
-- * Neighbor (src/neighbor.cpp): the cache from IPv4 to MAC addresses.
-- * Upstream (src/upstream.cpp): the endpoints and the two policies that choose one.
-- * Packet (src/packet.hpp, src/packet.cpp): the headers of a frame, over the bytes of the mbuf.
-- * Forward (src/forward.hpp, src/forward.cpp): the path of a packet, `handle`; Forward/Nat holds the
--   rewrites, and Forward/Replies is about a query and its answer. It calls Packet, Session and
--   Neighbor, and the picker that it was given.
-- * Arp (src/arp.cpp): proxy ARP, learning from replies, and the requests.
-- * Shm (src/cp_shm.cpp, src/vgw_cp_shm.h): the block in which the control plane publishes; Shm/Races
--   takes the writer apart into its stores. Shm/Open is `CpShm::open` with its POSIX calls, Shm/Leaks
--   about what it leaves behind.
-- * Gateway (src/vgw.h, src/vgw.cpp, src/config.hpp): one packet through all of these, and the queues
--   of packets that wait for the MAC address of their next hop; Gateway/Queues is about
--   `flush_pending`, Gateway/Bounds about the length of the queues, Gateway/Safety about `handle` and
--   the probes, Gateway/Services about `init_services`, and Gateway/Attach joins that to
--   `CpShm::open`. Gateway/Loop is a round of `VioletGW::run`: Loop/Waiting, Loop/Counts and
--   Loop/Keeps count the packets that the gateway holds, Loop/Accounts and Loop/Totals also those
--   that are lost or sent, Loop/Overflow is about the arrays of a burst, Loop/Rounds about the
--   timers, Loop/Sending about the loop that sends a batch, Loop/Safety about a whole round.
--   Gateway/Startup is `VioletGW::init`, which joins all parts. Gateway/Run is the loop of
--   `VioletGW::run` and `main` (src/main.cpp); Run/Totals is about whole runs, Run/Worker about the
--   interface of the worker over the bursts of `DpdkNetif`.
-- * Filter (src/base/pkt_filter.cpp): the match of a frame against the filter of a trace; Filter/Text
--   reads and writes addresses as text.
-- * Dump (src/base/pkt_dump.cpp): the text of a packet; Dump/Reads is about the bytes that it reads,
--   Dump/Views about the parser of Packet on the same bytes.
-- * Util (src/base/util.cpp): `crc32` and its table.
-- * Datapath (src/dpdk/datapath_config.cpp, src/dpdk/datapath_flags.cpp): the configuration of the data
--   path; Datapath/Flags makes it from the command line, Datapath/Arguments is about the split of the
--   arguments and Datapath/Laws about the values of the flags.
-- * Ring (src/base/ring.hpp): the ring between two lcores.
-- * Netif (src/dpdk/netif.hpp, src/dpdk/netif.cpp): `DpdkNetif`; Netif/Fifo is about the order of
--   packets in its rings, Netif/Sends about the loop of `send_burst`, Netif/Manager is
--   `DpdkNetifManager`, Netif/Launches about its lcores, Netif/Eal is `dpdk::init`,
--   and Netif/Release what the destructors free. The worker's view
--   of an interface is the record Port of Gateway/Loop.
-- * Observe (tools/ebpf): the probes on the bursts of the gateway and the programs that print their
--   counts; Observe/Sums and Observe/Totals are about the map of the counts, Observe/Rates about the
--   loop that reads it, Observe/Probes about the programs around that loop.
-- Prelude holds what they share: native numbers, vectors, maps, bytes with their loads and stores, and
-- printed text.
-- Tests holds runs on concrete data, over a little-endian machine.
--
-- State is passed on explicitly: an operation takes the state and returns the new one. Words are
-- natural numbers with their wrap-around written out; addresses are words in network order. A pointer
-- result is an Option, a `ParseStatus` other than ok is `fail`. An access through a pointer to no
-- object is `none` in Forward; what a checksum of DPDK reads behind its packet is not a fault there, as
-- the function is given the memory that there is. What the gateway uses of DPDK is the record Dpdk, with its documented
-- behaviour as IsDpdk; its functions are not in the repository. The ring of DPDK, the bursts of a
-- device, the lcores and the parser gflags are parameters too: RteRing with IsRteRing, Nic, Eal with
-- IsEal, Ethdev, and the argument of `parse_vgw_command_line_flags`; `sscanf` is one of
-- `parse_ipv4_be`. So are the POSIX calls, Posix with IsPosix, and libbpf, getopt and the clock of the
-- eBPF programs, Libbpf. A gateway runs over any Port, whose documented behaviour is IsPort;
-- Gateway/Run/Worker makes one from the bursts of `DpdkNetif` over a Nic with IsNic. Two lcores that
-- share a ring are a schedule: how many packets the other side pops before each push.
--
-- Loops: `expire_from` has the number of sessions as its fuel, which is enough, since a round shortens
-- the vector or advances its index; `scan_ports` counts the rounds of the code itself. `send_loop` has
-- the length of its batch and `recv_loop` that of its burst, since a turn that goes on has sent or
-- pushed a packet. `send_pipeline` runs along its schedule, and is `none` where that ends first. The
-- endless loop of `VioletGW::run` is taken for the turns of a list, each with the block that it
-- finds, and the one of `observe_loop` for
-- the seconds of one. A number is printed with a fuel of 20 digits, as many as a number of 64 bits has.
-- The other loops are structural.
--
-- Not modelled: the log, the clock and the random numbers, and the class templates singleton and
-- noncopyable of src/base; `clean` and `get_mbuf` of src/dpdk/netif.cpp, which only call DPDK; the
-- tools other than those of tools/ebpf, and the tests.
pub mod Prelude
pub mod Neighbor
pub mod Session
pub mod Upstream
pub mod Dpdk
pub mod Packet
pub mod Forward
pub mod Arp
pub mod Shm
pub mod Filter
pub mod Util
pub mod Dump
pub mod Observe
pub mod Datapath
pub mod Ring
pub mod Netif
pub mod Gateway
pub mod Tests
