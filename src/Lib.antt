-- ===== src/Lib.antt =====
-- Sponge, a TCP/IP stack in user space.
--
-- A connection's bytes pass through these parts. `libsponge/byte_stream` is a bounded queue between a
-- writer and a reader, on the buffers of `libsponge/util/buffer`; `libsponge/stream_reassembler` turns
-- substrings that arrive in any order into such a stream; `libsponge/tcp_receiver` unwraps sequence
-- numbers (`libsponge/wrapping_integers`) and feeds the reassembler; `libsponge/tcp_sender` cuts a
-- stream into segments, and retransmits them until they are acknowledged. `libsponge/tcp_connection`
-- ties a receiver and a sender together: it gives each segment that arrives to both, answers, keeps the
-- clock, and resets or ends the connection. `libsponge/util/parser` reads and writes integers in network
-- byte order, for the headers in `libsponge/tcp_helpers`: a segment travels in an IPv4 datagram, with
-- checksums from `libsponge/util/util`, and a datagram in an Ethernet frame. The adapters of
-- `libsponge/tcp_helpers` wrap segments in datagrams and filter those that arrive.
-- `libsponge/network_interface` sends and receives such frames and finds Ethernet addresses by ARP, and
-- `libsponge/router` moves datagrams among several interfaces.
--
-- Around them stand the system's descriptors, `libsponge/util/file_descriptor` and
-- `libsponge/util/socket`, and `libsponge/util/eventloop`, which calls the callbacks of its rules when
-- descriptors are ready. `libsponge/tcp_helpers/tcp_sponge_socket` runs a connection by four such rules
-- between its owner and an adapter; `apps/bidirectional_stream_copy` copies between a socket and the
-- standard streams by four others.
--
-- Each module stands for the source of its name: WrappingIntegers, Buffer, BufferList, NetParser,
-- ByteStream, StreamReassembler, TcpReceiver, TcpSender, TcpConnection, NetworkInterface and Router, with
-- TcpHeader, TcpSegment, TcpState, Ipv4Header, Ipv4Datagram, EthernetHeader, EthernetFrame and ArpMessage
-- from `libsponge/tcp_helpers`, and InternetChecksum from `libsponge/util/util`. FdAdapter stands for
-- `fd_adapter`, `lossy_fd_adapter` and their part of `tcp_config` there, TcpOverIp for `tcp_over_ip`,
-- TunTapAdapter for `tuntap_adapter` and TcpSpongeSocket for `tcp_sponge_socket`, with the adapters as it
-- uses them in TcpSpongeSocket/Adapters. BufferViewList is the class of that name in
-- `libsponge/util/buffer`, FileDescriptor, EventLoop and Sockets are `file_descriptor`, `eventloop` and
-- `socket` there, and StreamCopy is `apps/bidirectional_stream_copy`. A class is a record of
-- its members, a method a function from the object to the result and the object after it, under the
-- method's name; a method that may throw returns a `Result`. Words of 32 and 64 bits are numbers, with
-- the wrap-around written out. A byte is a number, a string a list of them. A `std::map` is the list of
-- its entries (Base/Maps). An `Address` is the number of its IPv4 address, and for the adapters its port.
--
-- Loops. `passes` of the reassembler runs on one round more than there are entries: each round but the
-- last takes one off. `fill_rounds` of the sender runs on four rounds more than there are bytes
-- buffered: each round but the last sends a byte, the SYN or the FIN. `fold_carries` of the checksum runs
-- on three rounds: a sum of 32 bits fits in 16 after two. `drain` of the router runs on as many rounds as
-- datagrams wait at the interface: each round takes one off and none is added. `write_from` of the file
-- descriptor runs on one round more than there are bytes: each round but the last writes one. The error
-- `out_of_fuel` stands for the end of these rounds and is shown not to occur.
--
-- Parameters. The order in which an `unordered_map` is iterated is the standard library's: `HashOrder`
-- is any rearrangement after each insertion. The initial sequence number of a sender is an argument,
-- and so are a random number of the lossy adapter, what a UDP socket receives, and `through_text`, the
-- number that the system gives for an address that it has written as text. What the kernel answers to a
-- system call is an argument, by the number of the callback and of the round that ask: what a read
-- gives, how much a write takes, what `poll` reports. Theorems name what they need of these answers
-- (`Takes`, `Gives`, `Kernel`, `NoFailure`). The event loop is one for any shared state, with the
-- descriptors in it, and the sponge socket is one for any record of an adapter's operations (`Adapter`),
-- of which a theorem may ask that they give the peer's segments and do not throw (`Carries`, which
-- TcpSpongeSocket/OverUdp and TcpSpongeSocket/Lossy fill in). The rounds
-- of a loop that runs for ever are a list: what is shown holds after any number of them.
--
-- Not modelled: system calls themselves, reference counts and `set_blocking`; the addresses of sockets
-- and the opening of devices; threads, the destructor of the sponge socket and the classes that choose
-- its addresses; printing; the other programs and the tests.
pub mod Base
pub mod WrappingIntegers
pub mod Buffer
pub mod BufferList
pub mod NetParser
pub mod InternetChecksum
pub mod EthernetHeader
pub mod EthernetFrame
pub mod ArpMessage
pub mod Ipv4Header
pub mod Ipv4Datagram
pub mod ByteStream
pub mod StreamReassembler
pub mod TcpHeader
pub mod TcpSegment
pub mod TcpReceiver
pub mod TcpSender
pub mod TcpState
pub mod TcpConnection
pub mod FdAdapter
pub mod TcpOverIp
pub mod NetworkInterface
pub mod Router
pub mod BufferViewList
pub mod FileDescriptor
pub mod Sockets
pub mod EventLoop
pub mod TunTapAdapter
pub mod TcpSpongeSocket
pub mod StreamCopy
