-- ===== src/Lib.antt =====
-- general-tools is the C++ library of a robot: `dispatch` lets programs on one network find each
-- other's topics and exchange messages over zmq sockets, and `utils` has what it stands on. Each
-- node has a `Directory`: it announces its topics by datagrams to a multicast group, keeps a
-- `DirectoryTopicStore` of what it and the others advertise, tells its observers of every change,
-- and asks for topics that are observed but that nobody advertises. Clients observe a topic and
-- connect to the addresses that the store gives them.
--
-- The parts, the files here and the code:
-- - Common: conditionals, lists, byte strings, ordered maps and decimal numbers for all parts. A
--   `std::string` is the list of its bytes; `std::map` and `std::set` are lists in key order. Bytes
--   has numbers as bytes in memory, and Double the operations of `double` as the fields of a record.
-- - BufferPool: a17/utils/buffer_pool.h and buffer_pool.cpp. The ring of free buffers is a record with
--   `head`, `tail` and the table; addresses are numbers. `BufferPool::malloc` is `malloc`, and so on.
--   The spin lock of the pool makes each operation one step. Queue sees the ring as the list of
--   its free buffers; Ownership follows the buffers along every history of the pool.
-- - SocketTypes: a17/dispatch/socket_types.h and socket_types.cpp.
-- - Wire: the tokens, types and topic infos of datagrams, a17/dispatch/directory.cpp (`nextToken`,
--   `writeTypes`, `parseTypes`, `buildTopicInfo`).
-- - Address: a17/dispatch/address.h and address.cpp, the text of an address and `onNetwork`; Own is the
--   choice of an interface of the host.
-- - TopicStore: `DirectoryTopicStore` of a17/dispatch/directory.h and directory.cpp, and
--   a17/dispatch/directory_topic.h and directory_topic.cpp. Registry sees it as a map from topic and
--   guid; Notify is about its shape and who is called; Observers has the calls of a change.
-- - Directory: the class of a17/dispatch/directory.h and directory.cpp; Receive has the handlers of
--   received datagrams, and Transmit the datagram on its way to the socket. An operation returns the
--   new state and the list of what it does.
-- - RequestClient: a17/dispatch/request_client.h and request_client.cpp; Cycle follows its requests along
--   every history.
-- - CharacterDevice: a17/utils/character_device.h and character_device.cpp, the queue of buffers that
--   a device sends. Stream sees it as the bytes that are still to be sent, Ownership as a client of its
--   pool. SerialPort: a17/utils/serial_port.h and serial_port.cpp, a device over a port that may have
--   failed to open. GenericUdp: a17/utils/udp_socket.h and udp_socket.cpp, numbers in datagrams.
-- - Message: a17/dispatch/message_helpers.cpp, the id, equality and text of messages.
-- - Socket: a17/dispatch/socket.h and socket.cpp. A message goes out as its parts, and `on_receive` puts
--   it together again; Multipart is about both.
-- - SmartCapnpBuilder and SmartCapnpReader: a17/dispatch/smart_capnp_builder.h, smart_capnp_builder.cpp,
--   smart_capnp_reader.h, smart_capnp_reader.cpp, smart_message_reader.h and smart_message_reader.cpp.
--   Frame is about the bytes of a built message, Segments about the memory of a builder, Received
--   about a message that is read again.
-- - Listener: a17/dispatch/listener.h, listener.cpp, and the filters of subscriber.cpp and
--   sub_server.cpp. A subscriber is a client that is also a listener.
-- - ReplyServer: a17/dispatch/reply_server.h and reply_server.cpp.
-- - Client: a17/dispatch/client.h and client.cpp; Server: a17/dispatch/server.h and server.cpp.
-- - Topic: a17/dispatch/topic.h and topic.cpp. Node: a17/dispatch/node.h, node.cpp and defs.cpp; Typed
--   follows a message from a builder at one node to the handler at another, Replies is about typed
--   requests. Factories are the `register` functions; Link follows a topic from a publisher at one
--   node to the connection of a subscriber at another.
-- - Pid: a17/utils/pid.h and pid.cpp. IntervalBin: a17/utils/nearest_interval_bin.cpp. RateMeasure:
--   a17/utils/rate_measure.h and rate_measure.cpp. Repeater: a17/utils/repeater.h, repeater.cpp and
--   watchdog.cpp; Chain follows its timer along every history.
-- - Maths: a17/maths. Polynomial is polynomial.h, with Roots for polynomial_utils.h; Angles is
--   angle_utils.cpp and angle_unroller.cpp, Floats is float_utils.h. Exact has the laws of arithmetic
--   without rounding, as a commutative ring, and Sums the sums over it; Whole has the integers.
--   Matrices is the adjugate of matrix_utils.h, over the coefficients and blocks of Eigen, CrossProduct is
--   its cross product matrix, and Quaternions has the angles of quaternion_utils.h.
-- CharacterDevice stands on BufferPool, and SerialPort on CharacterDevice. Directory stands on TopicStore, Wire and Address;
-- RequestClient and Client are told by the directory of the advertisers of their topic, and Server is
-- what they advertise. Node puts Listener, ReplyServer, SmartCapnpBuilder and SmartCapnpReader together.
--
-- Bounds and fuel: a token ends at the latest at the size of the event buffer, 1500 bytes, which is
-- the bound of the loop in the source too. The loop over a search runs on the length of the buffer,
-- where a round moves on or ends. A decimal number n has at most n + 1 digits. The loop of `send` runs
-- on the number of bytes, of which each round takes at least one. Ports keep their 16 bits, and
-- the times of RateMeasure their 64. The loops of an angular controller, which in the source need not
-- end, run on fuel, and so do those of `WrapToPi`.
--
-- Not modelled: sockets, timers and threads of boost and zmq (what is asked of them is a list of
-- actions), the capnp library, with its exceptions, and the arithmetic of `double` (parameters), logging, the clock and
-- generated uuids (arguments), the product of matrices and the search for roots of Eigen and of
-- mav_trajectory_generation (parameters), and what only calls Eigen: the quaternion of
-- three angles and a17/maths/rotations.cpp.
-- third_party holds copies of other projects.
pub mod Address
pub mod BufferPool
pub mod CharacterDevice
pub mod Client
pub mod Common
pub mod Directory
pub mod GenericUdp
pub mod IntervalBin
pub mod Listener
pub mod Maths
pub mod Message
pub mod Node
pub mod Pid
pub mod RateMeasure
pub mod Repeater
pub mod ReplyServer
pub mod RequestClient
pub mod SerialPort
pub mod Server
pub mod SmartCapnpBuilder
pub mod SmartCapnpReader
pub mod Socket
pub mod SocketTypes
pub mod Topic
pub mod TopicStore
pub mod Wire
