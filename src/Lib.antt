-- ===== src/Lib.antt =====
-- kappaio, a ZigBee gateway: a model of its C++ and C code, and theorems about it. Paths are the
-- repository's. All numbers are natural numbers; where the code has 8, 16 or 32 bits, the wrap-around is
-- written out. Memory is a list of bytes, and a `memcpy` is a write into it.
--
-- Common holds what the other modules share: names of the libraries, Boolean tests on the native
-- numbers, lists indexed by them, laws of exclusive or, little-endian words, and tests of all numbers
-- below a bound.
--
-- Serial is the serial link to the ZigBee processor (src/hal).
--   Serial/Frame is `MTBuildAndSendCmd`, `CmdFCSCal` and `ByteReverse` of source/mtproc.c; `malloc`, which
--     may fail, is a parameter. The result is what is given to `SerialSend`.
--   Serial/Port is the receive ring of source/mtintf.c: `SerialRcv`, which reads into the array
--     `SerBufIn`, and `MessageAssembler`, which takes packets out of it. Both run under one mutex, which
--     `MessageAssembler` gives free and takes again between two packets: the model has one call after the
--     other, and none that comes in between. The loop of `MessageAssembler` runs on fuel; one turn for each byte
--     in the ring, and one more, are enough, since each turn but the last removes a byte. So does its search for
--     a SOF, which gives up before it has passed over all bytes of the ring; a search or a loop that is out of
--     fuel has an ending of its own. Opening the port, its settings, and the threads are not modelled.
--   Serial/Dispatch is the way of a packet to its handler: `MT_ProcessIncoming`, its table and
--     `registerSubsystemCb` of source/mtproc.c, with `mtOOBRecv` of source/mt_helper.cpp. The handlers are
--     names.
--   Serial/Channel is `mtSend` and `mtRecv` of source/mt_helper.cpp with their threads: a request, the
--     packets that arrive while it waits, and the timeout as the end of their list. It uses the
--     subsystem number of Serial/Dispatch. Of the 16 channels the code makes 15; the use of another is the
--     result `outside`. The semaphore for out-of-band requests is not modelled.
--
-- Util is src/kapi.
--   Util/Hex is the hexadecimal text of source/kutil.cpp and include/kutil.h, as it is built for
--     little-endian machines.
--   Util/Lock is the class `klock_c` of the same files: a state counts the threads at each place of its
--     functions, and a sequence of steps is one interleaving. Each operation on a semaphore is a step of its
--     own. Threads release only what they hold.
--
-- Aps is the application support layer (src/aps).
--   Aps/DataService is include/aps_data_service_impl.hpp: the list of receivers, with the addresses of its
--     nodes, since handles point to them; registration, removal, the indication of a message, and the
--     request that waits for its answer, where the messages that arrive meanwhile are a list. The handlers
--     of the endpoints are a parameter, a function of the message.
--   Aps/Message is the data of outgoing messages (include/aps_afmessage_impl.h and its source) and their way
--     into a request (`MT_AfDataRequest` and `dataRequest` of src/hal/source/mtaf.cpp).
--     Aps/Message/Incoming is the way back, a packet in an `mt_afmessage` (src/hal/include/mtaf_impl.h).
--   Aps/Af is the way of AF packets to the two data services: `MT_AfCommandProcessing` of src/hal/source/mtaf.cpp and
--     include/aps_data_service_ext_impl.hpp, whose receivers and requests are those of Aps/DataService.
--     Af/Requests is what else that source file sends.
--   Aps/Model is the object model (include/aps_object_models_impl.hpp and include/apsdb.h): the gateway's
--     associated devices, their endpoints, clusters and attributes. A reference to an element is its index in
--     the list. Model/Find and Model/Replay have what holds of every such list.
--   Aps/Peer is `aps_newpeer_handle` and `establish_profile` of source/apsdb.cpp on that model. The JSON files with
--     the clusters and the data types are a parameter; the handlers of URIs that a join registers are left out.
--
-- Zdo is the ZigBee device object (src/zdo).
--   Zdo itself has the frames of its requests, the message that carries one, built with the setters of
--     Aps/Message, and the predicate of the answer (source/zdo.cpp and include/zdo.h).
--   Zdo/Answer puts these together with Aps/DataService and the packets of the link.
--   Zdo/Descriptors is the reading of the answers: node descriptors, active endpoints and simple descriptors.
--   Zdo/Archive is what source/zdo_archive.cpp keeps, without the JSON file and the texts of the numbers.
--   Zdo/Join is the announcement of a device and what follows from it: the requests with their callbacks,
--     which write into the object model and the archive and call Aps/Peer. The messages that arrive after a
--     request are a function of it, a parameter; the callback gets the first that the predicate accepts, as
--     Aps/DataService has it. The other messages are passed over: for all but an announcement `zdo_callback`
--     changes nothing, and what a second announcement does during the requests of the first is not modelled.
--     `deviceQuery` and `refreshDevice` end in the same requests.
--   Zdo/Manage is the requests of the interface to permit joining and to remove a device. The messages that arrive
--     before the answer go through `zdo_callback`, announcements included.
--   Zdo/Recover is `recoverEndpoint`: the devices that the archive gives back after a restart. A read from an
--     empty vector is the result `none`.
--
-- Boot is the firmware update (src/sbl).
--   Boot/Image is `sb_image_write` of source/serial_bootload.cpp. The boot loader on the other side of the
--     link is a parameter: a type of devices with a function for a write and one for a read, whose
--     documented behaviour is a record of hypotheses. The loop that writes a chunk runs on fuel, because it
--     need not end; three turns are enough when every write is answered. The other loops are counted.
--     The file is the list of the blocks that `read` gives.
--   Boot/Crc is the check of the image before that: `sb_image_check`, `calcCRC` and `runPoly`. The loop of
--     `calcCRC` runs on fuel, one turn for each byte of an image, which is enough since each turn takes one
--     or leaves out four.
--   Boot/Flash is `flashImage`, which puts them together. That the link answers every read is a hypothesis apart from
--     those on the boot loader. The tries of the handshake are a list; the file is cut
--     into blocks on fuel, a turn for each byte, which is enough since each turn takes up to 64.
--
-- Hal is what src/hal builds on the link (source/hal.cpp, mtsys.cpp, mtutil.cpp, mtzdo.cpp).
--   Hal/Request is `__MTSEND__` on the channels of Serial/Channel. The processor is a parameter: what it
--     becomes, and the packets that arrive until the timeout, are a function of the message.
--   Hal/Nv is its non-volatile memory with the settings in it; what the processor's documentation says of the two
--     commands is a record of hypotheses. Hal/Info is the questions to it and the reading of the answers.
--   Hal/Ping is `systemPing`, `StateMonitor` and `StartSystem`, with the clock as an input of each turn, and with it the
--     bits of `lastFailedPing` above the 32 that `fscanf` sets, which have no value in the code.
--   Hal/Network is `start_zdo` and the handler of the ZDO's packets; the packets before each test are an input, and those
--     that arrive with the answer to the start request go through the same handler.
--
-- Rest is the REST interface.
--   Rest/Notify is the handlers by event, URI and type (src/kapi/include/notification.h and its source).
--   Rest/Request is `handleRESTful` with its contexts (src/aps/source/restful.cpp). JSON is a library's: the text of a
--     document stands for the document.
--   Rest/Widgets is the registry of widgets (src/kintf/include/widget_manager.hpp). The loop of DELETE runs on fuel, a
--     turn for each entry, which is enough since a turn takes the index on or ends.
--
-- Bus is the message bus (src/kapi/source/kbus.cpp): its files, their objects, what is added and what a commit writes.
--   Freed data is marked in the list of objects, and its use is the result `none`. The thread of `kbRun` is a commit
--   after each pause. Bus/Run is sequences of such calls.
--
-- Dev is the gateway's log (src/kdev/source/kdev.cpp) on a file of Bus. What `vsprintf` makes of a format is its
--   input.
--
-- Watch is the loop of the watchdog process (src/kappaio-watch), with what it finds in the files of each turn
-- as its input. A file that exists but cannot be opened is not modelled.
--
-- Not modelled are the JSON library and the helpers around it, HTTP, the remote procedure calls, the connections and
-- the threads.
pub mod Zdo
pub mod Boot
pub mod Common
pub mod Aps
pub mod Serial
pub mod Util
pub mod Hal
pub mod Rest
pub mod Bus
pub mod Dev
pub mod Watch
