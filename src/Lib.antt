-- ===== src/Lib.antt =====
-- A verification library for the AX88179 USB Ethernet driver for the Wii U and for the replacement of
-- the console's socket calls that runs on it.
--
-- Parts and files:
-- - driver/ax88179.c, the user-mode driver.
--   Driver/Rx: the walk over one USB aggregate (ax88179_receive_buffered_impl) and the load of a new
--   one (the end of ax_rx_take_completed). A byte buffer is a list of numbers; a read out of range is
--   `none`, so a result `some _` says that every read was in range.
--   Driver/Ring: the three DMA slots (ax_rx_async_callback, ax_rx_submit_slot, ax_rx_start_async,
--   ax_rx_take_completed) and ax88179_receive. The answers of UHS and the callbacks that run during a
--   wait are arguments. Driver/Ring uses Driver/Rx for the aggregate that it has copied.
--   Driver/Tx: the framing of ax88179_send. Driver/Endpoints: find_endpoints.
--   Driver/Control: register access by control transfers, over an abstract device.
--   Driver/Link: ax88179_link, on Driver/Control.
--   Driver/BringUp: the registers that ax88179_open sets, on Driver/Control. Driver/Lifetime:
--   ax88179_open, ax88179_close and ax88179_abandon_title; the calls that take and give back UHS's
--   resources are a list of events.
-- - aroma_module/nsysnet_shim.c, the socket calls, which go to lwIP or to the native nsysnet. The
--   answers of both are arguments; Base/Outcome has the error that the code returns (`refused`) and an
--   access out of range (`fault`).
--   PtrDns/Codec: DNS names in packets (ptr_dns_encode_name, ptr_dns_skip_name, ptr_dns_decode_name).
--   PtrDns/Query: ptr_dns_query_server and ptr_dns_lookup_ipv4 on PtrDns/Codec; the calls to lwIP are
--   a list, so that one can say which sockets are closed.
--   Shim/Multi: sendto_multi_ex; Shim/Multi/Receive: recvfrom_multi. The arrays that a title gives are
--   lists beside the sizes in bytes that it names.
--   Shim/Sockets: the table of descriptors (open_mask, mapped_fd) with socket; Shim/Sockets/Calls:
--   socketclose, socketclose_all, bind with ftp_rewrite_bind_to_ax, accept, nsysnet_shim_quiesce and
--   nsysnet_shim_drain_owned_sockets; Shim/Sockets/Titles: nsysnet_shim_begin_title,
--   nsysnet_shim_install, and what NSSLCreateConnection does to the table.
--   Shim/Sockets/Owned/Reach: the step relation of these calls. A failed close is an answer like any
--   other; the field `fate` says which sockets of lwIP the shim has let go of. The model runs one call
--   after another; concurrent calls on the atomics are not modelled.
--   Shim/Select: select and lwip_select_bits; the two stacks and the clock answer by round.
--   Shim/Options: the options and the compatibility state; Shim/Options/Set: setsockopt;
--   Shim/Options/Get: getsockopt and errno_to_nsn.
--   Shim/AddrInfo: shim_getaddrinfo_sync, the table ai_owned and freeaddrinfo, over a memory of blocks
--   and the number of lists that lwIP has given and not got back; Shim/AddrInfo/Question: the hints and
--   dns_rewrite_name.
--   Shim/Dns: the slots of asynchronous DNS (the async_dns functions and shim_getaddrinfo_async), and
--   Shim/Dns/Steps: what the threads do to them, in any order. A part under the lock is one step, the
--   callback is one, and each store of a release is one.
-- - net/ax_net.c, the interface between the driver and lwIP.
--   Net/Queue: coreinit's message queue, an interface of operations and laws that a queue by lists
--   meets in Net/Tests. Net/Tx: the transmit slots (send_frame on lwIP's thread, drain_tx on the
--   worker), a step for each access to the queue, to the driver and to the slots, where the search for
--   a free one is one step.
--   Net/Session: the interface and its lease (ax_net_start with setup_netif, the link in ax_net_poll,
--   ax_net_address, ax_net_set_session_lease_mode, ax_net_stop, ax_net_forget, ax_net_abandon_title);
--   the calls of lwIP are a list, and Net/Session/Run has sequences of the operations.
--   Net/Input: the frames that a poll receives (input_rx_frame and the rest of ax_net_poll).
--   Net/Port: the waits with a timeout in net/port/sys_arch.c; Net/Port/Objects: the blocks of its
--   objects, and sys_thread_new.
-- - aroma_module/main.c, the module between the console's titles and the network.
--   Module/Worker: the worker thread, with Module/Worker/Main (run_network) and Module/Worker/Recover
--   (recover_adapter), on the operations of Net/Session; Module/Run has its loops and early ends, and
--   Module/Worker/Orderly the order of its calls. Module/Titles: the hooks at the start and the end of a
--   title, and both threads. Module/Config: load_config. Module/Watchdog: run_watchdog, with the marks
--   of aroma_module/debug_abort.c. Module/Patch: aroma_module/iosu_patch.c.
--
-- Fuel: the receive loop takes one round for each descriptor left and one for the last test; the
-- encoder of names takes one round for each byte of the name and one more; the other loops have the
-- bounds of the source (128 rounds for a name, the counts of a response, 32 descriptors). Running
-- out of fuel is a fault, and the theorems that exclude faults show that the fuel is enough. The
-- loop of select has a round for each 2 ms of its timeout and one more, the waits of net/port one
-- for each ms and one more, with theorems; without a timeout it may go on, as the code does. The
-- loops that free a result of getaddrinfo take one round for each entry that lwIP gave. The worker's
-- loops run as long as the hooks and the clock let them: what holds at any point of them holds for any
-- fuel, and a theorem says with how much the worker ends.
--
-- Numbers are natural numbers; a masked or shifted word is written with `/` and `%`, and a result
-- that can be negative is an integer of Base/Int. Pointers that the source tests for null are taken
-- as not null, where the model has no parameter for them. Counters that the source keeps in an int
-- (link_errors in net/ax_net.c) are not bounded.
--
-- Not modelled: the other calls of aroma_module/nsysnet_shim.c (the data calls, gethostbyname, the
-- threads and slots of the NSSL relay, the proxy of wiiload, the entry points of the probe), the status
-- line, the functions of net/port/sys_arch.c that are one call of coreinit, the lwIP copy under vendor,
-- the user interface and process helpers under common, the probes under tools and tests, and the logging
-- everywhere.
pub mod Base
pub mod Driver
pub mod Net
pub mod PtrDns
pub mod Shim
pub mod Module
