-- ===== src/Lib.antt =====
-- The programs of the repository that speak to one another: the DHCP server and the DHCP client,
-- dhcp-server.c and dhcp-client.c, with the header that both include, dhcp-project.h; a second DHCP
-- client on raw frames, simple-dhcp-client.c; and the exercises l6 and l7, words that are sent as
-- datagrams and a file that is sent over a connection.
--
-- The server keeps a list of leases behind lease_head, the count num_of_lease, and one buffer,
-- dhcp_recv. A round of its loop receives a datagram into the buffer, finds the message type among
-- the options, and calls a handler; the handler turns the buffer into the reply, in place, and sends
-- it. The client builds a request, sends it, waits for the first packet that answers, and gives its
-- address to the network interface and its times to the alarm.
--
--   Base      helpers: Boolean tests on numbers, lists measured by native numbers, the results of C
--             computations (a value, a fault, or too little fuel), the results -1, 0 and 1
--   Words     16-bit and 32-bit words in memory, htonl and htons, for a little-endian host
--   Protocol  the constants of dhcp-project.h
--   Options   get_dhcp_option and fill_dhcp_option of dhcp-project.h, with a pointer into the options
--             as an offset; Scan and Fill relate the bytes to a list of options
--   Packet    struct dhcp_t, its bytes, and recvfrom into it; IsPacket is the ranges of its fields and
--             the sizes of its arrays
--   Lease     check_ipaddr, allocate_ip, add_lease and delete_lease of dhcp-server.c on the list of
--             leases; Table, Lookup and Release relate the list to a map from addresses to leases
--   Nodes     the same functions of dhcp-server.c on the nodes in memory, with malloc, free and the loops
--             over next; Refined, Allocated, Added, Deleted and Sequence relate them to Lease
--   Reply     the globals of dhcp-server.c, its change_socket_setup and construct_dhcp_packet, with
--             choose_yiaddr and write_options for two stretches of the latter
--   Server    the four handlers of dhcp-server.c, dispatch and handle for the body of the loop of
--             main, and round for one pass of it; Invariant, Bounded and Holders follow
--             sequences of rounds, Answered tells which datagrams are answered
--   Request   the part of construct_dhcp_packet of dhcp-client.c that needs no system call
--   Exec      programs on a state that may fault or end the process
--   Client    dhcp-client.c: the globals, and the exchanges dhcp_discover, dhcp_inform, dhcp_renew,
--             dhcp_rebind and dhcp_release, of which three share exchange; Interface has
--             setup_interface, setup_interface_release and set_alarm; Menu has the modes, interact
--             and the handler lease_time_out
--   Exchange  what one program sends and the other receives: Asked, Arrived, Served, Acquiring, Leased
--             and Renewed for dhcp-client.c and dhcp-server.c, Apart for two clients at one
--             server, Simple and Offered for simple-dhcp-client.c and the server
--   Startup   main and dhcp_setup of dhcp-client.c and dhcp-server.c: Setup has the calls that make the
--             socket ready, ClientMain and ServerMain how the processes end, Composed whole runs of
--             the client against the server
--   SimpleClient  simple-dhcp-client.c: the frame of dhcp_discovery, written into the array on the stack
--             by dhcp_output, udp_output, ip_output and ether_output; Checksum has in_cksum; Input has
--             ether_input, ip_input, udp_input and dhcp_input, and main from the discover on, Program all
--             of main
--   FileTransfer  l7-Server.c and l7-Client.c, with the descriptors as parameters: the loops; Request has the
--             name that is asked for, the rounds of the server and the two main, Named what they send
--   Echo      l6-EchoClient.c and l6-EchoServer.c, with what the calls return as a parameter
--   Tests     concrete inputs
--
-- The surroundings are arguments. Env is what a round of the server reads of the clock, and the
-- draws of rand; System and Network are what the calls of a set-up return; Memory is malloc, with what new
-- memory contains; Device is the interface behind the ioctl calls of the client; the datagrams that
-- the client will receive, and the draws of rand, are fields of its state. A read or write outside
-- a field, or through a pointer that was never set, is a fault. The datagrams that the echo server
-- receives and the frames that the simple client captures are lists; Reads and Writes say of the
-- file transfer's descriptors what the manuals say of read, recv, write and send.
--
-- Fuel: scan is given one round for each byte of the field and one more, and every round moves at
-- least two bytes, so it never runs out. The draws of allocate_ip are bounded by a field of Random,
-- since rand may avoid the free addresses for ever; Covers says that the draws reach every address
-- of the pool within that bound. The loop of the file transfer is given more rounds than the file
-- has bytes, and every read that does not end it takes at least one. The loops over the nodes in
-- memory have more rounds than there are calls, and so than there are leases. The other loops are
-- by recursion on the list they walk.
--
-- Not modelled: how sockets work, signals that arrive during recvfrom, the messages of the DHCP
-- programs on the terminal but for the address that the simple client prints, and dhcp_dump; the calls
-- of libpcap; and the exercises l3 to l5, which are single system calls in a row.
pub mod Base
pub mod Words
pub mod Protocol
pub mod Options
pub mod Packet
pub mod Lease
pub mod Nodes
pub mod Reply
pub mod Server
pub mod Request
pub mod Exec
pub mod Client
pub mod Startup
pub mod Exchange
pub mod SimpleClient
pub mod FileTransfer
pub mod Echo
pub mod Tests
