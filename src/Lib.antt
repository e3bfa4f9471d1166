-- ===== src/Lib.antt =====
-- OSDLP, the Open Space Data Link Protocol library: its C functions as definitions, and theorems
-- about them.
--
-- The parts of the program and the files that model them:
--   Common    C's comparisons, casts and bit operations, `int` status codes, and byte buffers
--             behind a pointer (Common/Memory: a read or write out of range is `none`).
--   Crc       src/osdlp_crc.c: the table and the loop of osdlp_calc_crc.
--   Spp       src/osdlp_spp.c: osdlp_spp_pack and osdlp_spp_unpack.
--   Clcw      src/osdlp_clcw.c: the report word (CLCW).
--   Tc        include/osdlp_tc.h, src/osdlp_tc.c: the data of a telecommand channel (Types), setting
--             one up and preparing its frames and reports (Setup), packing, unpacking and checking
--             frames (Frame), reception with the reassembly of segments (Receive), and transmission
--             in segments (Transmit).
--   Cop       src/osdlp_cop.c: COP-1. The receiver's side, FARM-1, is Farm. The sender's side, FOP-1,
--             is a monad over a channel and the application's queues (Sender), the functions that the
--             application implements (Host), actions (Actions), events by state (Events), the choice
--             of the event (Dispatch), and directives and answers of the lower layers (Directives). What
--             they keep and that they return is in Keeps, the table of the states in Table.
--   Tm        include/osdlp_tm.h, src/osdlp_tm.c: the data of a telemetry channel (Types), setting one
--             up (Setup), packing and unpacking frames, with the frame of the standard beside them
--             (Frame), osdlp_tm_transmit and the idle frame (Transmit), osdlp_tm_receive with its
--             handlers (Receive), and a sender and a receiver together (Link).
--   Examples  the theorems at concrete inputs, and tests.
--
-- A function that changes a struct returns the new struct beside its result. A struct is a record with
-- the members' C names, an enum of states a number where C keeps it in a uint8_t. Members of a
-- bit-field or of w bits are numbers; where the code writes one, the value is cut to its width.
-- Numbers that C computes in `int`, and so may be negative, are integers (Common/Int). A pointer to
-- bytes is the list of the bytes behind it at the time of the call.
--
-- Fuel. The loop of osdlp_remove_acked_frames gets slide_wnd + 1 rounds, which it never exceeds
-- (Cop/Keeps/Sent). osdlp_look_for_directive and osdlp_bc_accept call one another as long as the
-- application reports a command that is to be sent again; the model bounds how often by an argument, and
-- two rounds are enough over an application that takes a command off its mark when it is told to
-- (Cop/Keeps/Directive). The loop of osdlp_tc_transmit takes a byte at least in each round, so that one
-- round more than there are bytes is enough (Tc/Transmit/Progress). The loops of osdlp_tm.c over the
-- packets of a data field (pass_packets, explore_packets) get max_data_len + 1 rounds: a packet of a
-- byte at least is passed in each, and one is left for the end (Tm/Receive/Search). An application that
-- tells a packet length of 0 lets the code's loops run forever; the model then gives no result.
--
-- The application. The queues and timers are functions of the application: records of functions
-- (Cop/Host, RxHost in Tc/Receive, and Tm/Host). What the sender of COP-1 relies on of them is Serves in
-- Cop/Serves, which holds of the queues in Examples/Queues; what the telemetry theorems rely on is
-- Queues in Tm/Transmit/Frames, IsPacket in Tm/Receive/Stuffed and Measures in Tm/Receive/Safety.
--
-- Not modelled: the application's side of the queues and tables, which the library leaves to it; an
-- application that calls the library back from within one of its functions, as test/test.c does with
-- osdlp_ad_accept and its kin in osdlp_tc_tx_queue_enqueue; that the telemetry channels share the counter
-- of the master channel, of which each keeps the value it has written; and the tests.
pub mod Common
pub mod Crc
pub mod Spp
pub mod Clcw
pub mod Tc
pub mod Cop
pub mod Tm
mod Examples
