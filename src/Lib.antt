-- ===== src/Lib.antt =====
-- The network protocol simulator: a discrete simulation, drawn by pygame, that sends a handful of
-- packets over a preset topology in a UDP-like or a TCP-like mode. Beside it stand the two
-- forwarding exercises of packet-forward/.
--
-- The parts, and the files that model them:
--   Base            what all share: tests, lists, dictionaries as association lists, exceptions as
--                   `Result`, and the operations of `float` and `random` as the records `Float` and
--                   `Random` (Base/Fixed has the numbers that tests run with)
--   Packet          packet.py: `Packet`, `InFlightPacket`, `PacketEvent`
--   Stats           stats.py: `RunStats`
--   Router          router.py and sdn_router.py: `Router`, `SDNRouter` and the firewall rules
--   Graph           graph.py: `SimpleGraph`; Graph/Manager its `GraphManager`, with the presets in
--                   Graph/Manager/Presets, and Graph/Route the search, the route and the tables
--   Engine          simulation.py: the state of `SimulationEngine` in the record `Sim`
--   Engine/Send     `_schedule`, `_make_packet`, `_inject_packet`, `_send_data`, `_send_ack`
--   Engine/Link     `_launch_link`, `_inject_duplicate_flight`, `_sample_link_delay`,
--                   `_should_drop_packet`
--   Engine/Receive  `_handle_arrival`, `_on_data_received`, `_on_ack_received`, `_on_timeout`,
--                   `_record_drop`, `_record_delivery`
--   Engine/Run      `update` and its loops `_run_due_events`, `_dispatch_routers`,
--                   `_advance_in_flight_packets`
--   Engine/Commands what the user can do, and `handle_keydown` of main.py
--   Engine/Session  `main`: the first setup, then key presses and frames in any order
--   Display         renderer.py: a frame on the screen as the calls of pygame that it makes, in
--                   Display/Scene (`_draw_graph`) and Display/Panel (`_draw_side_panel`, `draw`);
--                   Display/Texts has the texts of simulation.py and packet.py
--   PacketForward   packet-forward/forward.py and packet-forward/sdn.py
--
-- A method becomes a function from the state before to the state after, under its name without the
-- leading underscore. Code that may raise returns a `Result`, whose error is the exception. The
-- engine calls the routers and the graph manager that its state holds; an operation on a router of
-- the dictionary is an `insert` of the changed router. The graph manager, which the engine and the
-- display share, is changed by the engine alone, and is a field of its state. A packet is in one
-- place at a time, a queue or a flight, so packets are values. The scheduled closures are the data
-- type `Callback`. Sets are lists of their members in the order in which they came.
--
-- What the proofs are made of: Engine/Effects says what each operation does to the state, on every
-- branch; Engine/Rule shows that an invariant which those effects keep is kept by `update`; the
-- invariants are in Engine/Balance (the counters), Engine/Reliable (the TCP-like mode) and
-- Engine/Datagram (the UDP-like mode); Engine/Datagram/Sends counts the scheduled sends and the
-- original packets of a sequence, Engine/Datagram/Log lists the sequences that a frame sends, and
-- Engine/Once gathers them over a session. Graph/EdgeList has the list of edges. Graph/Shortest says
-- what a well-formed graph and a route of it are; its children hold the invariant of the search,
-- the way back and the tables. Engine/Sound says which routers and links the packets of a state
-- need, Engine/Landing and Engine/Frames follow them through a frame, Engine/Checked and
-- Engine/Serving through a setup. Engine/Modes and Engine/Balance/Sessions carry them through
-- sessions, Engine/Ready and Engine/Routing what concerns the routers and the tables.
-- Engine/Settings and Engine/Conditions have the commands, Engine/Topologies and Engine/Keys the
-- presets and the keys, Engine/Clock, Engine/Due, Engine/Queue and Engine/Overdue the clock and
-- the event loop. Graph/Tests, Display/Tests, Engine/Tests, Engine/Trials and PacketForward/Tests
-- run the model.
--
-- Numbers: times and rates are of a type `F` with the operations of `float`, and no law of them is
-- assumed except in Engine/Settings and Engine/Conditions, where the order is (`IsOrder`,
-- `Literals`), in Engine/Queue and Engine/Overdue, where comparisons belong together
-- (`IsTimeOrder`), and in Engine/Due, Engine/Frames and Engine/Ready, where the timeout moves the
-- clock. The distances of the search are floats with small whole values in the source, and natural
-- numbers here, so that edges with a negative delay, which `add_edge` accepts, are outside the model.
-- A heap is the list of its entries in the order in which `heappop` returns them, and not the array
-- of `heapq`, which is only partly in order; the code reads no other entry than the first. The
-- entries of the event queue differ in their identifiers, and equal entries of the search are the
-- same, so that this order is the only one.
--
-- Fuel: the loops `while` take fuel, and the error `out_of_fuel` shows where it ends. The search
-- has one round for the source and one for each entry of the adjacency, since an entry is pushed
-- only when a node is expanded; walking the route back has one round for each node; the loop over
-- due events has one round for each event in the queue.
--
-- The display: `draw` is the list of what it draws, or the exception that it raises; the fonts,
-- the window and its clock are of pygame. The formats `:.0%`, `:.1f`, `:.2f` and `int()` of a
-- float are parameters (`Format`, `Rounding`), of which no law is assumed. Engine/Drawable and
-- Display/Positions are about the nodes at which things are drawn.
--
-- Not modelled: the set-up of pygame in `Renderer.__init__`, the event queue of pygame and the
-- crash log of main.py; the return value of `GraphManager.cycle_topology` and the printing of
-- routes, which nothing reads; an `Action` of packet-forward/sdn.py that forwards without a value.
-- 03-reliable/ and 05-topology/ are C++ exercises of their own.
pub mod Base
pub mod Packet
pub mod Stats
pub mod Router
pub mod Graph
pub mod Engine
pub mod Display
pub mod PacketForward
