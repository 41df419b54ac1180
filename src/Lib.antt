-- ===== src/Lib.antt =====
-- A verification library of the restaurant system in this repository: a server with the cashier's
-- screen, and clients for the tables and the kitchen, that exchange lines of text over TCP.
--
-- The parts of the program, and the files that model them:
--   Common     include/common.h, src/common.c: limits, records, the states of an order
--   Order      include/order.h, src/order.c: carts, the order that a cart becomes, searches
--   Menu       include/menu.h, src/menu.c: the catalog; Menu/Files its CSV file
--   Protocol   include/protocol.h, src/protocol.c: the messages. The texts that the server sends
--              are in Protocol, the parsers of what clients send in Protocol/Parse, the parser of
--              an order's event in Protocol/Event
--   Layout     include/layout.h, src/layout.c: where the tables stand; Layout/File its file
--   Storage    include/storage.h, src/storage.c: the configuration's file and the logs
--   Server     include/server.h, src/server.c: the context, its logs, the clients' slots.
--              Server/Orders has the operations on orders, Server/Handlers what a client's message
--              does, Server/Session a client's thread, Server/Reader the line reader,
--              Server/Lifecycle the start, the end and the interrupt handler
--   Ui         include/ui.h, src/ui.c without its drawing: the queue of lines, the mirrors of the
--              menu and of the orders, the order that a table sends. Ui/Kitchen is the kitchen's
--              screen, Ui/Table the table's, Ui/Pos the cashier's, each with its keys and its loop;
--              Ui/Visible the dishes of a category, Ui/Rounds what drives a screen, Ui/Sizes the
--              frame
--   Programs   src/pos_server.c in Ui/Pos/Loop; src/table_client.c and src/kitchen_client.c in
--              Ui/Programs
-- Below them stand
--   Prelude    shared names, Boolean tests, lists over the native numbers, C's int, results
--   Text       the C library's functions on strings that the sources call
--   Keyed      arrays that are searched by an int key
--   Os         the system calls on files, sockets and the clock
--   Tests      the theorems at concrete inputs
-- A function of the sources that is modelled is a definition of the same name; the parts that it is
-- split into say in a comment what they are.
--
-- How the state is modelled. ServerContext is the context with the field names of the source; an
-- array with its count is a list. A pointer to the context is the context, passed on, and what
-- happens between a lock and its unlock is one function. The world is explicit: files, the bytes
-- sent on each socket, the clock, and the replies by which the system answers the calls to come, so
-- that a theorem about every world covers short writes, failures and interruptions. A string is the
-- list of its bytes before the NUL, and a copy into a buffer of n bytes keeps n - 1 of them. An int
-- is an integer that is wrapped to 32 bits where the source computes, as the compiled code does
-- when the sum overflows. A function that returns -1 with a message returns err of that message.
-- Where the source reads out of bounds, the model has the value none, and the server's context a
-- flag for it.
--
-- How the screens are modelled. A screen's local variables are a record, and a round of its loop
-- takes the lines that the reader thread has queued and the key that wgetch returns. What is typed
-- at prompts is a list of answers. What the other threads do to the context between two rounds of
-- the cashier's screen is a function of the round. Server/Orders/Machine/Book sees the orders as a
-- book that says what order an id has.
--
-- How threads are modelled. Server/Session/Steps has a relation of steps, one for each critical
-- section of a client's thread, of the cashier's screen and of the interrupt handler, in any order;
-- a theorem on what is reached holds of every interleaving of critical sections. Reads of a flag
-- outside the lock, and bytes of two writes on one socket that mix, are not modelled.
--
-- Loops and fuel. Loops are structural, on the list that they go through. write_all recurses on the
-- replies to come. menu_load_file calls itself again when the file held no dish; it has fuel for
-- that, none where it runs out, and two more than the replies that are given are enough. The search
-- for a dish that can be selected takes steps up or down; its fuel is the number of visible dishes,
-- which is enough for every step. show has as many rounds as the number, which is enough. The loops
-- of the screens go through the rounds that are given.
--
-- Not modelled: drawing on the screen, the reader thread of the clients' screens, accept and the
-- creation of threads, the host name and port, and NUL bytes in files.
pub mod Common
pub mod Keyed
pub mod Layout
pub mod Menu
pub mod Order
pub mod Os
pub mod Prelude
pub mod Protocol
pub mod Server
pub mod Storage
pub mod Tests
pub mod Text
pub mod Ui
