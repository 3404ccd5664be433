-- ===== src/Lib.antt =====
-- Syrup, a server of a massively multiplayer game in C: its parts and what is modelled of them.
--
-- A login server (src/login) and a channel server (src/channel) speak one encrypted protocol with
-- the clients. Both put a filter on each connection that frames and encrypts packets (Filter, with
-- src/crypt.c in Crypt). Behind it the received bytes are read by src/reader.c (Reader), and the
-- answers are built by src/packet.c (Packet) over src/writer.c (Writer). Tables of every kind are
-- the hash set of src/hash-map.c (HashSet). A character's numbers are changed by src/character.c
-- (Character), the slots of its items are those of src/item.h (Item), and src/channel/client.c
-- (Client) uses all of these to act for a player.
--
-- Base: names passed on, tests, lists and integers over the native numbers, laws of `^`, `|`, `&`.
-- Crypt, with Crypt/Tables, Roll, Aes, Scramble, Stream: the contexts are their initialisation
--   vectors (`encryption_context_*`, `decryption_context_*`); `crypt`, AES_ECB_encrypt, the rolls and
--   the six passes are functions on lists of bytes. `length` and `data` are one list.
-- Filter: `input_filter` and `output_filter` of src/channel/server.c and src/login/server.c, each in
--   Filter/Frames and one behind the other in Filter/RoundTrip.
--   libevent's buffers are a parameter, a record of the calls that are made and what they document.
-- HashSet: `struct HashSet` is a list of cells with its count; the functions have the names of the
--   C functions. The hash is a parameter, any function. `allocated` says whether `malloc` succeeds.
--   Loops run on as many rounds as there are cells; that they end in them is part of the theorems.
--   The callback of `foreach` may change the set; HashSet/Elements, Sweep and Iteration are about it.
-- Writer, Reader: the state is the C struct; a failed assertion or an access out of the memory is
--   `none`. A builder is a list of calls; an assertion of its own is a call that fails. Integers are
--   bit patterns; a position of the reader wraps at 64 bits.
-- Packet: one function for each builder, under its name, in Packet/Login, Objects, Player, Notice
--   and StatChange: the size that `writer_init` is given and the calls. Packet/Fixed and Packet/Text
--   collect the builders of constant length, and those with a text of the caller, with the lengths
--   of src/packet.h. The clock's values are arguments.
-- Item, Character, Client: records and the functions of the C names. Fields of a character are
--   integers, wrapped where a result is stored in 16 or 32 bits; arithmetic of `int` in between does
--   not overflow for values that fit the fields. `session_write` adds to the packets sent.
-- Client/Level: client_gain_exp with its loop of levels. The results of `rand()` and the levels of
--   skills are functions that are given; the id of the character is an argument. The
--   loop settles, reads outside of EXP_TABLE, or is unfinished for want of fuel.
-- Client/Inventory, with Gain and Move: the items of a character, of src/channel/client.c. A table of slots
--   is a function of the index with its count of slots; the quests under way are a list and the set of
--   the items that they need is a test. Which items are of a quest, what quests require and
--   how many of an item a slot holds are the game's data, and parameters. `malloc` succeeds.
-- Client/Equip: equipment that is put on, taken off and dropped. Accesses are within the tables for every
--   slot but 148 (Item/Slots). Packet/Items has the packets of changed items and of a look,
--   Packet/Fights those of attacks, shops and the storage, and Packet/Characters those that list characters.
-- Job, Coordinator: src/job.h, and src/channel/thread-coordinator.c, which keeps the thread of each
--   map in a hash set; its lock makes each operation one step.
-- Map: src/channel/map.c, of which Map/Controllers is the heap of players by the monsters they control,
--   and Map/Objects the table of objects with its stack of ids. The heap's nodes are in a memory; the
--   arrays are functions on indices with their counts, and `fresh`, `grown` and the like say what
--   `malloc` and `realloc` give.
-- Account: the accounts that are logged in, src/account.c, a doubly linked list in a memory.
-- Party: src/party.c, the parties in a memory and their addresses in a hash set.
-- Events: src/channel/events.c; a transport is its property and the handler that the timer runs next.
-- Tests: the theorems at concrete inputs.
--
-- Fuel: `crypt_chunks` runs on the length of the packet, since each round takes at least one byte;
-- `count_bits` on 32, since each round clears a bit of 32; `gain_levels` on the length of
-- EXP_TABLE and one more, since each round reads a later entry; `sift_down` and
-- `sift_up` on the count of the heap; the loops along the list of accounts on any number of rounds above
-- its length; the loop of `foreach` on any number of rounds that is no less than the cells, which do not
-- become more by removals.
--
-- Not modelled: the database, the game's XML data, scripts, threads, sockets and the handlers of
-- opcodes (src/database.c, src/wz.c, src/channel/scripting, src/*/main.c, src/*/server.c but its
-- filters), since they are input and output or calls of libraries; the monsters, drops and
-- reactors of maps, quests, what shops and the storage do, and the packet of a whole character, which are
-- parts for themselves.
pub mod Account
pub mod Base
pub mod Character
pub mod Client
pub mod Coordinator
pub mod Crypt
pub mod Events
pub mod Filter
pub mod HashSet
pub mod Item
pub mod Job
pub mod Map
pub mod Packet
pub mod Party
pub mod Reader
pub mod Tests
pub mod Writer
