-- ===== src/Lib.antt =====
-- A verification library for dvb2dvb, which merges several single-program transport streams, received
-- over HTTP, into one multi-program stream for a DVB-T modulator.
--
-- The program and the files that model it. Paths of the program are from the root of its repository.
-- - ringbuffer.c, ringbuffer.h: the ring of bytes between a writing and a reading thread. RingBuffer has
--   the operations under the names of the code; the pointers head and tail are offsets into `buf`.
--   RingBuffer/Contents is the abstract view of a ring, the list of the bytes from head to tail. `rb_read`
--   sleeps until enough has been written: the calls of `rb_write` that the other thread makes meanwhile
--   are a list, one call for each sleep.
-- - crc32.c: Crc32, the table and the loop. Crc32/Bitwise is the division by the polynomial.
-- - dvb2dvb.h: Types, the structures. A string is the list of its bytes.
-- - psi_create.c, psi_create.h: PsiCreate, a child for each table, and Put, Seal (length and CRC at the end
--   of a table), Text, Descriptors, and Packets (sections cut into packets).
-- - psi_read.c: PsiRead. Sections has `process_section`, Pat, Sdt and Pmt the readers of the tables, Clock
--   the printed clock.
-- - Transport joins the two: packets that `write_section` makes, read by `process_section`.
-- - dvb2dvb.c, the streams: Mux/Continuity (`check_cc`), Mux/Pcr (the clock in a packet), Mux/Curl
--   (`curl_callback`), Mux/Startup (`init_service`, `sync_to_pcr`), Mux/Input (`read_to_next_pcr`, and the
--   places of the packets in the output). The input is the list of the packets that `rb_read` delivers.
-- - dvb2dvb.c, the multiplex: Mux/Capacity (`calc_channel_capacity`, `ms_to_bits`), Mux/Schedule and
--   Mux/Round (the loop of `mux_thread`); Mux/Schedule/Setup has its rates and tables, and Mux/Thread all of
--   it, from the start of the services over the wait for them to the rounds of the loop.
-- - dvb2dvb.c, the output: Output (`output_thread`). The calls of `rb_write` by the other thread are a list,
--   and the results of `write` on the modulator's device another.
-- - parse_config.c: Config. Json has the values of json.h that it reads, Params `parse_mux_params`, Muxes
--   `parse_config`. The result of `json_parse` on a text is a parameter.
-- - dvb2dvb.c, `main`: Main.
-- - Base has the shared notation, the lemmas on lists, memory and bits, and the signed integers. Examples
--   and RingBuffer/Examples apply the theorems to concrete inputs.
--
-- How the code is translated. A memory is a function from offsets to numbers, of which a load takes the
-- value modulo 256; a pointer is an offset. Unsigned numbers are natural numbers with their wrap-around
-- written out where it can happen; the difference of pointers in the ring is taken modulo 2^64, the
-- identifiers of 16 bits modulo 2^16. The places in the output are signed, with division towards zero.
-- An access that C leaves undefined (behind a packet, a section or a buffer) ends the model's run as
-- `none`, `undefined` or `breaks`; the end of the process is `none`, `exited` or `exits`.
--
-- Fuel. Loops over the bytes of a table, its entries and its descriptors take the length of what they
-- read as fuel, since each round passes a byte at least. The loops that cut a section into packets take its
-- length, the loop of null packets the place to be reached, and the loop of `curl_callback` one more than
-- the bytes it has.
--
-- Rounds. The main loop of `mux_thread` and the transfer loop of `output_thread` do not end: both are run
-- for any number of rounds.
--
-- Not modelled: json.c (a copy of the library json-parser), `curl_thread` (calls of libcurl; its callback is
-- modelled), `dump_service` and the other printing, and the creation of the threads beyond its failure.
pub mod Base
pub mod Crc32
pub mod RingBuffer
pub mod Types
pub mod PsiCreate
pub mod PsiRead
pub mod Transport
pub mod Mux
pub mod Config
pub mod Output
pub mod Main
pub mod Examples
