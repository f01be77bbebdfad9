-- ===== src/Lib.antt =====
-- Verification of bee-rpc over gRPC (src/bee_rpc).
--
-- The program sends messages of any size over gRPC as a stream of `Buffer`s. Large parts of a
-- message are blocks: content-addressed files in a registry, for which pointers stand. A block
-- travels between two markers, blocks may stand in blocks, and a receiver that holds a block
-- already asks its peer on the opposite direction to leave the body out.
--
-- The parts of the program and the files:
--   Varint       the base-128 lengths: `encode_bytes` (src/bee_rpc/utils.py), `get_position_length`
--                (block_builder.py), `set_varint_value` (block_driver.py)
--   Wire         the messages of src/bee_rpc/buffer.proto
--   Pointer      pointers and the inheritance of hash types (utils.py), `get_hash_from_block`
--                (client.py)
--   Environment  the hash algorithms and `modify_env` (utils.py)
--   Control      `StreamControl`, shared by both directions of a stream (control.py)
--   Skip         `skip_requested_blocks`, the filter on the sending side (client.py); it asks Control
--   Parser       `parser_iterator` and `stop_generator`, on the receiving side (client.py); it asks
--                Control for blocks that are held already; Parser/Lazy has the generator with what
--                the stream holds at each yield
--   Store        the registry: its readers (reader.py), and the lengths of expansions (utils.py,
--                block_builder.py, block_splitter.py); Store uses Pointer for the markers
--   Positions    positions in an expansion (utils.py), over the lengths of Store
--   Tree         `create_lengths_tree` (utils.py)
--   Driver       the form of an object with pointers for blocks (block_driver.py,
--                validate_lengths_tree.py), over Tree, Positions and Pointer
--   Creation     how a file becomes a block (utils.py, client.py, block_builder.py)
--   ChunkReader  the class `_Reader`, a stream that knows its position (block_splitter.py)
--   Step         code that changes the registry and may raise, and how to reason about it
--   Splitter     `split_block` (block_splitter.py), over ChunkReader, Store and Driver
--   Saving       `save_chunks_to_block`, `save_block_content` and `save_chunks_to_file` (client.py): a
--                received block becomes a block of Store; it uses `stop_generator` of Parser
--   Copying      `copy_block_if_exists` (client.py)
--   Builder      `build_multiblock` and what it calls (block_builder.py), over Tree, Varint, Store and
--                Creation; Builder/Fractal has `build_multiblock_fractal`
--   Sending      `serialize_to_buffer` and `contain_blocks` (client.py), over Store: Sending has
--                `send_file`, `send_message` and `payload`, Sending/Setup the arguments and the whole
--                without a control, Sending/Interleave the stream with one, and `request_stream`
--   Receiving    `parse_from_buffer` (client.py), over Parser, Saving and Store: Receiving has
--                `parse_message`, Receiving/Files `save_to_dir`, Receiving/Setup the arguments,
--                Receiving/Loop `iterate_message` and the main loop
--   Exchange     what Sending sends, Receiving parses
--   Client       `client_grpc` (client.py), over Sending and Receiving; Client/Call has both directions,
--                Client/Skipping both with `block_skip`
--   Signal       the class `Signal` (utils.py)
--   BeeFile      .bee files: `write_to_file` (client.py), `read_bee_file` (reader.py)
-- Hex has Python's `bytes.hex` and `bytes.fromhex`, Outcome the exceptions, Trace generators, and
-- Prelude what all of them share. A child module is named for what it proves; the modules Runs
-- hold tests, and the theorems at concrete inputs.
--
-- The model. State is a record, and a method is a function from a state to the next state and a
-- result. An exception is a value of `Error`; a generator is the list of what it yields, ended by a
-- stop or a raise. A byte string and a text are lists of numbers, and a dictionary is a list of its
-- entries. Functions keep the program's names; one that Python nests in another function
-- stands beside it here. An integer that may be negative is a pair of numbers.
-- Two threads are sequences of steps, one for each body under the lock.
--
-- Parameters. Hash functions of hashlib are functions from bytes to bytes. Of protobuf,
-- `SerializeToString` and `ParseFromString` are parameters wherever their bytes matter. Whether a
-- system call succeeds is a parameter of the creation of blocks, of Copying, and of the moves by which
-- the splitter puts the new form of a block in the place of the old one. The splitter takes the
-- descriptors of a message as functions, and the builder takes a message as the tree of its fields
-- with their sizes. Where a block is held already, the program trusts its id; Saving states this as
-- the hypothesis that the hash has no collisions.
--
-- Fuel. The loops over varints are recursions on well-founded descent. The loops that read a file
-- take a number of rounds which is the length of the file. Measuring takes one more round than the
-- registry has names, which is enough on any registry, since the code itself stops at a block that
-- it is measuring already. The readers raise a RecursionError where the fuel is out. The fuel of
-- the iterator and of the main loop of `parse_from_buffer` counts buffers, and that of positions
-- counts levels of directories. The splitter's walk and the saving of blocks in blocks raise a
-- RecursionError where the fuel is out, and what is said of them is said for any fuel.
--
-- Not modelled: what parsing asks of a control while the main loop of `parse_from_buffer` runs,
-- `read_from_file`, and a response, whose streams may raise in the loop, and how a caller that
-- gives up the generator of `client_grpc` ends the request direction. The stub of the gRPC library
-- is a parameter of Client. Protobuf reflection, temporary paths, the memory manager and generated
-- code are left out for good. Files that are written beside their final path and renamed stand here
-- only by what the rename makes of them; the old form that the splitter moves aside is not kept.
pub mod Prelude
pub mod Outcome
pub mod Varint
pub mod Hex
pub mod Wire
pub mod Pointer
pub mod Control
pub mod Skip
pub mod Environment
pub mod Trace
pub mod Store
pub mod BeeFile
pub mod Parser
pub mod Tree
pub mod Positions
pub mod Driver
pub mod Creation
pub mod ChunkReader
pub mod Step
pub mod Saving
pub mod Builder
pub mod Copying
pub mod Receiving
pub mod Sending
pub mod Signal
pub mod Exchange
pub mod Client
pub mod Splitter
