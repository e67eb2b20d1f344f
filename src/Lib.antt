-- ===== src/Lib.antt =====
-- XMLTP/L: a transport of procedure calls and their results as XML over a socket.
--
-- A client or a server writes a call or a response as tags and values
-- (src/xmltp/xmltp_writer.c), after it has escaped each value (src/xmltp/xmltp_encoder.c). The
-- other side reads the stream through the input buffer of a parser context
-- (src/xmltp/xmltp_ctx.c), from which the lexer (src/xmltp/xmltp_lex.c) makes tokens for a Bison
-- grammar (src/xmltp/xmltp_gram.y), with the help of a table of keywords
-- (src/xmltp/xmltp_keyw.h). The actions of the grammar decode the values.
--
-- The files and what they model:
--   Prelude, Bytes   shared operators, lists, integers, C strings as lists of bytes.
--   Encoder          src/xmltp/xmltp_encoder.c: `encode` is xmltp_encode, `decode` is xmltp_decode.
--   Tags, Keywords   src/xmltp/xmltp_tags.h, src/xmltp/xmltp_eot.h, the tokens of
--                    src/xmltp/xmltp_gram.y, the table of src/xmltp/xmltp_keyw.h, and the binary
--                    search on it in src/xmltp/xmltp_lex.c.
--   Ctx              src/xmltp/xmltp_ctx.c: the context as a record, one function for each of the
--                    xmltp_ctx_ functions of the lexer, with the prefix left out; in Ctx/Recv `refill`
--                    holds the loops of xmltp_ctx_get_input_char and sf_recv_from_socket.
--   Lexer            src/xmltp/xmltp_lex.c: `match_tag` is sf_match_tag, `get_value` is
--                    sf_get_value, `yylex` is yylex with xml_lex_yylex1.
--   Transport        a value's way from the encoder through the lexer to the decoder; Stream and
--                    Delivery: the way of whole responses and calls from the writer to the lexer.
--   SockObj          src/sock_fn/sock_obj.c: `send` is sock_obj_send; what the operating system
--                    answers to each send is a list of events, and the network a list of bytes.
--   Writer           src/xmltp/xmltp_writer.c: its static variables as the records `Output` and
--                    `Flags`, one function for each sf_ and xmltp_writer_ function, with the prefix
--                    left out. Writer/Phase says in which order the calls are meant to be made and
--                    what markup each adds; Writer/Refine and Writer/Run are about that order,
--                    Writer/Safety and Writer/Interface about any order.
--   DynArray         src/dynarray/dynarray.c: arrays that grow, on the bytes of their memory; the
--                    C library's bsearch and qsort are arguments in DynArray/Find, and arrays of
--                    arrays are left out.
--   Hosts            src/xmltp/xmltp_hosts.c: `split_line` is sf_split_line, on the lines that fgets
--                    delivers; a write behind the arrays of `xmltp_hosts` is `none`.
--   NumString        src/dulib/check_num_string.c: the automata for the texts of numbers.
--   IntStrTab        src/log_fn/intstrtb.c: tables of numbers and their strings.
--   LinkList         src/misc_fn/linklist.c: the lists that the other modules use, on a store of
--                    nodes, so that a write through one pointer is seen through the others.
--   Rpc              src/ct10api/ct10rpc_parse.c: the parser of the texts of calls, with the prefix
--                    ct10rpc_ left out; `parse_via_automaton` is its loop over the automaton, and
--                    `process_1_full_parm` makes the structure of a parameter. Rpc/Spec describes the
--                    texts, Rpc/Expected the structures.
--
-- A function that changes a context through its pointer takes the context and returns it. A pointer
-- that may be NULL is an option. What the socket brings is a list of events: bytes that recv
-- delivers, interruptions, time limits, errors and the end; the context carries the events still
-- to come.
--
-- Bounds and fuel. `decode` has one round more than its string has bytes. The keyword search has
-- one round more than the table has entries. The loops of the lexer take their fuel as an argument,
-- since a peer may send without end; a round reads one byte, so that one for each byte of the text
-- is enough.
--
-- Each search of a list takes its fuel as an argument; a round follows one pointer, so that one for
-- each node and one for the end are enough.
--
-- A socket answers to a send by taking some bytes or by an error; the events are finitely many, and
-- behind the last one it takes what it is given. The writer puts a value of at most 1,019 bytes,
-- escapes included, into its buffer for escapes; a longer one may overwrite what stands behind it,
-- which the model shows as `none`.
--
-- The parser of calls has buffers of 1,024 bytes; an access outside of an array is `none`. What
-- calloc answers is a list in its variables, which also count the blocks that it has given, and what
-- cs_convert makes of a text is a parameter.
--
-- Not modelled: the debug output, the counters behind it, the making of connections, the client's
-- functions, the recovery from errors, the reading of configurations, and the Python and Sybase
-- sides. A request for memory may fail in the lists and for a socket object; a context is always
-- granted.
pub mod Prelude
pub mod Bytes
pub mod DynArray
pub mod Encoder
pub mod Hosts
pub mod Tags
pub mod Keywords
pub mod Ctx
pub mod Lexer
pub mod IntStrTab
pub mod LinkList
pub mod NumString
pub mod SockObj
pub mod Transport
pub mod Writer
pub mod Rpc
