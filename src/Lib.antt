-- ===== src/Lib.antt =====
-- minichatclient: a client for the chat of a forum. It polls the chat's page over HTTP, shows the
-- messages on a terminal or through a small IRC server, and posts what the user says.
--
-- How the parts work together. main.c asks the forum's server for pages. cookies.c reads the
-- cookies from the headers of a response and writes them into the next request. The page goes to
-- parsehtml.c, which gives the messages to main.c and the names to nicklist.c. nicklist.c keeps who
-- is in the chat and tells the display and ircserver.c of those who come and go. ircserver.c is the
-- server for one IRC client: it reports the chat to it, and what the client says is returned to
-- main.c, which posts it. strfunctions.c has the strings and the character sets for all of them.
--
-- The files here, each with the code that it is about:
--
--   Base           lists, buffers of a fixed size, tests, strcmp, strcasecmp and decimal numbers
--   Text           strfunctions.c: UTF-8 (Utf8), CP850 and ISO 8859-1 (Charset), strrep (Replace),
--                  mconcat and html_strip_tags (Strings), strstr of the C library (Search), with
--                  transliterate_from_utf8 of gotcurses.c
--   Cookies        cookies.c: the array of cookies, the line of the request (Line), the parser of the
--                  response's headers (Header) and the hidden values of the form (Tokens)
--   Conf           conf.c: the reader of the configuration file
--   Main           main.c: minichat_message (Message), the state machine of the main loop (Loop), the
--                  code of a response (Response) and the encoding of what is posted (Post)
--   Nicklist       nicklist.c: the list and its three operations, what WHOIS and the lists of
--                  nicknames read of it (Whois), with malloc_globalise_url of main.c
--   Html           parsehtml.c: the scanner of pages, its steps by state (Steps), its rounds and the
--                  loop of main.c that feeds it (Page), what no page makes it do (Safety), the cutting of
--                  pages by the network (Pieces), pages of messages and hidden values (Blocks, Messages,
--                  Values), and pages under the rules of parser.c (Rules)
--   Markup         parser.c with what it uses of CUtils: strings (Cstring), the cutting of a message
--                  (Parts), its links (Links), the rules for nicks and links (Special), the rules of the
--                  configuration (Output, Config)
--   Http           network.c: the bytes of the two requests
--   Typing         gotcurses.c: the typing buffer
--   Irc.Message    ircserver.c: irc_sendtoclient and irc_trim
--   Irc.Split      the first loop of parse_buffer, which cuts a line into its arguments
--   Irc.Server     the state `t_irc` and the calls by which the chat is reported to the client
--   Irc.Handlers   the branches of parse_buffer, one for each command
--   Irc.Commands   parse_buffer, the choice among them
--   Irc.Driver     irc_init, irc_destroy and irc_driver
--
-- A function of the source keeps its name. Its global or static state is an argument and a part of
-- the result, and what it sends or shows is a list of outputs or events, in order. A C string is the
-- list of its bytes before the terminating zero, and a pointer that may be null is an Option of it.
-- Where a function can run into undefined behaviour or a write out of bounds, its result is an
-- Option and `none` stands for it. A block from malloc is not modelled as memory: its size is
-- computed next to the text that goes into it, and the theorems compare the two. malloc is taken to
-- succeed. `time(NULL)` is an argument `now`, one for each call, and a time is never negative.
--
-- Fuel and bounds. The loops of the decoder (codepoints_loop) and of strrep (count_loop, copy_loop)
-- run on fuel, one more than the bytes of the text; each round goes forward by a byte at least, so
-- this is enough, and the results about them say that there is a result. The loops of parser.c have fuel
-- too, as said below. All other loops go over a list. An unsigned int is cut to 32 bits where the decoder shifts (u32). Counters of strings and
-- lists are not cut: a text of 2^31 bytes is out of this model's sight. The array of cookies, the
-- buffers of the header parser (50 and 200 bytes), the 50 arguments of a command and the line
-- buffer of 2000 bytes have their sizes, and are written out of bounds where the code does so.
--
-- The line buffer of irc_driver is modelled as the bytes of the line that is begun. parse_buffer
-- cuts that line in place, and the pointer that irc_driver returns leads into it. The text that the
-- pointer had when it was set stands for it; where the next line has begun in the same call, its
-- bytes have overwritten the start of the buffer since. Where a client in the channel sends the bare mark
-- of an action, the result depends on what the buffer holds behind it, and `none` stands for it too.
--
-- The parts of a message (parser.c) have numbers in the order in which they are made, and a pointer to a
-- part is its number. A pointer into their list is the place between two lists. The loop over the parts
-- runs on fuel, one more than there are parts, and the loop over the names of an "@" on one more than
-- there are parts behind it: each round puts the place on, also where a part is removed and the code
-- steps back, so this is enough, and `starved` never occurs. The buffer of parsehtml.c has 2000 bytes,
-- the id of a message 30, the typing buffer 1002.
--
-- Not modelled: the sockets (network.c beside its requests,
-- and irc_listen) and the terminal (gotcurses.c beside its typing buffer, gottext.c, gotnull.c). The
-- sockets and the terminal have no logic to state. The debug listings of cookies.c and nicklist.c are
-- left out. entities.c and queue.h are copies of other projects' code; the decoder of entities is an
-- argument of the scanner. CUtils is a library with a makefile of its own, of which only what parser.c
-- uses of its strings is here; the reader of ini files is an argument. The directory oldcode is not built.
pub mod Base
pub mod Text
pub mod Cookies
pub mod Nicklist
pub mod Irc
pub mod Conf
pub mod Html
pub mod Http
pub mod Typing
pub mod Markup
pub mod Main
