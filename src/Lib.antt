-- ===== src/Lib.antt =====
-- FooBar, a collection of C++ libraries: fb_core with a CSV parser, a circular buffer, a stop
-- watch and a timer, fb_strings with functions on texts, fb_signal with signals, slots and
-- event queues, fb_net. In fb_signal, a signal has a list of slots, an emission calls them or
-- enqueues their calls in event queues, and an event queue stands on a ring buffer. The timer
-- emits a signal, which here is a phase of its thread. The other parts modelled do not call
-- each other.
--
-- A text is the list of its bytes as numbers. Numbers are natural; where the code relies on
-- the width of an integer (the indexes of the circular buffer, the hashes) the wrap-around is
-- written out. Loops over a text are structural recursion on its bytes: where the source's
-- index moves on by more than one, an argument counts the bytes that it has passed already.
-- Some loops have a bound: `natural_compare` has that of a round for each byte of the first
-- text and one more, since a round passes over a byte of it; `matches_pattern` that of (n +
-- 1) * (m + 1) rounds, since between two characters that the last star gives up the pattern's
-- rest gets shorter; `from_int` that of a digit for each bit, since a base is at least 2;
-- `process_pending` has that of its argument, and the timer's loop over missed timeouts may
-- go round as often as the clock reads nanoseconds, more often than it needs to since an
-- interval is positive. A run of one thread of the ring buffer is given by the number of its
-- steps.
--
--   Base: lists, Boolean tests, results with `do`, texts, laws of `|` and `&`, and in Orders
--     what `std::sort` wants of a comparison.
--   Csv: fb_core/src/csv_parser.cpp and fb_core/include/fb/csv_parser.h. Types has the
--     configuration, the errors and the parser's object; Fields the trimming, quoting and
--     UTF-8 check of one field; Rows `finalize_row` and `build_header_index`; Scan the state
--     machine of `parse`, one function for each case of the switch; Parser `parse` and
--     `to_rfc_4180`; Access the read-only methods.
--   CircularBuffer: fb_core/include/fb/circular_buffer.h. A slot of the storage is raw memory
--     or holds an object, and an access that is undefined in C++ is an error. Deque is the
--     list with a bound that it stands for, Holds the relation between the two; Compare has
--     `swap`, `==` and `!=`.
--   Strings: fb_strings/src/string_utils.cpp. Hex, Base64, Url, Html and Json are the
--     encoders and decoders, over the helpers on one character (Chars); Split is `split`,
--     `split_any`, `split_n` and `join`, Replace the search for a text and `split` by it,
--     Characters the versions for one character and for a set, Words and Lines the splitting
--     at white space and at line endings; Affix the prefixes and suffixes; Trim the trimming
--     of white space; Levenshtein the distance by a table of two rows. Numbers is `to_int`,
--     `from_int` and their kin, with `std::from_chars` as the standard has it: an optional
--     minus, digits as far as they go, and no number out of range; the width of `long` is an
--     argument. Pattern is `matches_pattern`, with what it is to decide in Pattern/Glob;
--     Compare the comparisons, for a signed and an unsigned `char`; Case and CaseStyle the
--     case of letters and names in snake case and the like; Extract the parts of a text and
--     the paddings, where the size of a text that `slice` casts to `int` may wrap around;
--     Validate the tests of what a text consists of; Layout margins, tabs and quotes; Similar
--     the Hamming distance, `fuzzy_match` and the common ends of two texts. Hash is
--     fb_strings/src/string_hash.cpp.
--   Utf8: fb_strings/src/utf8_utils.cpp. Walk has the loops from code point to code point,
--     Slices the parts of a text, Valid, Sanitized and Accepted the checks.
--   Signal: fb_signal/include/fb. Ring is `ring_buffer` of event_queue.hpp: each step is one
--     shared access of a producer or of the consumer, in any order, as under sequential
--     consistency; the lists of what was claimed and taken, and the number of claims that a
--     producer has seen, are records that the code does not have. Ring/Invariant, Fifo, Alone
--     and Settled are about all interleavings, one call alone, and calls one after the other.
--     Slots is slot.hpp and detail/slot_list.hpp, with its children on the members, the
--     order, the numbers and the active slots of a list. Its operations are calls in one
--     piece; Slots/Reached also has the parts of `add`, `remove`, `clear` and the cleanup,
--     between which the steps of other threads can come, as steps of their own. Emit is
--     signal.hpp with `event_queue`: Delivery and Outcome an emission, Pending and Refined
--     the queue, Silent and Inactive slots that were disconnected. What a callable does is a
--     parameter. Connections is connection.hpp, Storage `callable_storage` and `event`.
--   StopWatch: fb_core/include/fb/stop_watch.h, over readings of the clock.
--   Timer: fb_core/include/fb/timer.h. Calls from the timer thread and from others, each one
--     step; Waking the loop of the timer thread, Reached what calls and thread lead to.
--
-- Not modelled: opening files and writing to streams, the names of files in messages,
-- allocation that fails, exceptions that an item's type throws; in fb_signal weaker orders of
-- memory accesses, arguments that cannot be copied; calls of a timer that wait for each
-- other; fb_net, which is system calls; of string_utils.cpp what reads, writes or returns
-- `double`, `word_wrap` and `is_palindrome`; the other files of fb_strings.
pub mod Base
pub mod Csv
pub mod CircularBuffer
pub mod Strings
pub mod Utf8
pub mod Signal
pub mod StopWatch
pub mod Timer
