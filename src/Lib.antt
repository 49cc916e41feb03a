-- ===== src/Lib.antt =====
-- A verification library for the C programs of the repository. It covers simpledb/, a small database: rows in
-- a B-tree of 4 KiB pages behind a command line, and tcpip/, a network stack in user space, from its interfaces up to
-- ARP and the receiving half of IP; mysh/, a command line for small devices with its line editor; and the lists, the
-- semaphore and the list of workers of workthread/. The programs share no code; here they share the modules of the
-- machine.
--
-- Bytes.antt, Word.antt and CString.antt are the machine: memory as a function from offsets to
-- bytes, 32-bit words with the least significant byte first, `memcpy`, and the functions of the C
-- library on strings that the programs call.
--
-- simpledb/ is SimpleDb.antt and the modules below it, one to a source file or a layer of one:
--   Row         row.h, row.c: a row as its object in memory, `row_init`, printing, the copies to and from a page
--   Node        node.h, node.c: a page as a leaf or an internal node
--   Pager       pager.h, pager.c: the page cache; the operating system is the parameter `System`
--   Search      node_btree.c: the loops of `leaf_node_find` and `internal_node_find_child`
--   Leaf        node_btree.c: what insertion and splitting do to the bytes of leaves
--   Tree        node_btree.c: the functions over several pages
--   Table       table.h, table.c: `db_open`, `db_close`, cursors
--   Statement   statement.h, statement.c: `prepare_statement` and `execute_statement`
--   Meta        meta.h, meta.c: the commands that begin with a dot, `print_tree`
--   Main        inputs.c, main.c: `read_input` and the loop of `main`; the lines that `getline` gives are a list
-- The proofs are in the children: Row/Layout and Row/Init, Pager/Cache, Search/Loops,
-- Leaf/Gap, Leaf/Insert, Leaf/Keys, Leaf/Split and Leaf/SplitKeys, Tree/Internal, Table/Single, Table/Find and Table/Close, Statement/Prepare,
-- Statement/Insert, Statement/Select and Statement/Rows, Meta/PrintTree, Main/Session. Tests.antt and Tests/Session.antt
-- apply the theorems to a small table.
--
-- A pointer to a page is the number of the page in the pager's table; a pointer into a page is an
-- offset. A function that reads or changes the table is a step on the pager that returns a value or ends the
-- process with one of the errors of SimpleDb/Exit.antt. What is stored at a page is read anew after each write, so
-- that two pointers to one page see the same bytes.
--
-- tcpip/ is Tcpip.antt and the modules below it:
--   Checksum    common/utils.c: `sum_every_16bits` and `checksum`, over memory
--   Route       ip/route.c, include/route.h: `rt_lookup`, `rt_add` and `rt_init`; the linked list is a list
--   Links       include/utils.h: `list_head`, in a heap of links
--   Net         common/skbuff.c, include/skbuff.h: packet buffers; the state that the modules below share
--   Eth         netdev/netdev.c, include/netdev.h: Ethernet headers, `eth_init`, `net_tx`
--   ArpCache    arp/arp_cache.c, include/arp.h: the cache and its timer
--   Arp         arp/arp.c: `arp_request`, `arp_reply`, `arp_in`
--   Ip          ip/ip.c, include/ip.h, and `rt_input` and `rt_output` of ip/route.c
--   Device      netdev/netdev.c, loop_if.c and tap_if.c: `net_rx` and the two interfaces
-- with the proofs in Checksum/Fold, Checksum/Verify, Route/Order, Route/Best, Route/Init, Links/Ring, Links/Remove, ArpCache/Alloc,
-- ArpCache/Insert, ArpCache/Timer, ArpCache/Expiry, Arp/Learn, Arp/Receive, Arp/Fields, Ip/Forward, Device/Send, Device/Request,
-- Device/Expiry, Device/Reply and Device/Answer; Tests.antt, Tests/Rings.antt and Tests/Stack.antt apply the theorems. Addresses and masks are
-- the numbers that the code compares, the first byte of the address the lowest.
--
-- In Net a pointer to a buffer is its address in a heap, and a function is a step on the state that returns a value or
-- ends the run. A buffer has its count of references; the use of a buffer that was freed ends the run. `pk_room`
-- counts the bytes that were allocated; the packet that `arp_request` writes reaches behind them, which ends the run. The other
-- writes to a buffer are not compared with it. The
-- interfaces and the cache call each other: the cache gets the function that sends, `xmit`, and `arp_request` as parameters,
-- and Device ties the knot. What is sent to the loopback interface is received within the call that sends it,
-- so that `xmit` recurs on fuel; over the tap interface one unit is enough. `write` on the tap device is the parameter
-- `tap_write`, and what goes out is recorded. The contents of a fresh buffer are the parameter `junk`.
-- The threads of main.c and the mutex of the cache are left out: a call runs to its end before the next begins.
--
-- workthread/ is WorkThread.antt and the modules below it:
--   List        list.h: two links by address, as in Tcpip/Links; the proof on `ListReverse` is in List/Reverse
--   Bsem        bsem.h: the semaphore; a call is cut where it gives up the mutex, and the parts are steps in any
--               order. A reset while a thread waits is undefined, as is an overflow of `v`: a step to `none`. The
--               invariant is in Bsem/Safe
--   Worker      workThread.c: the list of workers, which one worker at a time enters or leaves
-- with Tests.antt.
--
-- mysh/ is Mysh.antt and the modules below it:
--   Text        common/lib_mem.c: strings and bytes in arrays
--   Editor      shell/shell.c: the functions of the keys, on the two arrays of a line
--   Complete    shell/shell.c: the keywords and the tab key
--   Input       shell/shell.c: `read_input`, a step for each byte of the terminal
--   Parse       shell/shell.c: `parse_command`
--   Shell       shell/shell.c, shell/shell.h: the state of the shell, its prompt and the ring of past lines
--   Vfat        fs/vfat.c: the commands on files; Vfat/Files has all but `cd`
--   Command     shell/shell_cmd_tbl.c: the table of commands and the commands of the shell, `execute_command`, `shell_init`
--   Execute     shell/shell.c: `shell_execute`
-- with the proofs in Editor/Zipper, Editor/Screen, Editor/Keys, Complete/Candidates, Complete/Tab, Complete/Match, Input/Press,
-- Input/Edits, Parse/Words and below it, Shell/History,
-- Vfat/Path, Vfat/Cd, Execute/Rounds, Execute/Lines and Execute/Echo; Tests.antt applies the theorems. The line is compared with an abstract editor, the text
-- before the cursor and the text behind it, and what is printed with a terminal that has one row of cells. The
-- words of a line and the names of a path are lists. A `char` is signed, so that a byte from 128 on is not
-- positive. An access outside one of the arrays of 2048 bytes, of the ring or of the keywords is a
-- result of its own. Printing is the list of the calls of `shell_printf`, with format and arguments, and of the
-- bytes put out one by one. The library ufat is the parameter `Ufat`, a record of its calls. The terminal is the list
-- of the bytes that it will send; where they end, the shell waits. The loop of `shell_execute` has a round more than there are
-- bytes, and each round takes at least one; the loops over a directory have `reads` rounds, a parameter. The library may never
-- come to the end of a directory: a loop that does not end in its rounds is `endless`, and the session `hangs`, which is apart
-- from `beyond` and `crashed`, an access outside an array.
--
-- Loops with a fixed number of rounds recur on the rounds left. The binary searches take one unit of fuel more
-- than the width of their range, which they halve; the folding of a checksum takes three, since two rounds leave 16
-- bits; `print_tree` takes the number of pages; the descent in the tree takes as many as there may be pages
-- (100), since a path meets each page once; `select` takes one more than the table has cells. The
-- loops over a ring take one unit more than it has elements. Running out of
-- fuel is an end of its own, `out_of_fuel`, which no result below has among its outcomes.
--
-- Not modelled: of tcpip/, ip/icmpv4.c, which is commented out, `copy_pkb`, `netdev_alloc`, `netdev_free`,
-- `netdev_find`, the functions that only print, and main.c;
-- of mysh/, the copies of libufat and of a printf, and the input and output of common/uart.c and common/block.c;
-- of workthread/, the pausing of a worker by a signal; the other programs of the repository; what a read
-- beyond a page or beyond the table of 100 pages would give (a page is defined
-- at every offset, the table at every number, where it holds no page), a failing `malloc`, and the state of the
-- file when an error ends the process. The bytes of a fresh page and of an uninitialised row are
-- parameters. `char` strings hold no NUL.
pub mod Prelude
pub mod Bytes
pub mod Word
pub mod CString
pub mod SimpleDb
pub mod Mysh
pub mod Tcpip
pub mod WorkThread
