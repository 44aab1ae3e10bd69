-- ===== src/Lib.antt =====
-- A model of libudev-devd, which gives programs written for Linux's libudev the devices of FreeBSD: it
-- enumerates them from /dev, devinfo and the interfaces, and follows them by the messages of devd.
--
-- Parts and files. A function of the C code keeps its name in the model; a helper of the model stands
-- for the part of a function that its map entry or comment names.
--
--   Common          the shared types, tests on numbers, lists and C strings: a C string is the list of
--                   its bytes without the NUL, and NULL is `none`
--   Str             strings. Paths: udev-utils.c and strbase of utils.c; Copy: strchrnul, strlcpy and
--                   strlcat of utils.c; KernProp: the key=value pairs of devd's messages, utils.c
--   Encode          utils-gpl.c: the escaping of names of device nodes, with the check for UTF-8;
--                   Unicode: the characters as UTF-8 and UTF-16, and the tests on whole texts
--   Subsystem       udev-utils.c: the table of subsystems, its lookup, the choice of a handler
--   Filter          udev-filter.c: match and nomatch rules, with the score array of udev_filter_match
--   UdevList        udev-list.c over the interface RbTree, which stands for tree.h
--   Devd            the parsers of devd's messages: udev_dev_monitor of udev-dev.c, udev-sys.c, udev-pci.c,
--                   udev-net.c, and parse_devd_message of udev-monitor.c, which tries them in turn
--   Monitor         udev-monitor.c. Queue: the steps of the sending thread and the receiving client on
--                   the queue and the pipe that they share; Thread: the loop of the thread, which calls
--                   parse_devd_message and the filters; Drain: how a client empties the queue; System:
--                   the thread and the client together, from the rounds of the loop to the devices that
--                   the client is given; Handle: the monitor's rules, threads and references;
--                   Pipe: pipe2 of utils.c
--   Input           udev-dev.c: the type of an evdev device from its bits, the entries that announce it
--   Scandir         utils.c: scandir_recursive
--   Enumerate       udev-enumerate.c with the callbacks of udev-dev.c, udev-sys.c, udev-pci.c and
--                   udev-net.c, on top of Scandir, Filter and UdevList; Rules: the enumerator
--                   itself, with the rules that clients add; Listed: the syspaths of a system, against
--                   which a scan is held
--   Device          udev-device.c. Values: the properties and attributes of a device; Parents: its chain
--                   of parents, as the list of the devices from the device up, and what freeing frees;
--                   Devnum: get_syspath_by_devnum of udev-utils.c with devname_r of utils.c; Accessors:
--                   what a device tells of its syspath; Lists: the lists that it hands out; Descriptors:
--                   path_to_fd of utils.c
--   Handlers        the functions that fill a new device. Pci: udev-pci.c; Net: udev-net.c; Parent, Input
--                   and Drm: udev-dev.c, with what scanf, printf and strtol do in Hex, Decimal and Strtol;
--                   Create: invoke_create_handler of udev-utils.c, which runs the handler that
--                   Subsystem finds on the device that udev_device_new_common makes
--   Context         udev.c. Objects: the queue of udev-queue.c, the database of udev-hwdb.c, monitors,
--                   enumerators and devices at addresses, with their counts; Calls: the calls on them,
--                   and Lifetime: the sequences of calls that clients may make; Race: the count of a
--                   context under two threads; Answers: the functions that answer a constant
--   Client          udev-test.c: a program that lists the input devices, by Enumerate, and prints what the
--                   monitor tells
--   Examples        runs at concrete inputs, with a sorted list that meets RbTree
--
-- State and operations. Code that changes an object takes its state and returns the new one; `Status` is
-- the result 0 or -1, and a write past the end of a buffer is a result of its own, `overrun`.
-- Concurrency is a relation Step on the state that the two threads share, with Reach for the states that
-- a new monitor can get into, and the relation Move with Runs for the whole monitor; the thread's loop
-- takes what the system calls of each round answer as its input.
--
-- Parameters. fnmatch, calloc (as the answers of its calls), the macros of tree.h, the creation of a
-- device inside a filter or a handler, the kernel's evdev sysctl, the directories that opendir and readdir
-- give, the devices of devinfo, the interfaces of getifaddrs, the answers of sysctlbyname, PCIOCGETCONF,
-- realpath and the ioctls of input devices, the codes of linux/input.h, the system calls of the monitor's
-- thread, and what printf makes of NULL. What a theorem needs of them is among its hypotheses or a field
-- of RbTree. What the code relies on in sscanf, snprintf and strtol is written out in Handlers.
--
-- Bounds and fuel. Numbers are natural numbers; sizes are those that the code passes. free_loop and walk
-- of UdevList run on the number of entries and one more, as each round takes one entry and the last one
-- finds NULL; encode_loop and printable_loop on the length of the text, of which each round takes a byte
-- at least; find_from of Input.Bits on the rounds of its loop; the printing of numbers on the digits
-- that 32 bits have, 64 for a device number; fd_loop of Device.Descriptors on the MAX_FD descriptors.
-- All else is structural recursion on the input. Counts of references are far below the bound of an int.
--
-- Not modelled. tree.h, a copy of a third-party header. The functions that return the context of an
-- object and the log functions, which do nothing. What the processor does when two threads change the
-- count of a context: Race takes a change as a load and a store, and elsewhere in Context calls follow
-- one another. What the thread of a monitor and a client that adds rules while it runs make of the list
-- of rules. utf16_to_utf8 on an input of odd length, of which it reads a byte too much. libudev.h:
-- declarations. Of udev-test.c the endless loop: its passes are a list, with what select and the monitor
-- give in each.
pub mod Common
pub mod Str
pub mod Subsystem
pub mod Filter
pub mod UdevList
pub mod Devd
pub mod Monitor
pub mod Input
pub mod Encode
pub mod Scandir
pub mod Enumerate
pub mod Device
pub mod Handlers
pub mod Context
mod Examples
pub mod Client
