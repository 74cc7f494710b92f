-- ===== src/Lib.antt =====
-- The scripts of linuxtools, in parts that do not call each other: a report on the system and its
-- Solarflare adapters (VMM_Hygine_Report.py), two monitors of the network I/O of a process
-- (ebpf/netio_monitor.py and ebpf/netio_monitor_simple.py), a collector of system parameters
-- (sysctl.py), a collector of the network configuration (network.py), the detection of sockets and
-- cores (cpudetect.py), a generator of traffic for the monitors (ebpf/test_traffic.py), the
-- benchmarks of a disk, of a network and of the latency between two cores (disk_bench/disk_bench.c,
-- net_bench/net_bench.c, c2c_latency/c2c_latency.c) and the plots of the first two
-- (disk_bench/visualize.py, net_bench/plot_results.py). Each reads the system through files and
-- commands, parses what it gets and prints, draws or saves a result.
--
-- Shared files. Base holds lists, tests and results over the native numbers: a Python exception is
-- the `raise` of a Result. Str holds the methods of Python strings that the scripts use, on lists
-- of character codes; Str/Number the printing and reading of numbers; Str/Replace the replacement
-- of a text; Str/Strip, Str/Digits, Str/Lines, Str/Join and Str/Laws their lemmas. Dict is a dict,
-- in the order of insertion, with Dict/Fresh on its filling. Command is what subprocess.run does
-- with a command line. Utf8 is bytes.decode with errors='ignore' and str.encode for latin-1.
--
-- VMM_Hygine_Report.py is Report.
--   Report/Machine   read_file, list_dir, run_command; Machine is a snapshot of the system
--   Report/Output    the flags of main, _setup_output; Output/Laws their law
--   Report/Html      html_encode
--   Report/Printer   the state of the generator; print_text, print_heading, print_footer,
--                    print_preformatted
--   Report/Table     the grid that tabulate builds; Table/Modify, Place and Fits its laws
--   Report/Tabulate  tabulate: the JSON, HTML and text branches; Tabulate/Align and Json its laws
--   Report/Dump      what json.dump writes; Dump/Read a reader of it. Dump/Strings, Hex, Units,
--                    Lists, Cells and RoundTrip the laws, from the characters up
--   Report/Pci       PciFunction, get_pci_devices; Pci/Laws and Pci/Listing
--   Report/Drvinfo   MockDrvinfo, get_sfc_drvinfo, _get_interface_driver, _get_mac_address
--   Report/System    _get_memory_info, _get_distribution_info
--   Report/Sections  print_system_summary, print_device_status, print_net_status,
--                    print_short_device_status; Sections/Csv the law of the last
--   Report/Generate  generate_report and main, with the messages on stderr and the exit status;
--                    Generate/Laws and Written the report in JSON and its reading
--
-- ebpf/netio_monitor.py is Netio.
--   Netio/Word       the 32-bit halves and the sign of a 64-bit register, ntohs
--   Netio/Probe      the BPF program: the filter, the entry and return probes of six system calls
--   Netio/Stats      the class Stats; Netio/Summary its print_summary
--   Netio/Event      print_event and inet_ntoa
--   Netio/Monitor    the attaching of the probes; the perf buffer as a queue, with a step relation
--                    for calls that return, records that are read and records that are lost
--   Netio/Invariant, Totals, Flows, Ledger: the laws
-- ebpf/netio_monitor_simple.py is NetioSimple, with NetioSimple/Laws.
--
-- sysctl.py is Sysctl: the commands and get_sysctl_params; Sysctl/Query the interfaces, routes and
-- DNS settings; Sysctl/Collect collect_system_info and main; Sysctl/Params and Outcome the laws.
-- cpudetect.py is Cpu, with Cpu/Laws.
--
-- network.py is Network: the interfaces, addresses and VLANs; Network/Collect the link parameters,
-- the routes, the whole configuration and main; Network/Shape, Render, Addresses, Peers and
-- Expressions the laws. Regex matches a sequence of literals and repeated classes without giving anything back;
-- Regex/Backtrack is the backtracking of `re` and its laws, Regex/Laws the other lemmas.
--
-- ebpf/test_traffic.py is Traffic: a round of the loop with its three ends, and the loop on a list
-- of rounds. Traffic/Laws says when the rotation goes on and how the loop ends.
--
-- disk_bench/disk_bench.c is DiskBench: add_latency and get_percentile; DiskBench/Loops the four
-- tests, DiskBench/Results print_stats, DiskBench/Options main; DiskBench/Runs, Tally, Finish and
-- Percentiles the laws.
--
-- disk_bench/visualize.py is DiskPlot: the charts and the table as a list of events, in the order
-- of the calls; DiskPlot/Create plot_results, create_latency_histogram and main; DiskPlot/Firsts
-- the first row of each mode, DiskPlot/Laws the laws.
--
-- net_bench/net_bench.c is NetBench: run_server, on the packets that arrive and the silences;
-- NetBench/Sender run_client, NetBench/Options main, NetBench/Losses and Exchange the laws.
-- net_bench/plot_results.py is NetPlot.
--
-- c2c_latency/c2c_latency.c is CoreLatency: the two threads, one access of `turn` or one reading of
-- the counter at a time, and run_benchmark; CoreLatency/Options main, CoreLatency/Fair its law.
--
-- Bounds. The registers of the probes are 64-bit words, and the byte count of a record is cut to 32
-- bits, as in the C code. Python's integers have no bound. Each loop of the scripts goes over a
-- list and is structural recursion. The printing of a number n runs on fuel, n + 1, which is enough
-- since each step divides what is left by ten or sixteen; that int reads a printed decimal back is
-- a lemma of Str/Digits. The reader of Dump/Read has the length of its text as fuel for the items
-- of a list; this is enough, since each item has a character. The loops of the disk benchmark run
-- on fuel that is more than the number of readings of the clock up to the end of the test; each
-- round makes at least one. The loops of NetBench/Sender run on fuel too, and the lack of it is the
-- result `stuck`. The number of rounds of CoreLatency, ITERATIONS in the code, is an argument.
--
-- Parameters. The files, directories and commands of a run are functions of a path or a command
-- line (Machine, Host, System), so two reads of one path in a run agree. The attaching of probes is
-- the record Bcc, with the hypothesis Healthy of Netio/Totals where it works for every system call.
-- The clock and the names with a time stamp are arguments. pandas and matplotlib are the records
-- Libraries of DiskPlot and of NetPlot; IsPandas of DiskPlot/Firsts is what pandas documents of
-- unique and of a Boolean mask. The arithmetic of
-- double in net_bench.c is the record Doubles. The C library of the disk benchmark is the record Libc, with the
-- promises IsStandard of DiskBench/Percentiles, and its system the record Os, with the hypothesis
-- Passes of DiskBench/Finish on the clock. What the network answers to test_traffic.py is a
-- function of the round and the address; Recurs of Traffic/Laws says that every address answers
-- again and again.
--
-- Not modelled: argparse; the text of an exception in a message; the digits of a float printed by
-- %.2f where it is not exact, above 2 ^ 53; int(), isdigit() and lower() outside ASCII; the text of
-- the JSON files of sysctl.py and network.py; the messages that network.py prints when a command
-- raises; fonts, sizes and positions in the plots, and a table that lacks a column which
-- visualize.py reads; what disk_bench prints around its numbers, and their rounding; the setting up
-- of the sockets in net_bench.c; in c2c_latency.c the pinning to a core, core numbers below 0 and
-- ping_pong_thread, which nothing calls; the shell scripts and build files.

pub mod Base
pub mod Str
pub mod Dict
pub mod Netio
pub mod NetioSimple
pub mod Cpu
pub mod CoreLatency
pub mod Sysctl
pub mod Utf8
pub mod Command
pub mod Regex
pub mod Network
pub mod Traffic
pub mod DiskBench
pub mod DiskPlot
pub mod NetBench
pub mod NetPlot
pub mod Report
mod Tests
