-- ===== src/Lib.antt =====
-- A model of rahunasd, the daemon of the RahuNAS network access gateway, with theorems on it. A
-- client that has logged in on the web page has a session: its address is in a set of the kernel,
-- its row in a database, its bandwidth limited and, where its service class says so, its address
-- mapped to one of another network. The daemon keeps the sessions of each virtual server, starts
-- and stops them on commands of the web login, and passes each start and stop through a list of
-- tasks.
--
-- Files, by the part that they model:
-- - Text, Text/Numbers: C strings, printing and reading of numbers, as the C library does.
-- - Utils/Sep, Utils/Ip: rh_string_get_sep, iptoid, idtoip of src/rh-utils.c. Utils/Sep/Fields
--   says what a field is; Utils/Ip/RoundTrip has the documented behaviour of inet_aton and
--   inet_ntoa.
-- - Utils/Log: logmsg, rh_malloc and rh_free of src/rh-utils.c, with the heap as a list of live
--   blocks; Utils/Log/Doubled is on its two calls of rh_free. Utils/Files: the log file and the
--   pid file of src/rh-utils.c, as calls of the system.
-- - Mac: mac_tostring and parse_mac of src/rh-ipset.c, with strtol in base 16.
-- - Member: struct rahunas_member, struct rahunas_map of src/rahunasd.h, and the list operations
--   of src/rh-task-memset.c. Member/Ident keeps of a member what identifies its session,
--   Member/Freed has its blocks and rh_free_member of src/rahunasd.c.
-- - ServiceClass: src/rh-serviceclass.c. ServiceClass/Registry: registration, reload and removal
--   of service classes when the configuration is read again.
-- - Interfaces: the interface list and the ifb devices of src/rh-config.c.
-- - Host: what the daemon asks of the system. Each answer is a function of the history of
--   requests, so no theorem depends on how system calls go, unless it says so.
-- - Session: struct task_req of src/rh-task.h and the state that the tasks share. Its children
--   are the tasks: Memset, Ipset, Mapping (src/rh-task-serviceclass.c), Slots and Bandwidth
--   (src/rh-task-bandwidth.c), Dbset, and Task (src/rh-task.c). Keeps says what each task other
--   than Memset leaves alone, with an interface, Keeping, of relations that the requests to the
--   system preserve; Refinement takes all tasks together, as a finite map of sessions. Owners
--   follows the bandwidth slot of each session through all tasks.
-- - Daemon: the state between commands, struct main_server of src/rh-server.h.
-- - Rpc, Rpc/Stop, Rpc/Info: do_startsession, do_stopsession, do_getsessioninfo of
--   src/rh-xmlrpc-server.c; Rpc/Params and Rpc/Start are on their behaviour.
-- - Expiry: expired_check of src/rahunasd.c, send_xmlrpc_stopacct of src/rh-xmlrpc-cmd.c,
--   get_data_from_set of src/rh-ipset.c. Its Stale says on plain numbers, without the code's
--   arithmetic on times, when a session is due.
-- - Daemon/Steps: the two threads between reloads, one step for each section that holds
--   RHMtxLock: the commands, and the stop in expired_check, for whatever session the polling
--   thread decided on before it took the lock. Its children are on the owners of slots and
--   identifiers and on what ends a session.
-- - Daemon/Walk: the pointer of expired_check into the list of members while commands change the
--   list; Nodes is on lists of nodes, Members on those as the nodes of the session table, Visited
--   on the members that it comes to, Races on the removals that leave it dangling.
-- - Daemon/Watch, Daemon/Signals: watch_child and rh_sighandler of src/rahunasd.c.
-- - Config: rahunas_visitor and get_config of src/rh-config.c, with the tables of keys in
--   Config/Keys and the service class in Config/Class. What a section of another kind than the
--   caller's writes into the caller's member of the union is a parameter. Config/Texts: the freeing of the texts of
--   configurations; its Freed is on the heap, Unregistered on the clean-up of all servers and
--   classes.
-- - Server: a virtual server with its configuration and what all servers share. Server/Run has
--   the ways in which a call may go. Server/Sets: the listing of a set, of src/rh-ipset.c, with
--   its socket in Server/Sets/Socket. Server/Firewall: src/rh-task-iptables.c. Server/Restore:
--   restore_set and parse_dm_to_struct of src/rh-task-dbset.c. Server/Restore/Starting, Sessions
--   and Returning say which sessions that leaves, Rows has the freeing of the rows.
--   Server/Stopping and Server/Shaping: init and cleanup of src/rh-task-memset.c,
--   src/rh-task-ipset.c and src/rh-task-bandwidth.c. Server/Tasks: what all tasks do to a server,
--   of src/rh-task.c. Server/Registry and Server/Reload: src/rh-server.c. Server/Program:
--   rh_reload, rh_exit and the set-up in main of src/rahunasd.c. Server/Poll: its
--   polling_expired_check and polling_service, with expired_check on a whole server. Server/Keeps
--   says what of a server no task changes.
-- - Squid, Squid/Servers: tools/squid-auth-helper.c, a program beside the daemon. Squid/Lookup
--   and Squid/Reply are on the server that it finds and the user that it prints.
-- - Tests: runs on small inputs.
--
-- The state is passed on explicitly. A C function that may fail returns its int as a 32-bit
-- pattern, and reading behind the end of a text is a result of its own. The search of
-- _get_slot_id draws until it hits a free slot, so it takes fuel, one unit for each draw: it ends
-- with a unit more than the draws that hit reserved slots. The loop of a reload has fuel of three
-- rounds, the removal of unused servers that of one more than there are servers, and the loop of
-- rh_string_get_sep that of each character: these are always enough. Two rounds are enough for
-- logmsg, where vsnprintf returns a length. Unsigned numbers wrap where the C types do. Commands
-- hold a mutex from beginning to end, so each is one step, and the polling thread's stop of a
-- session is one. Allocation does not fail but in Utils/Log, and the calls that log are left out.
-- A statement for the database is cut at its buffer's end, as snprintf does; other buffers hold
-- what is printed.
--
-- Not modelled: the copies of lcfg and GNet XML-RPC, the kernel's headers, the PHP pages, the
-- shell scripts, the first fork and threads, GDA, the commands of the fake ARP daemon that
-- service classes run, and the freeing of texts but for those of configurations, members and rows
-- of the database. The part of a virtual server that a command sees is the record VServer of
-- Session; Server has the whole of it, and hands this part to the session functions of the tasks.
-- An interface is told by its ifb device, so that reading through a pointer to one that was freed
-- is a result of its own.
pub mod Prelude
pub mod Text
pub mod Member
pub mod Utils
pub mod Host
pub mod Mac
pub mod Config
pub mod Server
pub mod ServiceClass
pub mod Interfaces
pub mod Session
pub mod Daemon
pub mod Expiry
pub mod Rpc
pub mod Squid
pub mod Tests
