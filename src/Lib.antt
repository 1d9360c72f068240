-- ===== src/Lib.antt =====
-- Verification library of the ironic-python-agent, the agent that runs on a bare metal node while
-- Ironic deploys, cleans or inspects it.
--
-- The program's parts. Ironic posts commands to the agent's REST API, which hands them to
-- `ExecuteCommandMixin.execute_command` (ironic_python_agent/extensions/base.py). The command's
-- name picks an extension and a method of it; a synchronous method runs at once, an asynchronous
-- one in a thread of its own, and a new command is refused while the last one runs. The extensions
-- reach the hardware through hardware managers (ironic_python_agent/hardware.py): plug-ins that are
-- sorted by how well they support the hardware, and asked in that order.
--
-- Where the parts are modelled:
--   Errors            errors.py: the class hierarchy, inherited attributes, constructors
--   Exec              a function that changes a state and may raise is `Exec S A`; the state comes
--                     back beside an exception too, since Python undoes nothing
--   Value             what commands return and take
--   Extensions.Base   extensions/base.py: results of commands (Results), `execute_command` and the
--                     end of a command's thread (Commands)
--   Extensions.Clean  extensions/clean.py: `_deduplicate_steps` (Dedup); the versions of the managers,
--                     `get_clean_steps` and `execute_clean_step` (Versions)
--   Extensions.Flow   extensions/flow.py: commands that run one after the other
--   Extensions.Standby  extensions/standby.py: the check of the image information (Info), its
--                     download (Download), `cache_image` and `prepare_image` (Prepare), `sync` and
--                     the end of the system (Shutdown)
--   Extensions.Image  extensions/image.py: the search of a partition (Partition), the boot loader (Grub)
--                     and its clean-up (Cleanup), and `install_bootloader` (Bootloader)
--   Extensions.Iscsi  extensions/iscsi.py: `start_iscsi_target` (Start) and `clean_up` (CleanUp)
--   IronicApiClient   ironic_api_client.py: the version of the API, heartbeats, and the lookup
--   Hardware          hardware.py: the managers' order and cache (Managers), `dispatch_to_managers`,
--                     `dispatch_to_all_managers` and `cache_node` (Dispatch), the erasure of block
--                     devices (Erase), `wait_for_disks` and `guess_root_disk` of utils.py (Disks),
--                     `list_all_block_devices` (Listing), the sort of Python (Sorting)
--   Params            utils.py: key=value pairs (Parse), parameters from the kernel and from virtual
--                     media, and their cache
--   IronicPythonAgent  agent.py: the wait for an interface (Interfaces), the heartbeater's thread
--                     (Heartbeater), `serve_ipa_api` (Serve), and `run` (Run)
--   AgentAddress      agent.py: `set_agent_advertise_addr`
--   Inspector         inspector.py: `inspect` and `call_inspector`; `AccumulatedFailures` of utils.py
--   Numa              numa_inspector.py: the NUMA nodes' memory, CPUs (Cores) and interfaces, and
--                     their collection (Collected)
--   Dmi               dmi_inspector.py: a block of dmidecode's output, `parse_dmi` (Parse), and the
--                     collection (Collected)
--   Common            lists, dictionaries as association lists, texts and their order
--   Samples           examples, and the theorems applied to them
--
-- State and steps. `Agent` is the state of the mixin: the results in the order of their insertion,
-- the threads that run, the number of heartbeats asked for, and the world that commands act on.
-- `execute_command` holds a lock, so one call of it is one step; the end of a thread is another
-- step, which may come any time later, and sets the result, ends the thread and asks for a heartbeat
-- at once. `Hardware` holds the module's globals `_global_managers`
-- and `NODE`. A hardware manager is a record of methods, `none` where its class lacks one.
--
-- `Exec.Ensures` is the statement about a function that succeeds, taken along its composition.
--
-- Bounds. The wait for an interface has thirteen rounds: pauses of five seconds fill sixty after
-- twelve. The attempts of `wait_for_disks` and of the lookup of an address count down from the
-- configured number. A delay of the heartbeater is counted in units of ten microseconds. A bound of
-- five reaches the root of the class hierarchy from every class, since no class has more than three
-- bases above it. All other loops are structural recursion.
-- Support levels and priorities are natural numbers.
--
-- Parameters. The managers that stevedore finds, the methods of managers, the bodies of commands
-- and the generator of UUIDs are arguments of the definitions, and so are requests, the digest, the
-- file system, ironic-lib's work on disks, and `utils.execute`, which hands a command to the
-- system. That UUIDs differ is a hypothesis of the theorems that need it.
--
-- Not modelled: logging; the REST layer; the rescue
-- and log extensions, the default collector of the inspection, the rest of the hardware's inventory
-- and the vendors' hardware managers, which mostly run tools and read their output; and that
-- `evaluate_hardware_support` may act on the hardware or change its answer. The documents of the
-- Ironic API are JSON objects.
pub mod Params
pub mod IronicPythonAgent
mod Common
pub mod AgentAddress
pub mod Errors
pub mod Exec
pub mod Value
pub mod Hardware
pub mod Extensions
pub mod IronicApiClient
pub mod Inspector
pub mod Dmi
pub mod Numa
mod Samples
