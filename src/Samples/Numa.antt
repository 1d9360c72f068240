-- ===== src/Samples/Numa.antt =====
-- numa_inspector.py: two nodes; the first has two threads of one CPU and a file beside them.
use test_frerfhrebfd.Common.{
  String, none, some, List, [], ◌∷◌, ℤ, str_eq, is_in, basename, contains, drop, join_path,
  parse_int, split_lines, starts_with, strip, text_before, if◌then◌else◌, ◌≡◌, refl,
}
use test_frerfhrebfd.Errors.Hierarchy.{ErrorClass}
use test_frerfhrebfd.Errors.Build.{foreign_error}
use test_frerfhrebfd.Exec.{Result, ok, err}
use test_frerfhrebfd.Numa.{Sysfs, Cpu, NumaInfo, get_nodes_memory_info, get_nodes_nics_info}
use test_frerfhrebfd.Numa.Cores.{get_nodes_cores_info}
use test_frerfhrebfd.Numa.Cores.Siblings.{FoundThread, found_threads, siblings_in, threads_of}
use test_frerfhrebfd.Numa.Cores.Once.{first_once}
use test_frerfhrebfd.Numa.Cores.Distinct.{AreApart, HaveSiblings}
use test_frerfhrebfd.Numa.Cores.Found.{get_nodes_cores_info-siblings}
use test_frerfhrebfd.Numa.Collected.{collect_numa_topology_info}
use test_frerfhrebfd.Numa.Collected.Whole.{Collected, collect_numa_topology_info-Collected}

abbrev entry : {A : Type 0} → String → List (String × Result A) → Result A
entry key [] = err (foreign_error ErrorClass.os_error key)
entry key ((k, v) ∷ rest) = if str_eq k key then v else entry key rest

abbrev folders : List String
folders =
    "/sys/devices/system/node/" ∷ "/sys/devices/system/node/node0"
    ∷ "/sys/devices/system/node/node0/cpu0" ∷ "/sys/devices/system/node/node0/cpu2"
    ∷ "/sys/class/net/" ∷ "/sys/class/net/eth0/device" ∷ []

abbrev lists : List (String × Result (List String))
lists =
    ("/sys/devices/system/node/", ok ("node0" ∷ "online" ∷ []))
    ∷ ("/sys/devices/system/node/node0", ok ("cpu0" ∷ "cpulist" ∷ "cpu2" ∷ []))
    ∷ ("/sys/class/net/", ok ("lo" ∷ "eth0" ∷ []))
    ∷ []

abbrev files : List (String × Result String)
files =
    (
      "/sys/devices/system/node/node0/meminfo",
      ok "\nNode 0 MemTotal: 512 kB\nNode 0 MemFree: 1 kB\n",
    )
    ∷ ("/sys/devices/system/node/node0/cpu0/topology/core_id", ok "4\n")
    ∷ ("/sys/devices/system/node/node0/cpu2/topology/core_id", ok "4\n")
    ∷ ("/sys/class/net/eth0/device/numa_node", ok "-1\n")
    ∷ []

abbrev sysfs : Sysfs
sysfs = record {
  is_dir = λ path. is_in path folders;
  list_dir = λ path. entry path lists;
  read = λ path. entry path files;
  to_kb = λ value.
      if str_eq value "512 kB"
      then ok (ℤ.pos 512)
      else err (foreign_error ErrorClass.value_error value);
}

abbrev node_dir : List String
node_dir = "/sys/devices/system/node/node0" ∷ []

abbrev cpus : List Cpu
cpus = record { cpu = ℤ.pos 4; numa_node = ℤ.pos 0; thread_siblings = ℤ.pos 0 ∷ ℤ.pos 2 ∷ [] } ∷ []

abbrev info : NumaInfo
info = record {
  ram = record { numa_node = ℤ.pos 0; size_kb = ℤ.pos 512 } ∷ [];
  cpus = cpus;
  nics = record { name = "eth0"; numa_node = ℤ.negsuc 0 } ∷ [];
}

cores_run : get_nodes_cores_info sysfs node_dir ≡ ok cpus
unfolding get_nodes_cores_info basename drop join_path parse_int starts_with strip
cores_run = refl

topology_run : collect_numa_topology_info sysfs none ≡ ok (some info)
unfolding collect_numa_topology_info get_nodes_memory_info join_path drop basename split_lines
    contains text_before get_nodes_cores_info get_nodes_nics_info
topology_run = refl

get_nodes_cores_info-siblings_example :
    (threads : List FoundThread) × (found_threads sysfs node_dir ≡ ok threads)
    × AreApart cpus
    × HaveSiblings cpus
    × ((n c : ℤ) → siblings_in n c cpus ≡ first_once (threads_of n c threads))
get_nodes_cores_info-siblings_example = get_nodes_cores_info-siblings sysfs node_dir cpus cores_run

collect_numa_topology_info-Collected_example : Collected sysfs none (some info)
collect_numa_topology_info-Collected_example =
    collect_numa_topology_info-Collected sysfs none (some info) topology_run
