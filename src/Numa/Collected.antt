-- ===== src/Numa/Collected.antt =====
-- numa_inspector.py: `collect_numa_topology_info`. Of `data` this writes the key 'numa_topology' only.
pub mod Whole
use test_frerfhrebfd.Common.{
  String, Bool, true, false, Option, none, some, List, [], ◌∷◌, ◌&&◌, not, join_path, starts_with,
  if◌then◌else◌, ◌≡◌, refl, arith,
}
use test_frerfhrebfd.Errors.Hierarchy.{ErrorClass, is_subclass}
use test_frerfhrebfd.Exec.{Result, ok, err}
use test_frerfhrebfd.Exec.Fallible.{◌>>=◌}
use test_frerfhrebfd.Numa.{Sysfs, NumaInfo, get_nodes_memory_info, get_nodes_nics_info}
use test_frerfhrebfd.Numa.Cores.{get_nodes_cores_info}

abbrev pub numa_node_path : String
numa_node_path = "/sys/devices/system/node/"

abbrev pub nic_device_path : String
nic_device_path = "/sys/class/net/"

-- `except errors.IncompatibleNumaFormatError`: the data is left as it is
unfoldable pub store : Option NumaInfo → Result NumaInfo → Result (Option NumaInfo)
store data_topology (ok info) = ok (some info)
store data_topology (err e) =
    if is_subclass e.class ErrorClass.incompatible_numa_format_error
    then ok data_topology
    else err e

module _ (sysfs : Sysfs) where
  -- The paths of the directories of NUMA nodes.
  unfoldable pub node_dirs : List String → List String
  node_dirs [] = []
  node_dirs (numa_node_dir ∷ rest) =
      let dirs = node_dirs rest in
      let path = join_path numa_node_path numa_node_dir in
      if sysfs.is_dir path && starts_with "node" numa_node_dir then path ∷ dirs else dirs

  unfoldable pub numa_info : List String → Result NumaInfo
  numa_info numa_node_dirs = do
    ram ← get_nodes_memory_info sysfs numa_node_dirs
    cpus ← get_nodes_cores_info sysfs numa_node_dirs
    nics ← get_nodes_nics_info sysfs nic_device_path
    ok (record { ram = ram; cpus = cpus; nics = nics })

  -- `collect_numa_topology_info`, on `data.get('numa_topology')`
  unfoldable pub collect_numa_topology_info : Option NumaInfo → Result (Option NumaInfo)
  unfolding node_dirs numa_info store
  collect_numa_topology_info data_topology =
      if not (sysfs.is_dir numa_node_path) then ok data_topology else (do
        names ← sysfs.list_dir numa_node_path
        store data_topology (numa_info (node_dirs names)))
