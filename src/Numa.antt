-- ===== src/Numa.antt =====
-- numa_inspector.py: the NUMA nodes, their memory, CPUs and network interfaces. `Sysfs` holds the
-- calls that read /sys, and `to_kb` the conversion of a size by pint, cut to an integer.
pub mod Cores
pub mod Collected
use test_frerfhrebfd.Common.{
  ℕ, zero, suc, String, Bool, true, false, Option, none, some, List, [], ◌∷◌, ◌&&◌, ◌||◌, not,
  format, ℤ, int_eq, parse_int, join_path, basename, drop, starts_with, contains, split_lines,
  strip, text_after, text_before, if◌then◌else◌,
}
use test_frerfhrebfd.Errors.Hierarchy.{ErrorClass, is_subclass}
use test_frerfhrebfd.Errors.Build.{Error, rest_error_init, foreign_error, str}
use test_frerfhrebfd.Exec.{Result, ok, err}
use test_frerfhrebfd.Exec.Fallible.{◌>>=◌, translate}

pub record Sysfs : Type 0 where
  pub is_dir : String → Bool
  pub list_dir : String → Result (List String)
  pub read : String → Result String
  pub to_kb : String → Result ℤ

pub record Memory : Type 0 where
  pub numa_node : ℤ
  pub size_kb : ℤ

pub record Cpu : Type 0 where
  pub cpu : ℤ
  pub numa_node : ℤ
  pub thread_siblings : List ℤ

pub record Nic : Type 0 where
  pub name : String
  pub numa_node : ℤ

pub record NumaInfo : Type 0 where
  pub ram : List Memory
  pub cpus : List Cpu
  pub nics : List Nic

-- `int(s)`, with the error of Python
unfoldable pub int : String → Result ℤ
unfolding parse_int
int s = elim (parse_int s) [
  | none ↦ err (foreign_error ErrorClass.value_error "invalid literal for int() with base 10")
  | some n ↦ ok n
]

unfoldable pub is_value_error : Error → Bool
is_value_error e =
    is_subclass e.class ErrorClass.os_error
    || is_subclass e.class ErrorClass.value_error
    || is_subclass e.class ErrorClass.index_error

unfoldable pub is_read_error : Error → Bool
is_read_error e =
    is_subclass e.class ErrorClass.os_error || is_subclass e.class ErrorClass.value_error

unfoldable pub is_unit_error : Error → Bool
is_unit_error e =
    is_subclass e.class ErrorClass.value_error
    || is_subclass e.class ErrorClass.index_error
    || is_subclass e.class ErrorClass.undefined_unit_error

unfoldable pub is_number_error : Error → Bool
is_number_error e =
    is_subclass e.class ErrorClass.value_error || is_subclass e.class ErrorClass.index_error

unfoldable pub is_os_error : Error → Bool
is_os_error e = is_subclass e.class ErrorClass.os_error

unfoldable pub incompatible_numa : String → Error
incompatible_numa msg = rest_error_init ErrorClass.incompatible_numa_format_error msg

-- The error of a step: what was tried, for which object, and why it did not succeed.
unfoldable pub failed_for : String → String → Error → Error
unfolding incompatible_numa
failed_for what node exc = incompatible_numa (format (what ∷ " " ∷ node ∷ ": " ∷ str exc ∷ []))

-- `get_numa_node_id`
unfoldable pub get_numa_node_id : String → Result ℤ
unfolding int failed_for
get_numa_node_id numa_node_dir =
    translate is_value_error (failed_for "Failed to get NUMA node id for" numa_node_dir)
      (int (drop 4 (basename numa_node_dir)))

-- The first line that has 'MemTotal' in it.
mem_total : List String → Option String
mem_total [] = none
mem_total (line ∷ lines) =
    let rest = mem_total lines in if contains "MemTotal" line then some line else rest

line_or_error : String → Option String → Result String
unfolding incompatible_numa
line_or_error node none =
    err (incompatible_numa (format ("Memory information is not available for " ∷ node ∷ [])))
line_or_error node (some line) = ok line

-- `line.split(":")[1].strip()`
value_of : Option String → Result String
value_of none = err (foreign_error ErrorClass.index_error "list index out of range")
value_of (some rest) = ok (strip (text_before ":" rest))

module _ (sysfs : Sysfs) where
  unfoldable pub memory_line : String → Result String
  unfolding mem_total line_or_error failed_for
  memory_line node =
      translate is_os_error (failed_for "Failed to get memory information for" node) (do
        content ← sysfs.read (join_path node "meminfo")
        line_or_error node (mem_total (split_lines content)))

  unfoldable pub memory_of : String → String → Result ℤ
  unfolding value_of failed_for
  memory_of node line =
      translate is_unit_error (failed_for "Failed to get memory information for" node)
        (do value ← value_of (text_after ":" line); sysfs.to_kb value)

  -- `get_nodes_memory_info`
  unfoldable pub get_nodes_memory_info : List String → Result (List Memory)
  unfolding get_numa_node_id memory_line memory_of
  get_nodes_memory_info [] = ok []
  get_nodes_memory_info (numa_node_dir ∷ numa_node_dirs) = do
    numa_node_id ← get_numa_node_id numa_node_dir
    line ← memory_line numa_node_dir
    memory_kb ← memory_of numa_node_dir line
    ram ← get_nodes_memory_info numa_node_dirs
    ok (record { numa_node = numa_node_id; size_kb = memory_kb } ∷ ram)

  nic_node : String → String → Result ℤ
  unfolding int failed_for
  nic_node nic_device_path nic_dir =
      translate is_read_error (failed_for "Failed to gather NIC's for NUMA node" nic_dir) (do
        content ←
            sysfs.read
              (join_path (join_path (join_path nic_device_path nic_dir) "device") "numa_node")
        int content)

  read_nics : String → List String → Result (List Nic)
  unfolding nic_node
  read_nics nic_device_path [] = ok []
  read_nics nic_device_path (nic_dir ∷ nic_dirs) =
      let rest = read_nics nic_device_path nic_dirs in
      if not (sysfs.is_dir (join_path (join_path nic_device_path nic_dir) "device"))
      then rest
      else (do
        numa_node_id ← nic_node nic_device_path nic_dir
        nics ← rest
        ok (record { name = nic_dir; numa_node = numa_node_id } ∷ nics))

  -- `get_nodes_nics_info`
  unfoldable pub get_nodes_nics_info : String → Result (List Nic)
  unfolding read_nics incompatible_numa
  get_nodes_nics_info nic_device_path =
      if not (sysfs.is_dir nic_device_path)
      then err (
          incompatible_numa (
            format (
              "Failed to get list of NIC's, NIC device path does not exist: " ∷ nic_device_path
              ∷ [])))
      else (do nic_dirs ← sysfs.list_dir nic_device_path; read_nics nic_device_path nic_dirs)
