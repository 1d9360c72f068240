-- ===== src/Numa/Cores.antt =====
-- numa_inspector.py: `get_nodes_cores_info`. The key of an entry of `dict_cpus` is its node and its
-- CPU, which the entry holds too, so that the dictionary is the list of its values.
pub mod Once
pub mod Siblings
pub mod Distinct
pub mod Found
use test_frerfhrebfd.Common.{
  ℕ, zero, suc, String, Bool, true, false, List, [], ◌∷◌, ◌++◌, ◌&&◌, ◌||◌, not, format, ℤ, int_eq,
  join_path, drop, starts_with, if◌then◌else◌,
}
use test_frerfhrebfd.Errors.Build.{Error, str}
use test_frerfhrebfd.Exec.{Result, ok, err}
use test_frerfhrebfd.Exec.Fallible.{◌>>=◌, translate}
use test_frerfhrebfd.Numa.{
  Sysfs, Cpu, int, is_number_error, is_read_error, is_os_error, incompatible_numa, failed_for,
  get_numa_node_id,
}

-- `thread_id in siblings`
abbrev pub is_sibling : ℤ → List ℤ → Bool
is_sibling thread_id [] = false
is_sibling thread_id (t ∷ ts) = if int_eq t thread_id then true else is_sibling thread_id ts

unfoldable pub add_sibling : ℤ → List ℤ → List ℤ
add_sibling thread_id siblings =
    if is_sibling thread_id siblings then siblings else siblings ++ (thread_id ∷ [])

abbrev pub has_key : ℤ → ℤ → Cpu → Bool
has_key numa_node_id cpu_id item = int_eq item.numa_node numa_node_id && int_eq item.cpu cpu_id

-- The thread is put into the entry of its CPU, or into a new one.
unfoldable pub add_thread : ℤ → ℤ → ℤ → List Cpu → List Cpu
unfolding add_sibling
add_thread numa_node_id cpu_id thread_id [] =
    record { cpu = cpu_id; numa_node = numa_node_id; thread_siblings = thread_id ∷ [] } ∷ []
add_thread numa_node_id cpu_id thread_id (item ∷ dict_cpus) =
    let rest = add_thread numa_node_id cpu_id thread_id dict_cpus in
    if has_key numa_node_id cpu_id item
    then record item { thread_siblings = add_sibling thread_id item.thread_siblings } ∷ dict_cpus
    else item ∷ rest

unfoldable pub thread_id_of : String → String → Result ℤ
thread_id_of numa_node_dir thread_dir =
    translate is_number_error (failed_for "Failed to get cores information for" numa_node_dir)
      (int (drop 3 thread_dir))

gather_failed : String → String → Error → Error
gather_failed thread_dir numa_node_dir exc = incompatible_numa (
    format (
      "Failed to gather cpu_id for thread"
      ∷ thread_dir
      ∷ " NUMA node "
      ∷ numa_node_dir
      ∷ ": "
      ∷ str exc
      ∷ []))

module _ (sysfs : Sysfs) where
  -- the directories that are not skipped
  abbrev pub is_thread : String → String → Bool
  is_thread numa_node_dir thread_dir = not (
      not (sysfs.is_dir (join_path numa_node_dir thread_dir)) || not (starts_with "cpu" thread_dir))

  unfoldable pub cpu_id_of : String → String → Result ℤ
  unfolding gather_failed
  cpu_id_of numa_node_dir thread_dir =
      translate is_read_error (gather_failed thread_dir numa_node_dir) (do
        content ←
            sysfs.read
              (join_path (join_path (join_path numa_node_dir thread_dir) "topology") "core_id")
        int content)

  -- One round of the loop over the directories of a node.
  unfoldable pub add_directory : String → ℤ → String → List Cpu → Result (List Cpu)
  unfolding thread_id_of cpu_id_of add_thread
  add_directory numa_node_dir numa_node_id thread_dir dict_cpus =
      if is_thread numa_node_dir thread_dir
      then (do
        thread_id ← thread_id_of numa_node_dir thread_dir
        cpu_id ← cpu_id_of numa_node_dir thread_dir
        ok (add_thread numa_node_id cpu_id thread_id dict_cpus))
      else ok dict_cpus

  unfoldable pub add_threads : String → ℤ → List String → List Cpu → Result (List Cpu)
  unfolding add_directory
  add_threads numa_node_dir numa_node_id [] dict_cpus = ok dict_cpus
  add_threads numa_node_dir numa_node_id (thread_dir ∷ thread_dirs) dict_cpus = do
    dict_cpus' ← add_directory numa_node_dir numa_node_id thread_dir dict_cpus
    add_threads numa_node_dir numa_node_id thread_dirs dict_cpus'

  unfoldable pub list_threads : String → Result (List String)
  list_threads numa_node_dir =
      translate is_os_error (failed_for "Failed to get list of threads for" numa_node_dir)
        (sysfs.list_dir numa_node_dir)

  unfoldable pub add_nodes : List String → List Cpu → Result (List Cpu)
  unfolding add_threads list_threads get_numa_node_id
  add_nodes [] dict_cpus = ok dict_cpus
  add_nodes (numa_node_dir ∷ numa_node_dirs) dict_cpus = do
    numa_node_id ← get_numa_node_id numa_node_dir
    thread_dirs ← list_threads numa_node_dir
    dict_cpus' ← add_threads numa_node_dir numa_node_id thread_dirs dict_cpus
    add_nodes numa_node_dirs dict_cpus'

  -- `get_nodes_cores_info`
  unfoldable pub get_nodes_cores_info : List String → Result (List Cpu)
  unfolding add_nodes
  get_nodes_cores_info numa_node_dirs = add_nodes numa_node_dirs []
