-- ===== src/Numa/Collected/Whole.antt =====
-- The topology is collected whole or not at all.
use test_frerfhrebfd.Common.{
  String, Option, some, List, [], ◌∷◌, length, false, true, join_path, starts_with, ◌⊎◌, inl, inr,
  ◌≡◌, refl, arith, Bool-cases,
}
use test_frerfhrebfd.Errors.Hierarchy.{ErrorClass, is_subclass}
use test_frerfhrebfd.Errors.Build.{Error}
use test_frerfhrebfd.Exec.{Result, ok, err, Result-cases}
use test_frerfhrebfd.Exec.Fallible.{>>=-ok}
use test_frerfhrebfd.Numa.{
  get_numa_node_id, memory_line, memory_of, Sysfs, Memory, Cpu, NumaInfo, get_nodes_memory_info,
  get_nodes_nics_info,
}
use test_frerfhrebfd.Numa.Cores.{get_nodes_cores_info}
use test_frerfhrebfd.Numa.Collected.{
  numa_node_path, nic_device_path, node_dirs, numa_info, store, collect_numa_topology_info,
}

-- What storing comes to: all of it is stored, or an incompatible format leaves the data as it was.
store-whole :
    (before after : Option NumaInfo) (r : Result NumaInfo)
    → store before r ≡ ok after
    → ((info : NumaInfo) × (after ≡ some info) × (r ≡ ok info))
      ⊎ ((e : Error) × (r ≡ err e)
          × (is_subclass e.class ErrorClass.incompatible_numa_format_error ≡ true)
          × (after ≡ before))
unfolding store
store-whole before after (ok info) h = inl (info, ground arith, refl)
store-whole before after (err e) h =
    elim (Bool-cases (is_subclass e.class ErrorClass.incompatible_numa_format_error)) [
      | inl k ↦ inr (e, refl, k, ground arith)
      | inr k ↦ absurd (ground arith)
    ]

module _ (sysfs : Sysfs) where
  -- All that is collected of the nodes, each part by its own function; one memory for each node.
  pub record IsWhole (dirs : List String) (info : NumaInfo) : Type 0 where
    pub ram : get_nodes_memory_info sysfs dirs ≡ ok info.ram
    pub cpus : get_nodes_cores_info sysfs dirs ≡ ok info.cpus
    pub nics : get_nodes_nics_info sysfs nic_device_path ≡ ok info.nics
    pub nodes : length info.ram ≡ length dirs

  memory_per_node :
      (dirs : List String) {ram : List Memory}
      → get_nodes_memory_info sysfs dirs ≡ ok ram
      → length ram ≡ length dirs
  unfolding get_nodes_memory_info
  memory_per_node [] h = ground arith
  memory_per_node (dir ∷ dirs) h =
      let (id, x, a) = >>=-ok (get_numa_node_id dir) _ _ h in
      let (line, y, b) = >>=-ok (memory_line sysfs dir) _ _ a in
      let (kb, z, c) = >>=-ok (memory_of sysfs dir line) _ _ b in
      let (rest, w, d) = >>=-ok (get_nodes_memory_info sysfs dirs) _ _ c in
      ground (arith, memory_per_node dirs w)

  numa_info-IsWhole :
      (dirs : List String) (info : NumaInfo) → numa_info sysfs dirs ≡ ok info → IsWhole dirs info
  unfolding numa_info
  numa_info-IsWhole dirs info h =
      let (ram, x, a) = >>=-ok (get_nodes_memory_info sysfs dirs) _ info h in
      let (cpus, y, b) = >>=-ok (get_nodes_cores_info sysfs dirs) _ info a in
      let (nics, z, c) = >>=-ok (get_nodes_nics_info sysfs nic_device_path) _ info b in
      let l = memory_per_node dirs x in ground arith

  -- The directories of nodes among the names that are listed, in their order: directories whose
  -- names start with "node".
  abbrev pub AreNodes : List String → List String → Type 0
  AreNodes [] dirs = dirs ≡ []
  AreNodes (name ∷ names) dirs =
      ((sysfs.is_dir (join_path numa_node_path name) ≡ true)
        × (starts_with "node" name ≡ true)
        × (rest : List String) × (dirs ≡ join_path numa_node_path name ∷ rest)
        × AreNodes names rest)
      ⊎ (((sysfs.is_dir (join_path numa_node_path name) ≡ false)
            ⊎ (starts_with "node" name ≡ false))
          × AreNodes names dirs)

  node_dirs-AreNodes : (names : List String) → AreNodes names (node_dirs sysfs names)
  unfolding node_dirs
  node_dirs-AreNodes [] = refl
  node_dirs-AreNodes (name ∷ names) =
      elim (Bool-cases (sysfs.is_dir (join_path numa_node_path name))) [
        | inr d ↦ rw d (inr (inl refl, node_dirs-AreNodes names))
        | inl d ↦ elim (Bool-cases (starts_with "node" name)) [
          | inl n ↦
              rw d (rw n (inl (refl, refl, node_dirs sysfs names, refl, node_dirs-AreNodes names)))
          | inr n ↦ rw d (rw n (inr (inr refl, node_dirs-AreNodes names)))
        ]
      ]

  -- The first of the three parts that has failed.
  abbrev pub PartFailed : List String → Error → Type 0
  PartFailed dirs e =
      (get_nodes_memory_info sysfs dirs ≡ err e)
      ⊎ ((ram : List Memory) × (get_nodes_memory_info sysfs dirs ≡ ok ram)
          × ((get_nodes_cores_info sysfs dirs ≡ err e)
              ⊎ ((cpus : List Cpu) × (get_nodes_cores_info sysfs dirs ≡ ok cpus)
                  × (get_nodes_nics_info sysfs nic_device_path ≡ err e))))

  numa_info-PartFailed :
      (dirs : List String) (e : Error) → numa_info sysfs dirs ≡ err e → PartFailed dirs e
  unfolding numa_info
  numa_info-PartFailed dirs e h = elim (Result-cases (get_nodes_memory_info sysfs dirs)) [
    | inr (x, p) ↦ inl (ground arith)
    | inl (ram, p) ↦ inr (
      ram,
      p,
      (elim (Result-cases (get_nodes_cores_info sysfs dirs)) [
        | inr (x, q) ↦ inl (ground arith)
        | inl (cpus, q) ↦ inr (
          cpus,
          q,
          (elim (Result-cases (get_nodes_nics_info sysfs nic_device_path)) [
            | inr (x, r) ↦ ground arith
            | inl (nics, r) ↦ absurd (ground arith)
          ]),
        )
      ]),
    )
  ]

  -- What a collection comes to that returns.
  abbrev pub Collected : Option NumaInfo → Option NumaInfo → Type 0
  Collected before after =
      ((sysfs.is_dir numa_node_path ≡ false) × (after ≡ before))
      ⊎ ((names dirs : List String) × (sysfs.is_dir numa_node_path ≡ true)
          × (sysfs.list_dir numa_node_path ≡ ok names)
          × AreNodes names dirs
          × (((info : NumaInfo) × (after ≡ some info) × IsWhole dirs info)
              ⊎ ((e : Error) × PartFailed dirs e
                  × (is_subclass e.class ErrorClass.incompatible_numa_format_error ≡ true)
                  × (after ≡ before))))

  -- A collection that returns has found no directory of nodes, and leaves the data as it was; or it
  -- has listed that directory, and taken just the directories in it whose names start with "node".
  -- Of these it has put all of the topology into the data: the memory, one entry for each node, the
  -- CPUs and the network interfaces, each collected without an error. Only where the first
  -- part to fail has failed with an IncompatibleNumaFormatError, it leaves the data as it was.
  pub collect_numa_topology_info-Collected :
      (before after : Option NumaInfo)
      → collect_numa_topology_info sysfs before ≡ ok after
      → Collected before after
  unfolding collect_numa_topology_info
  collect_numa_topology_info-Collected before after h =
      elim (Bool-cases (sysfs.is_dir numa_node_path)) [
        | inr k ↦ inl (k, ground arith)
        | inl k ↦
            let (names, listed, e) =
              >>=-ok (sysfs.list_dir numa_node_path)
                (λ names. store before (numa_info sysfs (node_dirs sysfs names))) after
                (ground arith) in
            let dirs = node_dirs sysfs names in
            inr (
              names,
              dirs,
              k,
              listed,
              node_dirs-AreNodes names,
              (elim (store-whole before after (numa_info sysfs dirs) e) [
                | inl (info, x, y) ↦ inl (info, x, numa_info-IsWhole dirs info y)
                | inr (x, y, c, same) ↦ inr (x, numa_info-PartFailed dirs x y, c, same)
              ]),
            )
      ]
