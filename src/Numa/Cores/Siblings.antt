-- ===== src/Numa/Cores/Siblings.antt =====
-- What `get_nodes_cores_info` makes of the threads that it finds.
use test_frerfhrebfd.Common.{
  String, true, false, List, [], ◌∷◌, ◌++◌, ◌&&◌, ℤ, int_eq, int_eq→≡, if◌then◌else◌, ◌≡◌, refl,
  sym, ap, ◌∙◌, inl, inr, arith, Bool-cases,
}
use test_frerfhrebfd.Exec.{Result, ok, err}
use test_frerfhrebfd.Exec.Fallible.{◌>>=◌}
use test_frerfhrebfd.Numa.{Sysfs, Cpu, get_numa_node_id}
use test_frerfhrebfd.Numa.Cores.{
  add_sibling, has_key, add_thread, thread_id_of, cpu_id_of, is_thread, add_directory, add_threads,
  list_threads, add_nodes,
}
use test_frerfhrebfd.Numa.Cores.Once.{add_siblings}

-- A thread, with the CPU and the node where it is found.
pub record FoundThread : Type 0 where
  pub numa_node : ℤ
  pub cpu : ℤ
  pub thread : ℤ

module _ (sysfs : Sysfs) where
  -- The threads of a node in the order of its directories.
  abbrev pub node_threads : String → ℤ → List String → Result (List FoundThread)
  node_threads dir node [] = ok []
  node_threads dir node (d ∷ ds) =
      let rest = node_threads dir node ds in
      if is_thread sysfs dir d
      then (do
        thread ← thread_id_of dir d
        cpu ← cpu_id_of sysfs dir d
        threads ← rest
        ok (record { numa_node = node; cpu = cpu; thread = thread } ∷ threads))
      else rest

  abbrev pub found_threads : List String → Result (List FoundThread)
  found_threads [] = ok []
  found_threads (dir ∷ dirs) = do
    node ← get_numa_node_id dir
    ds ← list_threads sysfs dir
    threads ← node_threads dir node ds
    rest ← found_threads dirs
    ok (threads ++ rest)

-- The threads of one CPU of one node.
abbrev pub threads_of : ℤ → ℤ → List FoundThread → List ℤ
threads_of node cpu [] = []
threads_of node cpu (t ∷ ts) =
    let rest = threads_of node cpu ts in
    if int_eq t.numa_node node && int_eq t.cpu cpu then t.thread ∷ rest else rest

-- The siblings that a list of CPUs gives for one CPU of one node.
abbrev pub siblings_in : ℤ → ℤ → List Cpu → List ℤ
siblings_in node cpu [] = []
siblings_in node cpu (item ∷ items) =
    if has_key node cpu item then item.thread_siblings else siblings_in node cpu items

abbrev pub add_all : List FoundThread → List Cpu → List Cpu
add_all [] cpus = cpus
add_all (t ∷ ts) cpus = add_all ts (add_thread t.numa_node t.cpu t.thread cpus)

pub key_eq : (x y n c : ℤ) → (int_eq x n && int_eq y c) ≡ true → (x ≡ n) × (y ≡ c)
key_eq x y n c h = (int_eq→≡ x n (ground arith), int_eq→≡ y c (ground arith))

keys_apart :
    (x y n c a b : ℤ)
    → (int_eq a x && int_eq b y) ≡ false
    → (int_eq a n && int_eq b c) ≡ true
    → (int_eq x n && int_eq y c) ≡ false
keys_apart x y n c a b h k = elim (Bool-cases (int_eq x n && int_eq y c)) [
  | inl e ↦
      let (p, q) = key_eq x y n c e in
      let both : (int_eq a x && int_eq b y) ≡ true = rw (p, q) k in absurd (ground arith)
  | inr e ↦ e
]

siblings_in-add_thread :
    (n c x y t : ℤ) (cpus : List Cpu)
    → siblings_in n c (add_thread x y t cpus) ≡ (
        if int_eq x n && int_eq y c
        then add_sibling t (siblings_in n c cpus)
        else siblings_in n c cpus)
unfolding add_thread add_sibling
siblings_in-add_thread n c x y t [] = refl
siblings_in-add_thread n c x y t (item ∷ cpus) = elim (Bool-cases (has_key x y item)) [
  | inl e ↦
      let (p, q) = key_eq item.numa_node item.cpu x y e in
      let same : has_key n c item ≡ (int_eq x n && int_eq y c) = rw (p, q) refl in
      elim (Bool-cases (int_eq x n && int_eq y c)) [
        | inl k ↦ rw (e, same, k) refl
        | inr k ↦ rw (e, same, k) refl
      ]
  | inr e ↦ elim (Bool-cases (has_key n c item)) [
    | inl k ↦ rw (e, k, keys_apart x y n c item.numa_node item.cpu e k) refl
    | inr k ↦ rw (e, k) (siblings_in-add_thread n c x y t cpus)
  ]
]

pub siblings_in-add_all :
    (n c : ℤ) (ts : List FoundThread) (cpus : List Cpu)
    → siblings_in n c (add_all ts cpus) ≡ add_siblings (siblings_in n c cpus) (threads_of n c ts)
siblings_in-add_all n c [] cpus = refl
siblings_in-add_all n c (t ∷ ts) cpus = ground (
  arith,
  siblings_in-add_all n c ts (add_thread t.numa_node t.cpu t.thread cpus),
  siblings_in-add_thread n c t.numa_node t.cpu t.thread cpus,
)

-- One thread is added and then the others, or all of them after they are read.
add_first :
    (node : ℤ) (r q : Result ℤ) (m : Result (List FoundThread)) (cpus : List Cpu)
    (more : List Cpu → Result (List Cpu))
    → ((cs : List Cpu) → more cs ≡ (m >>= λ ts. ok (add_all ts cs)))
    → ((r >>= λ t. q >>= λ c. ok (add_thread node c t cpus)) >>= more) ≡ (
        (r >>= λ t.
        q >>= λ c. m >>= λ ts. ok (record { numa_node = node; cpu = c; thread = t } ∷ ts))
        >>= λ ts. ok (add_all ts cpus))
add_first node (err e) q m cpus more h = refl
add_first node (ok t) (err e) m cpus more h = refl
add_first node (ok t) (ok c) (err e) cpus more h = h (add_thread node c t cpus)
add_first node (ok t) (ok c) (ok ts) cpus more h = h (add_thread node c t cpus)

add_all-append :
    (ts us : List FoundThread) (cpus : List Cpu)
    → add_all (ts ++ us) cpus ≡ add_all us (add_all ts cpus)
add_all-append [] us cpus = refl
add_all-append (t ∷ ts) us cpus = add_all-append ts us (add_thread t.numa_node t.cpu t.thread cpus)

add_node :
    (id : Result ℤ) (names : Result (List String)) (m : ℤ → List String → Result (List FoundThread))
    (rest : Result (List FoundThread)) (cpus : List Cpu)
    (add : ℤ → List String → List Cpu → Result (List Cpu)) (more : List Cpu → Result (List Cpu))
    → ((n : ℤ) (ds : List String) (cs : List Cpu)
        → add n ds cs ≡ (m n ds >>= λ ts. ok (add_all ts cs)))
    → ((cs : List Cpu) → more cs ≡ (rest >>= λ ts. ok (add_all ts cs)))
    → (id >>= λ n. names >>= λ ds. add n ds cpus >>= more) ≡ (
        (id >>= λ n. names >>= λ ds. m n ds >>= λ ts. rest >>= λ us. ok (ts ++ us)) >>= λ ts.
        ok (add_all ts cpus))
add_node (err e) names m rest cpus add more h k = refl
add_node (ok n) (err e) m rest cpus add more h k = refl
add_node (ok n) (ok ds) m rest cpus add more h k =
    ap (λ r. r >>= more) (h n ds cpus) ∙ joined (m n ds) rest k
  where
    joined :
        (ms : Result (List FoundThread)) (us : Result (List FoundThread))
        → ((cs : List Cpu) → more cs ≡ (us >>= λ ts. ok (add_all ts cs)))
        → ((ms >>= λ ts. ok (add_all ts cpus)) >>= more)
          ≡ ((ms >>= λ ts. us >>= λ vs. ok (ts ++ vs)) >>= λ ts. ok (add_all ts cpus))
    joined (err e) us k = refl
    joined (ok ts) (err e) k = k (add_all ts cpus)
    joined (ok ts) (ok us) k = k (add_all ts cpus) ∙ ap ok (sym (add_all-append ts us cpus))

module _ (sysfs : Sysfs) where
  add_threads-node_threads :
      (dir : String) (node : ℤ) (ds : List String) (cpus : List Cpu)
      → add_threads sysfs dir node ds cpus
        ≡ (node_threads sysfs dir node ds >>= λ ts. ok (add_all ts cpus))
  unfolding add_threads add_directory
  add_threads-node_threads dir node [] cpus = refl
  add_threads-node_threads dir node (d ∷ ds) cpus = elim (Bool-cases (is_thread sysfs dir d)) [
    | inl e ↦ rw e (
        add_first node (thread_id_of dir d) (cpu_id_of sysfs dir d) (node_threads sysfs dir node ds)
          cpus (add_threads sysfs dir node ds) (add_threads-node_threads dir node ds))
    | inr e ↦ rw e (add_threads-node_threads dir node ds cpus)
  ]

  pub add_nodes-found_threads :
      (dirs : List String) (cpus : List Cpu)
      → add_nodes sysfs dirs cpus ≡ (found_threads sysfs dirs >>= λ ts. ok (add_all ts cpus))
  unfolding add_nodes
  add_nodes-found_threads [] cpus = refl
  add_nodes-found_threads (dir ∷ dirs) cpus =
      add_node (get_numa_node_id dir) (list_threads sysfs dir) (node_threads sysfs dir)
        (found_threads sysfs dirs) cpus (add_threads sysfs dir) (add_nodes sysfs dirs)
        (add_threads-node_threads dir) (add_nodes-found_threads dirs)
