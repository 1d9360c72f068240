-- ===== src/Numa/Cores/Found.antt =====
-- The result of `get_nodes_cores_info`, by the threads that are found.
use test_frerfhrebfd.Common.{String, List, [], ◌∷◌, ℤ, keep, true, ◌≡◌, refl, sym, ap, ◌∙◌, arith}
use test_frerfhrebfd.Exec.{ok}
use test_frerfhrebfd.Exec.Fallible.{>>=-ok}
use test_frerfhrebfd.Numa.{Sysfs, Cpu}
use test_frerfhrebfd.Numa.Cores.{get_nodes_cores_info}
use test_frerfhrebfd.Numa.Cores.Once.{first_once, add_siblings-first_once}
use test_frerfhrebfd.Numa.Cores.Siblings.{
  FoundThread, found_threads, threads_of, siblings_in, siblings_in-add_all, add_all,
  add_nodes-found_threads,
}
use test_frerfhrebfd.Numa.Cores.Distinct.{
  AreApart, HaveSiblings, add_all-AreApart, add_all-HaveSiblings,
}

module _ (sysfs : Sysfs) where
  get_nodes_cores_info-add_all :
      (dirs : List String) (cpus : List Cpu)
      → get_nodes_cores_info sysfs dirs ≡ ok cpus
      → (threads : List FoundThread) × (found_threads sysfs dirs ≡ ok threads)
        × (add_all threads [] ≡ cpus)
  unfolding get_nodes_cores_info
  get_nodes_cores_info-add_all dirs cpus h =
      let (ts, found, e) =
        >>=-ok (found_threads sysfs dirs) (λ ts. ok (add_all ts [])) cpus
          (sym (add_nodes-found_threads sysfs dirs []) ∙ h) in
      (ts, found, ground arith)

  keep_all : (xs : List ℤ) → keep (λ x. true) xs ≡ xs
  keep_all [] = refl
  keep_all (x ∷ xs) = ap (λ l. x ∷ l) (keep_all xs)

  -- If `get_nodes_cores_info` returns, every directory of a thread of the nodes has been read; no
  -- two entries of the result have the same node and CPU, and no entry is without siblings; and
  -- for any node and any CPU id the siblings in the result are just the threads that were found
  -- for this CPU on this node, each once, in the order in which they were met, or none at all.
  pub get_nodes_cores_info-siblings :
      (dirs : List String) (cpus : List Cpu)
      → get_nodes_cores_info sysfs dirs ≡ ok cpus
      → (threads : List FoundThread) × (found_threads sysfs dirs ≡ ok threads)
        × AreApart cpus
        × HaveSiblings cpus
        × ((n c : ℤ) → siblings_in n c cpus ≡ first_once (threads_of n c threads))
  get_nodes_cores_info-siblings dirs cpus h =
      let (ts, found, e) = get_nodes_cores_info-add_all dirs cpus h in
      (
        ts,
        found,
        rw (← e) (add_all-AreApart ts [] tt),
        rw (← e) (add_all-HaveSiblings ts [] tt),
        λ n c.
            ap (siblings_in n c) (sym e)
            ∙ siblings_in-add_all n c ts []
            ∙ add_siblings-first_once [] (threads_of n c ts)
            ∙ keep_all _,
      )
