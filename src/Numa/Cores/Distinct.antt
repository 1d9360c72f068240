-- ===== src/Numa/Cores/Distinct.antt =====
-- The list of CPUs has one entry for each, and no more threads than were found.
use test_frerfhrebfd.Common.{
  ◌+◌, ◌≤◌, true, false, List, [], ◌∷◌, ◌&&◌, ℤ, int_eq, int_eq_refl, All, length, length-append,
  ◌≡◌, refl, inl, inr, arith, Bool-cases,
}
use test_frerfhrebfd.Numa.{Cpu}
use test_frerfhrebfd.Numa.Cores.{add_sibling, has_key, add_thread}
use test_frerfhrebfd.Numa.Cores.Siblings.{FoundThread, add_all, key_eq}

-- No two entries have the same node and CPU.
abbrev pub AreApart : List Cpu → Type 0
AreApart [] = Unit
AreApart (item ∷ items) =
    All (λ other. has_key item.numa_node item.cpu other ≡ false) items × AreApart items

abbrev pub HaveSiblings : List Cpu → Type 0
HaveSiblings = All (λ item. 1 ≤ length item.thread_siblings)

length-add_sibling :
    (t : ℤ) (ts : List ℤ)
    → (length ts ≤ length (add_sibling t ts)) × (length (add_sibling t ts) ≤ length ts + 1)
unfolding add_sibling
length-add_sibling t ts = ground (arith, length-append ts (t ∷ []))

module _ (x y t : ℤ) where
  All-add_thread :
      (P : Cpu → Type 0)
      → P (record { cpu = y; numa_node = x; thread_siblings = t ∷ [] })
      → ((item : Cpu)
          → P item
          → P (record item { thread_siblings = add_sibling t item.thread_siblings }))
      → (cpus : List Cpu) → All P cpus
      → All P (add_thread x y t cpus)
  unfolding add_thread
  All-add_thread P new old [] h = (new, tt)
  All-add_thread P new old (item ∷ cpus) h = elim (Bool-cases (has_key x y item)) [
    | inl e ↦ rw e (old item h.0, h.1)
    | inr e ↦ rw e (h.0, All-add_thread P new old cpus h.1)
  ]

  add_thread-HaveSiblings :
      (cpus : List Cpu) → HaveSiblings cpus → HaveSiblings (add_thread x y t cpus)
  add_thread-HaveSiblings =
      All-add_thread (λ item. 1 ≤ length item.thread_siblings) (omega arith)
        (λ item h. ground (arith, length-add_sibling t item.thread_siblings))

  apart_sym : (a b : ℤ) → (int_eq a x && int_eq b y) ≡ false → (int_eq x a && int_eq y b) ≡ false
  apart_sym a b h = elim (Bool-cases (int_eq x a && int_eq y b)) [
    | inl e ↦
        let (p, q) = key_eq x y a b e in
        let both : (int_eq a x && int_eq b y) ≡ true =
          rw (p, q, int_eq_refl a, int_eq_refl b) refl in
        absurd (ground arith)
    | inr e ↦ e
  ]

  add_thread-AreApart : (cpus : List Cpu) → AreApart cpus → AreApart (add_thread x y t cpus)
  unfolding add_thread
  add_thread-AreApart [] h = (tt, tt)
  add_thread-AreApart (item ∷ cpus) h = elim (Bool-cases (has_key x y item)) [
    | inl e ↦ rw e h
    | inr e ↦ rw e (
      All-add_thread (λ other. has_key item.numa_node item.cpu other ≡ false)
          (apart_sym item.numa_node item.cpu e) (λ other k. k) cpus h.0,
      add_thread-AreApart cpus h.1,
    )
  ]

pub add_all-HaveSiblings :
    (ts : List FoundThread) (cpus : List Cpu) → HaveSiblings cpus → HaveSiblings (add_all ts cpus)
add_all-HaveSiblings [] cpus h = h
add_all-HaveSiblings (t ∷ ts) cpus h =
    add_all-HaveSiblings ts _ (add_thread-HaveSiblings t.numa_node t.cpu t.thread cpus h)

pub add_all-AreApart :
    (ts : List FoundThread) (cpus : List Cpu) → AreApart cpus → AreApart (add_all ts cpus)
add_all-AreApart [] cpus h = h
add_all-AreApart (t ∷ ts) cpus h =
    add_all-AreApart ts _ (add_thread-AreApart t.numa_node t.cpu t.thread cpus h)
