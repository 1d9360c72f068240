-- ===== src/Dmi/Parse/Sorted.antt =====
-- dmi_inspector.py: the loop of `parse_dmi` over the blocks.
use mathlib.Core.Path.{subst}
use mathlib.Core.List.{append_assoc, append-nil}
use test_frerfhrebfd.Common.{
  String, Bool, true, false, Option, none, some, List, [], ◌∷◌, ◌++◌, Bool-cases, Option-cases,
  if◌then◌else◌, ◌≡◌, refl, sym, ap, ◌∙◌, inl, inr, arith,
}
use test_frerfhrebfd.Exec.{Result, ok}
use test_frerfhrebfd.Exec.Fallible.{◌>>=◌, >>=-ok}
use test_frerfhrebfd.Dmi.{Rows, parse_handle_block}
use test_frerfhrebfd.Dmi.Parse.{
  Kind, bios, cpu, memory, devices, Sections, put_section, block_kind, add_if, add_blocks,
}

abbrev same_kind : Kind → Kind → Bool
same_kind bios bios = true
same_kind cpu cpu = true
same_kind memory memory = true
same_kind devices devices = true
same_kind _ _ = false

abbrev is_kind : Kind → Option Kind → Bool
is_kind k none = false
is_kind k (some j) = same_kind k j

-- The blocks of one kind.
unfoldable pub blocks_of : Kind → List String → List String
blocks_of k [] = []
blocks_of k (b ∷ bs) =
    let rest = blocks_of k bs in if is_kind k (block_kind b) then b ∷ rest else rest

-- The rows of each block.
unfoldable pub parse_all : List String → Result (List Rows)
parse_all [] = ok []
parse_all (b ∷ bs) = parse_handle_block b >>= λ r. parse_all bs >>= λ rs. ok (r ∷ rs)

-- The last of the blocks, if there is one.
abbrev pub last_or : Rows → List Rows → Rows
last_or r [] = r
last_or r (s ∷ rs) = last_or s rs

-- What the blocks add to `s`.
pub record Adds (blocks : List String) (s t : Sections) : Type 0 where
  pub b_rows : List Rows
  pub c_rows : List Rows
  pub m_rows : List Rows
  pub d_rows : List Rows
  pub b_parse : parse_all (blocks_of bios blocks) ≡ ok b_rows
  pub c_parse : parse_all (blocks_of cpu blocks) ≡ ok c_rows
  pub m_parse : parse_all (blocks_of memory blocks) ≡ ok m_rows
  pub d_parse : parse_all (blocks_of devices blocks) ≡ ok d_rows
  pub b_last : t.bios_rows ≡ last_or s.bios_rows b_rows
  pub c_end : t.cpu_rows ≡ s.cpu_rows ++ c_rows
  pub m_end : t.memory_data ≡ s.memory_data ++ m_rows
  pub d_end : t.device_data ≡ s.device_data ++ d_rows

parse_all-cons :
    (b : String) (bs : List String) (r : Rows) (rs : List Rows)
    → parse_handle_block b ≡ ok r
    → parse_all bs ≡ ok rs
    → parse_all (b ∷ bs) ≡ ok (r ∷ rs)
unfolding parse_all
parse_all-cons b bs r rs h k = rw h (rw k refl)

blocks_of-skip :
    (k : Kind) (b : String) (bs : List String)
    → is_kind k (block_kind b) ≡ false
    → blocks_of k (b ∷ bs) ≡ blocks_of k bs
unfolding blocks_of
blocks_of-skip k b bs h = rw h refl

blocks_of-take :
    (k : Kind) (b : String) (bs : List String)
    → is_kind k (block_kind b) ≡ true
    → blocks_of k (b ∷ bs) ≡ b ∷ blocks_of k bs
unfolding blocks_of
blocks_of-take k b bs h = rw h refl

-- A list of sections with one block more, of the kind or of another one.
parse_skipped :
    (k : Kind) (b : String) (bs : List String) (rs : List Rows)
    → is_kind k (block_kind b) ≡ false
    → parse_all (blocks_of k bs) ≡ ok rs
    → parse_all (blocks_of k (b ∷ bs)) ≡ ok rs
parse_skipped k b bs rs h p = ap parse_all (blocks_of-skip k b bs h) ∙ p

parse_taken :
    (k : Kind) (b : String) (bs : List String) (r : Rows) (rs : List Rows)
    → is_kind k (block_kind b) ≡ true
    → parse_handle_block b ≡ ok r
    → parse_all (blocks_of k bs) ≡ ok rs
    → parse_all (blocks_of k (b ∷ bs)) ≡ ok (r ∷ rs)
parse_taken k b bs r rs h p q =
    ap parse_all (blocks_of-take k b bs h) ∙ parse_all-cons b (blocks_of k bs) r rs p q

Adds-skip :
    (b : String) (bs : List String) (s t : Sections)
    → block_kind b ≡ none
    → Adds bs s t
    → Adds (b ∷ bs) s t
Adds-skip b bs s t h a = record {
  b_rows = a.b_rows;
  c_rows = a.c_rows;
  m_rows = a.m_rows;
  d_rows = a.d_rows;
  b_parse = parse_skipped bios b bs a.b_rows (ap (is_kind bios) h) a.b_parse;
  c_parse = parse_skipped cpu b bs a.c_rows (ap (is_kind cpu) h) a.c_parse;
  m_parse = parse_skipped memory b bs a.m_rows (ap (is_kind memory) h) a.m_parse;
  d_parse = parse_skipped devices b bs a.d_rows (ap (is_kind devices) h) a.d_parse;
  b_last = a.b_last;
  c_end = a.c_end;
  m_end = a.m_end;
  d_end = a.d_end;
}

-- The rows of a block, where it is of the kind, before those of the others.
abbrev before_if : Bool → Rows → List Rows → List Rows
before_if true r rs = r ∷ rs
before_if false r rs = rs

parse_block :
    (k j : Kind) (b : String) (bs : List String) (r : Rows) (rs : List Rows)
    → block_kind b ≡ some j
    → parse_handle_block b ≡ ok r
    → parse_all (blocks_of k bs) ≡ ok rs
    → parse_all (blocks_of k (b ∷ bs)) ≡ ok (before_if (same_kind k j) r rs)
parse_block k j b bs r rs h p q = elim (Bool-cases (same_kind k j)) [
  | inl e ↦ rw e (parse_taken k b bs r rs (ap (is_kind k) h ∙ e) p q)
  | inr e ↦ rw e (parse_skipped k b bs rs (ap (is_kind k) h ∙ e) q)
]

put_bios :
    (j : Kind) (r : Rows) (s : Sections) (rs : List Rows)
    → last_or (put_section j r s).bios_rows rs
      ≡ last_or s.bios_rows (before_if (same_kind bios j) r rs)
put_bios bios r s rs = refl
put_bios cpu r s rs = refl
put_bios memory r s rs = refl
put_bios devices r s rs = refl

put_cpu :
    (j : Kind) (r : Rows) (s : Sections) (rs : List Rows)
    → (put_section j r s).cpu_rows ++ rs ≡ s.cpu_rows ++ before_if (same_kind cpu j) r rs
put_cpu bios r s rs = refl
put_cpu cpu r s rs = append_assoc s.cpu_rows (r ∷ []) rs
put_cpu memory r s rs = refl
put_cpu devices r s rs = refl

put_memory :
    (j : Kind) (r : Rows) (s : Sections) (rs : List Rows)
    → (put_section j r s).memory_data ++ rs ≡ s.memory_data ++ before_if (same_kind memory j) r rs
put_memory bios r s rs = refl
put_memory cpu r s rs = refl
put_memory memory r s rs = append_assoc s.memory_data (r ∷ []) rs
put_memory devices r s rs = refl

put_device :
    (j : Kind) (r : Rows) (s : Sections) (rs : List Rows)
    → (put_section j r s).device_data ++ rs ≡ s.device_data ++ before_if (same_kind devices j) r rs
put_device bios r s rs = refl
put_device cpu r s rs = refl
put_device memory r s rs = refl
put_device devices r s rs = append_assoc s.device_data (r ∷ []) rs

Adds-put :
    (j : Kind) (b : String) (bs : List String) (r : Rows) (s t : Sections)
    → block_kind b ≡ some j
    → parse_handle_block b ≡ ok r
    → Adds bs (put_section j r s) t
    → Adds (b ∷ bs) s t
Adds-put j b bs r s t h p a = record {
  b_rows = before_if (same_kind bios j) r a.b_rows;
  c_rows = before_if (same_kind cpu j) r a.c_rows;
  m_rows = before_if (same_kind memory j) r a.m_rows;
  d_rows = before_if (same_kind devices j) r a.d_rows;
  b_parse = parse_block bios j b bs r a.b_rows h p a.b_parse;
  c_parse = parse_block cpu j b bs r a.c_rows h p a.c_parse;
  m_parse = parse_block memory j b bs r a.m_rows h p a.m_parse;
  d_parse = parse_block devices j b bs r a.d_rows h p a.d_parse;
  b_last = a.b_last ∙ put_bios j r s a.b_rows;
  c_end = a.c_end ∙ put_cpu j r s a.c_rows;
  m_end = a.m_end ∙ put_memory j r s a.m_rows;
  d_end = a.d_end ∙ put_device j r s a.d_rows;
}

pub add_blocks-Adds :
    (blocks : List String) (s t : Sections) → add_blocks blocks s ≡ ok t → Adds blocks s t
unfolding add_blocks parse_all blocks_of
add_blocks-Adds [] s t h = subst (Adds [] s) (ground arith) (record {
  b_rows = [];
  c_rows = [];
  m_rows = [];
  d_rows = [];
  b_parse = refl;
  c_parse = refl;
  m_parse = refl;
  d_parse = refl;
  b_last = refl;
  c_end = sym (append-nil s.cpu_rows);
  m_end = sym (append-nil s.memory_data);
  d_end = sym (append-nil s.device_data);
})
add_blocks-Adds (b ∷ bs) s t h =
    let (u, p, q) = >>=-ok (add_if (block_kind b) b s) (add_blocks bs) t h in
    let rest = add_blocks-Adds bs u t q in
    elim (Option-cases (block_kind b)) [
      | inl e ↦
          let same : s ≡ u = ground (arith, ap (λ k. add_if k b s) (sym e) ∙ p) in
          Adds-skip b bs s t e (subst (λ v. Adds bs v t) (sym same) rest)
      | inr (j, e) ↦
          let (r, parse, i) =
            >>=-ok (parse_handle_block b) (λ r. ok (put_section j r s)) u
              (ap (λ k. add_if k b s) (sym e) ∙ p) in
          let same : put_section j r s ≡ u = ground arith in
          Adds-put j b bs r s t e parse (subst (λ v. Adds bs v t) (sym same) rest)
    ]
