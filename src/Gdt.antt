-- ===== src/Gdt.antt =====
-- The segments (src/gdt.rs).
use titanium.Base.{ℕ, ◌*◌, ◌/◌, ◌≤◌, ◌≡◌, refl, ◌∙◌, ap, Bool, true}
use titanium.Base.{List, [], ◌∷◌, ◌++◌, Option, some, get_elem?, length, arith, ◌>>=◌}

-- What an entry of the table describes; a task state segment takes two entries.
pub data Descriptor : Type 0 where
  null kernel_code_segment kernel_data_segment user_code_segment user_data_segment : Descriptor
  tss_segment tss_segment_high : Descriptor

abbrev pub slots : Descriptor → List Descriptor
slots tss_segment = tss_segment ∷ tss_segment_high ∷ []
slots d = d ∷ []

-- The table of the `x86_64` crate, by its entries: the first is null, there is room for eight, and
-- `append` panics where it runs out.
pub record GlobalDescriptorTable (G : Type 0) : Type 0 where
  pub entries : G → List Descriptor
  pub new : G
  pub append : G → Descriptor → Option G
  pub entries-new : entries new ≡ null ∷ []
  pub entries-append :
      (g : G) (d : Descriptor)
      → length (entries g ++ slots d) ≤ 8
      → (g' : G) × (append g d ≡ some g') × (entries g' ≡ entries g ++ slots d)

-- The segment registers, the task register, and whether interrupts are let in.
pub record Segments : Type 0 where
  pub cs : ℕ
  pub ds : ℕ
  pub ss : ℕ
  pub gs : ℕ
  pub es : ℕ
  pub fs : ℕ
  pub tr : ℕ
  pub interrupts : Bool

abbrev pub kernel_cs_index : ℕ
kernel_cs_index = 1

abbrev pub kernel_ds_index : ℕ
kernel_ds_index = 2

abbrev pub tss_index : ℕ
tss_index = 5

-- `SegmentSelector::new(index, PrivilegeLevel::Ring0)`
abbrev pub selector : ℕ → ℕ
selector index = index * 8

-- What `init` loads the registers with.
abbrev pub kernel_segments : Segments
kernel_segments = record {
  cs = selector kernel_cs_index;
  ds = selector kernel_ds_index;
  ss = selector kernel_ds_index;
  gs = selector kernel_ds_index;
  es = selector kernel_ds_index;
  fs = selector kernel_ds_index;
  tr = selector tss_index;
  interrupts = true;
}

module _ {G : Type 0} (table : GlobalDescriptorTable G) where
  unfoldable pub init : Option (G × Segments)
  init = do
    g1 ← table.append table.new kernel_code_segment
    g2 ← table.append g1 kernel_data_segment
    g3 ← table.append g2 user_code_segment
    g4 ← table.append g3 user_data_segment
    g5 ← table.append g4 tss_segment
    some (g5, kernel_segments)

  -- The descriptor that a selector names.
  abbrev pub described : G → ℕ → Option Descriptor
  described g selector = get_elem? (table.entries g) (selector / 8)

  -- `init` returns normally, and the registers it loads name the segments it means: the code
  -- segment, the data segment in the five others, and the task state segment's first half.
  pub init_lem :
      (g : G) × (segments : Segments) × (init ≡ some (g, segments))
      × (described g segments.cs ≡ some kernel_code_segment)
      × (described g segments.ss ≡ some kernel_data_segment)
      × (segments.ds ≡ segments.ss)
      × (segments.es ≡ segments.ss)
      × (segments.fs ≡ segments.ss)
      × (segments.gs ≡ segments.ss)
      × (described g segments.tr ≡ some tss_segment)
      × (segments.cs ≡ 8)
      × (segments.ss ≡ 16)
  unfolding init
  init_lem =
      let (g1, e1, l1) =
        table.entries-append table.new kernel_code_segment (rw table.entries-new (omega arith)) in
      let l1' = l1 ∙ ap (λ l. l ++ kernel_code_segment ∷ []) table.entries-new in
      let (g2, e2, l2) = table.entries-append g1 kernel_data_segment (rw l1' (omega arith)) in
      let l2' = l2 ∙ ap (λ l. l ++ kernel_data_segment ∷ []) l1' in
      let (g3, e3, l3) = table.entries-append g2 user_code_segment (rw l2' (omega arith)) in
      let l3' = l3 ∙ ap (λ l. l ++ user_code_segment ∷ []) l2' in
      let (g4, e4, l4) = table.entries-append g3 user_data_segment (rw l3' (omega arith)) in
      let l4' = l4 ∙ ap (λ l. l ++ user_data_segment ∷ []) l3' in
      let (g5, e5, l5) = table.entries-append g4 tss_segment (rw l4' (omega arith)) in
      let l5' = l5 ∙ ap (λ l. l ++ tss_segment ∷ tss_segment_high ∷ []) l4' in
      (
        g5,
        kernel_segments,
        rw (e1, e2, e3, e4, e5) refl,
        ap (λ l. get_elem? l 1) l5',
        ap (λ l. get_elem? l 2) l5',
        refl,
        refl,
        refl,
        refl,
        ap (λ l. get_elem? l 5) l5',
        refl,
        refl,
      )
