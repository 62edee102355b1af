-- ===== src/Scheduler/TaskIds.antt =====
-- The ids that `spawn_task` gives out (src/scheduler.rs), and what is read from them.
use titanium.Base.{ℕ, ◌+◌, ◌*◌, ◌/◌, ◌%◌, ◌^◌, ◌≤◌, ◌<◌, ◌≡◌, ◌≢◌, ap, ◌∙◌}
use titanium.Base.{bit_or, bit_and, arith}
use titanium.Base.Bits.{◌<<<◌, bit_or_fields, bit_or-shifted, bit_and_mask}
use titanium.Util.BitRange.{flags_bit_range}
use titanium.Util.Masks.{bit_and-shifted}
use titanium.Scheduler.Frames.{taskid_scheduler}
use titanium.Scheduler.State.{make_task_id, max_task_id}

-- `TaskConfig`
abbrev pub kernel_task : ℕ
kernel_task = 1 <<< 63

abbrev pub uses_floats : ℕ
uses_floats = 1 <<< 62

abbrev pub small_stack : ℕ
small_stack = 1 <<< 61

abbrev pub known_bits : ℕ
known_bits = 7 <<< 61

abbrev pub small_kernel : ℕ
small_kernel = bit_or kernel_task small_stack

abbrev pub kernel : ℕ
kernel = kernel_task

abbrev pub taskid_idle : ℕ
taskid_idle = 0x8007_0000_0000_0000

-- The fields of `TaskId`.
unfoldable pub task_id : ℕ → ℕ
task_id id = id % 2 ^ 48

unfoldable pub priority : ℕ → ℕ
priority id = id / 2 ^ 48 % 2 ^ 3

unfoldable pub as_flags : ℕ → ℕ
as_flags id = flags_bit_range 64 known_bits id 63 56

make_task_id-sum :
    (a raw p : ℕ)
    → a < 8
    → raw ≤ max_task_id
    → p < 8
    → make_task_id (a * 2 ^ 61) raw p ≡ a * 2 ^ 61 + p * 2 ^ 48 + raw
unfolding make_task_id
make_task_id-sum a raw p ha hraw hp =
    let low : bit_and p 7 ≡ p = bit_and_mask 3 p ∙ omega arith in
    let joined : bit_or (a * 2 ^ 61) raw ≡ a * 2 ^ 13 * 2 ^ 48 + raw =
      bit_or_fields 61 a raw (omega arith) ∙ omega arith in
    let above : bit_or (a * 2 ^ 13) p ≡ a * 2 ^ 13 + p = bit_or_fields 13 a p (omega arith) in
    rw (low, joined) (bit_or-shifted 48 (a * 2 ^ 13) raw p (omega arith) ∙ omega (arith, above))

as_flags-mod : (id : ℕ) → as_flags id ≡ id / 2 ^ 56 % 2 ^ 8 * 2 ^ 56 / 2 ^ 61 % 2 ^ 3 * 2 ^ 61
unfolding as_flags flags_bit_range
as_flags-mod id =
    let byte : bit_and id (255 * 2 ^ 56) ≡ id / 2 ^ 56 % 2 ^ 8 * 2 ^ 56 =
      bit_and-shifted 56 id 255 ∙ ap (λ b. b * 2 ^ 56) (bit_and_mask 8 (id / 2 ^ 56)) in
    bit_and-shifted 61 (bit_and id (255 * 2 ^ 56)) 7
    ∙ ap (λ b. b * 2 ^ 61) (bit_and_mask 3 (bit_and id (255 * 2 ^ 56) / 2 ^ 61))
    ∙ ap (λ b. b / 2 ^ 61 % 2 ^ 3 * 2 ^ 61) byte

-- For any of the eight configurations, a raw id up to `MAX_TASK_ID` and a priority below 8, the id
-- of a task reads back as all three, and it is not the scheduler's.
pub make_task_id_lem :
    (a raw p : ℕ)
    → a < 8
    → raw ≤ max_task_id
    → p < 8
    → let id = make_task_id (a * 2 ^ 61) raw p in
      (task_id id ≡ raw) × (priority id ≡ p) × (as_flags id ≡ a * 2 ^ 61) × (id ≢ taskid_scheduler)
unfolding task_id priority
make_task_id_lem a raw p ha hraw hp =
    let sum = make_task_id-sum a raw p ha hraw hp in
    (
      omega (arith, sum),
      omega (arith, sum),
      as_flags-mod (make_task_id (a * 2 ^ 61) raw p) ∙ omega (arith, sum),
      λ e. omega (arith, sum, e),
    )
