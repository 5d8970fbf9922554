-- ===== src/Buffer/Size.antt =====
-- core/src/ipc_buffer.c: `ipc_buffer_get_memory_overhead`, `ipc_buffer_get_min_size` and
-- `ipc_buffer_suggest_size`.
use libshmipc.Base.{ℕ, ◌+◌, Option, some, ltb, if◌then◌else◌}
use libshmipc.Base.Word.{add64}
use libshmipc.Utils.{find_next_power_of_2}
use libshmipc.Buffer.State.{buffer_header_size_aligned, ipc_data_align}
use mathlib.Core.Option

abbrev pub ipc_buffer_get_memory_overhead : ℕ
ipc_buffer_get_memory_overhead = buffer_header_size_aligned

abbrev pub ipc_buffer_get_min_size : ℕ
ipc_buffer_get_min_size = buffer_header_size_aligned + ipc_data_align

-- `none` when the search for the power of two is still running after `fuel` tests.
unfoldable pub ipc_buffer_suggest_size : ℕ → ℕ → Option ℕ
ipc_buffer_suggest_size fuel desired_capacity =
    if ltb (add64 desired_capacity ipc_buffer_get_memory_overhead) ipc_buffer_get_min_size
    then some ipc_buffer_get_min_size
    else Option.map (λ aligned. add64 aligned ipc_buffer_get_memory_overhead)
        (find_next_power_of_2 fuel desired_capacity)
