-- ===== src/Apps/Syscalls.antt =====
-- The system calls that newlib makes, sw/ibex/other_test/uart_no_fifo/core/src/main.c: the heap and
-- the standard streams.
use mlab_mcu_edu.Prelude.{ℕ, ◌+◌, ◌-◌, ◌^◌, ◌≤◌, ◌<◌, List, [], ◌∷◌, ltb, if◌then◌else◌, u32, u16}
use mlab_mcu_edu.Machine.{Hardware, Cmd, pure, ◌>>◌}
use mlab_mcu_edu.Uart.{UartHandle}
use mlab_mcu_edu.Uart.Blocking.{uart_transmit, uart_receive}

-- `(void*) -1`
abbrev pub sbrk_failed : ℕ
sbrk_failed = 2 ^ 32 - 1

-- `_sbrk`, with the static `heap_end` taken and returned after the result. Pointers and `incr` are
-- 32-bit words; `stack_limit` is the address of `_stack_bottom`, from the linker.
unfoldable pub sbrk : (stack_limit heap_end incr : ℕ) → ℕ × ℕ
sbrk stack_limit heap_end incr =
    if ltb stack_limit (u32 (heap_end + incr))
    then (sbrk_failed, heap_end)
    else (heap_end, u32 (heap_end + incr))

-- `_write` and `_read`: the length is truncated to the `uint16_t` of the driver, and returned whole.
module _ {G : Type 0} (hw : Hardware) (huart : UartHandle) where
  unfoldable pub syscall_write : ℕ → ℕ → Cmd G ℕ
  syscall_write ptr len = do uart_transmit hw huart ptr (u16 len); pure len

  unfoldable pub syscall_read : ℕ → ℕ → Cmd G ℕ
  syscall_read ptr len = do uart_receive hw (u16 len) huart ptr; pure len

-- The blocks that a series of requests is given, as address and length; refused ones have none.
abbrev pub blocks : ℕ → ℕ → List ℕ → List (ℕ × ℕ)
blocks limit heap [] = []
blocks limit heap (n ∷ ns) =
    let r = sbrk limit heap n in
    let rest = blocks limit r.1 ns in if ltb limit (u32 (heap + n)) then rest else (r.0, n) ∷ rest

-- Blocks that lie one above the other from `lo` on, all of them below `hi`.
abbrev pub Stacked : ℕ → ℕ → List (ℕ × ℕ) → Type 0
Stacked lo hi [] = lo ≤ hi
Stacked lo hi ((p, n) ∷ bs) = (lo ≤ p) × Stacked (p + n) hi bs

-- A request below 2^31, with memory below 2^31.
abbrev pub Requests : List ℕ → Type 0
Requests [] = Unit
Requests (n ∷ ns) = (n < 2 ^ 31) × Requests ns
