-- ===== src/Uart/Blocking/Reception.antt =====
-- A blocking reception of the UART.
use mlab_mcu_edu.Prelude.{
  ℕ, zero, suc, ◌+◌, ◌^◌, ◌≤◌, ◌≡◌, refl, ap, ◌∙◌, some, List, [], ◌∷◌, ◌++◌, length, map, true,
  false, if◌then◌else◌, is_clear, u8, u16, Bool, Bool-cases, inl, inr, arith, not, ◌&&◌, ◌==◌,
}
use mlab_mcu_edu.Machine.{Access, read, write, Hardware, Machine, Cmd, pure, ◌>>=◌, next}
use mlab_mcu_edu.Machine.Runs.{writes}
use mlab_mcu_edu.Machine.Buffers.{bytes, latest_first, set_byte}
use mlab_mcu_edu.Machine.Got.{Got, Got-cons, bytes-Got}
use mlab_mcu_edu.Uart.{UartHandle, uart_rx_data, uart_rx_empty}
use mlab_mcu_edu.Uart.Blocking.{receive_byte, uart_receive}

-- Read at most `n` times from the log `l` on, the register at `a` shows a byte.
abbrev pub ShowsIn : Hardware → ℕ → ℕ → List Access → Type 0
ShowsIn hw a zero l = ⊥
ShowsIn hw a (suc n) l =
    if is_clear (u16 (hw.value l a)) uart_rx_empty
    then ShowsIn hw a n (read a (hw.value l a) ∷ l)
    else Unit

-- The values with a byte that the register at `a` was read for, the latest first.
abbrev pub shown : ℕ → List Access → List ℕ
shown a [] = []
shown a (read b v ∷ l) =
    if a == b && not (is_clear (u16 v) uart_rx_empty) then u16 v ∷ shown a l else shown a l
shown a (write b v ∷ l) = shown a l

-- The receive register of a handle's peripheral.
abbrev pub rx_of : UartHandle → ℕ
rx_of huart = uart_rx_data huart.instance_addr

module _ {G : Type 0} (hw : Hardware) (huart : UartHandle) where
  -- A wait after a read that showed `v`, by whether it had no byte.
  abbrev after_read : Bool → ℕ → ℕ → Cmd G ℕ
  after_read empty v n = elim empty [ true ↦ receive_byte hw n huart | false ↦ pure (u16 v) ]

  receive_byte-shown :
      (n : ℕ) (m : Machine G)
      → is_clear (u16 (hw.value m.log (rx_of huart))) uart_rx_empty ≡ false
      → receive_byte hw (suc n) huart m
        ≡ some (
          u16 (hw.value m.log (rx_of huart)),
          record m { log = read (rx_of huart) (hw.value m.log (rx_of huart)) ∷ m.log },
        )
  unfolding receive_byte
  receive_byte-shown n m e =
      let v = hw.value m.log (rx_of huart) in
      ap (λ b. after_read b v n (record m { log = read (rx_of huart) v ∷ m.log })) e

  receive_byte-again :
      (n : ℕ) (m : Machine G)
      → is_clear (u16 (hw.value m.log (rx_of huart))) uart_rx_empty ≡ true
      → receive_byte hw (suc n) huart m
        ≡ receive_byte hw n huart
            (record m { log = read (rx_of huart) (hw.value m.log (rx_of huart)) ∷ m.log })
  unfolding receive_byte
  receive_byte-again n m e =
      let v = hw.value m.log (rx_of huart) in
      ap (λ b. after_read b v n (record m { log = read (rx_of huart) v ∷ m.log })) e

  -- A wait for a byte, which is then stored at `p`.
  receive_byte_lem :
      (n p : ℕ) (m : Machine G)
      → ShowsIn hw (rx_of huart) n m.log
      → (v : ℕ) × (m' : Machine G) × (receive_byte hw n huart m ≡ some (v, m'))
        × Got (shown (rx_of huart)) m [] (v ∷ []) p (record m' { mem = set_byte m'.mem p (u8 v) })
  receive_byte_lem zero p m h = absurd h
  receive_byte_lem (suc n) p m h =
      let v = hw.value m.log (rx_of huart) in
      let m₁ : Machine G = record m { log = read (rx_of huart) v ∷ m.log } in
      elim (Bool-cases (is_clear (u16 v) uart_rx_empty)) [
        | inl empty ↦
            let (w, m', e, g) = receive_byte_lem n p m₁ (rw empty at h) in
            (
              w,
              m',
              receive_byte-again n m empty ∙ e,
              record {
                wrote = g.wrote;
                heard = g.heard ∙ ap (λ l. w ∷ l) (ground arith);
                mem = g.mem;
                app = g.app;
                cpu = g.cpu;
              },
            )
        | inr full ↦ (
          u16 v,
          m₁,
          receive_byte-shown n m full,
          record { wrote = refl; heard = ground arith; mem = refl; app = refl; cpu = refl },
        )
      ]

  -- Where a byte is shown within the polls of a wait loop, whatever came before, `UART_Receive`
  -- returns. The values with a byte that it read from the receive register are as many as the size
  -- and are, in order and each as a byte, what the buffer holds, if the buffer does not run past
  -- the end of memory. It has written no register, and no memory but the buffer.
  pub uart_receive-Got :
      (n buf : ℕ) (m : Machine G)
      → ((l : List Access) → ShowsIn hw (rx_of huart) hw.polls l)
      → (vs : List ℕ) × (m' : Machine G) × (length vs ≡ n)
        × (uart_receive hw n huart buf m ≡ some (tt, m'))
        × Got (shown (rx_of huart)) m [] vs buf m'
  unfolding uart_receive
  uart_receive-Got zero buf m shows =
      ([], m, refl, refl, record { wrote = refl; heard = refl; mem = refl; app = refl; cpu = refl })
  uart_receive-Got (suc n) buf m shows =
      let (v, m₁, e₁, g₁) = receive_byte_lem hw.polls buf m (shows m.log) in
      let (vs, m₂, len, e₂, g₂) =
        uart_receive-Got n (next buf) (record m₁ { mem = set_byte m₁.mem buf (u8 v) }) shows in
      (v ∷ vs, m₂, ap suc len, rw (e₁, ◌>>=◌) e₂, Got-cons (shown (rx_of huart)) g₁ g₂)

  -- On a peripheral that shows a byte within the polls of a wait loop, whatever came before,
  -- `UART_Receive` into a buffer that does not run past the end of memory returns. The buffer then
  -- holds the low 8 bits of the values with a byte that were read from the receive register, in
  -- order, as many as its size, and no register was written.
  pub uart_receive_lem :
      (n buf : ℕ) (m : Machine G)
      → ((l : List Access) → ShowsIn hw (rx_of huart) hw.polls l)
      → buf + n ≤ 2 ^ 32
      → (vs : List ℕ) × (m' : Machine G) × (uart_receive hw n huart buf m ≡ some (tt, m'))
        × (bytes m'.mem n buf ≡ map u8 vs)
        × (shown (rx_of huart) m'.log ≡ latest_first vs ++ shown (rx_of huart) m.log)
        × (writes m'.log ≡ writes m.log)
  uart_receive_lem n buf m shows fits =
      let (vs, m', len, e, g) = uart_receive-Got n buf m shows in
      (vs, m', e, bytes-Got (shown (rx_of huart)) n g len fits, g.heard, g.wrote)
