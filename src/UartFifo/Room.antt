-- ===== src/UartFifo/Room.antt =====
-- The FIFOs against their status: what the status register last showed, less what went through since.
use mlab_mcu_edu.Prelude.{
  ℕ, zero, suc, ◌-◌, ◌<◌, ◌≤◌, ◌≡◌, List, [], ◌∷◌, arith, u8, ◌==◌, if◌then◌else◌,
}
use mlab_mcu_edu.Machine.{Access, read, write, Hardware, Machine, next}
use mlab_mcu_edu.Machine.Keeps.{Ensures, Ensures->>=}
use mlab_mcu_edu.Machine.Buffers.{set_byte}
use mlab_mcu_edu.Uart.{pred16}
use mlab_mcu_edu.UartFifo.{
  FifoHandle, fifo_tx_data, fifo_rx_data, fifo_status, free_spaces, valid_data, fill_fifo,
  transmit_rounds, drain_fifo, receive_rounds,
}

-- The room that is known of in the transmit FIFO: the free spaces at the last look, less the bytes
-- written since.
abbrev pub room_known : (r : ℕ) → List Access → ℕ
room_known r [] = 0
room_known r (read a v ∷ l) = if fifo_status r == a then free_spaces v else room_known r l
room_known r (write a v ∷ l) = if fifo_tx_data r == a then room_known r l - 1 else room_known r l

-- Each byte was written when there was room for it.
abbrev pub Paced : (r : ℕ) → List Access → Type 0
Paced r [] = Unit
Paced r (read a v ∷ l) = Paced r l
Paced r (write a v ∷ l) =
    if fifo_tx_data r == a then ((0 < room_known r l) × Paced r l) else Paced r l

-- The bytes that are known of in the receive FIFO: those at the last look, less those read since.
abbrev pub data_known : (r : ℕ) → List Access → ℕ
data_known r [] = 0
data_known r (read a v ∷ l) =
    if fifo_status r == a
    then valid_data v
    else if fifo_rx_data r == a
    then data_known r l - 1
    else data_known r l
data_known r (write a v ∷ l) = data_known r l

-- Each byte was read when there was one.
abbrev pub Present : (r : ℕ) → List Access → Type 0
Present r [] = Unit
Present r (read a v ∷ l) =
    if fifo_rx_data r == a then ((0 < data_known r l) × Present r l) else Present r l
Present r (write a v ∷ l) = Present r l

Paced-write :
    (r v : ℕ) (l : List Access)
    → 0 < room_known r l
    → Paced r l
    → Paced r (write (fifo_tx_data r) v ∷ l)
Paced-write r v l pos p = ground (arith, pos, p)

room-write :
    (r v : ℕ) (l : List Access) → room_known r (write (fifo_tx_data r) v ∷ l) ≡ room_known r l - 1
room-write r v l = ground arith

room-look : (r v : ℕ) (l : List Access) → room_known r (read (fifo_status r) v ∷ l) ≡ free_spaces v
room-look r v l = ground arith

data-look : (r v : ℕ) (l : List Access) → data_known r (read (fifo_status r) v ∷ l) ≡ valid_data v
data-look r v l = ground arith

data-read :
    (r v : ℕ) (l : List Access) → data_known r (read (fifo_rx_data r) v ∷ l) ≡ data_known r l - 1
data-read r v l = ground arith

Present-look : (r v : ℕ) (l : List Access) → Present r l → Present r (read (fifo_status r) v ∷ l)
Present-look r v l p = ground (arith, p)

Present-read :
    (r v : ℕ) (l : List Access)
    → 0 < data_known r l
    → Present r l
    → Present r (read (fifo_rx_data r) v ∷ l)
Present-read r v l pos p = ground (arith, pos, p)

module _ {G : Type 0} (huart : FifoHandle) where
  fill_fifo-Paced :
      (room size p : ℕ) (m : Machine G)
      → room ≤ room_known huart.instance_addr m.log
      → Paced huart.instance_addr m.log
      → Ensures (λ _ m'. Paced huart.instance_addr m'.log) (fill_fifo room size huart p m)
  unfolding fill_fifo
  fill_fifo-Paced zero size p m le h = h
  fill_fifo-Paced (suc room) zero p m le h = h
  fill_fifo-Paced (suc room) (suc size) p m le h =
      let r = huart.instance_addr in
      let v = m.mem p in
      let m₁ : Machine G = record m { log = write (fifo_tx_data r) v ∷ m.log } in
      fill_fifo-Paced room size (next p) m₁ (omega (arith, room-write r v m.log))
        (Paced-write r v m.log (omega arith) h)

  module _ (hw : Hardware) where
    abbrev looked : Machine G → Machine G
    looked m = record m {
      log =
          read (fifo_status huart.instance_addr) (hw.value m.log (fifo_status huart.instance_addr))
          ∷ m.log;
    }

    pub transmit_rounds-Paced :
        (n size p : ℕ) (m : Machine G)
        → Paced huart.instance_addr m.log
        → Ensures (λ _ m'. Paced huart.instance_addr m'.log) (transmit_rounds hw n size huart p m)
    unfolding transmit_rounds
    transmit_rounds-Paced zero zero p m h = h
    transmit_rounds-Paced (suc n) zero p m h = h
    transmit_rounds-Paced zero (suc size) p m h = tt
    transmit_rounds-Paced (suc n) (suc size) p m h =
        let r = huart.instance_addr in
        let v = hw.value m.log (fifo_status r) in
        let P : ℕ × ℕ → Machine G → Type 0 = λ _ m'. Paced r m'.log in
        let Q : Unit {0} → Machine G → Type 0 = λ _ m'. Paced r m'.log in
        Ensures->>= P Q (fill_fifo (free_spaces v) (suc size) huart p) _ (looked m)
          (fill_fifo-Paced (free_spaces v) (suc size) p (looked m)
            (omega (arith, room-look r v m.log)) h)
          (λ rest m' h'. transmit_rounds-Paced n rest.1 rest.0 m' h')

    drain_fifo-Present :
        (n size p : ℕ) (m : Machine G)
        → n ≤ data_known huart.instance_addr m.log
        → Present huart.instance_addr m.log
        → Ensures (λ _ m'. Present huart.instance_addr m'.log) (drain_fifo hw n size huart p m)
    unfolding drain_fifo
    drain_fifo-Present zero size p m le h = h
    drain_fifo-Present (suc n) size p m le h =
        let r = huart.instance_addr in
        let v = hw.value m.log (fifo_rx_data r) in
        let m₁ : Machine G = record m {
          log = read (fifo_rx_data r) v ∷ m.log;
          mem = set_byte m.mem p (u8 v);
        } in
        drain_fifo-Present n (pred16 size) (next p) m₁ (omega (arith, data-read r v m.log))
          (Present-read r v m.log (omega arith) h)

    pub receive_rounds-Present :
        (n size p : ℕ) (m : Machine G)
        → Present huart.instance_addr m.log
        → Ensures (λ _ m'. Present huart.instance_addr m'.log) (receive_rounds hw n size huart p m)
    unfolding receive_rounds
    receive_rounds-Present zero zero p m h = h
    receive_rounds-Present (suc n) zero p m h = h
    receive_rounds-Present zero (suc size) p m h = tt
    receive_rounds-Present (suc n) (suc size) p m h =
        let r = huart.instance_addr in
        let v = hw.value m.log (fifo_status r) in
        let P : ℕ × ℕ → Machine G → Type 0 = λ _ m'. Present r m'.log in
        let Q : Unit {0} → Machine G → Type 0 = λ _ m'. Present r m'.log in
        Ensures->>= P Q (drain_fifo hw (valid_data v) (suc size) huart p) _ (looked m)
          (drain_fifo-Present (valid_data v) (suc size) p (looked m)
            (omega (arith, data-look r v m.log)) (Present-look r v m.log h))
          (λ rest m' h'. receive_rounds-Present n rest.1 rest.0 m' h')
