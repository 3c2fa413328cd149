-- ===== src/Machine.antt =====
-- The microcontroller as the drivers see it. Peripheral registers are memory mapped and `volatile`:
-- each access is recorded in a log, and what a read returns is a function of the accesses before
-- it: the hardware, a parameter. Buffers are bytes of a flat memory, reached by pointers.
-- A command runs from a machine to a result; `none` is a wait loop that has used up its polls.
pub mod Runs
pub mod Waits
pub mod Traffic
pub mod Buffers
pub mod Series
pub mod Got
pub mod Keeps
pub mod Unseen
use mlab_mcu_edu.Prelude.{
  ℕ, zero, suc, ◌+◌, Option, none, some, List, ◌∷◌, true, false, u32, not32, is_clear, bit_and,
  bit_or, ◌==◌, if◌then◌else◌,
}

pub data Access : Type 0 where
  read : (address value : ℕ) → Access
  write : (address value : ℕ) → Access

-- What a `volatile` read returns, from the accesses before it (the latest first) and the address.
-- `polls` is the number of reads that a wait loop of a driver is given.
pub record Hardware : Type 0 where
  pub value : List Access → ℕ → ℕ
  pub polls : ℕ

-- The control and status registers of the core that the software uses.
pub record Cpu : Type 0 where
  pub mie : ℕ
  pub mstatus : ℕ
  pub mepc : ℕ

-- `log` holds the accesses, the latest first; `app` holds the globals of the application.
pub record Machine (G : Type 0) : Type 0 where
  pub log : List Access
  pub mem : ℕ → ℕ
  pub cpu : Cpu
  pub app : G

abbrev pub Cmd : Type 0 → Type 0 → Type 0
Cmd G A = Machine G → Option (A × Machine G)

abbrev pub pure : {G A : Type 0} → A → Cmd G A
pure a m = some (a, m)

infixl 5 ◌>>=◌ ◌>>◌
abbrev pub ◌>>=◌ : {G A B : Type 0} → Cmd G A → (A → Cmd G B) → Cmd G B
◌>>=◌ c f m = elim (c m) [ none ↦ none | some (a, m') ↦ f a m' ]

abbrev pub ◌>>◌ : {G B : Type 0} → Cmd G (Unit {0}) → Cmd G B → Cmd G B
c >> d = c >>= λ _. d

-- `*reg = v`
abbrev pub store : {G : Type 0} → ℕ → ℕ → Cmd G (Unit {0})
store a v m = some (tt, record m { log = write a v ∷ m.log })

-- `*p = v` and `*p` on a buffer of bytes.
abbrev pub poke : {G : Type 0} → ℕ → ℕ → Cmd G (Unit {0})
poke p v m = some (tt, record m { mem = λ q. if p == q then v else m.mem q })

abbrev pub peek : {G : Type 0} → ℕ → Cmd G ℕ
peek p m = some (m.mem p, m)

-- `csrs mie, bits` and `csrc mie, bits`
abbrev pub set_mie : {G : Type 0} → ℕ → Cmd G (Unit {0})
set_mie bits m = some (tt, record m { cpu = record (m.cpu) { mie = bit_or m.cpu.mie bits } })

abbrev pub clear_mie : {G : Type 0} → ℕ → Cmd G (Unit {0})
clear_mie bits m =
    some (tt, record m { cpu = record (m.cpu) { mie = bit_and m.cpu.mie (not32 bits) } })

-- The globals of the application, read and assigned.
abbrev pub get_app : {G : Type 0} → Cmd G G
get_app m = some (m.app, m)

abbrev pub put_app : {G : Type 0} → G → Cmd G (Unit {0})
put_app g m = some (tt, record m { app = g })

-- `p++` on a 32-bit pointer to bytes.
abbrev pub next : ℕ → ℕ
next p = u32 (p + 1)

module _ {G : Type 0} (hw : Hardware) where
  -- `*reg`
  abbrev pub load : ℕ → Cmd G ℕ
  load a m = some (hw.value m.log a, record m { log = read a (hw.value m.log a) ∷ m.log })

  -- `while (*reg & mask);` with `n` reads at most.
  unfoldable pub poll_clear : ℕ → ℕ → ℕ → Cmd G (Unit {0})
  poll_clear zero a mask m = none
  poll_clear (suc n) a mask m =
      let v = hw.value m.log a in
      let m' = record m { log = read a v ∷ m.log } in
      elim (is_clear v mask) [ true ↦ some (tt, m') | false ↦ poll_clear n a mask m' ]

  unfoldable pub wait_clear : ℕ → ℕ → Cmd G (Unit {0})
  wait_clear = poll_clear hw.polls

  -- `*reg |= bits`, `*reg &= ~bits` and `*reg ^= bits` are a read and a write.
  abbrev pub update : ℕ → (ℕ → ℕ) → Cmd G (Unit {0})
  update a f = do v ← load a; store a (f v)
