-- ===== src/I2c/Blocking/Traffic.antt =====
-- What the functions that wait send and hear through the data register of the core, whatever the
-- hardware answers, if they return.
use mlab_mcu_edu.Prelude.{
  ℕ, zero, suc, ◌≡◌, refl, ap, sym, subst, ◌∙◌, append_assoc, List, [], ◌∷◌, ◌++◌, replicate,
  length, Bool, true, false, ◌==◌, if◌then◌else◌, bit_and, bit_or, u8, arith,
}
use mlab_mcu_edu.Machine.{Access, read, write, Hardware, Machine, Cmd, pure, next}
use mlab_mcu_edu.Machine.Runs.{written}
use mlab_mcu_edu.Machine.Buffers.{bytes, fill, set_byte, reads_of, latest_first}
use mlab_mcu_edu.Machine.Keeps.{Ensures, Ensures->>=, Ensures-map}
use mlab_mcu_edu.Machine.Traffic.{Moved, Moved-trans, Inert, Inert-wait_clear}
use mlab_mcu_edu.I2c.{
  I2cHandle, ready, csr, trxr, i2c_tip, i2c_sta, i2c_wr, i2c_sto, i2c_rd, i2c_ack, wait_tip,
}
use mlab_mcu_edu.I2c.Blocking.{
  send_byte, read_byte, send_address, send_data, transmit, master_transmit, receive_data, receive,
  master_receive,
}

replicate-snoc : (n b : ℕ) → replicate (suc n) b ++ (b ∷ []) ≡ replicate (suc (suc n)) b
replicate-snoc zero b = refl
replicate-snoc (suc n) b = ap (λ l. b ∷ l) (replicate-snoc n b)

other_reg : (regs : ℕ) → (trxr regs == csr regs) ≡ false
other_reg regs = ground arith

sends_byte :
    (regs flags byte : ℕ) (l : List Access)
    → written (trxr regs) (write (csr regs) flags ∷ write (trxr regs) byte ∷ l)
      ≡ byte ∷ written (trxr regs) l
sends_byte regs flags byte l = ground arith

module _ {G : Type 0} (hw : Hardware) (i2c : I2cHandle) where
  wait_tip-Inert : Inert {G = G} (trxr i2c.regs) (wait_tip hw i2c)
  wait_tip-Inert = Inert-wait_clear (trxr i2c.regs) hw (csr i2c.regs) i2c_tip (other_reg i2c.regs)

  send_byte-Moved :
      (byte flags : ℕ) (m : Machine G)
      → Ensures (λ _ m'. Moved (trxr i2c.regs) (byte ∷ []) [] m m') (send_byte hw i2c byte flags m)
  unfolding send_byte
  send_byte-Moved byte flags m =
      let m₁ : Machine G = record m {
        log = write (csr i2c.regs) flags ∷ write (trxr i2c.regs) byte ∷ m.log;
      } in
      let first : Moved (trxr i2c.regs) (byte ∷ []) [] m m₁ = record {
        wrote = sends_byte i2c.regs flags byte m.log;
        heard = refl;
        mem = refl;
      } in
      Ensures->>= (λ _ m'. Moved (trxr i2c.regs) [] [] m₁ m')
        (λ _ m'. Moved (trxr i2c.regs) (byte ∷ []) [] m m') (wait_tip hw i2c) _ m₁
        (wait_tip-Inert.inert m₁)
        (λ _ m₂ s.
          let t = Moved-trans (trxr i2c.regs) first s in
          record { wrote = t.wrote; heard = rw (other_reg i2c.regs) t.heard; mem = t.mem })

  send_address-Moved :
      (n byte : ℕ) (m : Machine G)
      → Ensures
          (λ _ m'. (k : ℕ) × Moved (trxr i2c.regs) (replicate (suc k) byte) [] m m')
          (send_address hw n i2c byte m)
  unfolding send_address
  send_address-Moved zero byte m = tt
  send_address-Moved (suc n) byte m =
      Ensures->>= (λ _ m'. Moved (trxr i2c.regs) (byte ∷ []) [] m m')
        (λ _ m'. (k : ℕ) × Moved (trxr i2c.regs) (replicate (suc k) byte) [] m m')
        (send_byte hw i2c byte (bit_or i2c_sta i2c_wr)) _ m
        (send_byte-Moved byte (bit_or i2c_sta i2c_wr) m)
        (λ r m₁ s. again n byte (r == 0) m m₁ s (send_address-Moved n byte m₁))
    where
      again :
          (n byte : ℕ) (b : Bool) (m m₁ : Machine G)
          → Moved (trxr i2c.regs) (byte ∷ []) [] m m₁
          → Ensures
              (λ _ m'. (k : ℕ) × Moved (trxr i2c.regs) (replicate (suc k) byte) [] m₁ m')
              (send_address hw n i2c byte m₁)
          → Ensures
              (λ _ m'. (k : ℕ) × Moved (trxr i2c.regs) (replicate (suc k) byte) [] m m')
              ((elim b as (λ _. Cmd G (Unit {0})) [
                | true ↦ pure tt
                | false ↦ send_address hw n i2c byte
              ])
                m₁)
      again n byte true m m₁ s t = (0, s)
      again n byte false m m₁ s t = Ensures-map (send_address hw n i2c byte m₁) t (λ _ m' (k, u). (
        suc k,
        subst (λ ws. Moved (trxr i2c.regs) ws [] m m') (replicate-snoc k byte)
            (Moved-trans (trxr i2c.regs) s u),
      ))

  send_data-Moved :
      (n buf : ℕ) (m : Machine G)
      → Ensures
          (λ _ m'. Moved (trxr i2c.regs) (latest_first (bytes m.mem n buf)) [] m m')
          (send_data hw n i2c buf m)
  unfolding send_data
  send_data-Moved zero buf m = record { wrote = refl; heard = refl; mem = refl }
  send_data-Moved (suc n) buf m =
      let flags = if n == 0 then bit_or i2c_wr i2c_sto else i2c_wr in
      let b = m.mem buf in
      Ensures->>= (λ _ m'. Moved (trxr i2c.regs) (b ∷ []) [] m m')
        (λ _ m'. Moved (trxr i2c.regs) (latest_first (bytes m.mem (suc n) buf)) [] m m')
        (send_byte hw i2c b flags) _ m (send_byte-Moved b flags m)
        (λ _ m₁ s.
          Ensures-map (send_data hw n i2c (next buf) m₁) (send_data-Moved n (next buf) m₁)
            (λ _ m' t.
              subst
                (λ f.
                  Moved (trxr i2c.regs) (latest_first (bytes f n (next buf)) ++ (b ∷ [])) [] m m')
                s.mem (Moved-trans (trxr i2c.regs) s t)))

  master_transmit-ready :
      (dev_address buf size : ℕ) (m : Machine G)
      → i2c.state ≡ ready
      → transmit hw i2c dev_address buf size m ≡ master_transmit hw i2c dev_address buf size m
  unfolding master_transmit
  master_transmit-ready dev buf size m isReady = ground arith

  -- A transmission that returns has sent the address some times and then the buffer.
  pub master_transmit-Moved :
      (dev_address buf size : ℕ) (m : Machine G)
      → i2c.state ≡ ready
      → Ensures
          (λ _ m'.
            (k : ℕ) × Moved
              (trxr i2c.regs)
              (latest_first (bytes m.mem size buf) ++ replicate (suc k) (bit_and dev_address 0xFE))
              []
              m
              m')
          (master_transmit hw i2c dev_address buf size m)
  unfolding transmit
  master_transmit-Moved dev buf size m isReady =
      let a = bit_and dev 0xFE in
      let Q : Unit {0} → Machine G → Type 0 = λ _ m'.
        (k : ℕ) × Moved (trxr i2c.regs) (latest_first (bytes m.mem size buf) ++ replicate (suc k) a)
          [] m m' in
      subst (Ensures Q) (master_transmit-ready dev buf size m isReady) (
        Ensures->>= (λ _ m'. (k : ℕ) × Moved (trxr i2c.regs) (replicate (suc k) a) [] m m') Q
          (send_address hw hw.polls i2c a) _ m (send_address-Moved hw.polls a m)
          (λ _ m₁ (k, s).
            Ensures->>=
              (λ _ m'. Moved (trxr i2c.regs) (latest_first (bytes m₁.mem size buf)) [] m₁ m') Q
              (send_data hw size i2c buf) _ m₁ (send_data-Moved size buf m₁)
              (λ _ m₂ t.
                let u =
                  subst
                    (λ f.
                      Moved (trxr i2c.regs) (latest_first (bytes f size buf) ++ replicate (suc k) a)
                        [] m m₂)
                    s.mem (Moved-trans (trxr i2c.regs) s t) in
                (
                  k,
                  record { wrote = rw (other_reg i2c.regs) u.wrote; heard = u.heard; mem = u.mem },
                ))))

  -- `n` values were read, and stored from `p` on.
  pub record Fetched (n p : ℕ) (m m' : Machine G) : Type 0 where
    pub vs : List ℕ
    pub count : length vs ≡ n
    pub xs : List ℕ
    pub wrote : written (trxr i2c.regs) m'.log ≡ xs ++ written (trxr i2c.regs) m.log
    pub heard : reads_of (trxr i2c.regs) m'.log ≡ latest_first vs ++ reads_of (trxr i2c.regs) m.log
    pub mem : m'.mem ≡ fill m.mem p vs

  read_byte-Fetched :
      (flags : ℕ) (m : Machine G)
      → Ensures
          (λ b m'.
            (v : ℕ) × (b ≡ u8 v)
            × (written (trxr i2c.regs) m'.log ≡ written (trxr i2c.regs) m.log)
            × (reads_of (trxr i2c.regs) m'.log ≡ v ∷ reads_of (trxr i2c.regs) m.log)
            × (m'.mem ≡ m.mem))
          (read_byte hw i2c flags m)
  unfolding read_byte
  read_byte-Fetched flags m =
      let m₁ : Machine G = record m { log = write (csr i2c.regs) flags ∷ m.log } in
      let other = other_reg i2c.regs in
      Ensures->>= (λ _ m'. Moved (trxr i2c.regs) [] [] m₁ m')
        (λ b m'.
          (v : ℕ) × (b ≡ u8 v)
          × (written (trxr i2c.regs) m'.log ≡ written (trxr i2c.regs) m.log)
          × (reads_of (trxr i2c.regs) m'.log ≡ v ∷ reads_of (trxr i2c.regs) m.log)
          × (m'.mem ≡ m.mem))
        (wait_tip hw i2c) _ m₁ (wait_tip-Inert.inert m₁)
        (λ _ m₂ s.
          let v = hw.value m₂.log (trxr i2c.regs) in
          (
            v,
            refl,
            s.wrote ∙ quiet i2c.regs flags m.log,
            reads_one i2c.regs v m₂.log ∙ ap (λ l. v ∷ l) s.heard,
            s.mem,
          ))
    where
      quiet :
          (regs v : ℕ) (l : List Access)
          → written (trxr regs) (write (csr regs) v ∷ l) ≡ written (trxr regs) l
      quiet regs v l = ground arith

      reads_one :
          (regs v : ℕ) (l : List Access)
          → reads_of (trxr regs) (read (trxr regs) v ∷ l) ≡ v ∷ reads_of (trxr regs) l
      reads_one regs v l = ground arith

  receive_data-Fetched :
      (n p : ℕ) (m : Machine G) → Ensures (λ _ m'. Fetched n p m m') (receive_data hw n i2c p m)
  unfolding receive_data
  receive_data-Fetched zero p m = record {
    vs = [];
    count = refl;
    xs = [];
    wrote = refl;
    heard = refl;
    mem = refl;
  }
  receive_data-Fetched (suc n) p m =
      let flags = if n == 0 then bit_or i2c_rd i2c_ack else i2c_rd in
      let d = trxr i2c.regs in
      Ensures->>=
        (λ b m'.
          (v : ℕ) × (b ≡ u8 v)
          × (written d m'.log ≡ written d m.log)
          × (reads_of d m'.log ≡ v ∷ reads_of d m.log)
          × (m'.mem ≡ m.mem))
        (λ _ m'. Fetched (suc n) p m m') (read_byte hw i2c flags) _ m (read_byte-Fetched flags m)
        (λ b m₁ (v, e, w, h, same).
          let m₂ : Machine G = record m₁ { mem = set_byte m₁.mem p b } in
          Ensures-map (receive_data hw n i2c (next p) m₂) (receive_data-Fetched n (next p) m₂)
            (λ _ m' t. record {
              vs = v ∷ t.vs;
              count = ap suc t.count;
              xs = t.xs;
              wrote = t.wrote ∙ ap (λ l. t.xs ++ l) w;
              heard =
                  t.heard
                  ∙ ap (λ l. latest_first t.vs ++ l) h
                  ∙ sym (append_assoc (latest_first t.vs) (v ∷ []) (reads_of d m.log));
              mem = t.mem ∙ (λ i. fill (set_byte (same i) p (e i)) (next p) t.vs);
            }))

  master_receive-ready :
      (dev_address buf size : ℕ) (m : Machine G)
      → i2c.state ≡ ready
      → receive hw i2c dev_address buf size m ≡ master_receive hw i2c dev_address buf size m
  unfolding master_receive
  master_receive-ready dev buf size m isReady = ground arith

  -- A reception that returns has read the values last, and stored them.
  pub master_receive-Fetched :
      (dev_address buf size : ℕ) (m : Machine G)
      → i2c.state ≡ ready
      → Ensures (λ _ m'. Fetched size buf m m') (master_receive hw i2c dev_address buf size m)
  unfolding receive
  master_receive-Fetched dev buf size m isReady =
      let a = bit_or dev 0x01 in
      let Q : Unit {0} → Machine G → Type 0 = λ _ m'. Fetched size buf m m' in
      subst (Ensures Q) (master_receive-ready dev buf size m isReady) (
        Ensures->>= (λ _ m'. (k : ℕ) × Moved (trxr i2c.regs) (replicate (suc k) a) [] m m') Q
          (send_address hw hw.polls i2c a) _ m (send_address-Moved hw.polls a m)
          (λ _ m₁ (k, s).
            Ensures->>= (λ _ m'. Fetched size buf m₁ m') Q (receive_data hw size i2c buf) _ m₁
              (receive_data-Fetched size buf m₁)
              (λ _ m₂ t. record {
                vs = t.vs;
                count = t.count;
                xs = t.xs ++ replicate (suc k) a;
                wrote = rw (other_reg i2c.regs) (
                    t.wrote
                    ∙ ap (λ l. t.xs ++ l) s.wrote
                    ∙ sym
                        (append_assoc t.xs (replicate (suc k) a) (written (trxr i2c.regs) m.log)));
                heard = t.heard ∙ ap (λ l. latest_first t.vs ++ l) s.heard;
                mem = t.mem ∙ ap (λ f. fill f buf t.vs) s.mem;
              })))
