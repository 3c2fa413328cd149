-- ===== src/Apps/Calculator/Talk.antt =====
-- What the calculator says and hears: prompts, bytes and echoes.
use mlab_mcu_edu.Prelude.{
  ℕ, ◌+◌, ◌^◌, ◌<◌, ◌≤◌, ◌≡◌, ◌⊎◌, refl, ap, ap₂, sym, ◌∙◌, some, List, [], ◌∷◌, ◌++◌, append_assoc,
  length, arith, u8,
}
use mlab_mcu_edu.Machine.{Access, Hardware, Machine, ◌>>=◌}
use mlab_mcu_edu.Machine.Runs.{writes}
use mlab_mcu_edu.Machine.Buffers.{
  bytes, bytes-set_byte, fill, latest_first, latest_first-append, sent_log, sent_log-append,
  set_byte,
}
use mlab_mcu_edu.Machine.Keeps.{Ensures-result}
use mlab_mcu_edu.Uart.{UartHandle, ready}
use mlab_mcu_edu.Uart.Blocking.{uart_transmit, uart_receive}
use mlab_mcu_edu.Uart.Blocking.Transmission.{EndsTransmissions, tx_of, uart_transmit_lem}
use mlab_mcu_edu.Uart.Blocking.Reception.{ShowsIn, shown, rx_of, uart_receive-Got}
use mlab_mcu_edu.Uart.Blocking.Unheard.{uart_transmit-Unseen}
use mlab_mcu_edu.Apps.Calculator.{Newlib, Addresses, ask}

one_of : (vs : List ℕ) → length vs ≡ 1 → (v : ℕ) × (vs ≡ v ∷ [])
one_of [] e = absurd (omega arith)
one_of (v ∷ []) e = (v, refl)
one_of (v ∷ w ∷ vs) e = absurd (omega arith)

-- Texts that a reception of one byte at `receive` leaves alone.
abbrev pub Away : (p size receive : ℕ) → Type 0
Away p size receive = (0 < p) × (p + size ≤ 2 ^ 32) × ((p + size ≤ receive) ⊎ (receive < p))

pub record Layout (at : Addresses) : Type 0 where
  pub enter_1st : 0 < at.enter_1st
  pub entered : Away at.entered 8 at.receive
  pub enter_2nd : Away at.enter_2nd 18 at.receive
  pub enter_operation : Away at.enter_operation 17 at.receive
  pub result : Away at.result 8 at.receive
  pub receive : 0 < at.receive
  pub to_print : 0 < at.to_print

-- What is said when a byte is asked for and heard, and in a round.
abbrev pub asked : Addresses → (prompt size : ℕ) → (ℕ → ℕ) → ℕ → List ℕ
asked at prompt size mem v = bytes mem size prompt ++ (bytes mem 8 at.entered ++ (u8 v ∷ []))

abbrev pub transcript : Addresses → (ℕ → ℕ) → (v₁ v₂ v₃ : ℕ) → (printed : List ℕ) → List ℕ
transcript at mem v₁ v₂ v₃ printed =
    asked at at.enter_1st 18 mem v₁
    ++ (asked at at.enter_2nd 18 mem v₂
        ++ (asked at at.enter_operation 17 mem v₃ ++ (bytes mem 8 at.result ++ printed)))

-- The number that a byte in `receive` is read as.
abbrev pub number_in : Newlib → Addresses → (ℕ → ℕ) → ℕ
number_in lib at mem = u8 (lib.atoi mem at.receive)

asked-set_byte :
    (at : Addresses) (p size x v : ℕ) (mem : ℕ → ℕ)
    → Away p size at.receive
    → Away at.entered 8 at.receive
    → asked at p size (set_byte mem at.receive x) v ≡ asked at p size mem v
asked-set_byte at p size x v mem a b =
    ap₂ (λ s t. s ++ (t ++ (u8 v ∷ []))) (bytes-set_byte mem at.receive x size p a.1 a.2)
      (bytes-set_byte mem at.receive x 8 at.entered b.1 b.2)

-- The texts that come after a reception are those from before it.
pub same_transcript :
    (at : Addresses) (layout : Layout at) (mem : ℕ → ℕ) (x y z v₁ v₂ v₃ : ℕ) (out printed : List ℕ)
    → printed ≡ out
    → let mem₁ = set_byte mem at.receive x in
      let mem₂ = set_byte mem₁ at.receive y in
      let mem₃ = set_byte mem₂ at.receive z in
      asked at at.enter_1st 18 mem v₁
        ++ (asked at at.enter_2nd 18 mem₁ v₂
            ++ (asked at at.enter_operation 17 mem₂ v₃ ++ (bytes mem₃ 8 at.result ++ out)))
      ≡ transcript at mem v₁ v₂ v₃ printed
same_transcript at layout mem x y z v₁ v₂ v₃ out printed e =
    let r = at.receive in
    let mem₁ = set_byte mem r x in
    let mem₂ = set_byte mem₁ r y in
    let second : asked at at.enter_2nd 18 mem₁ v₂ ≡ asked at at.enter_2nd 18 mem v₂ =
      asked-set_byte at at.enter_2nd 18 x v₂ mem layout.enter_2nd layout.entered in
    let third : asked at at.enter_operation 17 mem₂ v₃ ≡ asked at at.enter_operation 17 mem v₃ =
      asked-set_byte at at.enter_operation 17 y v₃ mem₁ layout.enter_operation layout.entered
      ∙ asked-set_byte at at.enter_operation 17 x v₃ mem layout.enter_operation layout.entered in
    let kept : (f : ℕ → ℕ) (b : ℕ) → bytes (set_byte f r b) 8 at.result ≡ bytes f 8 at.result =
      λ f b. bytes-set_byte f r b 8 at.result layout.result.1 layout.result.2 in
    let last : bytes (set_byte mem₂ r z) 8 at.result ≡ bytes mem 8 at.result =
      kept mem₂ z ∙ kept mem₁ y ∙ kept mem x in
    λ i. asked at at.enter_1st 18 mem v₁ ++ (second i ++ (third i ++ (last i ++ sym e i)))

module _ {G : Type 0} (huart : UartHandle) where
  -- A run that said the text and heard the values, and left the memory `mem`.
  pub record Talk (m : Machine G) (text vs : List ℕ) (mem : ℕ → ℕ) (m' : Machine G) : Type 0 where
    pub said : writes m'.log ≡ sent_log (tx_of huart) text ++ writes m.log
    pub heard : shown (rx_of huart) m'.log ≡ latest_first vs ++ shown (rx_of huart) m.log
    pub left : m'.mem ≡ mem

  pub Talk-trans :
      {m m' m'' : Machine G} {text text' vs vs' : List ℕ} {mem mem' : ℕ → ℕ}
      → Talk m text vs mem m'
      → Talk m' text' vs' mem' m''
      → Talk m (text ++ text') (vs ++ vs') mem' m''
  Talk-trans {m} {text = text} {text'} {vs} {vs'} s t = record {
    said =
        t.said
        ∙ ap (λ l. sent_log (tx_of huart) text' ++ l) s.said
        ∙ sym (
            append_assoc (sent_log (tx_of huart) text') (sent_log (tx_of huart) text)
              (writes m.log))
        ∙ ap (λ l. l ++ writes m.log) (sym (sent_log-append (tx_of huart) text text'));
    heard =
        t.heard
        ∙ ap (λ l. latest_first vs' ++ l) s.heard
        ∙ sym (append_assoc (latest_first vs') (latest_first vs) (shown (rx_of huart) m.log))
        ∙ ap (λ l. l ++ shown (rx_of huart) m.log) (sym (latest_first-append vs vs'));
    left = t.left;
  }

module _ {G : Type 0} (hw : Hardware) (lib : Newlib) (at : Addresses) (huart : UartHandle)
    (ends : EndsTransmissions hw huart.instance_addr) (isReady : huart.g_state ≡ ready)
    (shows : (l : List Access) → ShowsIn hw (rx_of huart) hw.polls l) (layout : Layout at) where
  pub says :
      (buf size : ℕ) (mem : ℕ → ℕ) (m : Machine G)
      → 0 < buf
      → 0 < size
      → m.mem ≡ mem
      → (m' : Machine G) × (uart_transmit hw huart buf size m ≡ some (tt, m'))
        × Talk huart m (bytes mem size buf) [] mem m'
  says buf size mem m b s e =
      let (m', run, sent) = uart_transmit_lem hw huart ends buf size m isReady b s in
      let unheard =
        Ensures-result (λ _ m''. shown (rx_of huart) m''.log ≡ shown (rx_of huart) m.log)
          (uart_transmit hw huart buf size m) ((uart_transmit-Unseen hw huart buf size).unseen m)
          run in
      (
        m',
        run,
        record {
          said = sent.wrote ∙ ap (λ f. sent_log (tx_of huart) (bytes f size buf) ++ writes m.log) e;
          heard = unheard;
          left = sent.mem ∙ e;
        },
      )

  hears_one :
      (mem : ℕ → ℕ) (m : Machine G)
      → m.mem ≡ mem
      → (v : ℕ) × (m' : Machine G) × (uart_receive hw 1 huart at.receive m ≡ some (tt, m'))
        × Talk huart m [] (v ∷ []) (set_byte mem at.receive (u8 v)) m'
  hears_one mem m e =
      let (vs, m', len, run, got) = uart_receive-Got hw huart 1 at.receive m shows in
      let (v, one) = one_of vs len in
      (
        v,
        m',
        run,
        record {
          said = got.wrote;
          heard = got.heard ∙ ap (λ l. latest_first l ++ shown (rx_of huart) m.log) one;
          left =
              got.mem ∙ ap (fill m.mem at.receive) one ∙ ap (λ f. set_byte f at.receive (u8 v)) e;
        },
      )

  pub asks :
      (prompt size : ℕ) (mem : ℕ → ℕ) (m : Machine G)
      → 0 < prompt
      → 0 < size
      → m.mem ≡ mem
      → (v : ℕ) × (m' : Machine G) × (ask hw lib at huart prompt size m ≡ some (tt, m'))
        × Talk huart m (asked at prompt size mem v) (v ∷ []) (set_byte mem at.receive (u8 v)) m'
  unfolding ask
  asks prompt size mem m b s e =
      let (m₁, e₁, t₁) = says prompt size mem m b s e in
      let (v, m₂, e₂, t₂) = hears_one mem m₁ t₁.left in
      let mem₂ = set_byte mem at.receive (u8 v) in
      let (m₃, e₃, t₃) = says at.entered 8 mem₂ m₂ layout.entered.0 (omega arith) t₂.left in
      let (m₄, e₄, t₄) = says at.receive 1 mem₂ m₃ layout.receive (omega arith) t₃.left in
      let text : bytes mem₂ 8 at.entered ≡ bytes mem 8 at.entered =
        bytes-set_byte mem at.receive (u8 v) 8 at.entered layout.entered.1 layout.entered.2 in
      let echo : mem₂ at.receive ≡ u8 v = ground arith in
      let all = Talk-trans huart t₁ (Talk-trans huart t₂ (Talk-trans huart t₃ t₄)) in
      (
        v,
        m₄,
        rw (e₁, ◌>>=◌) (rw (e₂, ◌>>=◌) (rw (e₃, ◌>>=◌) e₄)),
        record {
          said =
              all.said
              ∙ ap₂
                  (λ x y.
                    sent_log (tx_of huart) (bytes mem size prompt ++ (x ++ (y ∷ [])))
                    ++ writes m.log)
                  text echo;
          heard = all.heard;
          left = all.left;
        },
      )
