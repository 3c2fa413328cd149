-- ===== src/Apps/Calculator/Round.antt =====
-- What a round of the calculator says and hears.
use mlab_mcu_edu.Prelude.{
  ℕ, ◌≡◌, refl, ap, ◌∙◌, some, List, [], ◌∷◌, ◌++◌, arith, u8, ◌+◌, ◌%◌, ◌^◌, ◌<◌, Bool-cases, inl,
  inr, ◌==◌, if◌then◌else◌,
}
use mlab_mcu_edu.Machine.{Access, Hardware, Machine, ◌>>=◌}
use mlab_mcu_edu.Machine.Runs.{writes}
use mlab_mcu_edu.Machine.Buffers.{bytes, fill, sent_log, set_byte}
use mlab_mcu_edu.Uart.{UartHandle, ready}
use mlab_mcu_edu.Uart.Blocking.Transmission.{EndsTransmissions, tx_of}
use mlab_mcu_edu.Uart.Blocking.Reception.{ShowsIn, shown, rx_of}
use mlab_mcu_edu.Apps.Calculator.{
  Newlib, Addresses, sign_extend, answer, number, print, calculator_round,
}
use mlab_mcu_edu.Apps.Calculator.Talk.{
  Layout, transcript, number_in, same_transcript, Talk, Talk-trans, says, asks,
}

-- The answer to `a op b`: for 0x2B, a plus, the sum modulo 256; for 0x2D, a minus, the byte that
-- gives `a` modulo 256 when `b` is added; for another byte what was there before.
abbrev pub IsAnswer : (junk op a b ans : ℕ) → Type 0
IsAnswer junk op a b ans =
    if op == 0x2B
    then ans ≡ (a + b) % 2 ^ 8
    else if op == 0x2D
    then (ans < 2 ^ 8) × ((ans + b) % 2 ^ 8 ≡ a % 2 ^ 8)
    else ans ≡ junk % 2 ^ 8

answer-IsAnswer : (junk op a b : ℕ) → b < 2 ^ 8 → IsAnswer junk op a b (answer junk op a b)
unfolding answer
answer-IsAnswer junk op a b h = elim (Bool-cases (op == 0x2B)) [
  | inl plus ↦ rw plus refl
  | inr other ↦ elim (Bool-cases (op == 0x2D)) [
    | inl minus ↦ rw (other, minus) (omega arith, omega arith)
    | inr neither ↦ rw (other, neither) refl
  ]
]

module _ {G : Type 0} (hw : Hardware) (lib : Newlib) (at : Addresses) (huart : UartHandle)
    (ends : EndsTransmissions hw huart.instance_addr) (isReady : huart.g_state ≡ ready)
    (shows : (l : List Access) → ShowsIn hw (rx_of huart) hw.polls l) (layout : Layout at) where
  -- A round of the calculator returns, for a UART whose transmissions end and which shows a byte
  -- within the polls of a wait loop, and texts that lie apart from `receive`. It hears three bytes. It
  -- says the first prompt, "Entered " and the first byte heard, the same for the second and the third,
  -- then "Result " and three bytes of `toPrint`, which holds the text of the answer: the sum of the two
  -- numbers for a plus and their difference for a minus, modulo 256 and read with its sign; for any other
  -- byte what `ans` held before. What lies behind the text in `toPrint` is sent with it.
  pub calculator_round_lem :
      (junk : ℕ) (m : Machine G)
      → (v₁ v₂ v₃ : ℕ) × (m' : Machine G) × (calculator_round hw lib at huart junk m
          ≡ some (tt, m'))
        × (shown (rx_of huart) m'.log ≡ v₃ ∷ v₂ ∷ v₁ ∷ shown (rx_of huart) m.log)
        × (ans : ℕ) × IsAnswer junk
            (u8 v₃)
            (number_in lib at (set_byte m.mem at.receive (u8 v₁)))
            (number_in lib at (set_byte (set_byte m.mem at.receive (u8 v₁)) at.receive (u8 v₂)))
            ans
        × (m'.mem
            ≡ fill
                (set_byte
                  (set_byte (set_byte m.mem at.receive (u8 v₁)) at.receive (u8 v₂))
                  at.receive
                  (u8 v₃))
                at.to_print
                (lib.itoa (sign_extend ans)))
        × (writes m'.log
            ≡ sent_log (tx_of huart) (transcript at m.mem v₁ v₂ v₃ (bytes m'.mem 3 at.to_print))
              ++ writes m.log)
  unfolding calculator_round number print
  calculator_round_lem junk m =
      let (v₁, m₁, e₁, t₁) =
        asks hw lib at huart ends isReady shows layout at.enter_1st 18 m.mem m layout.enter_1st
          (omega arith) refl in
      let mem₁ = set_byte m.mem at.receive (u8 v₁) in
      let (v₂, m₂, e₂, t₂) =
        asks hw lib at huart ends isReady shows layout at.enter_2nd 18 mem₁ m₁ layout.enter_2nd.0
          (omega arith) t₁.left in
      let mem₂ = set_byte mem₁ at.receive (u8 v₂) in
      let (v₃, m₃, e₃, t₃) =
        asks hw lib at huart ends isReady shows layout at.enter_operation 17 mem₂ m₂
          layout.enter_operation.0 (omega arith) t₂.left in
      let mem₃ = set_byte mem₂ at.receive (u8 v₃) in
      let (m₄, e₄, t₄) =
        says hw lib at huart ends isReady shows layout at.result 8 mem₃ m₃ layout.result.0
          (omega arith) t₃.left in
      let num₁ = number_in lib at m₁.mem in
      let num₂ = number_in lib at m₂.mem in
      let text = lib.itoa (sign_extend (answer junk (m₄.mem at.receive) num₁ num₂)) in
      let m₅ : Machine G = record m₄ { mem = fill m₄.mem at.to_print text } in
      let (m₆, e₆, t₆) =
        says hw lib at huart ends isReady shows layout at.to_print 3 m₅.mem m₅ layout.to_print
          (omega arith) refl in
      let t : Talk huart m₄ (bytes m₅.mem 3 at.to_print) [] m₅.mem m₆ = record {
        said = t₆.said;
        heard = t₆.heard;
        left = t₆.left;
      } in
      let all =
        Talk-trans huart t₁ (Talk-trans huart t₂ (Talk-trans huart t₃ (Talk-trans huart t₄ t))) in
      let op : m₄.mem at.receive ≡ u8 v₃ = ap (λ f. f at.receive) t₄.left ∙ ground arith in
      (
        v₁,
        v₂,
        v₃,
        m₆,
        rw (e₁, ◌>>=◌) (rw (e₂, ◌>>=◌) (rw (e₃, ◌>>=◌) (rw (e₄, ◌>>=◌) e₆))),
        all.heard,
        answer junk (u8 v₃) (number_in lib at mem₁) (number_in lib at mem₂),
        answer-IsAnswer junk (u8 v₃) (number_in lib at mem₁) (number_in lib at mem₂) (omega arith),
        t₆.left ∙ (λ i. fill (t₄.left i) at.to_print (
            lib.itoa (
              sign_extend (
                answer junk (op i) (number_in lib at (t₁.left i))
                  (number_in lib at (t₂.left i)))))),
        all.said
            ∙ ap (λ l. sent_log (tx_of huart) l ++ writes m.log)
                (same_transcript at layout m.mem (u8 v₁) (u8 v₂) (u8 v₃) v₁ v₂ v₃
                  (bytes m₅.mem 3 at.to_print) (bytes m₆.mem 3 at.to_print)
                  (ap (λ f. bytes f 3 at.to_print) t₆.left)),
      )
