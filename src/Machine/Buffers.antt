-- ===== src/Machine/Buffers.antt =====
-- Buffers of bytes in memory, and the values that a data register has been read for.
use mlab_mcu_edu.Prelude.{
  ℕ, zero, suc, ◌⊎◌, ◌-◌, ap, sym, append-nil, append_assoc, ◌+◌, ◌^◌, ◌≤◌, ◌<◌, ◌≡◌, refl, ap₂,
  ◌∙◌, List, [], ◌∷◌, ◌++◌, map, length, arith, u8, ◌==◌, if◌then◌else◌,
}
use mlab_mcu_edu.Machine.{Access, read, write, next}

-- `p++`, `n` times.
abbrev pub advance : ℕ → ℕ → ℕ
advance zero p = p
advance (suc n) p = advance n (next p)

pub advance_add : (a b p : ℕ) → advance b (advance a p) ≡ advance (a + b) p
advance_add zero b p = let e : b ≡ 0 + b = omega arith in ap (λ n. advance n p) e
advance_add (suc a) b p =
    let e : suc (a + b) ≡ suc a + b = omega arith in
    advance_add a b (next p) ∙ ap (λ n. advance n p) e

-- The `n` bytes from `p` on.
abbrev pub bytes : (ℕ → ℕ) → ℕ → ℕ → List ℕ
bytes mem zero p = []
bytes mem (suc n) p = mem p ∷ bytes mem n (next p)

abbrev pub set_byte : (ℕ → ℕ) → ℕ → ℕ → ℕ → ℕ
set_byte mem p v = λ q. if p == q then v else mem q

-- Memory after the values were stored from `p` on, each as a byte.
abbrev pub fill : (ℕ → ℕ) → ℕ → List ℕ → ℕ → ℕ
fill mem p [] = mem
fill mem p (v ∷ vs) = fill (set_byte mem p (u8 v)) (next p) vs

-- The values that the register at `a` was read for, the latest first.
abbrev pub reads_of : ℕ → List Access → List ℕ
reads_of a [] = []
reads_of a (read b v ∷ l) = if a == b then v ∷ reads_of a l else reads_of a l
reads_of a (write b v ∷ l) = reads_of a l

-- Values in order of time, as `reads_of` lists them.
abbrev pub latest_first : List ℕ → List ℕ
latest_first [] = []
latest_first (v ∷ vs) = latest_first vs ++ (v ∷ [])

-- The writes that send bytes through the register at `a` in order, the latest first.
abbrev pub sent_log : ℕ → List ℕ → List (ℕ × ℕ)
sent_log a [] = []
sent_log a (b ∷ bs) = sent_log a bs ++ ((a, b) ∷ [])

fill-below :
    (mem : ℕ → ℕ) (p q : ℕ) (vs : List ℕ) → q < p → p + length vs ≤ 2 ^ 32 → fill mem p vs q ≡ mem q
fill-below mem p q [] h k = refl
fill-below mem p q (v ∷ []) h k = ground arith
fill-below mem p q (v ∷ w ∷ vs) h k =
    fill-below (set_byte mem p (u8 v)) (next p) q (w ∷ vs) (omega arith) (omega arith)
    ∙ ground arith

-- A buffer that does not run past the end of memory holds what was stored, byte by byte.
pub bytes-fill :
    (mem : ℕ → ℕ) (p : ℕ) (vs : List ℕ)
    → p + length vs ≤ 2 ^ 32
    → bytes (fill mem p vs) (length vs) p ≡ map u8 vs
bytes-fill mem p [] h = refl
bytes-fill mem p (v ∷ []) h = ground arith
bytes-fill mem p (v ∷ w ∷ vs) h =
    ap₂ ◌∷◌
      (fill-below (set_byte mem p (u8 v)) (next p) p (w ∷ vs) (omega arith) (omega arith)
        ∙ ground arith)
      (bytes-fill (set_byte mem p (u8 v)) (next p) (w ∷ vs) (omega arith))

-- A buffer in two parts, and the writes that send it.
pub bytes-split :
    (mem : ℕ → ℕ) (a n p : ℕ)
    → a ≤ n
    → bytes mem n p ≡ bytes mem a p ++ bytes mem (n - a) (advance a p)
bytes-split mem zero n p h = ap (λ k. bytes mem k p) (omega arith)
bytes-split mem (suc a) zero p h = absurd (omega arith)
bytes-split mem (suc a) (suc n) p h =
    ap (λ bs. mem p ∷ bs)
      (bytes-split mem a n (next p) (omega arith)
        ∙ ap (λ k. bytes mem a (next p) ++ bytes mem k (advance a (next p))) (omega arith))

pub sent_log-append :
    (r : ℕ) (bs cs : List ℕ) → sent_log r (bs ++ cs) ≡ sent_log r cs ++ sent_log r bs
sent_log-append r [] cs = sym (append-nil (sent_log r cs))
sent_log-append r (b ∷ bs) cs =
    ap (λ l. l ++ ((r, b) ∷ [])) (sent_log-append r bs cs)
    ∙ append_assoc (sent_log r cs) (sent_log r bs) ((r, b) ∷ [])

pub sent_log-split :
    (r : ℕ) (mem : ℕ → ℕ) (a n p : ℕ)
    → a ≤ n
    → sent_log r (bytes mem n p)
      ≡ sent_log r (bytes mem (n - a) (advance a p)) ++ sent_log r (bytes mem a p)
sent_log-split r mem a n p h =
    ap (sent_log r) (bytes-split mem a n p h)
    ∙ sent_log-append r (bytes mem a p) (bytes mem (n - a) (advance a p))

-- Values in two parts: in order of time, in memory, and counted.
pub latest_first-append :
    (vs ws : List ℕ) → latest_first (vs ++ ws) ≡ latest_first ws ++ latest_first vs
latest_first-append [] ws = sym (append-nil (latest_first ws))
latest_first-append (v ∷ vs) ws =
    ap (λ l. l ++ (v ∷ [])) (latest_first-append vs ws)
    ∙ append_assoc (latest_first ws) (latest_first vs) (v ∷ [])

pub fill-append :
    (mem : ℕ → ℕ) (p : ℕ) (vs ws : List ℕ)
    → fill mem p (vs ++ ws) ≡ fill (fill mem p vs) (advance (length vs) p) ws
fill-append mem p [] ws = refl
fill-append mem p (v ∷ vs) ws = fill-append (set_byte mem p (u8 v)) (next p) vs ws

pub length-latest_first : (vs l : List ℕ) → length (latest_first vs ++ l) ≡ length vs + length l
length-latest_first [] l = omega arith
length-latest_first (v ∷ vs) l =
    ap length (append_assoc (latest_first vs) (v ∷ []) l)
    ∙ length-latest_first vs (v ∷ l)
    ∙ omega arith

-- A byte that is stored outside of a buffer leaves the buffer alone.
pub bytes-set_byte :
    (mem : ℕ → ℕ) (q v k p : ℕ)
    → p + k ≤ 2 ^ 32
    → (p + k ≤ q) ⊎ (q < p)
    → bytes (set_byte mem q v) k p ≡ bytes mem k p
bytes-set_byte mem q v zero p h out = refl
bytes-set_byte mem q v (suc zero) p h out = ground arith
bytes-set_byte mem q v (suc (suc k)) p h out =
    ap₂ ◌∷◌ (ground arith) (bytes-set_byte mem q v (suc k) (next p) (omega arith) (ground arith))
