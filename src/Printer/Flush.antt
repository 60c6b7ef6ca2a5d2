-- ===== src/Printer/Flush.antt =====
-- The write loop: what a writer that takes only a part at a time has been given.
use evm_firehose_tracer_go.Prelude.{
  ℕ, zero, suc, ◌+◌, ◌-◌, ◌≤◌, ◌<◌, ◌↔◌, ◌≡◌, refl, sym, ap, ◌∙◌, true, List, [], ◌∷◌, ◌++◌, length,
  take, drop, arith, inl, inr, List-cases, append_assoc, append-nil, total,
}
use evm_firehose_tracer_go.Prelude.Bytes.{Bytes}
use evm_firehose_tracer_go.Printer.{flush_loop}

abbrev pub sum : List ℕ → ℕ
sum ns = total (λ n. n) ns

length-drop : (n : ℕ) (p : Bytes) → length (drop n p) ≡ length p - n
length-drop zero p = omega arith
length-drop (suc n) [] = omega arith
length-drop (suc n) (x ∷ p) = omega (arith, length-drop n p)

take-nil : (m : ℕ) → take {A = ℕ} m [] ≡ []
take-nil zero = refl
take-nil (suc m) = refl

take-append-take-drop : (n m : ℕ) (p : Bytes) → take n p ++ take m (drop n p) ≡ take (n + m) p
take-append-take-drop zero m p = ap (λ k. take k p) (omega arith)
take-append-take-drop (suc n) m [] = take-nil m ∙ sym (take-nil (suc n + m))
take-append-take-drop (suc n) m (x ∷ p) =
    let shift : suc (n + m) ≡ suc n + m = omega arith in
    ap (λ q. x ∷ q) (take-append-take-drop n m p) ∙ ap (λ k. take k (x ∷ p)) shift

pub take_all : (n : ℕ) (p : Bytes) → length p ≤ n → take n p ≡ p
take_all zero [] h = refl
take_all zero (x ∷ p) h = absurd (omega arith)
take_all (suc n) [] h = refl
take_all (suc n) (x ∷ p) h = ap (λ q. x ∷ q) (take_all n p (omega arith))

module _ (attempts n : ℕ) (accepts : List ℕ) (payload written : Bytes) where
  flush_loop_done :
      drop n payload ≡ []
      → flush_loop (suc attempts) (n ∷ accepts) payload written ≡ (written ++ payload, true)
  unfolding flush_loop
  flush_loop_done e = rw (flush_loop, e) refl

  flush_loop_more :
      (b : ℕ) (rest : Bytes)
      → drop n payload ≡ b ∷ rest
      → flush_loop (suc attempts) (n ∷ accepts) payload written
        ≡ flush_loop attempts accepts (b ∷ rest) (written ++ take n payload)
  unfolding flush_loop
  flush_loop_more b rest e = rw (flush_loop, e) refl

-- Of a payload that is not empty, the writer has been given as much as it accepted at the
-- attempts made; the loop reports success exactly if that is all of it.
pub flush_loop_writes :
    (attempts : ℕ) (accepts : List ℕ) (payload written : Bytes)
    → 0 < length payload
    → ((flush_loop attempts accepts payload written).0
        ≡ written ++ take (sum (take attempts accepts)) payload)
      × (((flush_loop attempts accepts payload written).1 ≡ true)
          ↔ (length payload ≤ sum (take attempts accepts)))
unfolding flush_loop
flush_loop_writes zero accepts payload written h = ground (arith, append-nil written)
flush_loop_writes (suc attempts) [] payload written h = ground (arith, append-nil written)
flush_loop_writes (suc attempts) (n ∷ accepts) payload written h =
    let more = sum (take attempts accepts) in
    elim (List-cases (drop n payload)) [
      | inl e ↦
          let all =
            take_all (n + more) payload (omega (arith, length-drop n payload, ap length e)) in
          rw (flush_loop_done attempts n accepts payload written e)
            (ap (λ q. written ++ q) (sym all), ground (arith, length-drop n payload, ap length e))
      | inr (b, rest, e) ↦
          let (wrote, success) =
            flush_loop_writes attempts accepts (b ∷ rest) (written ++ take n payload)
              (omega arith) in
          rw (flush_loop_more attempts n accepts payload written b rest e) (
            wrote
                ∙ append_assoc written (take n payload) (take more (b ∷ rest))
                ∙ ap (λ q. written ++ q)
                    (ap (λ q. take n payload ++ take more q) (sym e)
                      ∙ take-append-take-drop n more payload),
            ground (arith, success, length-drop n payload, ap length e),
          )
    ]
