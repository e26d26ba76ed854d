-- ===== src/Apps/StreamSplitter/Lossless.antt =====
-- No byte of the stream is lost or moved: src/apps/main.cpp.
use cw_db.Prelude.{
  ℕ, zero, suc, ◌≤◌, ◌<◌, ◌≡◌, refl, true, false, List, [], ◌∷◌, ◌++◌, Option, none, some, inl, inr,
  length, arith, append_assoc, append-nil, length-append, ap, sym, ◌∙◌, Bool-cases,
}
use cw_db.Prelude.Bytes.{Bytes}
use cw_db.Apps.StreamSplitter.{State, step, scan, is_blank, next, cons_if, statements}

-- What was read and what is left are the stream.
scan-append : (st : State) (cs : Bytes) → (scan st cs).out ++ (scan st cs).rest ≡ cs
unfolding scan
scan-append st [] = refl
scan-append st (c ∷ []) = refl
scan-append st (c ∷ d ∷ cs) =
    let s = step st c (some d) in
    elim (Bool-cases s.ends) [
      | inl on ↦ rw on refl
      | inr off ↦ elim (Bool-cases s.two) [
        | inl both ↦ rw (off, both) (ap (λ x. c ∷ d ∷ x) (scan-append s.state cs))
        | inr single ↦ rw (off, single) (ap (λ x. c ∷ x) (scan-append s.state (d ∷ cs)))
      ]
    ]

-- A scan that does not end at a `;` reads the whole stream.
scan-rest : (st : State) (cs : Bytes) → (scan st cs).ended ≡ false → (scan st cs).rest ≡ []
unfolding scan
scan-rest st [] h = refl
scan-rest st (c ∷ []) h = refl
scan-rest st (c ∷ d ∷ cs) h =
    let s = step st c (some d) in
    elim (Bool-cases s.ends) [
      | inl on ↦ absurd (ground arith)
      | inr off ↦ elim (Bool-cases s.two) [
        | inl both ↦ rw (off, both) (scan-rest s.state cs (rw (off, both) at h))
        | inr single ↦ rw (off, single) (scan-rest s.state (d ∷ cs) (rw (off, single) at h))
      ]
    ]

scan-reads : (st : State) (c : ℕ) (cs : Bytes) → 0 < length (scan st (c ∷ cs)).out
unfolding scan
scan-reads st c [] = omega arith
scan-reads st c (d ∷ cs) =
    let s = step st c (some d) in
    elim (Bool-cases s.ends) [
      | inl on ↦ rw on (omega arith)
      | inr off ↦ elim (Bool-cases s.two) [
        | inl both ↦ rw (off, both) (omega arith)
        | inr single ↦ rw (off, single) (omega arith)
      ]
    ]

-- `next` gives a statement that is not empty, and the stream goes on behind it; or it gives none,
-- and the whole stream was white space.
abbrev pub Gives : Bytes → Option Bytes × Bytes → Type 0
Gives stream (some s, rest) = (s ++ rest ≡ stream) × (0 < length s)
Gives stream (none, rest) = is_blank stream ≡ true

next-Gives : (stream : Bytes) → Gives stream (next stream)
unfolding next is_blank
next-Gives [] = unfold scan in refl
next-Gives (c ∷ cs) =
    let s = scan State.code (c ∷ cs) in
    let whole = scan-append State.code (c ∷ cs) in
    let reads = scan-reads State.code c cs in
    elim (Bool-cases s.ended) [
      | inl ended ↦ rw ended (whole, reads)
      | inr off ↦ elim (Bool-cases (is_blank s.out)) [
        | inl blank ↦
            let out_all : s.out ≡ c ∷ cs =
              sym (append-nil s.out)
              ∙ ap (λ r. s.out ++ r) (sym (scan-rest State.code (c ∷ cs) off))
              ∙ whole in
            rw (off, blank) (sym (ap is_blank out_all) ∙ blank)
        | inr more ↦ rw (off, more) (whole, reads)
      ]
    ]

-- The bytes of the statements, one behind the other.
abbrev pub concat : List Bytes → Bytes
concat [] = []
concat (s ∷ ss) = s ++ concat ss

-- The statements and a blank tail are the stream.
abbrev Splits : Bytes → List Bytes → Type 0
Splits stream ss = (tail : Bytes) × (concat ss ++ tail ≡ stream) × (is_blank tail ≡ true)

split_more :
    (rounds : ℕ) (stream : Bytes) (n : Option Bytes × Bytes)
    → Gives stream n
    → length stream ≤ suc rounds
    → ((more : Bytes) → length more ≤ rounds → Splits more (statements rounds more))
    → Splits stream (cons_if n.0 (statements rounds n.1))
split_more rounds stream (none, rest) blank le ih = (stream, refl, blank)
split_more rounds stream (some s, rest) (whole, pos) le ih =
    let (tail, same, blank) = ih rest (omega (arith, length-append s rest, ap length whole)) in
    (
      tail,
      append_assoc s (concat (statements rounds rest)) tail ∙ ap (λ r. s ++ r) same ∙ whole,
      blank,
    )

-- In as many rounds as the stream has bytes `next` sees all of it: the statements one behind the
-- other, and then a tail of white space, are the stream.
pub statements-concat :
    (rounds : ℕ) (stream : Bytes)
    → length stream ≤ rounds
    → (tail : Bytes) × (concat (statements rounds stream) ++ tail ≡ stream) × (is_blank tail ≡ true)
unfolding statements is_blank
statements-concat zero [] h = ([], refl, refl)
statements-concat zero (c ∷ cs) h = absurd (omega arith)
statements-concat (suc rounds) stream h =
    split_more rounds stream (next stream) (next-Gives stream) h (statements-concat rounds)
