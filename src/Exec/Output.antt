-- ===== src/Exec/Output.antt =====
-- internal/httpapi/ssh_api.go: the captured output of an exec, which keeps at most `max` bytes. A
-- chunk is a list of bytes.
use osg_gateway.Base.{
  ℕ, ◌+◌, ◌-◌, ◌≤◌, Bool, true, false, ◌≡◌, refl, sym, ◌∙◌, ap, inl, inr, arith, List, [], ◌∷◌,
  ◌++◌, append_assoc, append-nil, if◌then◌else◌, ltb, length, length-append, take, take-append,
  take-append_left, length-take, lt→ltb, le→ltb, ◌<◌, Bool-cases,
}

-- A byte, as its number.
abbrev pub Byte : Type 0
Byte = ℕ

-- "\n…[truncated]\n" in UTF-8
abbrev pub suffix : List Byte
suffix =
    10 ∷ 226 ∷ 128 ∷ 166 ∷ 91 ∷ 116 ∷ 114 ∷ 117 ∷ 110 ∷ 99 ∷ 97 ∷ 116 ∷ 101 ∷ 100 ∷ 93 ∷ 10 ∷ []

pub record CappedBuffer : Type 0 where
  pub buf : List Byte
  pub max : ℕ
  pub cut : Bool

-- max - buf.Len() is never negative, as the length stays within `max` until the cut.
unfoldable pub write : List Byte → CappedBuffer → ℕ × CappedBuffer
write p c =
    if c.cut
    then (length p, c)
    else if ltb (c.max - length c.buf) (length p)
    then (
      length p,
      record c { buf = (c.buf ++ take (c.max - length c.buf) p) ++ suffix; cut = true },
    )
    else (length p, record c { buf = c.buf ++ p })

unfoldable pub write_all : List (List Byte) → CappedBuffer → CappedBuffer
unfolding write
write_all [] c = c
write_all (p ∷ ps) c = write_all ps (write p c).1

abbrev pub joined : List (List Byte) → List Byte
joined [] = []
joined (p ∷ ps) = p ++ joined ps

-- The specification: all of an output that fits, the first `max` bytes and the mark of one that
-- does not.
abbrev pub limited : ℕ → List Byte → List Byte
limited max out = if ltb max (length out) then take max out ++ suffix else out

length-limited : (max : ℕ) (out : List Byte) → length (limited max out) ≤ max + length suffix
length-limited max out = elim (Bool-cases (ltb max (length out))) [
  | inl e ↦ rw e (omega (arith, length-append (take max out) suffix, length-take max out))
  | inr e ↦ rw e (ground arith)
]

write_answer : (p : List Byte) (c : CappedBuffer) → (write p c).0 ≡ length p
unfolding write
write_answer p c = ground arith

ltb-false : (a b : ℕ) → ltb a b ≡ false → b ≤ a
ltb-false a b h = ground arith

write-cut : (p : List Byte) (c : CappedBuffer) → c.cut ≡ true → (write p c).1 ≡ c
unfolding write
write-cut p c h = ground arith

write-fits :
    (p : List Byte) (c : CappedBuffer)
    → c.cut ≡ false
    → ltb (c.max - length c.buf) (length p) ≡ false
    → (write p c).1 ≡ record c { buf = c.buf ++ p }
unfolding write
write-fits p c h e = ground arith

write-over :
    (p : List Byte) (c : CappedBuffer)
    → c.cut ≡ false
    → ltb (c.max - length c.buf) (length p) ≡ true
    → ((write p c).1.buf ≡ (c.buf ++ take (c.max - length c.buf) p) ++ suffix)
      × ((write p c).1.cut ≡ true)
unfolding write
write-over p c h e = ground arith

write_all-cut :
    (ps : List (List Byte)) (c : CappedBuffer) → c.cut ≡ true → (write_all ps c).buf ≡ c.buf
unfolding write_all
write_all-cut [] c h = refl
write_all-cut (p ∷ ps) c h = ap (λ x. (write_all ps x).buf) (write-cut p c h) ∙ write_all-cut ps c h

overflow :
    (max : ℕ) (buf p out : List Byte)
    → length buf ≤ max
    → max < length buf + length p
    → limited max (buf ++ (p ++ out)) ≡ (buf ++ take (max - length buf) p) ++ suffix
overflow max buf p out fits over =
    let long : ltb max (length (buf ++ (p ++ out))) ≡ true =
      lt→ltb _ _ (omega (arith, length-append buf (p ++ out), length-append p out)) in
    rw long (
      ap (λ l. l ++ suffix)
        (take-append max buf (p ++ out) fits
          ∙ ap (λ l. buf ++ l) (take-append_left (max - length buf) p out (omega arith))))

write_all-open :
    (ps : List (List Byte)) (c : CappedBuffer)
    → c.cut ≡ false
    → length c.buf ≤ c.max
    → (write_all ps c).buf ≡ limited c.max (c.buf ++ joined ps)
unfolding write_all
write_all-open [] c h fits = rw append-nil (rw (le→ltb c.max (length c.buf) fits) refl)
write_all-open (p ∷ ps) c h fits = elim (Bool-cases (ltb (c.max - length c.buf) (length p))) [
  | inl e ↦
      let (content, cut) = write-over p c h e in
      write_all-cut ps (write p c).1 cut
      ∙ content
      ∙ sym (overflow c.max c.buf p (joined ps) fits (ground arith))
  | inr e ↦
      ap (λ x. (write_all ps x).buf) (write-fits p c h e)
      ∙ write_all-open ps (record c { buf = c.buf ++ p }) h
          (omega (arith, length-append c.buf p, ltb-false _ _ e))
      ∙ ap (limited c.max) (append_assoc c.buf p (joined ps))
]

abbrev pub empty_buffer : ℕ → CappedBuffer
empty_buffer max = record { buf = []; max = max; cut = false }

-- After any writes the buffer holds the output as it was written if it fits in `max` bytes, and
-- otherwise its first `max` bytes with the mark, so at most `max` bytes and the mark; each write
-- answers the length of its chunk, as a writer that never fails must.
pub write_all-limited :
    (max : ℕ) (ps : List (List Byte))
    → let out = write_all ps (empty_buffer max) in
      (out.buf ≡ limited max (joined ps))
      × (length out.buf ≤ max + length suffix)
      × ((p : List Byte) → (write p out).0 ≡ length p)
write_all-limited max ps = (
  write_all-open ps (empty_buffer max) refl (omega arith),
  rw (write_all-open ps (empty_buffer max) refl (omega arith)) (length-limited max (joined ps)),
  λ p. write_answer p (write_all ps (empty_buffer max)),
)
