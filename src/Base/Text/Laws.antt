-- ===== src/Base/Text/Laws.antt =====
-- Laws of prefixes and of the texts trimmed and cut at slashes.
use Prim.Native.String.{String}
use mathlib.Core.Path.{◌≡◌, refl, ap, sym, ◌∙◌}
use mathlib.Core.Logic.{inl, inr}
use mathlib.Core.Bool.{true, false, ◌&&◌}
use mathlib.Core.Option.{none, some}
use native.Mathlib.Omega.{arith}
use osg_gateway.Base.Tests.{if◌then◌else◌, Bool-cases}
use osg_gateway.Base.Text.{
  is_empty, eq_char, eq_char-path, eq_char_refl, ◌+++◌, strip_prefix, trim_left, trim_right, trim,
  cut, has_slash,
}

pub strip_prefix_sound : (p s t : String) → strip_prefix p s ≡ some t → s ≡ p +++ t
unfolding strip_prefix
strip_prefix_sound String.[] s t h = cc
strip_prefix_sound (String.◌∷◌ c p) String.[] t h = cc
strip_prefix_sound (String.◌∷◌ c p) (String.◌∷◌ d s) t h = elim (Bool-cases (eq_char c d)) [
  | inl e ↦
      let same : c ≡ d = eq_char-path c d e in
      rw same (ap (String.◌∷◌ d) (strip_prefix_sound p s t (ground arith)))
  | inr e ↦ absurd (ground arith)
]

pub strip_prefix-append : (p t : String) → strip_prefix p (p +++ t) ≡ some t
unfolding strip_prefix
strip_prefix-append String.[] t = refl
strip_prefix-append (String.◌∷◌ c p) t = rw (eq_char_refl c) (strip_prefix-append p t)

pub is_empty-append : (s t : String) → is_empty t ≡ false → is_empty (s +++ t) ≡ false
is_empty-append String.[] t h = h
is_empty-append (String.◌∷◌ c s) t h = refl

pub empty_of : (s : String) → is_empty s ≡ true → s ≡ ""
empty_of String.[] h = refl
empty_of (String.◌∷◌ c s) h = absurd (ground arith)

pub trim_right-append :
    (s t : String)
    → trim_right (s +++ t) ≡ (if is_empty (trim_right t) then trim_right s else s +++ trim_right t)
unfolding trim_right
trim_right-append String.[] t = ground arith
trim_right-append (String.◌∷◌ c s) t = elim (Bool-cases (is_empty (trim_right t))) [
  | inl e ↦
      let same : trim_right (s +++ t) ≡ trim_right s = trim_right-append s t ∙ rw e refl in
      rw (same, e) refl
  | inr e ↦
      let same : trim_right (s +++ t) ≡ s +++ trim_right t = trim_right-append s t ∙ rw e refl in
      rw (same, e, is_empty-append s (trim_right t) e) refl
]

pub trim_right_idem : (s : String) → trim_right (trim_right s) ≡ trim_right s
unfolding trim_right
trim_right_idem String.[] = refl
trim_right_idem (String.◌∷◌ c s) = elim (Bool-cases (is_empty (trim_right s) && eq_char c "/")) [
  | inl e ↦ rw e refl
  | inr e ↦ rw (e, trim_right_idem s, e) refl
]

pub trim_left-trim_right : (s : String) → trim_left (trim_right s) ≡ trim_right (trim_left s)
unfolding trim_left trim_right
trim_left-trim_right String.[] = refl
trim_left-trim_right (String.◌∷◌ c s) = elim (Bool-cases (eq_char c "/")) [
  | inl slash ↦ elim (Bool-cases (is_empty (trim_right s))) [
    | inl e ↦
        rw (slash, e) (ap trim_left (sym (empty_of (trim_right s) e)) ∙ trim_left-trim_right s)
    | inr e ↦ rw (slash, e) (rw slash (trim_left-trim_right s))
  ]
  | inr other ↦ elim (Bool-cases (is_empty (trim_right s))) [
    | inl e ↦ rw (other, e) (rw other refl)
    | inr e ↦ rw (other, e) (rw other refl)
  ]
]

-- Trimming a text that is trimmed on the right changes nothing more.
pub trim-trim_right : (s : String) → trim (trim_right s) ≡ trim s
trim-trim_right s = ap trim_right (trim_left-trim_right s) ∙ trim_right_idem (trim_left s)

-- A text without a slash is left as it is.
pub trim_right_name : (s : String) → has_slash s ≡ false → trim_right s ≡ s
unfolding trim_right
trim_right_name String.[] h = refl
trim_right_name (String.◌∷◌ c s) h = elim (Bool-cases (eq_char c "/")) [
  | inl e ↦ absurd (ground arith)
  | inr e ↦ rw (trim_right_name s (ground arith), e) (ground arith)
]

pub trim_left_name :
    (s t : String) → is_empty s ≡ false → has_slash s ≡ false → trim_left (s +++ t) ≡ s +++ t
unfolding trim_left
trim_left_name String.[] t n h = absurd (ground arith)
trim_left_name (String.◌∷◌ c s) t n h = elim (Bool-cases (eq_char c "/")) [
  | inl e ↦ absurd (ground arith)
  | inr e ↦ rw e refl
]

pub cut_name : (s : String) → has_slash s ≡ false → cut s ≡ (s, none)
unfolding cut
cut_name String.[] h = refl
cut_name (String.◌∷◌ c s) h = elim (Bool-cases (eq_char c "/")) [
  | inl e ↦ absurd (ground arith)
  | inr e ↦ rw (cut_name s (ground arith), e) refl
]

pub cut-append : (s t : String) → has_slash s ≡ false → cut (s +++ ("/" +++ t)) ≡ (s, some t)
unfolding cut
cut-append String.[] t h = refl
cut-append (String.◌∷◌ c s) t h = elim (Bool-cases (eq_char c "/")) [
  | inl e ↦ absurd (ground arith)
  | inr e ↦ rw (cut-append s t (ground arith), e) refl
]
