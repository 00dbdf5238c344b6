-- ===== src/Schedule/Notation.antt =====
-- crates/conductr-schedule/src/notation.rs: note values and time signatures. A character is its code
-- point.
use conductr.Prelude.{
  ℕ, ◌+◌, ◌*◌, ◌/◌, ◌%◌, ◌^◌, Option, none, some, ◌&&◌, leb, if◌then◌else◌, ◌==◌, ◌≡◌, ◌↔◌, refl,
  arith,
}

pub data NoteValue : Type 0 where
  whole half quarter eighth sixteenth thirty_second sixty_fourth : NoteValue

-- A `u32`.
abbrev pub wrap : ℕ → ℕ
wrap n = n % 2 ^ 32

abbrev pub denominator : NoteValue → ℕ
denominator whole = 1
denominator half = 2
denominator quarter = 4
denominator eighth = 8
denominator sixteenth = 16
denominator thirty_second = 32
denominator sixty_fourth = 64

abbrev pub in_64ths : NoteValue → ℕ
in_64ths v = 64 / denominator v

pub record TimeSignature : Type 0 where
  pub beats_per_bar : ℕ
  pub beat_unit : NoteValue

abbrev pub bar_in_64ths : TimeSignature → ℕ
bar_in_64ths ts = wrap (ts.beats_per_bar * in_64ths ts.beat_unit)

pub record Tempo : Type 0 where
  pub quarter_seconds : ℕ

-- `char::to_ascii_lowercase`.
abbrev pub lower : ℕ → ℕ
lower c = if leb 65 c && leb c 90 then c + 32 else c

unfoldable pub from_letter : ℕ → Option NoteValue
from_letter c =
    let l = lower c in
    if l == 119
    then some whole
    else if l == 104
    then some half
    else if l == 113
    then some quarter
    else if l == 101
    then some eighth
    else if l == 115
    then some sixteenth
    else if l == 116
    then some thirty_second
    else if l == 120
    then some sixty_fourth
    else none

abbrev pub letter : NoteValue → ℕ
letter whole = 119
letter half = 104
letter quarter = 113
letter eighth = 101
letter sixteenth = 115
letter thirty_second = 116
letter sixty_fourth = 120

-- The letter of a value is read as that value, and a character is read as a value exactly if it is
-- the value's letter, in either case.
pub from_letter-letter :
    (v : NoteValue)
    → (from_letter (letter v) ≡ some v)
      × ((c : ℕ) → (from_letter c ≡ some v) ↔ (lower c ≡ letter v))
unfolding from_letter
from_letter-letter whole = (refl, λ c. ground arith)
from_letter-letter half = (refl, λ c. ground arith)
from_letter-letter quarter = (refl, λ c. ground arith)
from_letter-letter eighth = (refl, λ c. ground arith)
from_letter-letter sixteenth = (refl, λ c. ground arith)
from_letter-letter thirty_second = (refl, λ c. ground arith)
from_letter-letter sixty_fourth = (refl, λ c. ground arith)
