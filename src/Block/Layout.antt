-- ===== src/Block/Layout.antt =====
-- api/internal/block/layout.go: the arrangements of a block and its widths. A Go string type is
-- a string here, so a value outside the closed vocabulary is a value of the model too.
use lumi_hub.Base.{
  List, Option, String, [], if◌then◌else◌, lookup, nat_eq, none, some, string_eq, ℕ, ◌==◌, ◌∷◌,
}

abbrev pub Layout : Type 0
Layout = String

abbrev pub Slot : Type 0
Slot = String

abbrev pub Width : Type 0
Width = String

abbrev pub single : Layout
single = "single"

abbrev pub duo : Layout
duo = "duo"

abbrev pub main_aside : Layout
main_aside = "main-aside"

abbrev pub trio : Layout
trio = "trio"

abbrev pub stack_2 : Layout
stack_2 = "stack-2"

abbrev pub stack_3 : Layout
stack_3 = "stack-3"

abbrev pub full : Width
full = "full"

abbrev pub two_thirds : Width
two_thirds = "two_thirds"

abbrev pub half : Width
half = "half"

abbrev pub third : Width
third = "third"

-- the map `slots`
abbrev pub slot_table : List (Layout × List Slot)
slot_table =
    (single, "main" ∷ [])
    ∷ (duo, "left" ∷ "right" ∷ [])
    ∷ (main_aside, "main" ∷ "aside" ∷ [])
    ∷ (trio, "left" ∷ "middle" ∷ "right" ∷ [])
    ∷ (stack_2, "top" ∷ "bottom" ∷ [])
    ∷ (stack_3, "top" ∷ "middle" ∷ "bottom" ∷ [])
    ∷ []

abbrev pub minimum_widths : List (Layout × Width)
minimum_widths =
    (single, third)
    ∷ (duo, two_thirds)
    ∷ (main_aside, two_thirds)
    ∷ (trio, full)
    ∷ (stack_2, third)
    ∷ (stack_3, third)
    ∷ []

abbrev pub width_columns : List (Width × ℕ)
width_columns = (full, 12) ∷ (two_thirds, 8) ∷ (half, 6) ∷ (third, 4) ∷ []

-- A missing key of a Go map reads as the zero value.
abbrev pub or_zero {ℓ} : {A : Type ℓ} → A → Option A → A
or_zero z none = z
or_zero z (some a) = a

-- `Layout.Slots`
unfoldable pub slots : Layout → List Slot
slots l = or_zero [] (lookup l slot_table)

-- `Layout.MinimumWidth`
unfoldable pub minimum_width : Layout → Width
minimum_width l = or_zero "" (lookup l minimum_widths)

-- `Width.Columns`
unfoldable pub columns : Width → ℕ
columns w = or_zero 0 (lookup w width_columns)

-- `Width.label`
unfoldable pub width_label : Width → String
width_label w =
    if w == full
    then "full width"
    else if w == two_thirds
    then "two thirds"
    else if w == half
    then "half"
    else if w == third
    then "a third"
    else w
