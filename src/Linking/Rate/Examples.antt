-- ===== src/Linking/Rate/Examples.antt =====
-- A source that attempts an action on both sides of a reset, and another between.
use lumi_hub.Base.{List, [], refl, ℕ, ◌+◌, ◌∷◌, ◌≡◌, ◌≤◌}
use lumi_hub.Linking.Codes.{Bytes, same_bytes}
use lumi_hub.Linking.Rate.{Rate, count_attempt, is_rate_of, take_link_rate_limit, take_rate}
use lumi_hub.Linking.Rate.Bounds.{Attempt, granted_of, granted_of-within_window}

-- What the examples compute with.
all_rate : Unit {0}
unfolding same_bytes is_rate_of count_attempt take_link_rate_limit take_rate granted_of
all_rate = tt

abbrev source : Bytes
source = 7 ∷ 9 ∷ []

abbrev stranger : Bytes
stranger = 7 ∷ []

-- The window of the row is spent, and closes 60 after the period begins at 100.
abbrev spent_rates : List Rate
spent_rates = record { key_hash = source; action = "poll"; attempts = 2; window_start = 60 } ∷ []

abbrev attempt_at : Bytes → ℕ → Attempt
attempt_at key at = record { key = key; action = "poll"; now = at; clock = at }

abbrev tries : List Attempt
tries =
    attempt_at source 110
    ∷ attempt_at stranger 120
    ∷ attempt_at source 165
    ∷ attempt_at source 170
    ∷ attempt_at source 180
    ∷ []

granted_twice : granted_of 2 100 source "poll" tries spent_rates ≡ 2
unfolding all_rate
granted_twice = refl

granted_of-within_window_example : granted_of 2 100 source "poll" tries spent_rates ≤ 2 + 2
granted_of-within_window_example =
    granted_of-within_window 2 100 100 source "poll" tries spent_rates refl
