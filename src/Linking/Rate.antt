-- ===== src/Linking/Rate.antt =====
-- api/internal/linking/service.go: `takeRate`, with `TakeLinkRateLimit` on the table
-- `link_rate_limits`. `now` is the database's clock and `clock` the process's, in microseconds. The
-- clean-up of rows whose window began a day ago is left out.
pub mod Bounds
mod Examples
use lumi_hub.Base.{
  Bool, List, Result, String, [], err, if◌then◌else◌, ltb, nat_eq, ok, string_eq, ℕ, ◌&&◌, ◌+◌, ◌-◌,
  ◌==◌, ◌∷◌,
}
use lumi_hub.Linking.Codes.{Bytes, same_bytes}

pub record Rate : Type 0 where
  pub key_hash : Bytes
  pub action : String
  pub attempts : ℕ
  pub window_start : ℕ

pub data RateError : Type 0 where
  rate_limited_for : ℕ → RateError

abbrev pub one_second : ℕ
one_second = 1000000

-- `link_rate_limits_pkey`
unfoldable pub is_rate_of : Bytes → String → Rate → Bool
is_rate_of key action r = same_bytes r.key_hash key && r.action == action

-- `do update`: the window goes on if it began after the cutoff, `clock - window`.
unfoldable pub count_attempt : ℕ → ℕ → ℕ → Rate → Rate
count_attempt now clock window r =
    if ltb clock (r.window_start + window)
    then record r { attempts = r.attempts + 1 }
    else record r { attempts = 1; window_start = now }

-- `TakeLinkRateLimit`: the row of the key after the attempt, and the table
unfoldable pub take_link_rate_limit : ℕ → ℕ → ℕ → Bytes → String → List Rate → Rate × List Rate
take_link_rate_limit now clock window key action [] =
    let r : Rate = record { key_hash = key; action = action; attempts = 1; window_start = now } in
    (r, r ∷ [])
take_link_rate_limit now clock window key action (r ∷ rs) =
    let rest = take_link_rate_limit now clock window key action rs in
    if is_rate_of key action r
    then (count_attempt now clock window r, count_attempt now clock window r ∷ rs)
    else (rest.0, r ∷ rest.1)

-- `takeRate` of the digest of a source
unfoldable pub take_rate :
    ℕ → ℕ → ℕ → ℕ → Bytes → String → List Rate → Result RateError (Unit {0}) × List Rate
take_rate now clock limit window key action rates =
    let (r, counted) = take_link_rate_limit now clock window key action rates in
    let closes = r.window_start + window in
    (
      if ltb limit r.attempts
          then err (
              rate_limited_for
                (if ltb closes (clock + one_second) then one_second else closes - clock))
          else ok tt,
      counted,
    )
