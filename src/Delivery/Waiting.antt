-- ===== src/Delivery/Waiting.antt =====
-- api/internal/delivery/waiting.go: the hub of held requests. A waiter, which the code compares by
-- its address, is the number of waiters that were made before it. The channels are two sets: the
-- waiters whose `superseded` is closed, and those whose `work` holds its one signal. A second
-- close of a channel is Go's panic, here an error.
pub mod Sound
pub mod Runs
use lumi_hub.Base.{
  List, Option, Result, [], contains, err, if◌then◌else◌, leb, length, lookup, nat_eq, none, ok,
  some, string_eq, ℕ, ◌+◌, ◌==◌, ◌∷◌,
}
use lumi_hub.Block.Content.{Uuid}

pub data HubPanic : Type 0 where
  closed_twice : HubPanic

pub record Hub : Type 0 where
  pub waiting : List (Uuid × ℕ)
  pub limit : ℕ
  pub made : ℕ
  pub superseded : List ℕ
  pub work : List ℕ

-- `delete(h.waiting, instanceID)`
unfoldable pub delete_key : Uuid → List (Uuid × ℕ) → List (Uuid × ℕ)
delete_key id [] = []
delete_key id ((k, w) ∷ m) = let rest = delete_key id m in if k == id then rest else (k, w) ∷ rest

-- `newHub`
unfoldable pub new_hub : ℕ → Hub
new_hub limit = record { waiting = []; limit = limit; made = 0; superseded = []; work = [] }

-- The new waiter of `hold`, registered.
abbrev pub register : Uuid → Hub → Hub
register id h = record h { waiting = (id, h.made) ∷ delete_key id h.waiting; made = h.made + 1 }

-- `hub.hold`: the waiter, or `none` where the hub is full
unfoldable pub hold : Uuid → Hub → Result HubPanic (Option ℕ × Hub)
hold id h = elim (lookup id h.waiting) [
  | none ↦ if leb h.limit (length h.waiting) then ok (none, h) else ok (some h.made, register id h)
  | some previous ↦
      if contains h.superseded previous
      then err closed_twice
      else ok (some h.made, record (register id h) { superseded = previous ∷ h.superseded })
]

-- `hub.release`
unfoldable pub release : Uuid → ℕ → Hub → Hub
release id held h = elim (lookup id h.waiting) [
  | none ↦ h
  | some current ↦ if current == held then record h { waiting = delete_key id h.waiting } else h
]

-- `hub.signal`: a signal that is still in the channel is not doubled
unfoldable pub signal : Uuid → Hub → Hub
signal id h = elim (lookup id h.waiting) [
  | none ↦ h
  | some held ↦ if contains h.work held then h else record h { work = held ∷ h.work }
]
