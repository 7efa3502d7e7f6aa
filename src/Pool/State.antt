-- ===== src/Pool/State.antt =====
-- The state that pkg/sandbox/pool.go guards by `p.mu` and the channel `p.idle`, and the atomic
-- sections that its methods are made of. A `*holder` is a number.
use podman_sandbox_runner.Base.{
  ℕ, pos, ltb_ℤ, Bool, true, Option, none, some, List, [], ◌∷◌, ◌++◌, length, has, insert, delete,
  if◌then◌else◌,
}
use podman_sandbox_runner.Pool.Config.{PoolConfig}

-- `all` lists the keys of the map; `idle` is the buffer of the channel, the next receive first.
pub record State : Type 0 where
  pub cfg : PoolConfig
  pub all : List ℕ
  pub idle : List ℕ
  pub closed : Bool

-- `select { case h := <-p.idle: … default: }`
unfoldable pub try_receive : State → Option (ℕ × State)
try_receive p = elim p.idle [ [] ↦ none | h ∷ rest ↦ some (h, record p { idle = rest }) ]

-- `p.idle <- h`
unfoldable pub send : ℕ → State → State
send h p = record p { idle = p.idle ++ h ∷ [] }

-- `p.all[h] = struct{}{}`
unfoldable pub register : ℕ → State → State
register h p = record p { all = insert h p.all }

-- `delete(p.all, h)`
unfoldable pub forget : ℕ → State → State
forget h p = record p { all = delete h p.all }

pub data Slot : Type 0 where
  pool_closed : Slot
  reserved : State → Slot
  full : Slot

-- The section under `p.mu` of `acquire`, with `h` the holder that it allocates.
unfoldable pub reserve : ℕ → State → Slot
reserve h p =
    if p.closed
    then pool_closed
    else if ltb_ℤ (pos (length p.all)) p.cfg.max
    then reserved (register h p)
    else full

pub data Release : Type 0 where
  send_back : Release
  tear_down : State → Release

-- The section under `p.mu` of `release`.
unfoldable pub release_section : ℕ → State → Release
release_section h p = if p.closed then tear_down (forget h p) else send_back

-- The section under `p.mu` of `drop`: whether `h` was present, and the state without it.
unfoldable pub drop_section : ℕ → State → Bool × State
drop_section h p = (has h p.all, forget h p)

-- The first section of `Close`, for a pool that is open.
unfoldable pub mark_closed : State → State
mark_closed p = record p { closed = true }

-- The second section of `Close`: the holders to close, and the state with an empty map.
unfoldable pub sweep : State → List ℕ × State
sweep p = (p.all, record p { all = [] })

-- The loop of `Close` that empties the channel.
unfoldable pub drain : State → State
drain p = record p { idle = [] }
