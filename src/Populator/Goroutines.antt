-- ===== src/Populator/Goroutines.antt =====
-- route_populator/runner/runner.go: the goroutines of `Start`, with `Stop` and `Wait`, as steps that may
-- come in any order. Publishing is only told apart by its success; main.go calls `Stop` from outside, on
-- a signal. Each read or write of a shared field is a step of its own.
use cf_app_sd_release.Base.{
  Bool, List, Option, [], arith, false, if◌then◌else◌, ltb, none, some, suc, true, zero, ℕ, ◌++◌,
  ◌+◌, ◌==◌, ◌∷◌, ◌≡◌,
}

-- Where a goroutine stands: before its first publishing has ended; in the loop; in `Stop` before the
-- test, before the assignment and before the call of `close`; at its end. `outside` is the caller of
-- `Stop` in main.go before a signal.
pub data Phase : Type 0 where
  starting in_loop before_test before_set before_close finished outside : Phase

-- What the goroutines share: the field `stopped`, how often `quitChan` was closed, and how many errors
-- were sent to `errsChan`.
pub record Shared : Type 0 where
  pub stopped : Bool
  pub closes : ℕ
  pub errors : ℕ

pub data Event : Type 0 where
  succeeds fails quits : Event

-- One step of a goroutine; `none` where the event cannot occur. In the loop, `quits` is the second case
-- of the `select`, which is ready once the channel is closed.
unfoldable pub move : Event → Shared → Phase → Option (Shared × Phase)
move succeeds a starting = some (a, in_loop)
move fails a starting = some (record a { errors = a.errors + 1 }, before_test)
move quits a starting = none
move succeeds a in_loop = some (a, in_loop)
move fails a in_loop = some (record a { errors = a.errors + 1 }, before_test)
move quits a in_loop = if a.closes == 0 then none else some (a, finished)
move e a before_test = some (a, if a.stopped then finished else before_set)
move e a before_set = some (record a { stopped = true }, before_close)
move e a before_close = some (record a { closes = a.closes + 1 }, finished)
move e a finished = none
move e a outside = some (a, before_test)

pub record Running : Type 0 where
  pub shared : Shared
  pub phases : List Phase

-- Closing a closed channel panics, and nothing runs after that.
abbrev pub has_panicked : Shared → Bool
has_panicked a = ltb 1 a.closes

pub data RunnerStep (s u : Running) : Type 0 where
  moves :
      (e : Event) (before after : List Phase) (p q : Phase) (b : Shared)
      → has_panicked s.shared ≡ false
      → s.phases ≡ before ++ p ∷ after
      → move e s.shared p ≡ some (b, q)
      → u ≡ record { shared = b; phases = before ++ q ∷ after }
      → RunnerStep s u

pub data RunnerReach (s : Running) : Running → Type 0 where
  at_start : RunnerReach s s
  one_more : {t u : Running} → RunnerReach s t → RunnerStep t u → RunnerReach s u

unfoldable pub all_starting : ℕ → List Phase
all_starting zero = outside ∷ []
all_starting (suc n) = starting ∷ all_starting n

-- After `Start` with `n` goroutines. The channel of errors has room for `n` of them.
abbrev pub start_state : ℕ → Running
start_state n = record {
  shared = record { stopped = false; closes = 0; errors = 0 };
  phases = all_starting n;
}

-- The goroutines that may still send an error.
unfoldable pub may_send : Phase → ℕ
may_send starting = 1
may_send in_loop = 1
may_send p = 0

unfoldable pub in_stop : Phase → ℕ
in_stop before_test = 1
in_stop before_set = 1
in_stop before_close = 1
in_stop p = 0

unfoldable pub at_close : Phase → ℕ
at_close before_close = 1
at_close p = 0

unfoldable pub total : (Phase → ℕ) → List Phase → ℕ
total f [] = 0
total f (p ∷ ps) = f p + total f ps

total-append : (f : Phase → ℕ) (ps qs : List Phase) → total f (ps ++ qs) ≡ total f ps + total f qs
unfolding total
total-append f [] qs = omega arith
total-append f (p ∷ ps) qs = omega (arith, total-append f ps qs)

pub total-middle :
    (f : Phase → ℕ) (before after : List Phase) (p : Phase)
    → total f (before ++ p ∷ after) ≡ total f before + f p + total f after
unfolding total
total-middle f before after p = omega (arith, total-append f before (p ∷ after))
