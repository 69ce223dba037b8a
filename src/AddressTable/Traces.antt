-- ===== src/AddressTable/Traces.antt =====
-- The table used by many goroutines, with the calls that are made and the sections between them named in
-- their order.
use cf_app_sd_release.AddressTable.Calls.{Call, apply}
use cf_app_sd_release.AddressTable.Interleaving.{
  Step, System, calls, collects, prunes, skips, starts,
}
use cf_app_sd_release.Base.{Clock, List, [], ◌∷◌}

pub data TableMove : Type 0 where
  a_call : Call → TableMove
  a_section : TableMove  -- of the pruning goroutine

-- A step of the pruning goroutine.
abbrev pub IsSection : {clock : Clock} {s u : System} → Step clock s u → Type 0
IsSection (calls c e) = ⊥
IsSection (skips w r m e) = Unit
IsSection (starts w r m e) = Unit
IsSection (collects w e) = Unit
IsSection (prunes cs w e) = Unit

pub data Trace (clock : Clock) : List TableMove → System → System → Type 0 where
  trace_end : {s : System} → Trace clock [] s s
  trace_call :
      {s u : System} {ms : List TableMove} (c : Call)
      → Trace clock ms (record s { table = apply clock s.table c }) u
      → Trace clock (a_call c ∷ ms) s u
  trace_section :
      {s t u : System} {ms : List TableMove} (st : Step clock s t)
      → IsSection st
      → Trace clock ms t u
      → Trace clock (a_section ∷ ms) s u
