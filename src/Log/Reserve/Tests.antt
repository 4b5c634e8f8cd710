-- ===== src/Log/Reserve/Tests.antt =====
-- The log's bookkeeping on small histories, and its theorems there.
use cse314_operating_system.Base.{◌≡◌, refl, ◌≢◌, false, none, some, [], ◌∷◌, arith, replicate}
use cse314_operating_system.Log.{Log, init, begin_op, log_write}
use cse314_operating_system.Log.Reserve.{State, begins, Reach, starts, later, log_write_total}

abbrev opened : State
opened = record {
  log = record { start = 2; size = 30; outstanding = 1; committing = false; blocks = [] };
  budgets = 10 ∷ [];
}

begin_first : begin_op (init 2 30) ≡ some opened.log
unfolding begin_op init
begin_first = refl

opened_reached : Reach 2 30 opened
opened_reached = later starts (begins begin_first)

log_write_total_example : log_write opened.log 50 ≢ none
log_write_total_example = log_write_total 50 [] 9 [] (omega arith) opened_reached refl

abbrev two_blocks : Log
two_blocks = record opened.log { blocks = 50 ∷ 51 ∷ [] }

-- `mkfs` makes a log of LOGSIZE blocks, counting that of the header, so `log_write` panics at the
-- thirtieth block, which `begin_op` has let three operations reserve.
thirtieth_block :
    log_write (record opened.log { size = 30; outstanding = 3; blocks = replicate 29 50 }) 51 ≡ none
unfolding log_write
thirtieth_block = refl
