-- ===== src/Spinlock/Tests.antt =====
-- Processor 2 takes the lock.
use cse314_operating_system.Base.{ℕ, ◌≡◌, refl, true, false, some}
use cse314_operating_system.Spinlock.{pushcli, popcli, holding, xchg, record_owner}
use cse314_operating_system.Spinlock.Exclusion.{
  System, inside, spinning, taken, move, enters, takes, records, Reach, starts, later, initial,
  mutual_exclusion,
}

-- Interrupts are as before after matched calls.
matched :
    popcli (pushcli (record { ncli = 0; intena = false; interrupts = true }))
    ≡ some (record { ncli = 0; intena = true; interrupts = true })
unfolding pushcli popcli
matched = refl

abbrev waiting : System
waiting = move initial 2 spinning initial.lock

abbrev got : System
got = move waiting 2 taken (xchg waiting.lock).0

abbrev entered : System
entered = move got 2 inside (record_owner 2 got.lock)

entered_reached : Reach entered
unfolding xchg
entered_reached =
    later (later (later starts (enters 2 refl refl)) (takes 2 refl refl)) (records 2 refl)

mutual_exclusion_example : (◌≡◌ {A = ℕ} 2 2) × (holding 2 entered.lock ≡ true)
mutual_exclusion_example = mutual_exclusion 2 2 entered_reached refl refl
